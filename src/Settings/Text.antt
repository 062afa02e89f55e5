-- ===== src/Settings/Text.antt =====
-- The C library's functions on text that settings.c uses, on lists of character codes: isspace,
-- isalnum, isgraph, strcmp, strtok, strtoul, strtol and the numbers of sprintf.
use Prim.Native.Char.{code}
use Prim.Native.String.{String}
use hdlgame_installer.Base.{
  ℕ, zero, suc, ◌+◌, ◌-◌, ◌*◌, ◌/◌, ◌%◌, ◌^◌, min, Bool, true, false, ◌&&◌, ◌||◌, List, [], ◌∷◌,
  ◌++◌, if◌then◌else◌, ltb, leb, ◌==◌,
}

-- The codes of a literal.
abbrev pub codes : String → List ℕ
codes String.[] = []
codes (String.◌∷◌ c s) = code c ∷ codes s

-- `strcmp(a, b) == 0`
abbrev pub str_eq : List ℕ → List ℕ → Bool
str_eq [] [] = true
str_eq [] (b ∷ bs) = false
str_eq (a ∷ us) [] = false
str_eq (a ∷ us) (b ∷ bs) = (a == b) && str_eq us bs

-- What stands before the first null.
abbrev pub c_string : List ℕ → List ℕ
c_string [] = []
c_string (zero ∷ cs) = []
c_string (suc c ∷ cs) = suc c ∷ c_string cs

unfoldable pub is_space : ℕ → Bool
is_space c = c == 32 || (leb 9 c && leb c 13)

unfoldable pub is_alnum : ℕ → Bool
is_alnum c =
    (leb b'0' c && leb c b'9') || ((leb b'A' c && leb c b'Z') || (leb b'a' c && leb c b'z'))

unfoldable pub is_graph : ℕ → Bool
is_graph c = leb 33 c && leb c 126

-- `while (test(*p)) ++p;`
abbrev pub skip_while : (ℕ → Bool) → List ℕ → List ℕ
skip_while test [] = []
skip_while test (c ∷ cs) = if test c then skip_while test cs else c ∷ cs

abbrev pub take_while : (ℕ → Bool) → List ℕ → List ℕ
take_while test [] = []
take_while test (c ∷ cs) = if test c then c ∷ take_while test cs else []

-- The delimiters of strtok.
unfoldable pub is_newline : ℕ → Bool
is_newline c = c == b'\r' || c == b'\n'

-- A token that has come to its end; strtok skips empty ones.
abbrev pub add_token : List ℕ → List (List ℕ) → List (List ℕ)
add_token [] tokens = tokens
add_token (c ∷ cs) tokens = (c ∷ cs) ∷ tokens

-- All the tokens that strtok gives, with what the current one has so far.
abbrev pub strtok_from : (token : List ℕ) → List ℕ → List (List ℕ)
strtok_from token [] = add_token token []
strtok_from token (c ∷ cs) =
    if is_newline c then add_token token (strtok_from [] cs) else strtok_from (token ++ c ∷ []) cs

abbrev pub strtok_all : List ℕ → List (List ℕ)
strtok_all = strtok_from []

-- The value of a digit, 36 for what is none.
unfoldable pub digit_value : ℕ → ℕ
digit_value c =
    if leb b'0' c && leb c b'9'
    then c - b'0'
    else if leb b'a' c && leb c b'z'
    then c - 87
    else if leb b'A' c && leb c b'Z'
    then c - 55
    else 36

-- The digits from the front, behind those that make up `n`, and what follows them.
unfoldable pub read_digits : (base n : ℕ) → List ℕ → ℕ × List ℕ
read_digits base n [] = (n, [])
read_digits base n (c ∷ cs) =
    if ltb (digit_value c) base then read_digits base (n * base + digit_value c) cs else (n, c ∷ cs)

-- A number without its sign, where a digit comes first; otherwise there is no conversion, and C's
-- `next` is `whole`. `limit` is the largest value, at which the number stops.
unfoldable pub read_number : (base limit : ℕ) (whole : List ℕ) → List ℕ → ℕ × List ℕ
unfolding read_digits digit_value
read_number base limit whole [] = (0, whole)
read_number base limit whole (c ∷ cs) =
    let (n, rest) = read_digits base 0 (c ∷ cs) in
    if ltb (digit_value c) base then (min n limit, rest) else (0, whole)

-- `-n` as an unsigned long of 32 bits
unfoldable pub negate : ℕ × List ℕ → ℕ × List ℕ
negate (n, rest) = ((2 ^ 32 - n) % 2 ^ 32, rest)

-- An optional sign, and the number that `read` finds behind it.
unfoldable pub read_sign : (List ℕ → ℕ × List ℕ) → List ℕ → ℕ × List ℕ
unfolding negate
read_sign read [] = read []
read_sign read (c ∷ cs) =
    if c == b'-' then negate (read cs) else (if c == b'+' then read cs else read (c ∷ cs))

-- strtoul(cs, &next, 10): the value and `next`, for an unsigned long of 32 bits.
unfoldable pub strtoul : List ℕ → ℕ × List ℕ
unfolding read_sign read_number
strtoul cs = read_sign (read_number 10 (2 ^ 32 - 1) cs) (skip_while is_space cs)

-- The base that strtol takes from the front of the number, and where its digits begin.
unfoldable pub after_zero : List ℕ → ℕ × List ℕ
after_zero [] = (8, b'0' ∷ [])
after_zero (x ∷ cs) = if x == b'x' || x == b'X' then (16, cs) else (8, b'0' ∷ x ∷ cs)

unfoldable pub base_of : List ℕ → ℕ × List ℕ
unfolding after_zero
base_of [] = (10, [])
base_of (c ∷ cs) = if c == b'0' then after_zero cs else (10, c ∷ cs)

unfoldable pub read_any_base : (limit : ℕ) → List ℕ → ℕ × List ℕ
unfolding base_of read_number
read_any_base limit cs = let (base, digits) = base_of cs in read_number base limit cs digits

-- `(short)strtol(cs, NULL, 0)` as a bit pattern, for a long of 32 bits. A positive number stops at
-- LONG_MAX and a negative one at LONG_MIN.
unfoldable pub read_long : List ℕ → ℕ × List ℕ
unfolding read_any_base negate
read_long [] = read_any_base (2 ^ 31 - 1) []
read_long (c ∷ cs) =
    if c == b'-'
    then negate (read_any_base (2 ^ 31) cs)
    else if c == b'+'
    then read_any_base (2 ^ 31 - 1) cs
    else read_any_base (2 ^ 31 - 1) (c ∷ cs)

unfoldable pub strtol_short : List ℕ → ℕ
unfolding read_long
strtol_short cs = (read_long (skip_while is_space cs)).0 % 2 ^ 16

-- The digits of `n` in front of `rest`, with fuel.
unfoldable pub print_digits : (fuel n : ℕ) → List ℕ → List ℕ
print_digits zero n rest = (48 + n % 10) ∷ rest
print_digits (suc fuel) n rest =
    let more = print_digits fuel (n / 10) ((48 + n % 10) ∷ rest) in
    if ltb n 10 then (48 + n) ∷ rest else more

-- `%u`, of at most ten digits, in front of `rest`
unfoldable pub print_u : ℕ → List ℕ → List ℕ
unfolding print_digits
print_u n rest = print_digits 9 n rest

-- `%d` of a short with this bit pattern
unfoldable pub print_short : ℕ → List ℕ
unfolding print_u
print_short m = if ltb m (2 ^ 15) then print_u m [] else b'-' ∷ print_u (2 ^ 16 - m) []
