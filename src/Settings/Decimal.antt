-- ===== src/Settings/Decimal.antt =====
-- settings.c: a number that sprintf has written is the number that strtoul reads.
use hdlgame_installer.Base.{
  ℕ, zero, suc, ◌+◌, ◌-◌, ◌*◌, ◌/◌, ◌%◌, ◌^◌, ◌≤◌, ◌<◌, min, Bool, true, false, List, [], ◌∷◌, ◌≡◌,
  refl, sym, ap, ◌∙◌, arith, if◌then◌else◌, ltb, ◌==◌,
}
use hdlgame_installer.Settings.Text.{
  is_space, skip_while, digit_value, read_digits, read_number, read_sign, strtoul, print_digits,
  print_u,
}

digit_value_lem : (d : ℕ) → d < 10 → digit_value (48 + d) ≡ d
unfolding digit_value
digit_value_lem d h = ground arith

ltb-true : (a b : ℕ) → a < b → ltb a b ≡ true
ltb-true a b h = ground arith

read_digit :
    (n d : ℕ) (cs : List ℕ)
    → d < 10
    → read_digits 10 n ((48 + d) ∷ cs) ≡ read_digits 10 (n * 10 + d) cs
unfolding read_digits
read_digit n d cs h = rw (digit_value_lem d h) (rw (ltb-true d 10 h) refl)

-- The digits that the fuel allows are enough for `n`.
abbrev pub Fits : (fuel n : ℕ) → Type 0
Fits zero n = n < 10
Fits (suc fuel) n = Fits fuel (n / 10)

pub u32-Fits : (n : ℕ) → n < 2 ^ 32 → Fits 9 n
u32-Fits n h = omega arith

-- Reading back what has been written, in front of `rest`.
pub read_digits-print_digits :
    (fuel n : ℕ) (rest : List ℕ)
    → Fits fuel n
    → read_digits 10 0 (print_digits fuel n rest) ≡ read_digits 10 n rest
unfolding print_digits
read_digits-print_digits zero n rest h =
    read_digit 0 (n % 10) rest (omega arith) ∙ ap (λ m. read_digits 10 m rest) (omega arith)
read_digits-print_digits (suc fuel) n rest h =
    test (ltb n 10) refl (read_digits-print_digits fuel (n / 10) ((48 + n % 10) ∷ rest) h)
  where
    more : List ℕ
    more = print_digits fuel (n / 10) ((48 + n % 10) ∷ rest)

    test :
        (b : Bool)
        → ltb n 10 ≡ b
        → read_digits 10 0 more ≡ read_digits 10 (n / 10) ((48 + n % 10) ∷ rest)
        → read_digits 10 0 (if b then (48 + n) ∷ rest else more) ≡ read_digits 10 n rest
    test true e ih =
        read_digit 0 n rest (ground arith) ∙ ap (λ m. read_digits 10 m rest) (omega arith)
    test false e ih =
        ih
        ∙ read_digit (n / 10) (n % 10) rest (omega arith)
        ∙ ap (λ m. read_digits 10 m rest) (omega arith)

-- A text that begins with a digit, which is not 0 unless `n` is.
abbrev pub Begins : ℕ → List ℕ → Type 0
Begins n cs = (d : ℕ) × (tail : List ℕ) × (cs ≡ (48 + d) ∷ tail) × (d < 10) × ((d ≡ 0) → n ≡ 0)

pub print_digits-Begins :
    (fuel n : ℕ) (rest : List ℕ) → Fits fuel n → Begins n (print_digits fuel n rest)
unfolding print_digits
print_digits-Begins zero n rest h = (n % 10, rest, refl, omega arith, λ e. omega arith)
print_digits-Begins (suc fuel) n rest h =
    test (ltb n 10) refl (print_digits-Begins fuel (n / 10) ((48 + n % 10) ∷ rest) h)
  where
    tail : List ℕ
    tail = (48 + n % 10) ∷ rest

    test :
        (b : Bool)
        → ltb n 10 ≡ b
        → Begins (n / 10) (print_digits fuel (n / 10) tail)
        → Begins n (if b then (48 + n) ∷ rest else print_digits fuel (n / 10) tail)
    test true e ih = (n, rest, refl, ground arith, λ x. x)
    test false e ih = let (d, cs, e1, e2, e3) = ih in (d, cs, e1, e2, λ x. ground (arith, e3 x))

-- A text whose next character is no decimal digit, or that is at its end.
abbrev pub Stops : List ℕ → Type 0
Stops [] = Unit
Stops (c ∷ cs) = 10 ≤ digit_value c

read_digits-Stops : (n : ℕ) (cs : List ℕ) → Stops cs → read_digits 10 n cs ≡ (n, cs)
unfolding read_digits
read_digits-Stops n [] h = refl
read_digits-Stops n (c ∷ cs) h = ground arith

-- No digit is a space or a sign.
pub digit_lem :
    (d : ℕ)
    → d < 10
    → (is_space (48 + d) ≡ false) × ((48 + d == b'-') ≡ false) × ((48 + d == b'+') ≡ false)
unfolding is_space
digit_lem d h = ground arith

-- The two ends of a number that is not too large.
pick :
    (limit n : ℕ) (rest : List ℕ) (other p : ℕ × List ℕ) (b : Bool)
    → b ≡ true
    → p ≡ (n, rest)
    → n ≤ limit
    → (if b then (min p.0 limit, p.1) else other) ≡ (n, rest)
pick limit n rest other p true e1 e2 le = rw e2 (ap (λ m. (m, rest)) (min_lem n limit le))
  where
    min_lem : (a b : ℕ) → a ≤ b → min a b ≡ a
    min_lem a b h = omega arith
pick limit n rest other p false e1 e2 le = cc

is_digit : (d : ℕ) → d < 10 → ltb (digit_value (48 + d)) 10 ≡ true
is_digit d h = rw (digit_value_lem d h) (ltb-true d 10 h)

pub read_number-Begins :
    (limit n : ℕ) (whole rest cs : List ℕ)
    → n ≤ limit
    → Begins n cs
    → read_digits 10 0 cs ≡ (n, rest)
    → read_number 10 limit whole cs ≡ (n, rest)
unfolding read_number
read_number-Begins limit n whole rest cs le (d, tail, e, small, lead) r =
    ap (read_number 10 limit whole) e
    ∙ pick limit n rest (0, whole) (read_digits 10 0 ((48 + d) ∷ tail))
        (ltb (digit_value (48 + d)) 10) (is_digit d small) (ap (read_digits 10 0) (sym e) ∙ r) le

-- In front of a digit there is no sign, and no space.
read_sign-Begins :
    (read : List ℕ → ℕ × List ℕ) (n : ℕ) (cs : List ℕ) → Begins n cs → read_sign read cs ≡ read cs
unfolding read_sign
read_sign-Begins read n cs (d, tail, e, small, lead) =
    ap (read_sign read) e ∙ plain (digit_lem d small).1 (digit_lem d small).2 ∙ ap read (sym e)
  where
    plain :
        (48 + d == b'-') ≡ false
        → (48 + d == b'+') ≡ false
        → read_sign read ((48 + d) ∷ tail) ≡ read ((48 + d) ∷ tail)
    plain h1 h2 = rw (h1, h2) refl

pub skip_while-Begins : (n : ℕ) (cs : List ℕ) → Begins n cs → skip_while is_space cs ≡ cs
skip_while-Begins n cs (d, tail, e, small, lead) =
    ap (skip_while is_space) e ∙ plain (digit_lem d small).0 ∙ sym e
  where
    plain : is_space (48 + d) ≡ false → skip_while is_space ((48 + d) ∷ tail) ≡ (48 + d) ∷ tail
    plain h = rw h refl

-- strtoul reads what `%u` has written in front of a text that stops the number.
pub strtoul-print_u :
    (n : ℕ) (rest : List ℕ) → n < 2 ^ 32 → Stops rest → strtoul (print_u n rest) ≡ (n, rest)
unfolding strtoul print_u
strtoul-print_u n rest h stops =
    ap (read_sign (read_number 10 (2 ^ 32 - 1) cs)) (skip_while-Begins n cs begins)
    ∙ read_sign-Begins (read_number 10 (2 ^ 32 - 1) cs) n cs begins
    ∙ read_number-Begins (2 ^ 32 - 1) n cs rest cs (omega arith) begins
        (read_digits-print_digits 9 n rest (u32-Fits n h) ∙ read_digits-Stops n rest stops)
  where
    cs : List ℕ
    cs = print_digits 9 n rest

    begins : Begins n cs
    begins = print_digits-Begins 9 n rest (u32-Fits n h)
