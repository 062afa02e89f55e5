-- ===== src/Settings/Lines.antt =====
-- settings.c: a line that WriteSettings has written is read back as its key and its value.
use hdlgame_installer.Base.{
  ℕ, zero, suc, ◌≤◌, Bool, true, false, List, [], ◌∷◌, ◌++◌, Option, some, ◌≡◌, refl, sym, ap, ap₂,
  ◌∙◌, arith, All, Code, ok, err,
}
use mathlib.Core.List.{append_assoc, append-nil}
use hdlgame_installer.Settings.Text.{
  codes, c_string, is_space, is_alnum, is_graph, is_newline, skip_while, take_while, add_token,
  strtok_from, strtok_all,
}
use hdlgame_installer.Settings.{
  Settings, after_equals, split_line, parse_split, parse_line, parse_lines, write_line,
}

-- A key of letters and digits, and a value of visible characters.
abbrev pub IsKey : List ℕ → Type 0
IsKey key = All (λ c. is_alnum c ≡ true) key

abbrev pub IsValue : List ℕ → Type 0
IsValue value = All (λ c. (33 ≤ c) × (c ≤ 126)) value

abbrev Holds : (ℕ → Bool) → List ℕ → Type 0
Holds test cs = All (λ c. test c ≡ true) cs

take_while-append :
    (test : ℕ → Bool) (xs : List ℕ) (c : ℕ) (ys : List ℕ)
    → Holds test xs
    → test c ≡ false
    → take_while test (xs ++ c ∷ ys) ≡ xs
take_while-append test [] c ys h e = rw e refl
take_while-append test (x ∷ xs) c ys h e = rw h.0 (ap (x ∷◌) (take_while-append test xs c ys h.1 e))

skip_while-append :
    (test : ℕ → Bool) (xs : List ℕ) (c : ℕ) (ys : List ℕ)
    → Holds test xs
    → test c ≡ false
    → skip_while test (xs ++ c ∷ ys) ≡ c ∷ ys
skip_while-append test [] c ys h e = rw e refl
skip_while-append test (x ∷ xs) c ys h e = rw h.0 (skip_while-append test xs c ys h.1 e)

take_while-all : (test : ℕ → Bool) (xs : List ℕ) → Holds test xs → take_while test xs ≡ xs
take_while-all test [] h = refl
take_while-all test (x ∷ xs) h = rw h.0 (ap (x ∷◌) (take_while-all test xs h.1))

space_is_none : (is_alnum 32 ≡ false) × (is_space 32 ≡ true) × (is_space b'=' ≡ false)
unfolding is_alnum is_space
space_is_none = (refl, refl, refl)

alnum_lem : (c : ℕ) → is_alnum c ≡ true → (is_space c ≡ false) × (33 ≤ c) × (c ≤ 126)
unfolding is_alnum is_space
alnum_lem c h = ground arith

graph_lem : (c : ℕ) → 33 ≤ c → c ≤ 126 → (is_graph c ≡ true) × (is_space c ≡ false)
unfolding is_graph is_space
graph_lem c h k = ground arith

IsValue-graph : (value : List ℕ) → IsValue value → Holds is_graph value
IsValue-graph [] h = tt
IsValue-graph (c ∷ cs) h = ((graph_lem c h.0.0 h.0.1).0, IsValue-graph cs h.1)

skip_while-value : (value : List ℕ) → IsValue value → skip_while is_space value ≡ value
skip_while-value [] h = refl
skip_while-value (c ∷ cs) h = rw ((graph_lem c h.0.0 h.0.1).1) refl

after_equals-value :
    (value : List ℕ) → IsValue value → after_equals (b'=' ∷ 32 ∷ value) ≡ some value
unfolding after_equals
after_equals-value value h = rw (space_is_none.1) (
    ap (λ xs. some (take_while is_graph xs)) (skip_while-value value h)
    ∙ ap some (take_while-all is_graph value (IsValue-graph value h)))

-- The text of a line.
abbrev line : (key value : List ℕ) → List ℕ
line key value = key ++ (codes " = " ++ value)

split_line-line :
    (k : ℕ) (ks value : List ℕ)
    → IsKey (k ∷ ks)
    → IsValue value
    → split_line (line (k ∷ ks) value) ≡ (k ∷ ks, some value)
unfolding split_line
split_line-line k ks value hk hv =
    ap₂ (λ (a : List ℕ) (b : Option (List ℕ)). (a, b))
      (ap (take_while is_alnum) start
        ∙ take_while-append is_alnum (k ∷ ks) 32 (b'=' ∷ 32 ∷ value) hk space_is_none.0)
      (ap (λ xs. after_equals (skip_while is_space (skip_while is_alnum xs))) start
        ∙ ap (λ xs. after_equals (skip_while is_space xs))
            (skip_while-append is_alnum (k ∷ ks) 32 (b'=' ∷ 32 ∷ value) hk space_is_none.0)
        ∙ ap after_equals (
            skip_while-append is_space (32 ∷ []) b'=' (32 ∷ value) (space_is_none.1, tt)
              space_is_none.2)
        ∙ after_equals-value value hv)
  where
    start : skip_while is_space (line (k ∷ ks) value) ≡ line (k ∷ ks) value
    start = rw ((alnum_lem k hk.0).0) refl

-- Characters that neither end the text nor a token.
abbrev IsPlain : List ℕ → Type 0
IsPlain cs = All (λ c. 32 ≤ c) cs

plain_lem : (c : ℕ) → 32 ≤ c → is_newline c ≡ false
unfolding is_newline
plain_lem c h = ground arith

IsPlain-append : (xs ys : List ℕ) → IsPlain xs → IsPlain ys → IsPlain (xs ++ ys)
IsPlain-append [] ys h k = k
IsPlain-append (x ∷ xs) ys h k = (h.0, IsPlain-append xs ys h.1 k)

IsKey-IsPlain : (key : List ℕ) → IsKey key → IsPlain key
IsKey-IsPlain [] h = tt
IsKey-IsPlain (c ∷ cs) h = (omega (arith, alnum_lem c h.0), IsKey-IsPlain cs h.1)

IsValue-IsPlain : (value : List ℕ) → IsValue value → IsPlain value
IsValue-IsPlain [] h = tt
IsValue-IsPlain (c ∷ cs) h = (omega (arith, h.0), IsValue-IsPlain cs h.1)

c_string-append : (xs ys : List ℕ) → IsPlain xs → c_string (xs ++ ys) ≡ xs ++ c_string ys
c_string-append [] ys h = refl
c_string-append (zero ∷ xs) ys h = absurd (omega arith)
c_string-append (suc x ∷ xs) ys h = ap (suc x ∷◌) (c_string-append xs ys h.1)

newline_lem : is_newline b'\n' ≡ true
unfolding is_newline
newline_lem = refl

strtok_from-append :
    (token xs rest : List ℕ)
    → IsPlain xs
    → strtok_from token (xs ++ b'\n' ∷ rest) ≡ add_token (token ++ xs) (strtok_all rest)
strtok_from-append token [] rest h =
    rw newline_lem (ap (λ t. add_token t (strtok_all rest)) (sym (append-nil token)))
strtok_from-append token (x ∷ xs) rest h = rw (plain_lem x h.0) (
    strtok_from-append (token ++ x ∷ []) xs rest h.1
    ∙ ap (λ t. add_token t (strtok_all rest)) (append_assoc token (x ∷ []) xs))

-- ParseSettings' loop on a text.
abbrev pub parse_text : List ℕ → Code → Settings → Code × Settings
parse_text text r s = parse_lines (strtok_all (c_string text)) r s

tokens_lem :
    (k : ℕ) (ks value rest : List ℕ)
    → IsKey (k ∷ ks)
    → IsValue value
    → strtok_all (c_string (write_line (k ∷ ks) value rest))
      ≡ line (k ∷ ks) value ∷ strtok_all (c_string rest)
unfolding write_line
tokens_lem k ks value rest hk hv =
    ap strtok_all (c_string-append (line (k ∷ ks) value) (b'\n' ∷ rest) plain)
    ∙ strtok_from-append [] (line (k ∷ ks) value) (c_string rest) plain
  where
    plain : IsPlain (line (k ∷ ks) value)
    plain =
        IsPlain-append (k ∷ ks) (codes " = " ++ value) (IsKey-IsPlain (k ∷ ks) hk)
          (omega arith, (omega arith, (omega arith, IsValue-IsPlain value hv)))

-- A line whose value ParseLine accepts takes the loop to the rest of the text.
pub parse_text-write_line :
    (k : ℕ) (ks value rest : List ℕ) (r : Code) (s t : Settings)
    → IsKey (k ∷ ks)
    → IsValue value
    → parse_line (k ∷ ks) value s ≡ (ok 0, t)
    → parse_text (write_line (k ∷ ks) value rest) r s ≡ parse_text rest (ok 0) t
unfolding parse_lines parse_split
parse_text-write_line k ks value rest r s t hk hv e =
    ap (λ lines. parse_lines lines r s) (tokens_lem k ks value rest hk hv)
    ∙ one_line (parse_split (split_line (line (k ∷ ks) value)) s)
        (ap (λ x. parse_split x s) (split_line-line k ks value hk hv) ∙ e)
  where
    later : List (List ℕ)
    later = strtok_all (c_string rest)

    one_line :
        (p : Code × Settings)
        → p ≡ (ok 0, t)
        → (elim p.0 [ err x ↦ (err x, p.1) | ok n ↦ parse_lines later p.0 p.1 ])
          ≡ parse_lines later (ok 0) t
    one_line p q =
        ap
          (λ (x : Code × Settings). elim x.0 as (λ y. Code × Settings) [
            | err y ↦ (err y, x.1)
            | ok n ↦ parse_lines later x.0 x.1
          ])
          q
