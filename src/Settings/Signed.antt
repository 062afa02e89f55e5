-- ===== src/Settings/Signed.antt =====
-- settings.c: a short that sprintf has written is the short that strtol reads.
use hdlgame_installer.Base.{
  ℕ, zero, suc, ◌+◌, ◌-◌, ◌%◌, ◌^◌, ◌≤◌, ◌<◌, min, Bool, true, false, List, [], ◌∷◌, ◌≡◌, refl, sym,
  ap, ◌∙◌, arith, if◌then◌else◌, ltb, ◌==◌,
}
use hdlgame_installer.Settings.Text.{
  is_space, skip_while, digit_value, read_digits, read_number, negate, after_zero, base_of,
  read_any_base, read_long, strtol_short, print_digits, print_u, print_short,
}
use hdlgame_installer.Settings.Decimal.{
  u32-Fits, read_digits-print_digits, Begins, print_digits-Begins, digit_lem, read_number-Begins,
  skip_while-Begins,
}

base_of-Begins : (n : ℕ) (cs : List ℕ) → 0 < n → Begins n cs → base_of cs ≡ (10, cs)
unfolding base_of
base_of-Begins n cs pos (d, tail, e, small, lead) =
    ap base_of e ∙ plain (test (48 + d == b'0') refl) ∙ ap (λ xs. (10, xs)) (sym e)
  where
    test : (b : Bool) → (48 + d == b'0') ≡ b → (48 + d == b'0') ≡ false
    test true q = absurd (ground (arith, lead))
    test false q = q

    plain : (48 + d == b'0') ≡ false → base_of ((48 + d) ∷ tail) ≡ (10, (48 + d) ∷ tail)
    plain h = rw h refl

read_any_base-zero : (limit : ℕ) → read_any_base limit (print_digits 9 0 []) ≡ (0, [])
unfolding read_any_base base_of after_zero read_number read_digits digit_value print_digits
read_any_base-zero limit = ap (λ n. (n, [])) (zero_min limit)
  where
    zero_min : (a : ℕ) → min 0 a ≡ 0
    zero_min a = omega arith

-- A minus sign is no space, and negates what follows.
skip_while-minus : (cs : List ℕ) → skip_while is_space (b'-' ∷ cs) ≡ b'-' ∷ cs
unfolding is_space
skip_while-minus cs = refl

read_long-minus : (cs : List ℕ) → read_long (b'-' ∷ cs) ≡ negate (read_any_base (2 ^ 31) cs)
unfolding read_long
read_long-minus cs = refl

-- strtol finds the base 10 in a number that `%d` has written.
read_any_base-print_digits :
    (limit n : ℕ) → n < 2 ^ 32 → n ≤ limit → read_any_base limit (print_digits 9 n []) ≡ (n, [])
unfolding read_any_base
read_any_base-print_digits limit zero h le = read_any_base-zero limit
read_any_base-print_digits limit (suc m) h le =
    ap (λ (p : ℕ × List ℕ). read_number p.0 limit cs p.1)
      (base_of-Begins (suc m) cs (omega arith) begins)
    ∙ read_number-Begins limit (suc m) cs [] cs le begins
        (read_digits-print_digits 9 (suc m) [] (u32-Fits (suc m) h))
  where
    cs : List ℕ
    cs = print_digits 9 (suc m) []

    begins : Begins (suc m) cs
    begins = print_digits-Begins 9 (suc m) [] (u32-Fits (suc m) h)

read_long-Begins :
    (n : ℕ) (cs : List ℕ) → Begins n cs → read_long cs ≡ read_any_base (2 ^ 31 - 1) cs
unfolding read_long
read_long-Begins n cs (d, tail, e, small, lead) =
    ap read_long e
    ∙ plain (digit_lem d small).1 (digit_lem d small).2
    ∙ ap (read_any_base (2 ^ 31 - 1)) (sym e)
  where
    plain :
        (48 + d == b'-') ≡ false
        → (48 + d == b'+') ≡ false
        → read_long ((48 + d) ∷ tail) ≡ read_any_base (2 ^ 31 - 1) ((48 + d) ∷ tail)
    plain h1 h2 = rw (h1, h2) refl

-- A short goes through `%d` and strtol unchanged, a negative one too.
pub strtol_short-print_short : (m : ℕ) → m < 2 ^ 16 → strtol_short (print_short m) ≡ m
unfolding strtol_short print_short print_u negate
strtol_short-print_short m h = test (ltb m (2 ^ 15)) refl
  where
    value : List ℕ → ℕ
    value cs = (read_long (skip_while is_space cs)).0 % 2 ^ 16

    begins : (n : ℕ) → n < 2 ^ 32 → Begins n (print_digits 9 n [])
    begins n lt = print_digits-Begins 9 n [] (u32-Fits n lt)

    positive : m < 2 ^ 15 → value (print_digits 9 m []) ≡ m
    positive lt =
        ap (λ xs. (read_long xs).0 % 2 ^ 16)
          (skip_while-Begins m (print_digits 9 m []) (begins m (omega arith)))
        ∙ ap (λ (p : ℕ × List ℕ). p.0 % 2 ^ 16)
            (read_long-Begins m (print_digits 9 m []) (begins m (omega arith))
              ∙ read_any_base-print_digits (2 ^ 31 - 1) m (omega arith) (omega arith))
        ∙ omega arith

    negative : 2 ^ 15 ≤ m → value (b'-' ∷ print_digits 9 (2 ^ 16 - m) []) ≡ m
    negative le =
        ap (λ xs. (read_long xs).0 % 2 ^ 16) (skip_while-minus (print_digits 9 (2 ^ 16 - m) []))
        ∙ ap (λ (p : ℕ × List ℕ). p.0 % 2 ^ 16)
            (read_long-minus (print_digits 9 (2 ^ 16 - m) [])
              ∙ ap negate
                  (read_any_base-print_digits (2 ^ 31) (2 ^ 16 - m) (omega arith) (omega arith)))
        ∙ back
      where
        back : (negate (2 ^ 16 - m, [])).0 % 2 ^ 16 ≡ m
        back = omega arith

    test :
        (b : Bool)
        → ltb m (2 ^ 15) ≡ b
        → value (if b then print_digits 9 m [] else b'-' ∷ print_digits 9 (2 ^ 16 - m) []) ≡ m
    test true e = positive (ground arith)
    test false e = negative (ground arith)
