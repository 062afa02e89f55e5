-- ===== src/Settings/Values.antt =====
-- settings.c: the values that WriteSettings prints are made of visible characters.
use hdlgame_installer.Base.{
  ℕ, zero, suc, ◌+◌, ◌-◌, ◌/◌, ◌%◌, ◌^◌, Bool, true, false, List, [], ◌∷◌, ◌≡◌, refl, arith,
  if◌then◌else◌, ltb,
}
use hdlgame_installer.Settings.Text.{print_digits, print_u, print_short}
use hdlgame_installer.Settings.Lines.{IsValue}
use hdlgame_installer.Settings.{NetAddr, write_boolean, write_addr}

print_digits-IsValue :
    (fuel n : ℕ) (rest : List ℕ) → IsValue rest → IsValue (print_digits fuel n rest)
unfolding print_digits
print_digits-IsValue zero n rest h = ((omega arith, omega arith), h)
print_digits-IsValue (suc fuel) n rest h =
    test (ltb n 10) refl
      (print_digits-IsValue fuel (n / 10) ((48 + n % 10) ∷ rest) ((omega arith, omega arith), h))
  where
    more : List ℕ
    more = print_digits fuel (n / 10) ((48 + n % 10) ∷ rest)

    test : (b : Bool) → ltb n 10 ≡ b → IsValue more → IsValue (if b then (48 + n) ∷ rest else more)
    test true e ih = ((omega arith, ground arith), h)
    test false e ih = ih

print_u-IsValue : (n : ℕ) (rest : List ℕ) → IsValue rest → IsValue (print_u n rest)
unfolding print_u
print_u-IsValue n rest h = print_digits-IsValue 9 n rest h

pub write_addr-IsValue : (a : NetAddr) → IsValue (write_addr a)
unfolding write_addr
write_addr-IsValue a = dotted a.a0 (print_u a.a1 (b'.' ∷ print_u a.a2 (b'.' ∷ print_u a.a3 []))) (
    dotted a.a1 (print_u a.a2 (b'.' ∷ print_u a.a3 []))
      (dotted a.a2 (print_u a.a3 []) (print_u-IsValue a.a3 [] tt)))
  where
    dotted : (n : ℕ) (rest : List ℕ) → IsValue rest → IsValue (print_u n (b'.' ∷ rest))
    dotted n rest h = print_u-IsValue n (b'.' ∷ rest) ((omega arith, omega arith), h)

pub write_boolean-IsValue : (b : Bool) → IsValue (write_boolean b)
unfolding write_boolean
write_boolean-IsValue true = omega arith
write_boolean-IsValue false = omega arith

pub print_short-IsValue : (m : ℕ) → IsValue (print_short m)
unfolding print_short
print_short-IsValue m = test (ltb m (2 ^ 15))
  where
    test : (b : Bool) → IsValue (if b then print_u m [] else b'-' ∷ print_u (2 ^ 16 - m) [])
    test true = print_u-IsValue m [] tt
    test false = ((omega arith, omega arith), print_u-IsValue (2 ^ 16 - m) [] tt)
