-- ===== src/Net/Send/All.antt =====
-- The send loops: all the bytes go out, in order, or a beginning of them does.
use hdlgame_installer.Base.{
  ℕ, zero, suc, ◌≤◌, List, [], ◌∷◌, ◌++◌, Option, none, some, ◌≡◌, refl, sym, ap, subst, ◌∙◌, arith,
  Code, ok, err, Errno, drop, take, length, length-drop, append-take-drop,
}
use mathlib.Core.List.{append_assoc, append-nil}
use hdlgame_installer.Net.Socket.{Socket}
use hdlgame_installer.Net.Send.{send_loop}

module _ (k : Socket) (failed : Errno) where
  open k use {Conn, send, sent, send_ok, send_err}

  -- The outcome of a loop for `bs`: it has ended, and all of `bs` has been sent behind what had been
  -- sent before, or a beginning of it and the loop reports the failure.
  abbrev pub Sent : Conn → List ℕ → Option (Code × Conn) → Type 0
  Sent c bs none = ⊥
  Sent c bs (some (ok n, c')) = sent c' ≡ sent c ++ bs
  Sent c bs (some (err e, c')) = (e ≡ failed) × (rest : List ℕ) × (sent c' ++ rest ≡ sent c ++ bs)

  -- Some bytes have gone out, and a loop sends the others.
  pub Sent-after :
      (c c' : Conn) (now later : List ℕ) (o : Option (Code × Conn))
      → sent c' ≡ sent c ++ now
      → Sent c' later o
      → Sent c (now ++ later) o
  Sent-after c c' now later none e s = s
  Sent-after c c' now later (some (ok n, d)) e s =
      s ∙ ap (λ xs. xs ++ later) e ∙ append_assoc (sent c) now later
  Sent-after c c' now later (some (err x, d)) e s =
      (s.0, s.1, s.2 ∙ ap (λ xs. xs ++ later) e ∙ append_assoc (sent c) now later)

  -- One send, and the loop `go` behind it.
  Sent-one :
      (c : Conn) (b : ℕ) (bs : List ℕ) (go : Conn → List ℕ → ℕ → Option (Code × Conn))
      (r : Code × Conn)
      → send c (b ∷ bs) ≡ r
      → ((m : ℕ) (c' : Conn) → Sent c' (drop m bs) (go c' (drop m bs) (suc m)))
      → Sent c (b ∷ bs) (elim r.0 [
        | err e ↦ some (err failed, r.1)
        | ok n ↦ elim n [ zero ↦ some (err failed, r.1) | suc m ↦ go r.1 (drop m bs) (suc m) ]
      ])
  Sent-one c b bs go (err e, c') h later =
      (refl, b ∷ bs, ap (λ xs. xs ++ b ∷ bs) (send_err c (b ∷ bs) h))
  Sent-one c b bs go (ok zero, c') h later =
      (refl, b ∷ bs, ap (λ xs. xs ++ b ∷ bs) ((send_ok c (b ∷ bs) h).1 ∙ append-nil (sent c)))
  Sent-one c b bs go (ok (suc m), c') h later =
      subst (λ xs. Sent c (b ∷ xs) (go c' (drop m bs) (suc m))) (append-take-drop m bs)
        (Sent-after c c' (b ∷ take m bs) (drop m bs) (go c' (drop m bs) (suc m))
          ((send_ok c (b ∷ bs) h).1) (later m c'))

  pub send_loop-Sent :
      (fuel : ℕ) (c : Conn) (bs : List ℕ) (last : ℕ)
      → length bs ≤ fuel
      → Sent c bs (send_loop k failed fuel c bs last)
  unfolding send_loop
  send_loop-Sent fuel c [] last enough = sym (append-nil (sent c))
  send_loop-Sent zero c (b ∷ bs) last enough = absurd (omega arith)
  send_loop-Sent (suc fuel) c (b ∷ bs) last enough =
      Sent-one c b bs (send_loop k failed fuel) (send c (b ∷ bs)) refl
        (λ m c'. send_loop-Sent fuel c' (drop m bs) (suc m) (omega (arith, length-drop m bs)))
