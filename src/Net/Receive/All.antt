-- ===== src/Net/Receive/All.antt =====
-- The receive loop: the bytes that it gives are the next ones of the stream, as many as were asked for.
use hdlgame_installer.Base.{
  ℕ, zero, suc, ◌+◌, ◌-◌, ◌≤◌, ◌<◌, ◌⊎◌, inl, inr, Bool, true, false, List, [], ◌∷◌, ◌++◌, Option,
  none, some, ◌≡◌, refl, sym, ap, ◌∙◌, arith, Code, ok, err, conn_lost, length, length-append,
  if◌then◌else◌,
}
use mathlib.Core.List.{append_assoc}
use hdlgame_installer.Net.Socket.{Socket}
use hdlgame_installer.Net.Receive.{prepend, recv_loop, with_length, receive_data}

module _ (k : Socket) where
  open k use {Conn, recv, readable, incoming, recv_ok, recv_err}

  -- The outcome of a loop for `len` bytes, which has ended: the bytes in the buffer are the next ones
  -- of the stream, and there are `len` of them unless the connection is lost.
  abbrev Got : Conn → ℕ → Option (Code × List ℕ × Conn) → Type 0
  Got c len none = ⊥
  Got c len (some (ok n, bs, c')) = (length bs ≡ len) × (incoming c ≡ bs ++ incoming c')
  Got c len (some (err e, bs, c')) = (e ≡ conn_lost) × (incoming c ≡ bs ++ incoming c')

  Got-prepend :
      (c c' : Conn) (bs : List ℕ) (all len : ℕ) (o : Option (Code × List ℕ × Conn))
      → incoming c ≡ bs ++ incoming c'
      → length bs + len ≡ all
      → Got c' len o
      → Got c all (prepend k bs o)
  unfolding prepend
  Got-prepend c c' bs all len none e n g = g
  Got-prepend c c' bs all len (some (ok x, rest, d)) e n g = (
    omega (arith, length-append bs rest, g.0, n),
    e ∙ ap (λ xs. bs ++ xs) g.1 ∙ sym (append_assoc bs rest (incoming d)),
  )
  Got-prepend c c' bs all len (some (err x, rest, d)) e n g =
      (g.0, e ∙ ap (λ xs. bs ++ xs) g.1 ∙ sym (append_assoc bs rest (incoming d)))

  -- One recv, and the loop `go` behind it.
  Got-one :
      (c : Conn) (m : ℕ) (go : Conn → ℕ → ℕ → Option (Code × List ℕ × Conn))
      (r : Code × List ℕ × Conn)
      → recv c (suc m) ≡ r
      → ((j : ℕ) (c' : Conn) → Got c' (m - j) (go c' (m - j) (suc j)))
      → Got c (suc m) (elim r.0 [
        | err e ↦ some (err conn_lost, [], r.2)
        | ok n ↦ elim n [
          | zero ↦ some (err conn_lost, [], r.2)
          | suc j ↦ prepend k r.1 (go r.2 (m - j) (suc j))
        ]
      ])
  Got-one c m go (err e, bs, c') h later = (refl, sym (recv_err c (suc m) h))
  Got-one c m go (ok zero, bs, c') h later =
      (refl, nothing_read bs (recv_ok c (suc m) h).0 (recv_ok c (suc m) h).2)
    where
      nothing_read :
          (xs : List ℕ) → 0 ≡ length xs → incoming c ≡ xs ++ incoming c' → incoming c ≡ incoming c'
      nothing_read [] e h = h
      nothing_read (x ∷ xs) e h = absurd (omega arith)
  Got-one c m go (ok (suc j), bs, c') h later =
      Got-prepend c c' bs (suc m) (m - j) (go c' (m - j) (suc j)) (recv_ok c (suc m) h).2
        (omega (arith, recv_ok c (suc m) h)) (later j c')

  recv_loop-Got :
      (fuel : ℕ) (c : Conn) (len last : ℕ) → len ≤ fuel → Got c len (recv_loop k fuel c len last)
  unfolding recv_loop
  recv_loop-Got fuel c zero last enough = (refl, refl)
  recv_loop-Got zero c (suc m) last enough = absurd (omega arith)
  recv_loop-Got (suc fuel) c (suc m) last enough = at (readable c) _ (
      Got-one c m (recv_loop k fuel) (recv c (suc m)) refl
        (λ j c'. recv_loop-Got fuel c' (m - j) (suc j) (omega arith)))
    where
      at :
          (b : Bool) (o : Option (Code × List ℕ × Conn))
          → Got c (suc m) o
          → Got c (suc m) (if b then o else some (err conn_lost, [], c))
      at true o g = g
      at false o g = (refl, refl)

  -- The variable result once the loop has ended without a failure.
  abbrev Ends : (len last : ℕ) → Option (Code × List ℕ × Conn) → Type 0
  Ends len last none = Unit {0}
  Ends len last (some (err e, bs, c)) = Unit {0}
  Ends len last (some (ok n, bs, c)) = (0 < n) ⊎ ((len ≡ 0) × (n ≡ last))

  Ends-prepend :
      (all last len j : ℕ) (bs : List ℕ) (o : Option (Code × List ℕ × Conn))
      → Ends len (suc j) o
      → Ends all last (prepend k bs o)
  unfolding prepend
  Ends-prepend all last len j bs none e = tt
  Ends-prepend all last len j bs (some (err x, rest, c)) e = tt
  Ends-prepend all last len j bs (some (ok n, rest, c)) e = elim e [
    | inl h ↦ inl h
    | inr h ↦ inl (omega (arith, h))
  ]

  recv_loop-Ends :
      (fuel : ℕ) (c : Conn) (len last : ℕ) → Ends len last (recv_loop k fuel c len last)
  unfolding recv_loop
  recv_loop-Ends fuel c zero last = inr (refl, refl)
  recv_loop-Ends zero c (suc m) last = tt
  recv_loop-Ends (suc fuel) c (suc m) last =
      at (readable c) (recv c (suc m)) (λ j c'. recv_loop-Ends fuel c' (m - j) (suc j))
    where
      read :
          (r : Code × List ℕ × Conn)
          → ((j : ℕ) (c' : Conn) → Ends (m - j) (suc j) (recv_loop k fuel c' (m - j) (suc j)))
          → Ends (suc m) last (elim r.0 [
            | err e ↦ some (err conn_lost, [], r.2)
            | ok n ↦ elim n [
              | zero ↦ some (err conn_lost, [], r.2)
              | suc j ↦ prepend k r.1 (recv_loop k fuel r.2 (m - j) (suc j))
            ]
          ])
      read (err e, bs, c') later = tt
      read (ok zero, bs, c') later = tt
      read (ok (suc j), bs, c') later =
          Ends-prepend (suc m) last (m - j) j bs (recv_loop k fuel c' (m - j) (suc j)) (later j c')

      at :
          (b : Bool) (r : Code × List ℕ × Conn)
          → ((j : ℕ) (c' : Conn) → Ends (m - j) (suc j) (recv_loop k fuel c' (m - j) (suc j)))
          → Ends (suc m) last (
              if b
              then elim r.0 [
                | err e ↦ some (err conn_lost, [], r.2)
                | ok n ↦ elim n [
                  | zero ↦ some (err conn_lost, [], r.2)
                  | suc j ↦ prepend k r.1 (recv_loop k fuel r.2 (m - j) (suc j))
                ]
              ]
              else some (err conn_lost, [], c))
      at true r later = read r later
      at false r later = tt

  -- The outcome of ReceiveData for `len` bytes.
  abbrev pub Received : Conn → ℕ → Option (Code × List ℕ × Conn) → Type 0
  Received c len none = ⊥
  Received c len (some (ok n, bs, c')) =
      (n ≡ len) × (length bs ≡ len) × (incoming c ≡ bs ++ incoming c')
  Received c len (some (err e, bs, c')) = (e ≡ conn_lost) × (incoming c ≡ bs ++ incoming c')

  -- Within as many rounds as bytes are asked for, ReceiveData (or DoRecv) ends. It gives `len`, and
  -- the bytes in the buffer are the next `len` of the stream; or it reports that the connection is
  -- lost, and the buffer has a beginning of them. In both cases the rest of the stream is yet to come.
  pub receive_data-Received :
      (fuel : ℕ) (c : Conn) (len : ℕ) → len ≤ fuel → Received c len (receive_data k fuel c len)
  unfolding receive_data with_length
  receive_data-Received fuel c len enough =
      at (recv_loop k fuel c len 0) (recv_loop-Got fuel c len 0 enough)
        (recv_loop-Ends fuel c len 0)
    where
      at :
          (o : Option (Code × List ℕ × Conn))
          → Got c len o
          → Ends len 0 o
          → Received c len (with_length k len o)
      at none g e = g
      at (some (err x, bs, d)) g e = g
      at (some (ok zero, bs, d)) g e = elim e [
        | inl h ↦ absurd (omega arith)
        | inr h ↦ (omega (arith, h), g.0, g.1)
      ]
      at (some (ok (suc n), bs, d)) g e = (refl, g.0, g.1)
