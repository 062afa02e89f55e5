-- ===== src/Net/Packet/Exchange.antt =====
-- The packets: what the server sends as a response is what the client's GetResponse gives.
use hdlgame_installer.Base.{
  ℕ, zero, suc, ◌^◌, ◌≤◌, ◌<◌, List, [], ◌∷◌, ◌++◌, Option, none, some, Code, ok, err, conn_lost,
  failure, length, ◌≡◌, refl, sym, ap, subst, ◌∙◌, arith,
}
use mathlib.Core.List.{append_assoc}
use hdlgame_installer.Net.Socket.{Socket}
use hdlgame_installer.Net.Send.{send_loop}
use hdlgame_installer.Net.Send.All.{Sent, Sent-after, send_loop-Sent}
use hdlgame_installer.Net.Receive.{receive_data}
use hdlgame_installer.Net.Receive.All.{Received, receive_data-Received}
use hdlgame_installer.Net.Packet.{
  u32_bytes, u32_at, Header, header_size, header_bytes, header_of, Reply, lost, replied,
  response_header, with_payload_length, send_payload, after_header, send_response, payload_bytes,
  after_payload, with_header, after_head, get_response,
}

u32_at-u32_bytes : (n : ℕ) → n < 2 ^ 32 → u32_at (u32_bytes n) 0 ≡ n
unfolding u32_at u32_bytes
u32_at-u32_bytes n h = omega arith

-- A header of 32-bit fields is read back from its bytes.
pub header_of-header_bytes :
    (h : Header)
    → h.command < 2 ^ 32
    → h.payload_length < 2 ^ 32
    → h.result < 2 ^ 32
    → header_of (header_bytes h) ≡ h
unfolding header_of header_bytes u32_at u32_bytes
header_of-header_bytes h h1 h2 h3 = ground arith

pub length-header_bytes : (h : Header) → length (header_bytes h) ≡ 12
unfolding header_bytes u32_bytes
length-header_bytes h = refl

-- Two ways to cut one list at the same place.
same_cut :
    (xs ys us vs : List ℕ) → length xs ≡ length us → xs ++ ys ≡ us ++ vs → (xs ≡ us) × (ys ≡ vs)
same_cut [] ys [] vs n e = (refl, e)
same_cut [] ys (u ∷ us) vs n e = absurd (omega arith)
same_cut (x ∷ xs) ys [] vs n e = absurd (omega arith)
same_cut (x ∷ xs) ys (u ∷ us) vs n e =
    let tails : (xs ≡ us) × (ys ≡ vs) = same_cut xs ys us vs (omega arith) (cc) in (cc, tails.1)

module _ (k : Socket) where
  open k use {Conn, sent, incoming}

  send_payload-Sent :
      (fuel : ℕ) (c : Conn) (payload : List ℕ)
      → length payload ≤ fuel
      → Sent k failure c payload (send_payload k fuel c payload)
  unfolding send_payload with_payload_length
  send_payload-Sent fuel c payload enough =
      at (send_loop k failure fuel c payload 0) (send_loop-Sent k failure fuel c payload 0 enough)
    where
      at :
          (o : Option (Code × Conn))
          → Sent k failure c payload o
          → Sent k failure c payload (with_payload_length k (length payload) o)
      at none s = s
      at (some (err e, c')) s = s
      at (some (ok zero, c')) s = s
      at (some (ok (suc n), c')) s = s

  -- SendResponse ends, and has sent the header of the result and then the payload, behind what had
  -- been sent before; or it reports a failure, and has sent a beginning of them.
  pub send_response-Sent :
      (fuel : ℕ) (c : Conn) (rcode : ℕ) (payload : List ℕ)
      → header_size ≤ fuel
      → length payload ≤ fuel
      → Sent k failure c
          (header_bytes (response_header rcode (length payload)) ++ payload)
          (send_response k fuel c rcode payload)
  unfolding send_response after_header
  send_response-Sent fuel c rcode payload room enough = at (send_loop k failure fuel c head 0) (
      send_loop-Sent k failure fuel c head 0
        (omega (arith, length-header_bytes (response_header rcode (length payload)))))
    where
      head : List ℕ
      head = header_bytes (response_header rcode (length payload))

      at :
          (o : Option (Code × Conn))
          → Sent k failure c head o
          → Sent k failure c (head ++ payload) (after_header k fuel payload o)
      at none s = s
      at (some (err e, c')) s = (
        s.0,
        s.1 ++ payload,
        sym (append_assoc (sent c') s.1 payload)
            ∙ ap (λ xs. xs ++ payload) s.2
            ∙ append_assoc (sent c) head payload,
      )
      at (some (ok n, c')) s =
          Sent-after k failure c c' head payload (send_payload k fuel c' payload) s
            (send_payload-Sent fuel c' payload enough)

  -- The outcome of GetResponse when `rcode` and `payload` are on their way, and then `rest`.
  abbrev pub Answered :
      (rcode : ℕ) (payload rest : List ℕ) → Option (Reply × List ℕ × Conn) → Type 0
  Answered rcode payload rest none = ⊥
  Answered rcode payload rest (some (lost e, bs, c)) = e ≡ conn_lost
  Answered rcode payload rest (some (replied r, bs, c)) =
      (r ≡ rcode) × (bs ≡ payload) × (incoming c ≡ rest)

  with_header_lem :
      (fuel : ℕ) (h : Header) (num_bytes : ℕ) (c : Conn)
      → 0 < h.payload_length
      → h.payload_length < 2 ^ 31
      → h.payload_length ≤ num_bytes
      → with_header k fuel h num_bytes c
        ≡ after_payload k h (receive_data k fuel c h.payload_length)
  unfolding with_header payload_bytes
  with_header_lem fuel h num_bytes c h1 h2 h3 = ground arith

  after_payload-Answered :
      (c : Conn) (rcode p : ℕ) (ps rest : List ℕ)
      → incoming c ≡ p ∷ ps ++ rest
      → (o : Option (Code × List ℕ × Conn)) → Received k c (length (p ∷ ps)) o
      → Answered rcode (p ∷ ps) rest (after_payload k (response_header rcode (length (p ∷ ps))) o)
  unfolding after_payload
  after_payload-Answered c rcode p ps rest coming none g = g
  after_payload-Answered c rcode p ps rest coming (some (err e, bs, d)) g = g.0
  after_payload-Answered c rcode p ps rest coming (some (ok zero, bs, d)) g = absurd (omega arith)
  after_payload-Answered c rcode p ps rest coming (some (ok (suc n), bs, d)) g =
      let parts = same_cut bs (incoming d) (p ∷ ps) rest g.1 (sym g.2 ∙ coming) in
      (refl, parts.0, parts.1)

  with_header-Answered :
      (fuel : ℕ) (c : Conn) (num_bytes rcode : ℕ) (payload rest : List ℕ)
      → length payload < 2 ^ 31
      → length payload ≤ num_bytes
      → length payload ≤ fuel
      → incoming c ≡ payload ++ rest
      → Answered rcode payload rest
          (with_header k fuel (response_header rcode (length payload)) num_bytes c)
  unfolding with_header
  with_header-Answered fuel c num_bytes rcode [] rest small fits enough coming = empty num_bytes
    where
      empty : (n : ℕ) → Answered rcode [] rest (with_header k fuel (response_header rcode 0) n c)
      empty n = ground arith
  with_header-Answered fuel c num_bytes rcode (p ∷ ps) rest small fits enough coming =
      subst (Answered rcode (p ∷ ps) rest)
        (sym (
          with_header_lem fuel (response_header rcode (length (p ∷ ps))) num_bytes c (omega arith)
            small fits))
        (after_payload-Answered c rcode p ps rest coming (receive_data k fuel c (length (p ∷ ps)))
          (receive_data-Received k fuel c (length (p ∷ ps)) enough))

  -- When the server's response is what comes next, GetResponse ends. It gives the server's result
  -- and payload, and what follows the response is yet to come; or it reports that the connection is
  -- lost. The buffer must be large enough for the payload, which is shorter than 2 GB.
  pub get_response-Answered :
      (fuel : ℕ) (c : Conn) (num_bytes rcode : ℕ) (payload rest : List ℕ)
      → header_size ≤ fuel
      → rcode < 2 ^ 32
      → length payload < 2 ^ 31
      → length payload ≤ num_bytes
      → length payload ≤ fuel
      → incoming c ≡ header_bytes (response_header rcode (length payload)) ++ (payload ++ rest)
      → Answered rcode payload rest (get_response k fuel c num_bytes)
  unfolding get_response after_head
  get_response-Answered fuel c num_bytes rcode payload rest room code small fits enough coming =
      at (receive_data k fuel c header_size) (receive_data-Received k fuel c header_size room)
    where
      h : Header
      h = response_header rcode (length payload)

      at :
          (o : Option (Code × List ℕ × Conn))
          → Received k c header_size o
          → Answered rcode payload rest (after_head k fuel num_bytes o)
      at none g = g
      at (some (err e, bs, d)) g = g.0
      at (some (ok n, bs, d)) g =
          let parts : (bs ≡ header_bytes h) × (incoming d ≡ payload ++ rest) =
            same_cut bs (incoming d) (header_bytes h) (payload ++ rest)
              (g.1 ∙ sym (length-header_bytes h)) (sym g.2 ∙ coming) in
          subst (λ x. Answered rcode payload rest (with_header k fuel x num_bytes d))
            (sym (
              ap header_of parts.0
              ∙ header_of-header_bytes h (omega arith) (omega (arith, small)) code))
            (with_header-Answered fuel d num_bytes rcode payload rest small fits enough parts.1)
