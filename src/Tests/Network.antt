-- ===== src/Tests/Network.antt =====
-- A network that takes and gives all bytes at once.
use hdlgame_installer.Base.{
  ℕ, suc, zero, ◌≤◌, true, List, [], ◌∷◌, ◌++◌, ◌≡◌, refl, sym, ap, ◌∙◌, arith, length, take, drop,
  append-take-drop, Code, ok, err, Errno, failure, conn_lost,
}
use hdlgame_installer.Net.Socket.{Socket}
use hdlgame_installer.Net.Send.All.{Sent}
use hdlgame_installer.Net.Receive.{receive_data}
use hdlgame_installer.Net.Receive.All.{Received, receive_data-Received}
use hdlgame_installer.Net.Packet.{
  u32_bytes, header_bytes, response_header, send_response, get_response,
}
use hdlgame_installer.Net.Packet.Exchange.{Answered, send_response-Sent, get_response-Answered}
use hdlgame_installer.Net.Client.{command_header, send_cmd_packet}
use hdlgame_installer.Net.Client.Handshake.{send_cmd_packet-Sent}

abbrev Wire : Type 0
Wire = List ℕ × List ℕ

abbrev wire_send : Wire → List ℕ → Code × Wire
wire_send c bs = (ok (length bs), (c.0 ++ bs, c.1))

abbrev wire_recv : Wire → ℕ → Code × List ℕ × Wire
wire_recv c len = (ok (length (take len c.1)), take len c.1, (c.0, drop len c.1))

take_all : (bs : List ℕ) → take (length bs) bs ≡ bs
take_all [] = refl
take_all (b ∷ bs) = ap (b ∷◌) (take_all bs)

length-take-le : (n : ℕ) (bs : List ℕ) → length (take n bs) ≤ n
length-take-le zero bs = omega arith
length-take-le (suc n) [] = omega arith
length-take-le (suc n) (b ∷ bs) = omega (arith, length-take-le n bs)

wire_send_ok :
    (c : Wire) (bs : List ℕ) {n : ℕ} {c' : Wire}
    → wire_send c bs ≡ (ok n, c')
    → (n ≤ length bs) × (c'.0 ≡ c.0 ++ take n bs)
wire_send_ok c bs {n} {c'} e =
    let count : length bs ≡ n = cc in
    let state : (c.0 ++ bs, c.1) ≡ c' = cc in
    (
      omega (arith, count),
      sym (ap (λ (w : Wire). w.0) state)
          ∙ ap (λ xs. c.0 ++ xs) (sym (take_all bs) ∙ ap (λ m. take m bs) count),
    )

wire_send_err :
    (c : Wire) (bs : List ℕ) {e : Errno} {c' : Wire} → wire_send c bs ≡ (err e, c') → c'.0 ≡ c.0
wire_send_err c bs e = cc

wire_recv_ok :
    (c : Wire) (len : ℕ) {n : ℕ} {bs : List ℕ} {c' : Wire}
    → wire_recv c len ≡ (ok n, bs, c')
    → (n ≡ length bs) × (n ≤ len) × (c.1 ≡ bs ++ c'.1)
wire_recv_ok c len {n} {bs} {c'} e =
    let count : length (take len c.1) ≡ n = cc in
    let read : take len c.1 ≡ bs = cc in
    let state : (c.0, drop len c.1) ≡ c' = cc in
    (
      sym count ∙ ap length read,
      omega (arith, count, length-take-le len c.1),
      sym (append-take-drop len c.1)
          ∙ ap (λ xs. xs ++ drop len c.1) read
          ∙ ap (λ (w : Wire). bs ++ w.1) state,
    )

wire_recv_err :
    (c : Wire) (len : ℕ) {e : Errno} {bs : List ℕ} {c' : Wire}
    → wire_recv c len ≡ (err e, bs, c')
    → c'.1 ≡ c.1
wire_recv_err c len e = cc

abbrev wires : Socket
wires = record {
  Conn = Wire;
  send = wire_send;
  recv = wire_recv;
  readable = λ c. true;
  sent = λ (c : Wire). c.0;
  incoming = λ (c : Wire). c.1;
  send_ok = wire_send_ok;
  send_err = wire_send_err;
  recv_ok = wire_recv_ok;
  recv_err = wire_recv_err;
}

-- Three bytes of a stream of five.
receive_data-Received_example :
    Received wires
      ([], 1 ∷ 2 ∷ 3 ∷ 4 ∷ 5 ∷ [])
      3
      (receive_data wires 3 ([], 1 ∷ 2 ∷ 3 ∷ 4 ∷ 5 ∷ []) 3)
receive_data-Received_example =
    receive_data-Received wires 3 ([], 1 ∷ 2 ∷ 3 ∷ 4 ∷ 5 ∷ []) 3 (omega arith)

send_response-Sent_example :
    Sent wires failure
      ([], [])
      (header_bytes (response_header 0 4) ++ u32_bytes 12)
      (send_response wires 12 ([], []) 0 (u32_bytes 12))
unfolding u32_bytes
send_response-Sent_example =
    send_response-Sent wires 12 ([], []) 0 (u32_bytes 12) (omega arith) (omega arith)

-- The server's version, and one byte of what follows.
abbrev versions : List ℕ
versions = header_bytes (response_header 0 4) ++ ((0x0C ∷ 0 ∷ 0 ∷ 0 ∷ []) ++ (7 ∷ []))

get_response-Answered_example :
    Answered wires 0 (0x0C ∷ 0 ∷ 0 ∷ 0 ∷ []) (7 ∷ []) (get_response wires 12 ([], versions) 4)
get_response-Answered_example =
    get_response-Answered wires 12 ([], versions) 4 0 (0x0C ∷ 0 ∷ 0 ∷ 0 ∷ []) (7 ∷ []) (omega arith)
      (omega arith) (omega arith) (omega arith) (omega arith) refl

send_cmd_packet-Sent_example :
    Sent wires conn_lost
      ([], [])
      (header_bytes (command_header 2 4) ++ (0x0C ∷ 0 ∷ 0 ∷ 0 ∷ []))
      (send_cmd_packet wires 12 ([], []) 2 (0x0C ∷ 0 ∷ 0 ∷ 0 ∷ []))
send_cmd_packet-Sent_example =
    send_cmd_packet-Sent wires 12 ([], []) 2 (0x0C ∷ 0 ∷ 0 ∷ 0 ∷ []) (omega arith) (omega arith)
