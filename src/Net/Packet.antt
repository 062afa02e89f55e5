-- ===== src/Net/Packet.antt =====
-- HDLGameSvr.h: struct HDDToolsPacketHdr on the wire; HDLGameSvr.c: SendResponse and SendPayload;
-- client.c: SendCmdPacket and GetResponse, and the GetResponse of HDLGameSvr.c, which is the same.
pub mod Exchange
use hdlgame_installer.Base.{
  ℕ, zero, suc, ◌+◌, ◌-◌, ◌*◌, ◌/◌, ◌%◌, ◌^◌, min, Bool, true, false, List, [], ◌∷◌, ◌++◌, Option,
  none, some, Code, ok, err, Errno, conn_lost, failure, if◌then◌else◌, ltb, leb, ◌==◌, length,
  get_or,
}
use hdlgame_installer.Net.Socket.{Socket}
use hdlgame_installer.Net.Send.{send_loop}
use hdlgame_installer.Net.Receive.{receive_data}

-- The bytes of a u32, the lowest first.
unfoldable pub u32_bytes : ℕ → List ℕ
u32_bytes n = n % 256 ∷ n / 2 ^ 8 % 256 ∷ n / 2 ^ 16 % 256 ∷ n / 2 ^ 24 % 256 ∷ []

unfoldable pub u32_at : List ℕ → (i : ℕ) → ℕ
u32_at bs i =
    get_or bs i 0
    + get_or bs (i + 1) 0 * 2 ^ 8
    + get_or bs (i + 2) 0 * 2 ^ 16
    + get_or bs (i + 3) 0 * 2 ^ 24

-- `result` is the bit pattern of the int.
pub record Header : Type 0 where
  pub command : ℕ
  pub payload_length : ℕ
  pub result : ℕ

abbrev pub header_size : ℕ
header_size = 12

unfoldable pub header_bytes : Header → List ℕ
unfolding u32_bytes
header_bytes h = u32_bytes h.command ++ u32_bytes h.payload_length ++ u32_bytes h.result

unfoldable pub header_of : List ℕ → Header
unfolding u32_at
header_of bs = record { command = u32_at bs 0; payload_length = u32_at bs 4; result = u32_at bs 8 }

-- What GetResponse returns: an error of its own, or the int of the header.
pub data Reply : Type 0 where
  lost : Errno → Reply
  replied : ℕ → Reply

-- HDLGMAN_SERVER_RESPONSE is 0.
abbrev pub response_header : (rcode len : ℕ) → Header
response_header rcode len = record { command = 0; payload_length = len; result = rcode }

module _ (k : Socket) where
  open k use {Conn}

  -- `result > 0 ? PayloadLength : result`
  unfoldable pub with_payload_length : ℕ → Option (Code × Conn) → Option (Code × Conn)
  with_payload_length len none = none
  with_payload_length len (some (err e, c)) = some (err e, c)
  with_payload_length len (some (ok zero, c)) = some (ok zero, c)
  with_payload_length len (some (ok (suc n), c)) = some (ok len, c)

  -- SendPayload
  unfoldable pub send_payload : (fuel : ℕ) → Conn → List ℕ → Option (Code × Conn)
  unfolding with_payload_length
  send_payload fuel c payload =
      with_payload_length (length payload) (send_loop k failure fuel c payload 0)

  -- SendPayload behind the header, when that has been sent.
  unfoldable pub after_header : (fuel : ℕ) → List ℕ → Option (Code × Conn) → Option (Code × Conn)
  unfolding send_payload
  after_header fuel payload none = none
  after_header fuel payload (some (err e, c)) = some (err e, c)
  after_header fuel payload (some (ok n, c)) = send_payload fuel c payload

  -- SendResponse
  unfoldable pub send_response : (fuel : ℕ) → Conn → (rcode : ℕ) → List ℕ → Option (Code × Conn)
  unfolding after_header
  send_response fuel c rcode payload =
      after_header fuel payload
        (send_loop k failure fuel c (header_bytes (response_header rcode (length payload))) 0)

  -- `(int)header.PayloadLength > NumBytes ? NumBytes : header.PayloadLength`, as the number of bytes
  -- that the loop of DoRecv then asks for: none when the int is negative.
  unfoldable pub payload_bytes : (num_bytes payload_length : ℕ) → ℕ
  payload_bytes num_bytes payload_length =
      if leb (2 ^ 31) payload_length then 0 else min num_bytes payload_length

  -- The result of GetResponse once the payload has been asked for.
  unfoldable pub after_payload :
      Header → Option (Code × List ℕ × Conn) → Option (Reply × List ℕ × Conn)
  after_payload h none = none
  after_payload h (some (err e, bs, c)) = some (lost e, bs, c)
  after_payload h (some (ok zero, bs, c)) = some (replied 0, bs, c)
  after_payload h (some (ok (suc n), bs, c)) = some (replied h.result, bs, c)

  -- GetResponse, once the header has come.
  unfoldable pub with_header :
      (fuel : ℕ) → Header → (num_bytes : ℕ) → Conn → Option (Reply × List ℕ × Conn)
  unfolding after_payload payload_bytes
  with_header fuel h num_bytes c =
      if ltb 0 num_bytes
      then if ltb 0 h.payload_length
        then after_payload h (receive_data k fuel c (payload_bytes num_bytes h.payload_length))
        else some (replied h.result, [], c)
      else some (replied h.result, [], c)

  unfoldable pub after_head :
      (fuel num_bytes : ℕ) → Option (Code × List ℕ × Conn) → Option (Reply × List ℕ × Conn)
  unfolding with_header header_of
  after_head fuel num_bytes none = none
  after_head fuel num_bytes (some (err e, bs, c)) = some (lost e, [], c)
  after_head fuel num_bytes (some (ok n, bs, c)) = with_header fuel (header_of bs) num_bytes c

  -- GetResponse. (ReceiveData gives nothing but the header's size where it does not fail.)
  unfoldable pub get_response : (fuel : ℕ) → Conn → (num_bytes : ℕ) → Option (Reply × List ℕ × Conn)
  unfolding after_head
  get_response fuel c num_bytes = after_head fuel num_bytes (receive_data k fuel c header_size)
