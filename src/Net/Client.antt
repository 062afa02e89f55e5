-- ===== src/Net/Client.antt =====
-- HDLGManClient/client.c: the PC's side of the command connection and of the data connection.
pub mod Handshake
use hdlgame_installer.Base.{
  ℕ, zero, suc, ◌+◌, Bool, true, false, List, [], ◌∷◌, ◌++◌, Option, none, some, Code, ok, err,
  Errno, conn_lost, einval, eio, if◌then◌else◌, ltb, ◌==◌, length,
}
use hdlgame_installer.Net.Socket.{Socket}
use hdlgame_installer.Net.Send.{send_loop}
use hdlgame_installer.Net.Receive.{receive_data}
use hdlgame_installer.Net.Packet.{
  u32_bytes, u32_at, Header, header_size, header_bytes, Reply, lost, replied, with_payload_length,
  get_response,
}

-- A command has result 0 in its header.
abbrev pub command_header : (command len : ℕ) → Header
command_header command len = record { command = command; payload_length = len; result = 0 }

-- HDLGMAN_SERVER_GET_VERSION, HDLGMAN_CLIENT_SEND_VERSION and the versions of both sides.
abbrev pub server_get_version : ℕ
server_get_version = 1

abbrev pub client_send_version : ℕ
client_send_version = 2

abbrev pub protocol_version : ℕ
protocol_version = 0x0C

-- `int version = -1`, over which GetResponse has copied the payload.
unfoldable pub version_word : List ℕ → ℕ
unfolding u32_at
version_word bs = u32_at (bs ++ (0xFF ∷ 0xFF ∷ 0xFF ∷ 0xFF ∷ [])) 0

-- InitializeClientSys: what WSAStartup says, and the version that it gives.
unfoldable pub initialize_client_sys : (started : Bool) (version : ℕ) → Code
initialize_client_sys started version =
    if started then (if version == 0x0202 then ok 0 else err einval) else err eio

-- AcceptDataConnection: whether a connection has come in time, and what accept gives.
unfoldable pub accept_data_connection :
    {A : Type 0} (in_time : Bool) (peer : A) (data_connection : A) → Code × A
accept_data_connection true peer data_connection = (ok 0, peer)
accept_data_connection false peer data_connection = (err conn_lost, data_connection)

module _ (k : Socket) where
  open k use {Conn}

  -- DoSend, with its `if (result > 0) result = length`.
  unfoldable pub do_send : (fuel : ℕ) → Conn → List ℕ → Option (Code × Conn)
  unfolding with_payload_length
  do_send fuel c bs = with_payload_length k (length bs) (send_loop k conn_lost fuel c bs 0)

  -- SendCmdPacket's payload, when the header has been sent.
  unfoldable pub after_command : (fuel : ℕ) → List ℕ → Option (Code × Conn) → Option (Code × Conn)
  unfolding do_send
  after_command fuel payload none = none
  after_command fuel payload (some (err e, c)) = some (err e, c)
  after_command fuel payload (some (ok n, c)) =
      if ltb 0 (length payload) then do_send fuel c payload else some (ok 0, c)

  -- SendCmdPacket
  unfoldable pub send_cmd_packet : (fuel : ℕ) → Conn → (command : ℕ) → List ℕ → Option (Code × Conn)
  unfolding after_command do_send
  send_cmd_packet fuel c command payload =
      after_command fuel payload
        (do_send fuel c (header_bytes (command_header command (length payload))))

  -- The last GetResponse of the handshake, whose result is the whole's.
  unfoldable pub after_version_sent : (fuel : ℕ) → Option (Code × Conn) → Option (Reply × Conn)
  after_version_sent fuel none = none
  after_version_sent fuel (some (r, c)) = elim (get_response k fuel c 0) [
    | none ↦ none
    | some (reply, bs, c') ↦ some (reply, c')
  ]

  -- The comparison of the server's version, which the first response has brought. The result of
  -- sending the client's is not looked at. -EINVAL is a `lost` here: an error of the function's own.
  unfoldable pub after_version : (fuel : ℕ) → Option (Reply × List ℕ × Conn) → Option (Reply × Conn)
  unfolding after_version_sent version_word
  after_version fuel none = none
  after_version fuel (some (lost e, bs, c)) = some (lost e, c)
  after_version fuel (some (replied r, bs, c)) =
      if r == 0
      then if version_word bs == protocol_version
        then after_version_sent fuel
            (send_cmd_packet fuel c client_send_version (u32_bytes protocol_version))
        else some (lost einval, c)
      else some (replied r, c)

  unfoldable pub after_get_version : (fuel : ℕ) → Option (Code × Conn) → Option (Reply × Conn)
  unfolding after_version
  after_get_version fuel none = none
  after_get_version fuel (some (err e, c)) = some (lost e, c)
  after_get_version fuel (some (ok n, c)) = after_version fuel (get_response k fuel c 4)

  -- ExchangeHandshakesWithServer
  unfoldable pub exchange_handshakes : (fuel : ℕ) → Conn → Option (Reply × Conn)
  unfolding after_get_version
  exchange_handshakes fuel c = after_get_version fuel (send_cmd_packet fuel c server_get_version [])

  -- ReconnectToServer: what connect gives, and then the handshake.
  unfoldable pub reconnect_to_server : (fuel : ℕ) → Code → Conn → Option (Reply × Conn)
  unfolding exchange_handshakes
  reconnect_to_server fuel (ok n) c = exchange_handshakes fuel c
  reconnect_to_server fuel (err e) c = some (lost e, c)
