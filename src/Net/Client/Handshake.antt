-- ===== src/Net/Client/Handshake.antt =====
-- client.c: what SendCmdPacket puts on the wire, and the client's handshake with a server.
use hdlgame_installer.Base.{
  ℕ, zero, suc, ◌≤◌, true, List, [], ◌∷◌, ◌++◌, Option, none, some, Code, ok, err, conn_lost,
  if◌then◌else◌, ltb, length, ◌≡◌, sym, ap, ◌∙◌, arith,
}
use mathlib.Core.List.{append_assoc, append-nil}
use hdlgame_installer.Net.Socket.{Socket}
use hdlgame_installer.Net.Send.{send_loop}
use hdlgame_installer.Net.Send.All.{Sent, Sent-after, send_loop-Sent}
use hdlgame_installer.Net.Packet.{header_size, header_bytes, with_payload_length}
use hdlgame_installer.Net.Packet.Exchange.{length-header_bytes}
use hdlgame_installer.Net.Client.{command_header, do_send, after_command, send_cmd_packet}

positive : (n : ℕ) → ltb 0 (suc n) ≡ true
positive n = ground arith

module _ (k : Socket) where
  open k use {Conn, sent, incoming}

  do_send-Sent :
      (fuel : ℕ) (c : Conn) (bs : List ℕ)
      → length bs ≤ fuel
      → Sent k conn_lost c bs (do_send k fuel c bs)
  unfolding do_send with_payload_length
  do_send-Sent fuel c bs enough =
      at (send_loop k conn_lost fuel c bs 0) (send_loop-Sent k conn_lost fuel c bs 0 enough)
    where
      at :
          (o : Option (Code × Conn))
          → Sent k conn_lost c bs o
          → Sent k conn_lost c bs (with_payload_length k (length bs) o)
      at none s = s
      at (some (err e, c')) s = s
      at (some (ok zero, c')) s = s
      at (some (ok (suc n), c')) s = s

  -- SendCmdPacket ends, and has sent the header of the command and then its payload; or it reports
  -- that the connection is lost, and has sent a beginning of them.
  pub send_cmd_packet-Sent :
      (fuel : ℕ) (c : Conn) (command : ℕ) (payload : List ℕ)
      → header_size ≤ fuel
      → length payload ≤ fuel
      → Sent k conn_lost c
          (header_bytes (command_header command (length payload)) ++ payload)
          (send_cmd_packet k fuel c command payload)
  unfolding send_cmd_packet after_command
  send_cmd_packet-Sent fuel c command payload room enough = at (do_send k fuel c head) (
      do_send-Sent fuel c head
        (omega (arith, length-header_bytes (command_header command (length payload)))))
    where
      head : List ℕ
      head = header_bytes (command_header command (length payload))

      tail :
          (c' : Conn) (ps : List ℕ)
          → length ps ≤ fuel
          → Sent k conn_lost c' ps
              (if ltb 0 (length ps) then do_send k fuel c' ps else some (ok 0, c'))
      tail c' [] le = sym (append-nil (sent c'))
      tail c' (p ∷ ps) le = pos (do_send-Sent fuel c' (p ∷ ps) le)
        where
          pos :
              Sent k conn_lost c' (p ∷ ps) (do_send k fuel c' (p ∷ ps))
              → Sent k conn_lost c'
                  (p ∷ ps)
                  (if ltb 0 (length (p ∷ ps)) then do_send k fuel c' (p ∷ ps) else some (ok 0, c'))
          pos s = rw (positive (length ps)) s

      at :
          (o : Option (Code × Conn))
          → Sent k conn_lost c head o
          → Sent k conn_lost c (head ++ payload) (after_command k fuel payload o)
      at none s = s
      at (some (err e, c')) s = (
        s.0,
        s.1 ++ payload,
        sym (append_assoc (sent c') s.1 payload)
            ∙ ap (λ xs. xs ++ payload) s.2
            ∙ append_assoc (sent c) head payload,
      )
      at (some (ok n, c')) s =
          Sent-after k conn_lost c c' head payload
            (if ltb 0 (length payload) then do_send k fuel c' payload else some (ok 0, c')) s
            (tail c' payload enough)
