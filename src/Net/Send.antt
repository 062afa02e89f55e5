-- ===== src/Net/Send.antt =====
-- HDLGameSvr.c: the loops of SendResponse and SendPayload; client.c: DoSend, which is the same loop.
pub mod All
use hdlgame_installer.Base.{
  ℕ, zero, suc, List, [], ◌∷◌, Option, none, some, Code, ok, err, Errno, drop,
}
use hdlgame_installer.Net.Socket.{Socket}

module _ (k : Socket) where
  open k use {Conn, send}

  -- `while (remaining > 0)`: `last` is the variable result, and `failed` its value after a send that
  -- takes nothing or fails. `none` means that the fuel ran out.
  unfoldable pub send_loop : Errno → (fuel : ℕ) → Conn → List ℕ → (last : ℕ) → Option (Code × Conn)
  send_loop failed fuel c [] last = some (ok last, c)
  send_loop failed zero c (b ∷ bs) last = none
  send_loop failed (suc fuel) c (b ∷ bs) last =
      let (r, c') = send c (b ∷ bs) in
      elim r [
        | err e ↦ some (err failed, c')
        | ok n ↦ elim n [
          | zero ↦ some (err failed, c')
          | suc m ↦ send_loop failed fuel c' (drop m bs) (suc m)
        ]
      ]
