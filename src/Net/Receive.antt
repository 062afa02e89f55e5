-- ===== src/Net/Receive.antt =====
-- HDLGameSvr.c: ReceiveData; client.c: DoRecv, which is the same loop.
pub mod All
use hdlgame_installer.Base.{
  ℕ, zero, suc, ◌-◌, Bool, true, false, List, [], ◌++◌, Option, none, some, Code, ok, err, Errno,
  conn_lost, if◌then◌else◌,
}
use hdlgame_installer.Net.Socket.{Socket}

module _ (k : Socket) where
  open k use {Conn, recv, readable}

  -- The bytes of one recv in front of those of the rest of the loop.
  unfoldable pub prepend : List ℕ → Option (Code × List ℕ × Conn) → Option (Code × List ℕ × Conn)
  prepend bs none = none
  prepend bs (some (r, rest, c)) = some (r, bs ++ rest, c)

  -- `for (…; remaining > 0; remaining -= result, ptr += result)`: `last` is the variable result. The
  -- bytes are those that have been put into the buffer. `none` means that the fuel ran out.
  unfoldable pub recv_loop :
      (fuel : ℕ) → Conn → (remaining last : ℕ) → Option (Code × List ℕ × Conn)
  unfolding prepend
  recv_loop fuel c zero last = some (ok last, [], c)
  recv_loop zero c (suc m) last = none
  recv_loop (suc fuel) c (suc m) last =
      let (r, bs, c') = recv c (suc m) in
      let received : Option (Code × List ℕ × Conn) = elim r [
        | err e ↦ some (err conn_lost, [], c')
        | ok n ↦ elim n [
          | zero ↦ some (err conn_lost, [], c')
          | suc j ↦ prepend bs (recv_loop fuel c' (m - j) (suc j))
        ]
      ] in
      if readable c then received else some (err conn_lost, [], c)

  -- `if (result > 0) result = length;`
  unfoldable pub with_length : ℕ → Option (Code × List ℕ × Conn) → Option (Code × List ℕ × Conn)
  with_length len none = none
  with_length len (some (err e, bs, c)) = some (err e, bs, c)
  with_length len (some (ok zero, bs, c)) = some (ok zero, bs, c)
  with_length len (some (ok (suc n), bs, c)) = some (ok len, bs, c)

  unfoldable pub receive_data : (fuel : ℕ) → Conn → (len : ℕ) → Option (Code × List ℕ × Conn)
  unfolding recv_loop with_length
  receive_data fuel c len = with_length len (recv_loop fuel c len 0)
