-- ===== src/Net/Socket.antt =====
-- A stream socket. send, recv and select are the network stack's: they are fields of a record, with
-- what the loops rely on as its laws.
use hdlgame_installer.Base.{ℕ, ◌≤◌, Bool, List, ◌++◌, ◌≡◌, length, take, Code, ok, err, Errno}

-- send gives the number of bytes that it has taken, which may be fewer than it was given; recv gives
-- the next bytes that have come, at most as many as were asked for. Neither does anything when it
-- fails. `readable` is select's test within the time limit.
pub record Socket : Type 1 where
  pub Conn : Type 0
  pub send : Conn → List ℕ → Code × Conn
  pub recv : Conn → ℕ → Code × List ℕ × Conn
  pub readable : Conn → Bool
  pub sent : Conn → List ℕ
  pub incoming : Conn → List ℕ
  pub send_ok :
      (c : Conn) (bs : List ℕ) {n : ℕ} {c' : Conn}
      → send c bs ≡ (ok n, c')
      → (n ≤ length bs) × (sent c' ≡ sent c ++ take n bs)
  pub send_err :
      (c : Conn) (bs : List ℕ) {e : Errno} {c' : Conn} → send c bs ≡ (err e, c') → sent c' ≡ sent c
  pub recv_ok :
      (c : Conn) (len : ℕ) {n : ℕ} {bs : List ℕ} {c' : Conn}
      → recv c len ≡ (ok n, bs, c')
      → (n ≡ length bs) × (n ≤ len) × (incoming c ≡ bs ++ incoming c')
  pub recv_err :
      (c : Conn) (len : ℕ) {e : Errno} {bs : List ℕ} {c' : Conn}
      → recv c len ≡ (err e, bs, c')
      → incoming c' ≡ incoming c
