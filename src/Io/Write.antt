-- ===== src/Io/Write.antt =====
-- io.c, the writing side of the I/O thread: IOExecWriteNext.
pub mod Stream
pub mod Put
use hdlgame_installer.Base.{
  ℕ, zero, suc, ◌+◌, ◌-◌, ◌*◌, ◌%◌, Bool, List, Option, none, some, Code, ok, err, if◌then◌else◌,
  slice,
}
use hdlgame_installer.Io.State.{IoState, bank_size}
use hdlgame_installer.Io.Device.{File, must_retry}

-- The loop's variables: PollSema's count, toWrite and partitionsCleared.
pub record Gather : Type 0 where
  pub sema : ℕ
  pub to_write : ℕ
  pub cleared : ℕ

-- The `for` that takes further banks up to the end of the ring: `rounds` is what is left of
-- nbufs - nextReadPtr, and PollSema fails at a count of 0.
unfoldable pub gather : (ℕ → ℕ) → (rounds next_read_ptr sema to_write cleared : ℕ) → Gather
gather bd zero next sema to_write cleared = record {
  sema = sema;
  to_write = to_write;
  cleared = cleared;
}
gather bd (suc rounds) next zero to_write cleared = record {
  sema = 0;
  to_write = to_write;
  cleared = cleared;
}
gather bd (suc rounds) next (suc sema) to_write cleared =
    gather bd rounds (next + 1) sema (to_write + bd next) (cleared + 1)

-- The banks of one call, once the first PollSema has taken one of the `suc sema` permits.
abbrev pub gathered : IoState → ℕ → Gather
gathered s sema = gather s.bd (s.nbufs - (s.read_ptr + 1)) (s.read_ptr + 1) sema (s.bd s.read_ptr) 1

-- Update of the state after fileXioWrite. On an error the permits that were taken stay taken.
unfoldable pub advance_read : IoState → Gather → Code → IoState
advance_read s g (ok n) = record s {
  read_ptr = (s.read_ptr + g.cleared) % s.nbufs;
  in_buf_sema = s.in_buf_sema + g.cleared;
  out_buf_sema = g.sema;
}
advance_read s g (err e) = record s { out_buf_sema = g.sema }

module _ (k : File) where
  open k use {Dev, write}

  -- `do { result = fileXioWrite(…); } while (result < 0 && result != -EIO);`
  -- `none` means that the fuel ran out.
  unfoldable pub write_retry : ℕ → Dev → List ℕ → Option (Code × Dev)
  write_retry zero d bs = none
  write_retry (suc fuel) d bs =
      let (r, d') = write d bs in
      let again : Option (Code × Dev) = write_retry fuel d' bs in
      if must_retry r then again else some (r, d')

  -- What IOExecWriteNext makes of the outcome of the retries.
  unfoldable pub write_finish :
      IoState → Gather → Option (Code × Dev) → Option (Code × IoState × Dev)
  write_finish s g none = none
  write_finish s g (some (r, d)) = some (r, advance_read s g r, d)

  -- IOExecWriteNext, at the count that PollSema finds.
  unfoldable pub exec_write_at : ℕ → IoState → Dev → ℕ → Option (Code × IoState × Dev)
  unfolding write_finish advance_read
  exec_write_at fuel s d zero = some (ok 0, s, d)
  exec_write_at fuel s d (suc n) =
      let g = gathered s n in
      write_finish s g (write_retry fuel d (slice s.buffer (s.read_ptr * bank_size s) g.to_write))

  unfoldable pub exec_write_next : ℕ → IoState → Dev → Option (Code × IoState × Dev)
  unfolding exec_write_at
  exec_write_next fuel s d = exec_write_at fuel s d s.out_buf_sema
