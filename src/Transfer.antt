-- ===== src/Transfer.antt =====
-- HDLGameSvr.c: WriteGame, the data thread's loop that receives a game and hands it to the I/O
-- thread of io.c. The two threads run against each other: `Step` has one constructor for each piece
-- of WriteGame between two points where it can be switched out, and one for a round of IOThread.
pub mod Faithful
pub mod Complete
use hdlgame_installer.Base.{
  ℕ, suc, ◌+◌, ◌-◌, ◌*◌, ◌<◌, Bool, List, [], ◌++◌, Option, some, ◌≡◌, Code, ok, err, Errno, eio,
  epipe, if◌then◌else◌, ltb, length, min,
}
use hdlgame_installer.Io.State.{
  IoState, ThreadState, state_ok, state_error, get_next_wr_buffer, io_get_status, io_write_init,
}
use hdlgame_installer.Io.Device.{File}
use hdlgame_installer.Io.Thread.{io_thread}
use hdlgame_installer.Io.Write.Put.{fill_bank}

-- IO_BANKSIZE and IO_BANKMAX of io.h.
abbrev pub io_bank_size : ℕ
io_bank_size = 256

abbrev pub io_bank_max : ℕ
io_bank_max = 32

-- Where WriteGame stands: at the loop's test, in ReceiveData with a bank taken, between
-- IOSignalWriteDone and IOGetStatus, or past the loop.
pub data Phase : Type 0 where
  testing filling signalled : Phase
  finished : Code → Phase

module _ (k : File) where
  open k use {Dev}

  -- InstallationContext->remaining, the ring, the game's partition, and the bytes that ReceiveData
  -- has given so far.
  pub record Transfer : Type 0 where
    pub io : IoState
    pub dev : Dev
    pub remaining : ℕ
    pub received : List ℕ
    pub phase : Phase

-- `len = remaining > IO_BANKSIZE ? IO_BANKSIZE : remaining`
unfoldable pub chunk_sectors : ℕ → ℕ
chunk_sectors remaining = if ltb io_bank_size remaining then io_bank_size else remaining

-- ReceiveData has given `bs`, and IOSignalWriteDone hands the bank over.
unfoldable pub after_receive : (k : File) → Transfer k → List ℕ → Transfer k
after_receive k t bs = record t {
  io = fill_bank t.io bs;
  received = t.received ++ bs;
  phase = signalled;
}

-- What IOGetStatus has given is tested, and the chunk is counted.
unfoldable pub settle : (k : File) → ThreadState → Transfer k → Transfer k
unfolding chunk_sectors
settle k state_error t = record t { phase = finished (err eio) }
settle k state_ok t = record t {
  remaining = t.remaining - chunk_sectors t.remaining;
  phase = testing;
}

-- The pieces of WriteGame as functions of the state, for the constructors below.
abbrev pub with_bank : (k : File) → Transfer k → IoState → Transfer k
with_bank k t io' = record t { io = io'; phase = filling }

pub data Step (k : File) (fuel : ℕ) (t u : Transfer k) : Type 0 where
  -- IOGetNextWrBuffer does not block, and sectors remain.
  take_bank :
      (address : ℕ) (io' : IoState)
      → t.phase ≡ testing
      → 0 < t.remaining
      → get_next_wr_buffer t.io ≡ some (address, io')
      → u ≡ with_bank k t io'
      → Step k fuel t u
  -- ReceiveData returns lenBytes.
  receive :
      (bs : List ℕ)
      → t.phase ≡ filling
      → length bs ≡ chunk_sectors t.remaining * 2048
      → u ≡ after_receive k t bs
      → Step k fuel t u
  -- IOGetStatus, at the state that the I/O thread has by then.
  check_status : t.phase ≡ signalled → u ≡ settle k (io_get_status t.io) t → Step k fuel t u
  -- ReceiveData fails.
  connection_lost :
      t.phase ≡ filling → u ≡ record t { phase = finished (err epipe) } → Step k fuel t u
  -- Nothing remains.
  complete :
      t.phase ≡ testing
      → t.remaining ≡ 0
      → u ≡ record t { phase = finished (ok 0) }
      → Step k fuel t u
  -- The I/O thread runs.
  run_io :
      (r : IoState × k.Dev)
      → io_thread k fuel t.io t.dev ≡ some r
      → u ≡ record t { io = r.0; dev = r.1 }
      → Step k fuel t u

pub data Reach (k : File) (fuel : ℕ) (t : Transfer k) : Transfer k → Type 0 where
  here : Reach k fuel t t
  next : {u v : Transfer k} → Reach k fuel t u → Step k fuel u v → Reach k fuel t v

-- The state in which MountOpenGame leaves a game opened for writing.
unfoldable pub begin_write : (k : File) → IoState → (ℕ → ℕ) → (ℕ → ℕ) → k.Dev → ℕ → Transfer k
unfolding io_write_init
begin_write k old buffers bd d sectors = record {
  io = io_write_init old buffers bd io_bank_size io_bank_max;
  dev = d;
  remaining = sectors;
  received = [];
  phase = testing;
}
