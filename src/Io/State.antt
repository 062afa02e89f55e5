-- ===== src/Io/State.antt =====
-- io.c: `struct IOState`, its two enumerations, and the calls that only change it.
use hdlgame_installer.Base.{
  ℕ, zero, suc, ◌+◌, ◌-◌, ◌*◌, ◌%◌, Bool, true, List, Option, none, some, if◌then◌else◌, ◌==◌,
  Memory, slice,
}

-- enum IO_THREAD_STATE
pub data ThreadState : Type 0 where
  state_ok state_error : ThreadState

-- enum IO_THREAD_CMD
pub data Command : Type 0 where
  cmd_none cmd_write cmd_write_end cmd_read cmd_read_end : Command

pub record IoState : Type 0 where
  pub buffer : Memory
  pub bd : ℕ → ℕ
  pub write_ptr : ℕ
  pub read_ptr : ℕ
  pub bufmax : ℕ
  pub nbufs : ℕ
  pub state : ThreadState
  pub command : Command
  pub remaining : ℕ
  pub cmd_ack_sema : ℕ
  pub in_buf_sema : ℕ
  pub out_buf_sema : ℕ
  pub held : ℕ
  pub wakeups : ℕ
  pub alive : Bool

-- The bytes of one bank: IOState.bufmax sectors of 2048 bytes.
abbrev pub bank_size : IoState → ℕ
bank_size s = s.bufmax * 2048

-- IOInitCommon, once the semaphores and the thread exist. (The memory keeps what it held.)
unfoldable pub io_init_common : IoState → Memory → (ℕ → ℕ) → ℕ → ℕ → IoState
io_init_common s buffers bd bufmax nbufs = record {
  buffer = buffers;
  bd = bd;
  write_ptr = 0;
  read_ptr = 0;
  bufmax = bufmax;
  nbufs = nbufs;
  state = state_ok;
  command = cmd_none;
  remaining = s.remaining;
  cmd_ack_sema = 0;
  in_buf_sema = nbufs;
  out_buf_sema = 0;
  held = 0;
  wakeups = 0;
  alive = true;
}

-- IOExec: set the command, and wake the thread.
unfoldable pub io_exec : Command → IoState → IoState
io_exec cmd s = record s { command = cmd; wakeups = suc s.wakeups }

unfoldable pub io_write_init : IoState → Memory → (ℕ → ℕ) → ℕ → ℕ → IoState
unfolding io_init_common
io_write_init s buffers bd bufmax nbufs = io_init_common s buffers bd bufmax nbufs

unfoldable pub io_read_init : IoState → Memory → (ℕ → ℕ) → ℕ → ℕ → ℕ → IoState
unfolding io_init_common io_exec
io_read_init s buffers bd bufmax nbufs remaining =
    io_exec cmd_read (io_init_common (record s { remaining = remaining }) buffers bd bufmax nbufs)

-- IOGetNextWrBuffer: `none` where WaitSema would block; otherwise the address of the bank.
unfoldable pub get_next_wr_buffer : IoState → Option (ℕ × IoState)
get_next_wr_buffer s = elim s.in_buf_sema [
  | zero ↦ none
  | suc n ↦ some (bank_size s * s.write_ptr, record s { in_buf_sema = n; held = s.held + 1 })
]

-- The entry of IOState.bd at `i` is set.
abbrev pub set_length : (ℕ → ℕ) → ℕ → ℕ → ℕ → ℕ
set_length bd i length x = if x == i then length else bd x

-- IOSignalWriteDone
unfoldable pub signal_write_done : ℕ → IoState → IoState
unfolding io_exec
signal_write_done length s = io_exec cmd_write (record s {
  bd = set_length s.bd s.write_ptr length;
  write_ptr = (s.write_ptr + 1) % s.nbufs;
  out_buf_sema = s.out_buf_sema + 1;
  held = s.held - 1;
})

-- IORead: `none` where WaitSema would block; otherwise the bytes copied out (their number is what
-- the function returns).
unfoldable pub io_read : IoState → Option (List ℕ × IoState)
unfolding io_exec
io_read s = elim s.out_buf_sema [
  | zero ↦ none
  | suc n ↦ some (
    slice s.buffer (s.read_ptr * bank_size s) (s.bd s.read_ptr),
    io_exec cmd_read (record s {
      out_buf_sema = n;
      read_ptr = (s.read_ptr + 1) % s.nbufs;
      in_buf_sema = s.in_buf_sema + 1;
    }),
  )
]

-- IOReadNext: the bank stays taken until IOReadAdvance gives it back.
unfoldable pub io_read_next : IoState → Option (List ℕ × IoState)
io_read_next s = elim s.out_buf_sema [
  | zero ↦ none
  | suc n ↦ some (
    slice s.buffer (s.read_ptr * bank_size s) (s.bd s.read_ptr),
    record s { out_buf_sema = n; read_ptr = (s.read_ptr + 1) % s.nbufs; held = s.held + 1 },
  )
]

unfoldable pub io_read_advance : IoState → IoState
unfolding io_exec
io_read_advance s =
    io_exec cmd_read (record s { in_buf_sema = s.in_buf_sema + 1; held = s.held - 1 })

-- IOGetStatus
abbrev pub io_get_status : IoState → ThreadState
io_get_status s = s.state
