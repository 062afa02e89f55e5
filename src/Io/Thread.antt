-- ===== src/Io/Thread.antt =====
-- io.c: IOThread, and the calls that wait for it. Here a thread runs from one SleepThread to the
-- next, or to ExitDeleteThread, in one step.
pub mod End
use hdlgame_installer.Base.{
  ℕ, zero, suc, ◌+◌, false, Option, none, some, Code, ok, err, if◌then◌else◌,
}
use hdlgame_installer.Io.State.{
  IoState, ThreadState, state_error, Command, cmd_none, cmd_write, cmd_write_end, cmd_read,
  cmd_read_end, io_exec,
}
use hdlgame_installer.Io.Device.{File}
use hdlgame_installer.Io.Write.{exec_write_next}
use hdlgame_installer.Io.Read.{exec_read_next}

-- `IOState.state = IO_THREAD_STATE_ERROR; ExitDeleteThread();`
unfoldable pub die : IoState → IoState
die s = record s { state = state_error; alive = false }

-- `SignalSema(IOState.CmdAckSema); ExitDeleteThread();`
unfoldable pub acknowledge : IoState → IoState
acknowledge s = record s { cmd_ack_sema = s.cmd_ack_sema + 1; alive = false }

module _ (k : File) where
  open k use {Dev}

  -- The handling of IO_THREAD_CMD_WRITE and IO_THREAD_CMD_READ, after the call.
  unfoldable pub after_exec : Option (Code × IoState × Dev) → Option (IoState × Dev)
  unfolding die
  after_exec none = none
  after_exec (some (ok n, s, d)) = some (s, d)
  after_exec (some (err e, s, d)) = some (die s, d)

  -- `while ((result = IOExecWriteNext()) > 0) {};`, with what follows it. `rounds` bounds the loop.
  unfoldable pub drain : (rounds fuel : ℕ) → IoState → Dev → Option (IoState × Dev)
  unfolding acknowledge
  drain zero fuel s d = none
  drain (suc rounds) fuel s d = elim (exec_write_next k fuel s d) [
    | none ↦ none
    | some (r, s', d') ↦ elim r [
      | ok n ↦ elim n [ zero ↦ some (acknowledge s', d') | suc m ↦ drain rounds fuel s' d' ]
      | err e ↦ some (acknowledge (record s' { state = state_error }), d')
    ]
  ]

  -- The `switch` of IOThread.
  unfoldable pub dispatch : ℕ → Command → IoState → Dev → Option (IoState × Dev)
  unfolding after_exec drain acknowledge
  dispatch fuel cmd_none s d = some (s, d)
  dispatch fuel cmd_write s d = after_exec (exec_write_next k fuel s d)
  dispatch fuel cmd_write_end s d = drain (s.out_buf_sema + 1) fuel s d
  dispatch fuel cmd_read s d = after_exec (exec_read_next k fuel s d)
  dispatch fuel cmd_read_end s d = some (acknowledge s, d)

  -- One round of IOThread: nothing happens while SleepThread sleeps, or once the thread is gone.
  unfoldable pub io_thread : ℕ → IoState → Dev → Option (IoState × Dev)
  unfolding dispatch
  io_thread fuel s d =
      if s.alive
      then elim s.wakeups [
        | zero ↦ some (s, d)
        | suc n ↦ dispatch fuel s.command (record s { wakeups = n }) d
      ]
      else some (s, d)

  -- How a call that waits for CmdAckSema ends: `hangs` where no SignalSema can come any more.
  pub data Waited : Type 0 where
    returned : ThreadState → Dev → Waited
    hangs : Waited

  -- WaitSema(IOState.CmdAckSema), IOEnd and the return of IOState.state.
  unfoldable pub await_ack : Option (IoState × Dev) → Option Waited
  await_ack none = none
  await_ack (some (s, d)) = elim s.cmd_ack_sema [
    | zero ↦ some hangs
    | suc n ↦ some (returned s.state d)
  ]

  -- IOExecWait and IOEnd.
  unfoldable pub io_end : ℕ → Command → IoState → Dev → Option Waited
  unfolding io_thread await_ack io_exec
  io_end fuel cmd s d = await_ack (io_thread fuel (io_exec cmd s) d)

  unfoldable pub io_end_write : ℕ → IoState → Dev → Option Waited
  unfolding io_end
  io_end_write fuel s d = io_end fuel cmd_write_end s d

  unfoldable pub io_end_read : ℕ → IoState → Dev → Option Waited
  unfolding io_end
  io_end_read fuel s d = io_end fuel cmd_read_end s d
