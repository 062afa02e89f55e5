-- ===== src/Tests/Transfers.antt =====
-- Runs of WriteGame with one 2048-byte sector, and of IOEndWrite.
use hdlgame_installer.Base.{
  ℕ, false, List, [], ◌++◌, Option, some, ◌≡◌, refl, ◌⊎◌, arith, length, replicate, ok,
}
use hdlgame_installer.Io.State.{
  IoState, ThreadState, state_ok, state_error, cmd_none, io_init_common, get_next_wr_buffer,
  io_exec, signal_write_done, io_write_init,
}
use hdlgame_installer.Io.Device.{File, must_retry}
use hdlgame_installer.Io.Write.{
  write_retry, exec_write_next, exec_write_at, write_finish, advance_read, gather,
}
use hdlgame_installer.Io.Write.Stream.{IsRing, pending}
use hdlgame_installer.Io.Thread.{
  returned, hangs, io_end_write, io_thread, dispatch, after_exec, die,
}
use hdlgame_installer.Io.Thread.End.{Covers, io_end_write_returns}
use hdlgame_installer.Transfer.{
  Transfer, finished, chunk_sectors, settle, after_receive, with_bank, take_bank, receive,
  check_status, complete, run_io, Reach, here, next, begin_write,
}
use hdlgame_installer.Transfer.Complete.{
  partition_holds_prefix, transfer_complete, failed_transfer_hangs,
}
use hdlgame_installer.Tests.Disks.{good_disk, bad_disk}

good_disk-Covers : Covers good_disk 1
unfolding write_retry must_retry
good_disk-Covers d bs = ((ok (length bs), d ++ bs), refl)

abbrev memory : ℕ → ℕ
memory x = 0

abbrev before : IoState
before = record {
  buffer = memory;
  bd = memory;
  write_ptr = 0;
  read_ptr = 0;
  bufmax = 0;
  nbufs = 0;
  state = state_ok;
  command = cmd_none;
  remaining = 0;
  cmd_ack_sema = 0;
  in_buf_sema = 0;
  out_buf_sema = 0;
  held = 0;
  wakeups = 0;
  alive = false;
}

abbrev sector : List ℕ
sector = replicate 2048 7

module _ (k : File) (d : k.Dev) where
  abbrev start : Transfer k
  start = begin_write k before memory memory d 1

  abbrev taken : Transfer k
  taken = with_bank k start (record start.io { in_buf_sema = 31; held = 1 })

  abbrev received_one : Transfer k
  received_one = after_receive k taken sector

  run_received : Reach k 1 start received_one
  unfolding begin_write io_write_init io_init_common get_next_wr_buffer chunk_sectors
  run_received =
      next
        (next here (
          take_bank 0 (record start.io { in_buf_sema = 31; held = 1 }) refl (omega arith) refl
            refl))
        (receive sector refl refl refl)

  abbrev tested : Transfer k
  tested = settle k state_ok received_one

  abbrev done : Transfer k
  done = record tested { phase = finished (ok 0) }

  run_done : Reach k 1 start done
  unfolding begin_write io_write_init io_init_common after_receive settle chunk_sectors
      signal_write_done
  run_done = next (next run_received (check_status refl refl)) (complete refl refl refl)

-- The I/O thread runs once the first bank is full, and its write fails.
abbrev failed_run : Option (IoState × List ℕ)
failed_run = io_thread bad_disk 1 (received_one bad_disk []).io []

abbrev failed_io : IoState
failed_io = die (record (received_one bad_disk []).io { wakeups = 0; out_buf_sema = 0 })

abbrev failed : Transfer bad_disk
failed = record (received_one bad_disk []) { io = failed_io; dev = [] }

run_failed : Reach bad_disk 1 (start bad_disk []) failed
unfolding begin_write io_write_init io_init_common after_receive settle chunk_sectors
    signal_write_done io_thread dispatch after_exec exec_write_next exec_write_at write_finish
    advance_read gather write_retry must_retry die io_exec
run_failed = next (run_received bad_disk []) (run_io (failed_io, []) refl refl)

transfer_complete_example :
    (length sector ≡ 2048)
    × ((st : ThreadState) × (d' : List ℕ) × (io_end_write good_disk 1 (done good_disk []).io []
          ≡ some (returned st d'))
        × ((d' ≡ sector) ⊎ (st ≡ state_error)))
unfolding begin_write io_write_init io_init_common after_receive settle chunk_sectors
    signal_write_done io_exec
transfer_complete_example =
    transfer_complete good_disk before memory memory [] 1 1 (run_done good_disk []) good_disk-Covers
      refl refl

partition_holds_prefix_example : (rest : List ℕ) × ([] ++ rest ≡ sector)
unfolding begin_write io_write_init io_init_common after_receive settle chunk_sectors
    signal_write_done die io_exec
partition_holds_prefix_example =
    partition_holds_prefix bad_disk before memory memory [] 1 1 run_failed

failed_transfer_hangs_example : io_end_write bad_disk 1 failed_io [] ≡ some hangs
unfolding die
failed_transfer_hangs_example =
    failed_transfer_hangs bad_disk before memory memory [] 1 1 run_failed refl

one_bank-IsRing : IsRing (done good_disk []).io
unfolding begin_write io_write_init io_init_common after_receive settle chunk_sectors
    signal_write_done io_exec
one_bank-IsRing = record {
  bank_pos = omega arith;
  read_in = omega arith;
  write_at = refl;
  permits = refl;
  filled = (omega arith, omega arith);
}

io_end_write_returns_example :
    (st : ThreadState) × (d' : List ℕ) × (io_end_write good_disk 1 (done good_disk []).io []
      ≡ some (returned st d'))
    × ((d' ≡ pending (done good_disk []).io) ⊎ (st ≡ state_error))
unfolding begin_write io_write_init io_init_common after_receive settle chunk_sectors
    signal_write_done io_exec
io_end_write_returns_example =
    io_end_write_returns good_disk 1 (done good_disk []).io [] good_disk-Covers one_bank-IsRing refl
