-- ===== src/Install/Drive.antt =====
-- system.c: the installation of a game from the disc drive: CDVDDriveGameInstallerThread, as the
-- calls that it makes of the drive and of the ring of banks, and InstallGameFromCDVDDrive.
pub mod Plan
pub mod Copies
pub mod Ends
use hdlgame_installer.Base.{
  ℕ, zero, suc, ◌+◌, ◌-◌, ◌*◌, ◌%◌, Bool, true, false, ◌&&◌, List, [], ◌∷◌, ◌++◌, Option, none,
  some, if◌then◌else◌, ltb, Code, ok, err, eio, enomem, failure, is_ok,
}
use hdlgame_installer.Hdlfs.Format.{u32}
use hdlgame_installer.Transfer.{io_bank_size}

-- A call: sceCdRead of some sectors into the next bank, IOSignalWriteDone of some bytes, IOEndWrite.
pub data Call : Type 0 where
  cd_read : (sector sectors : ℕ) → Call
  signal_write_done : (bytes : ℕ) → Call
  end_write : Call

-- enum CDVDDriveGameInstallerStatusValues
pub data Status : Type 0 where
  status_ok read_error write_error mem_error aborted : Status

-- What the other side gives in one round of the loop: whether sceCdGetError is SCECdErNO, whether
-- the I/O thread is in the error state, whether the command to abort is there, whether
-- IOGetNextWrBuffer returns or waits for ever, and whether sceCdRead takes the request. A command of
-- another value is cleared and changes nothing.
pub record Round : Type 0 where
  pub is_read : Bool
  pub is_written : Bool
  pub is_abort : Bool
  pub is_free : Bool
  pub is_taken : Bool

-- The calls, the status at the end, and whether the thread has come to its end, where it signals
-- SyncSemaID, or waits for ever.
pub record Run : Type 0 where
  pub calls : List Call
  pub status : Status
  pub ended : Bool

abbrev pub calls_before : List Call → Option Run → Option Run
calls_before cs none = none
calls_before cs (some r) = some (record r { calls = cs ++ r.calls })

abbrev pub stop : Status → Option Run
stop s = some (record { calls = []; status = s; ended = true })

-- IOGetNextWrBuffer waits for ever. The status is that of the start.
abbrev pub blocked : Option Run
blocked = some (record { calls = []; status = status_ok; ended = false })

-- SectorsToRead
unfoldable pub sectors_of_round : (remaining : ℕ) → ℕ
sectors_of_round remaining = if ltb io_bank_size remaining then io_bank_size else remaining

-- `if (SectorsRead > 0) IOSignalWriteDone(...)`
abbrev pub signal_last : (sectors_read : ℕ) → List Call
signal_last zero = []
signal_last (suc n) = signal_write_done (suc n * 2048) ∷ []

-- `SectorsRead > 0` and the I/O thread is in the error state.
abbrev pub fails_write : (sectors_read : ℕ) → Bool → Bool
fails_write zero is_written = false
fails_write (suc n) true = false
fails_write (suc n) false = true

-- Behind the loop, when it has not failed. `returns` is whether IOEndWrite returns; it gives
-- IOState.state, an unsigned char, so that `< 0` never holds of it and an error of the ring does not
-- change the status. An error of the last bank only sets the status: IOEndWrite is called all the
-- same. Behind a read error the status is set when IOEndWrite has returned.
unfoldable pub finish : Round → (returns : Bool) → (sectors_read : ℕ) → Option Run
finish a returns sectors_read =
    if a.is_read
    then some (record {
      calls = signal_last sectors_read ++ end_write ∷ [];
      status = if fails_write sectors_read a.is_written then write_error else status_ok;
      ended = returns;
    })
    else some (record {
      calls = end_write ∷ [];
      status = if returns then read_error else status_ok;
      ended = returns;
    })

-- The part of the body from the command on, where `rest` is the next round.
unfoldable pub issue_read : Round → (sector sectors : ℕ) → Option Run → Option Run
issue_read a sector sectors rest =
    if a.is_abort
    then stop aborted
    else if a.is_free
    then calls_before (cd_read sector sectors ∷ []) (if a.is_taken then rest else stop read_error)
    else blocked

-- The body of the loop.
unfoldable pub body : Round → (sectors_read sector sectors : ℕ) → Option Run → Option Run
unfolding issue_read
body a sectors_read sector sectors rest =
    if a.is_read
    then calls_before (signal_last sectors_read) (
        if fails_write sectors_read a.is_written
        then stop write_error
        else issue_read a sector sectors rest)
    else stop read_error

-- The `for` loop and what follows it. None is the end of the fuel.
unfoldable pub copy_loop :
    (rounds : ℕ → Round)
    → (returns : Bool) → (fuel k remaining sector sectors_read : ℕ) → Option Run
unfolding body finish sectors_of_round
copy_loop rounds returns zero k remaining sector sectors_read = none
copy_loop rounds returns (suc fuel) k remaining sector sectors_read =
    let n = sectors_of_round remaining in
    let rest = copy_loop rounds returns fuel (k + 1) (remaining - n) (sector + n) n in
    if ltb 0 remaining
    then body (rounds k) sectors_read sector n rest
    else finish (rounds k) returns sectors_read

-- CDVDDriveGameInstallerThread. `allocated` and `started` are whether IOAlloc and IOWriteInit give
-- zero or more.
unfoldable pub installer_thread :
    (allocated started : Bool)
    → (rounds : ℕ → Round) → (returns : Bool) → (layer0 layer1 : ℕ) → Option Run
unfolding copy_loop
installer_thread false started rounds returns layer0 layer1 = stop mem_error
installer_thread true false rounds returns layer0 layer1 = stop mem_error
installer_thread true true rounds returns layer0 layer1 =
    let total = (layer0 + layer1) % u32 in copy_loop rounds returns (total + 1) 0 total 0 0

-- The `switch` on the status.
unfoldable pub status_result : Status → Code
status_result status_ok = ok 0
status_result read_error = err eio
status_result write_error = err eio
status_result mem_error = err enomem
status_result aborted = err failure

-- The mounts of hdl0: and its open files, and whether the partition of the game has been removed.
pub record DriveState : Type 0 where
  pub mounts : ℕ
  pub opens : ℕ
  pub removed : Bool

-- The loop on PollSema(SyncSemaID): it ends when the installer thread has been created and has
-- ended, and goes on for ever otherwise, since the result of SysCreateThread is not looked at.
abbrev pub waited : (created : Bool) → Run → Option Status
waited created thread = if created && thread.ended then some thread.status else none

-- The `switch`, and fileXioClose. `none` is a wait that does not end.
unfoldable pub after_wait : Option Status → DriveState → Option (Code × DriveState)
unfolding status_result
after_wait none s = none
after_wait (some status) s = some (status_result status, record s { opens = s.opens - 1 })

-- fileXioOpen, and what follows it.
unfoldable pub after_mount :
    (opened : Code) → (created : Bool) → (thread : Run) → DriveState → Option (Code × DriveState)
unfolding after_wait
after_mount (err e) created thread s = some (err e, s)
after_mount (ok fd) created thread s =
    after_wait (waited created thread) (record s { opens = s.opens + 1 })

-- fileXioUmount
abbrev pub unmount : Option (Code × DriveState) → Option (Code × DriveState)
unmount none = none
unmount (some (r, t)) = some (r, record t { mounts = t.mounts - 1 })

unfoldable pub after_prepare :
    (mounted opened : Code)
    → (created : Bool) → (thread : Run) → DriveState
    → Option (Code × DriveState)
unfolding after_mount
after_prepare (err e) opened created thread s = some (err e, s)
after_prepare (ok m) opened created thread s =
    unmount (after_mount opened created thread (record s { mounts = s.mounts + 1 }))

-- `if (result < 0) RemoveGameInstallation(InstallPath);`
unfoldable pub remove_failed : Option (Code × DriveState) → Option (Code × DriveState)
remove_failed none = none
remove_failed (some (ok n, s)) = some (ok n, s)
remove_failed (some (err e, s)) = some (err e, record s { removed = true })

-- InstallGameFromCDVDDrive, where `prepared` is the result of PrepareInstallHDLGame, `created` is
-- whether SysCreateThread gives zero or more, and `thread` is what the installer thread does.
-- CreateSema and malloc are taken to succeed.
unfoldable pub install_game :
    (prepared mounted opened : Code)
    → (created : Bool) → (thread : Run) → DriveState
    → Option (Code × DriveState)
unfolding after_prepare remove_failed
install_game (err e) mounted opened created thread s = remove_failed (some (err e, s))
install_game (ok n) mounted opened created thread s =
    remove_failed (after_prepare mounted opened created thread s)
