-- ===== src/Install/Drive/Ends.antt =====
-- system.c: what an installation from the disc drive leaves behind.
use hdlgame_installer.Base.{◌+◌, ◌-◌, Bool, true, false, Option, none, some, ◌≡◌, ◌⊎◌, Code, is_ok}
use hdlgame_installer.Install.Drive.{status_ok, Run, DriveState}

-- The mounts and files are as before; the partition is removed when the result is an error, and
-- only then; and a result of zero or more is one where all the calls had succeeded, and the thread
-- had ended with the status of success.
pub record IsInstalled (prepared mounted opened : Code) (created : Bool) (thread : Run)
    (s : DriveState) (r : Code × DriveState) : Type 0 where
  pub same_mounts : r.1.mounts ≡ s.mounts
  pub same_opens : r.1.opens ≡ s.opens
  pub removed_if_failed : is_ok r.0 ≡ false → r.1.removed ≡ true
  pub kept_if_ok : is_ok r.0 ≡ true → r.1.removed ≡ s.removed
  pub all_ok :
      is_ok r.0 ≡ true
      → (is_ok prepared ≡ true)
        × (is_ok mounted ≡ true)
        × (is_ok opened ≡ true)
        × (created ≡ true)
        × (thread.ended ≡ true)
        × (thread.status ≡ status_ok)

-- How InstallGameFromCDVDDrive comes out: it waits for ever only for a thread that was not created
-- or that waits itself, once the partition is mounted and open.
abbrev pub Comes :
    (prepared mounted opened : Code)
    → (created : Bool) → (thread : Run) → DriveState
    → Option (Code × DriveState)
    → Type 0
Comes prepared mounted opened created thread s none =
    (is_ok prepared ≡ true)
    × (is_ok mounted ≡ true)
    × (is_ok opened ≡ true)
    × ((created ≡ false) ⊎ (thread.ended ≡ false))
Comes prepared mounted opened created thread s (some r) =
    IsInstalled prepared mounted opened created thread s r

module _ (n m fd : Code) (thread : Run) (s : DriveState) (ended : thread.ended ≡ true)
    (p : is_ok n ≡ true) (q : is_ok m ≡ true) (o : is_ok fd ≡ true) where
  -- The counts after the mount and the file have been taken and given back.
  closed : DriveState
  closed = record s { mounts = s.mounts + 1 - 1; opens = s.opens + 1 - 1 }
