-- ===== src/Server/Installation.antt =====
-- HDLGameSvr.c: how a client's command sets up an installation and how it ends: MountOpenGame,
-- InitDataConnection, InitGameWrite, InitGameRead, PrepareGameInstallation, EndInstallation and
-- CleanupClientConnection. The calls of the driver, of io.c, of malloc and of the network are a
-- parameter, `Outcome`: what they answer.
pub mod Balance
pub mod Release
use hdlgame_installer.Base.{
  ℕ, zero, suc, ◌+◌, ◌-◌, Bool, true, false, ◌&&◌, Code, ok, err, Errno, espipe, enomem, ebusy,
  failure, if◌then◌else◌, ◌==◌,
}

-- enum TASK_MODES
pub data Task : Type 0 where
  task_game_installation task_osd_resource_config task_none : Task

-- A client, with what the server shares between its clients: the count of InstallationLockSema, the
-- mounts of hdl0:, the files open on it, the banks of IOAlloc, the rings with an I/O thread that
-- IOWriteInit and IOReadInit have set up and that have not been ended (a thread that has met an error
-- is gone, but its ring's semaphores are kept until IOEndWrite or IOEndRead), the installation
-- contexts that are allocated, the sets of OSD resources that have been prepared and not been given to FreeOSDResources (one of
-- default resources owns no buffer until a file is uploaded), the buffers of uploaded resource files that
-- belong to no set, the game partitions, and NeedReloadGameList. `new_buffer` is
-- `NewFileBuffer != NULL`. `is_open` is the two
-- status bits MOUNTED_FS and OPENED_FILE, and `has_data` is `TaskData != NULL`.
pub record Server : Type 0 where
  pub task : Task
  pub is_open : Bool
  pub has_data : Bool
  pub lock : ℕ
  pub mounts : ℕ
  pub opens : ℕ
  pub banks : ℕ
  pub threads : ℕ
  pub contexts : ℕ
  pub resources : ℕ
  pub new_buffer : Bool
  pub buffers : ℕ
  pub partitions : ℕ
  pub need_reload : Bool

-- What the calls below answer during one command. `seeks` says whether lseek gives the offset that
-- was asked for, `ended` is what IOEndWrite or IOEndRead returns.
pub record Outcome : Type 0 where
  pub has_memory : Bool
  pub prepared : Code
  pub mounted : Code
  pub opened : Code
  pub seeks : Bool
  pub alloc : Code
  pub init : Code
  pub connected : Bool
  pub started : Bool
  pub ended : Code

-- `if (result < 0) IOFree(…)`, where IOAlloc and IOWriteInit or IOReadInit have been called.
abbrev pub start_io : Outcome → Server → Code × Server
start_io o s = elim o.alloc [
  | err e ↦ (err e, s)
  | ok n ↦
      let allocated = record s { banks = s.banks + 1 } in
      elim o.init [
        | err e ↦ (err e, record allocated { banks = allocated.banks - 1 })
        | ok id ↦ (ok id, record allocated { threads = allocated.threads + 1 })
      ]
]

-- The seek to the offset, which 0 needs not.
abbrev pub seek_to : Outcome → (offset : ℕ) → (fd : ℕ) → Code
seek_to o offset fd = if offset == 0 then ok fd else (if o.seeks then ok 0 else err espipe)

abbrev pub after_seek : Outcome → Code → Server → Code × Server
after_seek o (err e) s = (err e, s)
after_seek o (ok n) s = start_io o s

-- `if (result < 0) fileXioClose(…)`
abbrev pub close_if_failed : Code × Server → Code × Server
close_if_failed (err e, s) = (err e, record s { opens = s.opens - 1 })
close_if_failed (ok n, s) = (ok n, s)

-- `if (result < 0) fileXioUmount(…)`
abbrev pub umount_if_failed : Code × Server → Code × Server
umount_if_failed (err e, s) = (err e, record s { mounts = s.mounts - 1 })
umount_if_failed (ok n, s) = (ok n, s)

abbrev pub open_game : Outcome → (offset : ℕ) → Server → Code × Server
open_game o offset s = elim o.opened [
  | err e ↦ (err e, s)
  | ok fd ↦ close_if_failed (after_seek o (seek_to o offset fd) (record s { opens = s.opens + 1 }))
]

unfoldable pub mount_open_game : Outcome → (offset : ℕ) → Server → Code × Server
mount_open_game o offset s = elim o.mounted [
  | err e ↦ (err e, s)
  | ok n ↦ umount_if_failed (open_game o offset (record s { mounts = s.mounts + 1 }))
]

-- InitDataConnection
abbrev pub init_data_connection : Outcome → Code
init_data_connection o = if o.connected && o.started then ok 0 else err failure

-- EndInstallation, for the task of the client, where IOEndWrite or IOEndRead returns.
unfoldable pub end_installation_of : Task → Outcome → Server → Code × Server
end_installation_of task_game_installation o s = (
  o.ended,
  record s {
    task = task_none;
    is_open = false;
    has_data = false;
    lock = s.lock + 1;
    mounts = s.mounts - 1;
    opens = s.opens - 1;
    banks = s.banks - 1;
    threads = s.threads - 1;
    contexts = s.contexts - 1;
  },
)
end_installation_of task_osd_resource_config o s = (ok 0, s)
end_installation_of task_none o s = (ok 0, s)

unfoldable pub end_installation : Outcome → Server → Code × Server
unfolding end_installation_of
end_installation o s = end_installation_of s.task o s

-- The rest of a command once the game is open: the flags, the task and the data connection.
abbrev pub start_task : Outcome → Server → Code × Server
start_task o s =
    let s' = record s { is_open = true; task = task_game_installation } in
    elim (init_data_connection o) [ ok n ↦ (ok n, s') | err e ↦ (err e, (end_installation o s').1) ]

abbrev pub after_open : Outcome → Code × Server → Code × Server
after_open o (err e, s) = (err e, (end_installation o s).1)
after_open o (ok n, s) = start_task o s

-- InitGameWrite and InitGameRead from malloc on.
unfoldable pub init_game_locked : Outcome → (offset : ℕ) → Server → Code × Server
unfolding mount_open_game end_installation
init_game_locked o offset s =
    if o.has_memory
    then after_open o
        (mount_open_game o offset (record s { has_data = true; contexts = s.contexts + 1 }))
    else (err enomem, record s { has_data = false })

-- The guard of the commands: no task, and a permit of the lock, which is taken.
unfoldable pub with_lock : (Server → Code × Server) → Task → (lock : ℕ) → Server → Code × Server
with_lock f task_none zero s = (err ebusy, s)
with_lock f task_none (suc n) s = f (record s { lock = n })
with_lock f task_game_installation lock s = (err ebusy, s)
with_lock f task_osd_resource_config lock s = (err ebusy, s)

-- InitGameWrite, and InitGameRead, which differs in the mode of the mount and the open.
unfoldable pub init_game : Outcome → (offset : ℕ) → Server → Code × Server
unfolding with_lock init_game_locked
init_game o offset s = with_lock (init_game_locked o offset) s.task s.lock s

-- PrepareGameInstallation: the partition is removed again when the game cannot be opened, and stays
-- when the data connection fails.
abbrev pub after_prepared_open : Outcome → Code × Server → Code × Server
after_prepared_open o (err e, s) =
    (err e, (end_installation o (record s { partitions = s.partitions - 1 })).1)
after_prepared_open o (ok n, s) = start_task o (record s { need_reload = true })

unfoldable pub prepare_locked : Outcome → Server → Code × Server
unfolding mount_open_game end_installation
prepare_locked o s =
    if o.has_memory
    then (let held = record s { has_data = true; contexts = s.contexts + 1 } in
        elim o.prepared [
          | err e ↦ (err e, (end_installation o held).1)
          | ok n ↦
              after_prepared_open o
                (mount_open_game o 0 (record held { partitions = held.partitions + 1 }))
        ])
    else (err enomem, record s { has_data = false })

unfoldable pub prepare_game_installation : Outcome → Server → Code × Server
unfolding with_lock prepare_locked
prepare_game_installation o s = with_lock (prepare_locked o) s.task s.lock s

-- `if (client->TaskData != NULL) free(…)`
abbrev pub free_data : Server → Server
free_data s = if s.has_data then record s { has_data = false; contexts = s.contexts - 1 } else s

-- CleanupClientConnection, as far as the client's own state and the installation go.
unfoldable pub cleanup_client_connection : Outcome → Server → Server
unfolding end_installation
cleanup_client_connection o s =
    free_data (record (end_installation o s).1 { is_open = false; task = task_none })
