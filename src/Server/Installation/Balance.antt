-- ===== src/Server/Installation/Balance.antt =====
-- HDLGameSvr.c: what the commands that set up an installation hold afterwards.
use hdlgame_installer.Base.{
  ℕ, ◌+◌, ◌-◌, true, Code, ok, err, Errno, ebusy, ◌≡◌, refl, ap, ◌∙◌, arith,
}
use hdlgame_installer.Server.Installation.{
  task_none, Server, Outcome, start_io, seek_to, after_seek, close_if_failed, umount_if_failed,
  open_game, mount_open_game, end_installation_of, end_installation, init_game_locked, with_lock,
  init_game,
}

-- A result that is an error has left the server as `s`; any other has made it `s'`.
abbrev pub Either : (s s' : Server) → Code × Server → Type 0
Either s s' (err e, t) = t ≡ s
Either s s' (ok n, t) = t ≡ s'

abbrev pub opened_server : Server → Server
opened_server s = record s {
  mounts = s.mounts + 1;
  opens = s.opens + 1;
  banks = s.banks + 1;
  threads = s.threads + 1;
}

one_back : (n : ℕ) → n + 1 - 1 ≡ n
one_back n = omega arith

start_io_balanced :
    (o : Outcome) (s : Server)
    → Either s (record s { banks = s.banks + 1; threads = s.threads + 1 }) (start_io o s)
start_io_balanced o s = at_alloc o.alloc
  where
    allocated : Server
    allocated = record s { banks = s.banks + 1 }

    at_init :
        (c : Code)
        → Either s
            (record s { banks = s.banks + 1; threads = s.threads + 1 })
            (elim c [
              | err e ↦ (err e, record allocated { banks = allocated.banks - 1 })
              | ok id ↦ (ok id, record allocated { threads = allocated.threads + 1 })
            ])
    at_init (err e) = ap (λ n. record s { banks = n }) (one_back s.banks)
    at_init (ok id) = refl

    at_alloc :
        (c : Code)
        → Either s
            (record s { banks = s.banks + 1; threads = s.threads + 1 })
            (elim c [
              | err e ↦ (err e, s)
              | ok n ↦ elim o.init [
                | err e ↦ (err e, record allocated { banks = allocated.banks - 1 })
                | ok id ↦ (ok id, record allocated { threads = allocated.threads + 1 })
              ]
            ])
    at_alloc (err e) = refl
    at_alloc (ok n) = at_init o.init

after_seek_balanced :
    (o : Outcome) (c : Code) (s : Server)
    → Either s (record s { banks = s.banks + 1; threads = s.threads + 1 }) (after_seek o c s)
after_seek_balanced o (err e) s = refl
after_seek_balanced o (ok n) s = start_io_balanced o s

close_if_failed_balanced :
    (s s' : Server) (r : Code × Server)
    → Either (record s { opens = s.opens + 1 }) s' r
    → Either s s' (close_if_failed r)
close_if_failed_balanced s s' (err e, t) h =
    ap {A = Server} (λ x. record x { opens = x.opens - 1 }) h
    ∙ ap (λ n. record s { opens = n }) (one_back s.opens)
close_if_failed_balanced s s' (ok n, t) h = h

umount_if_failed_balanced :
    (s s' : Server) (r : Code × Server)
    → Either (record s { mounts = s.mounts + 1 }) s' r
    → Either s s' (umount_if_failed r)
umount_if_failed_balanced s s' (err e, t) h =
    ap {A = Server} (λ x. record x { mounts = x.mounts - 1 }) h
    ∙ ap (λ n. record s { mounts = n }) (one_back s.mounts)
umount_if_failed_balanced s s' (ok n, t) h = h

open_game_balanced :
    (o : Outcome) (offset : ℕ) (s : Server)
    → Either s
        (record s { opens = s.opens + 1; banks = s.banks + 1; threads = s.threads + 1 })
        (open_game o offset s)
open_game_balanced o offset s = at_open o.opened
  where
    at_open :
        (c : Code)
        → Either s
            (record s { opens = s.opens + 1; banks = s.banks + 1; threads = s.threads + 1 })
            (elim c [
              | err e ↦ (err e, s)
              | ok fd ↦
                  close_if_failed
                    (after_seek o (seek_to o offset fd) (record s { opens = s.opens + 1 }))
            ])
    at_open (err e) = refl
    at_open (ok fd) =
        close_if_failed_balanced s
          (record s { opens = s.opens + 1; banks = s.banks + 1; threads = s.threads + 1 })
          (after_seek o (seek_to o offset fd) (record s { opens = s.opens + 1 }))
          (after_seek_balanced o (seek_to o offset fd) (record s { opens = s.opens + 1 }))

-- MountOpenGame that fails at any of its calls has given back the mount, the file and the banks
-- that it had taken; one that succeeds holds one more of each, and an I/O thread.
pub mount_open_game_balanced :
    (o : Outcome) (offset : ℕ) (s : Server)
    → Either s (opened_server s) (mount_open_game o offset s)
unfolding mount_open_game
mount_open_game_balanced o offset s = at_mount o.mounted
  where
    at_mount :
        (c : Code)
        → Either s (opened_server s) (elim c [
          | err e ↦ (err e, s)
          | ok n ↦ umount_if_failed (open_game o offset (record s { mounts = s.mounts + 1 }))
        ])
    at_mount (err e) = refl
    at_mount (ok n) =
        umount_if_failed_balanced s (opened_server s)
          (open_game o offset (record s { mounts = s.mounts + 1 }))
          (open_game_balanced o offset (record s { mounts = s.mounts + 1 }))

-- After the command `r`: the lock is taken, the context is allocated, there is no task, and a
-- further command is refused and changes nothing.
abbrev pub IsLocked : (o' : Outcome) (offset' : ℕ) → Server → Code × Server → Type 0
IsLocked o' offset' s (r, t) =
    (t.lock ≡ 0)
    × (t.contexts ≡ s.contexts + 1)
    × (t.task ≡ task_none)
    × (init_game o' offset' t ≡ (err ebusy, t))

-- When a client without a task sets up an installation while the lock is free, and the game cannot
-- be mounted, the lock stays taken and the context allocated though there is no task, and the next
-- such command is refused with -EBUSY.
pub init_game_leaks_lock :
    (o o' : Outcome) (offset offset' : ℕ) (s : Server) {e : Errno}
    → s.task ≡ task_none
    → s.lock ≡ 1
    → o.has_memory ≡ true
    → o.mounted ≡ err e
    → IsLocked o' offset' s (init_game o offset s)
unfolding init_game with_lock init_game_locked mount_open_game end_installation end_installation_of
init_game_leaks_lock o o' offset offset' s idle free memory unmounted =
    rw (idle, free, memory, unmounted) (refl, refl, refl, refl)
