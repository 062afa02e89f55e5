-- ===== src/Server/Installation/Release.antt =====
-- HDLGameSvr.c: an installation that was set up and is closed gives back all that it held.
use hdlgame_installer.Base.{
  ℕ, zero, suc, ◌+◌, ◌-◌, Bool, true, false, Code, ok, err, enomem, if◌then◌else◌, ◌≡◌, refl, sym,
  subst, ◌∙◌, arith,
}
use hdlgame_installer.Server.Installation.{
  Task, task_game_installation, task_osd_resource_config, task_none, Server, Outcome,
  mount_open_game, init_data_connection, end_installation_of, end_installation, start_task,
  after_open, init_game_locked, with_lock, init_game,
}
use hdlgame_installer.Server.Installation.Balance.{Either, opened_server, mount_open_game_balanced}

-- The server without a task of the client, with `lock` as the count of the installation lock.
abbrev pub released : (lock : ℕ) → Server → Server
released lock s = record s { task = task_none; is_open = false; has_data = false; lock = lock }

-- A command that has succeeded, and whose installation is then closed, has left the server released.
abbrev pub IsReleased : Outcome → (lock : ℕ) → Server → Code × Server → Type 0
IsReleased o lock s (err e, t) = Unit {0}
IsReleased o lock s (ok n, t) = (end_installation o t).1 ≡ released lock s

one_back : (n : ℕ) → n + 1 - 1 ≡ n
one_back n = omega arith

-- The open game of a client whose context has just been allocated.
abbrev opened : Server → Server
opened s = opened_server (record s { has_data = true; contexts = s.contexts + 1 })

end_installation-opened :
    (o : Outcome) (s : Server)
    → (end_installation o (record (opened s) { is_open = true; task = task_game_installation })).1
      ≡ released (s.lock + 1) s
unfolding end_installation end_installation_of
end_installation-opened o s = λ i. record (released (s.lock + 1) s) {
  mounts = one_back s.mounts i;
  opens = one_back s.opens i;
  banks = one_back s.banks i;
  threads = one_back s.threads i;
  contexts = one_back s.contexts i;
}

start_task-IsReleased :
    (o o' : Outcome) (s : Server) → IsReleased o' (s.lock + 1) s (start_task o (opened s))
start_task-IsReleased o o' s = at (init_data_connection o)
  where
    s' : Server
    s' = record (opened s) { is_open = true; task = task_game_installation }

    at :
        (c : Code)
        → IsReleased o'
            (s.lock + 1)
            s
            (elim c [ ok n ↦ (ok n, s') | err e ↦ (err e, (end_installation o s').1) ])
    at (ok n) = end_installation-opened o' s
    at (err e) = tt

after_open-IsReleased :
    (o o' : Outcome) (s s1 : Server) (r : Code × Server)
    → Either s1 (opened s) r
    → IsReleased o' (s.lock + 1) s (after_open o r)
after_open-IsReleased o o' s s1 (err e, t) h = tt
after_open-IsReleased o o' s s1 (ok n, t) h =
    subst (λ x. IsReleased o' (s.lock + 1) s (start_task o x)) (sym h)
      (start_task-IsReleased o o' s)

init_game_locked-IsReleased :
    (o o' : Outcome) (offset : ℕ) (s : Server)
    → IsReleased o' (s.lock + 1) s (init_game_locked o offset s)
unfolding init_game_locked
init_game_locked-IsReleased o o' offset s = at o.has_memory
  where
    held : Server
    held = record s { has_data = true; contexts = s.contexts + 1 }

    at :
        (b : Bool)
        → IsReleased o' (s.lock + 1) s (
            if b
            then after_open o (mount_open_game o offset held)
            else (err enomem, record s { has_data = false }))
    at true =
        after_open-IsReleased o o' s held (mount_open_game o offset held)
          (mount_open_game_balanced o offset held)
    at false = tt

-- When InitGameWrite or InitGameRead has succeeded and EndInstallation then closes the game, the
-- lock, the mounts, the files, the banks, the threads and the contexts are as before the command,
-- and the client has no task, no context and no open game. Before the command, the client may be in
-- any state, and the lock at any count.
pub init_game-IsReleased :
    (o o' : Outcome) (offset : ℕ) (s : Server) → IsReleased o' s.lock s (init_game o offset s)
unfolding init_game with_lock
init_game-IsReleased o o' offset s = at s.task s.lock refl
  where
    at :
        (t : Task) (lock : ℕ)
        → s.lock ≡ lock
        → IsReleased o' s.lock s (with_lock (init_game_locked o offset) t lock s)
    at task_none zero e = tt
    at task_none (suc n) e =
        subst (λ x. IsReleased o' x s (init_game_locked o offset (record s { lock = n })))
          (n_eq ∙ sym e) (init_game_locked-IsReleased o o' offset (record s { lock = n }))
      where
        n_eq : n + 1 ≡ suc n
        n_eq = omega arith
    at task_game_installation lock e = tt
    at task_osd_resource_config lock e = tt
