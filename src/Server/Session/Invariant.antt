-- ===== src/Server/Session/Invariant.antt =====
-- HDLGameSvr.c: what the server holds at any time is what the client's task needs.
use hdlgame_installer.Base.{
  ℕ, zero, suc, ◌+◌, ◌-◌, Bool, true, false, Code, ok, err, enomem, ◌≡◌, refl, sym, subst, ap,
  arith, if◌then◌else◌,
}
use hdlgame_installer.Server.Installation.{
  Task, task_game_installation, task_osd_resource_config, task_none, Server, Outcome,
  mount_open_game, init_data_connection, end_installation_of, end_installation, start_task,
  after_open, init_game_locked, with_lock, init_game, after_prepared_open, prepare_locked,
  prepare_game_installation,
}
use hdlgame_installer.Server.Installation.Balance.{Either, opened_server, mount_open_game_balanced}

-- Whether a game is open, as a count.
abbrev pub games_of : Task → ℕ
games_of task_game_installation = 1
games_of task_osd_resource_config = 0
games_of task_none = 0

-- A game is mounted and open, with its banks and a ring that has been set up and not ended, exactly
-- while the task is its installation; and no uploaded file is left over between commands.
pub record Holds (s : Server) : Type 0 where
  pub mounts : s.mounts ≡ games_of s.task
  pub opens : s.opens ≡ games_of s.task
  pub banks : s.banks ≡ games_of s.task
  pub threads : s.threads ≡ games_of s.task
  pub new_buffer : s.new_buffer ≡ false
  pub buffers : s.buffers ≡ 0

pub end_installation-Holds : (o : Outcome) (s : Server) → Holds s → Holds (end_installation o s).1
unfolding end_installation end_installation_of
end_installation-Holds o s h = at s.task refl
  where
    at : (t : Task) → s.task ≡ t → Holds (end_installation_of t o s).1
    at task_game_installation e = ground arith
    at task_osd_resource_config e = h
    at task_none e = h

-- Once the game is open, the task is set, or the installation ended again.
start_task-Holds :
    (o : Outcome) (s : Server)
    → s.task ≡ task_none
    → Holds s
    → Holds (start_task o (opened_server s)).1
start_task-Holds o s idle h = at (init_data_connection o)
  where
    s' : Server
    s' = record (opened_server s) { is_open = true; task = task_game_installation }

    s'-Holds : Holds s'
    s'-Holds = record {
      mounts = omega (arith, h.mounts, ap games_of idle);
      opens = omega (arith, h.opens, ap games_of idle);
      banks = omega (arith, h.banks, ap games_of idle);
      threads = omega (arith, h.threads, ap games_of idle);
      new_buffer = h.new_buffer;
      buffers = h.buffers;
    }

    at :
        (c : Code)
        → Holds
            (elim c as (λ x. Code × Server) [
              | ok n ↦ (ok n, s')
              | err e ↦ (err e, (end_installation o s').1)
            ]).1
    at (ok n) = s'-Holds
    at (err e) = end_installation-Holds o s' s'-Holds

after_open-Holds :
    (o : Outcome) (s : Server) (r : Code × Server)
    → s.task ≡ task_none
    → Holds s
    → Either s (opened_server s) r
    → Holds (after_open o r).1
after_open-Holds o s (err e, t) idle h b = end_installation-Holds o t (subst Holds (sym b) h)
after_open-Holds o s (ok n, t) idle h b =
    subst (λ x. Holds (start_task o x).1) (sym b) (start_task-Holds o s idle h)

-- The same for the prepared game, whose partition is removed again on a failure.
after_prepared_open-Holds :
    (o : Outcome) (s : Server) (r : Code × Server)
    → s.task ≡ task_none
    → Holds s
    → Either s (opened_server s) r
    → Holds (after_prepared_open o r).1
after_prepared_open-Holds o s (err e, t) idle h b =
    end_installation-Holds o (record t { partitions = t.partitions - 1 })
      (same (subst Holds (sym b) h))
  where
    same : Holds t → Holds (record t { partitions = t.partitions - 1 })
    same k = record {
      mounts = k.mounts;
      opens = k.opens;
      banks = k.banks;
      threads = k.threads;
      new_buffer = k.new_buffer;
      buffers = k.buffers;
    }
after_prepared_open-Holds o s (ok n, t) idle h b =
    subst (λ x. Holds (start_task o (record x { need_reload = true })).1) (sym b)
      (start_task-Holds o (record s { need_reload = true }) idle
        (record {
          mounts = h.mounts;
          opens = h.opens;
          banks = h.banks;
          threads = h.threads;
          new_buffer = h.new_buffer;
          buffers = h.buffers;
        }))

-- Fields that the invariant does not mention may change.
abbrev Holding : Server → Bool → ℕ → ℕ → ℕ → Bool → Server
Holding s has_data lock contexts partitions need_reload = record s {
  has_data = has_data;
  lock = lock;
  contexts = contexts;
  partitions = partitions;
  need_reload = need_reload;
}

Holding-Holds :
    (s : Server) (has_data : Bool) (lock contexts partitions : ℕ) (need_reload : Bool)
    → Holds s
    → Holds (Holding s has_data lock contexts partitions need_reload)
Holding-Holds s has_data lock contexts partitions need_reload h = record {
  mounts = h.mounts;
  opens = h.opens;
  banks = h.banks;
  threads = h.threads;
  new_buffer = h.new_buffer;
  buffers = h.buffers;
}

init_game_locked-Holds :
    (o : Outcome) (offset : ℕ) (s : Server)
    → s.task ≡ task_none
    → Holds s
    → Holds (init_game_locked o offset s).1
unfolding init_game_locked
init_game_locked-Holds o offset s idle h = at o.has_memory
  where
    held : Server
    held = record s { has_data = true; contexts = s.contexts + 1 }

    at :
        (b : Bool)
        → Holds
            (if b
              then after_open o (mount_open_game o offset held)
              else (err enomem, record s { has_data = false })).1
    at true =
        after_open-Holds o held (mount_open_game o offset held) idle
          (Holding-Holds s true s.lock (s.contexts + 1) s.partitions s.need_reload h)
          (mount_open_game_balanced o offset held)
    at false = Holding-Holds s false s.lock s.contexts s.partitions s.need_reload h

prepare_locked-Holds :
    (o : Outcome) (s : Server) → s.task ≡ task_none → Holds s → Holds (prepare_locked o s).1
unfolding prepare_locked
prepare_locked-Holds o s idle h = at o.has_memory
  where
    held : Server
    held = record s { has_data = true; contexts = s.contexts + 1 }

    made : Server
    made = record held { partitions = held.partitions + 1 }

    at_prepared :
        (c : Code)
        → Holds
            (elim c as (λ x. Code × Server) [
              | err e ↦ (err e, (end_installation o held).1)
              | ok n ↦ after_prepared_open o (mount_open_game o 0 made)
            ]).1
    at_prepared (err e) =
        end_installation-Holds o held
          (Holding-Holds s true s.lock (s.contexts + 1) s.partitions s.need_reload h)
    at_prepared (ok n) =
        after_prepared_open-Holds o made (mount_open_game o 0 made) idle
          (Holding-Holds s true s.lock (s.contexts + 1) (s.partitions + 1) s.need_reload h)
          (mount_open_game_balanced o 0 made)

    at :
        (b : Bool)
        → Holds
            (if b
              then elim o.prepared as (λ x. Code × Server) [
                | err e ↦ (err e, (end_installation o held).1)
                | ok n ↦ after_prepared_open o (mount_open_game o 0 made)
              ]
              else (err enomem, record s { has_data = false })).1
    at true = at_prepared o.prepared
    at false = Holding-Holds s false s.lock s.contexts s.partitions s.need_reload h

with_lock-Holds :
    (f : Server → Code × Server) (s : Server)
    → ((t : Server) → t.task ≡ task_none → Holds t → Holds (f t).1)
    → Holds s
    → Holds (with_lock f s.task s.lock s).1
unfolding with_lock
with_lock-Holds f s keeps h = at s.task s.lock refl
  where
    at : (t : Task) (lock : ℕ) → s.task ≡ t → Holds (with_lock f t lock s).1
    at task_none zero e = h
    at task_none (suc n) e =
        keeps (record s { lock = n }) e
          (Holding-Holds s s.has_data n s.contexts s.partitions s.need_reload h)
    at task_game_installation lock e = h
    at task_osd_resource_config lock e = h

pub init_game-Holds :
    (o : Outcome) (offset : ℕ) (s : Server) → Holds s → Holds (init_game o offset s).1
unfolding init_game
init_game-Holds o offset s h =
    with_lock-Holds (init_game_locked o offset) s (init_game_locked-Holds o offset) h

pub prepare_game_installation-Holds :
    (o : Outcome) (s : Server) → Holds s → Holds (prepare_game_installation o s).1
unfolding prepare_game_installation
prepare_game_installation-Holds o s h =
    with_lock-Holds (prepare_locked o) s (prepare_locked-Holds o) h
