-- ===== src/Server/Session/Stuck.antt =====
-- HDLGameSvr.c and io.c: what becomes of a server once the I/O thread of an installation is gone.
use hdlgame_installer.Base.{
  ℕ, Bool, true, false, ◌&&◌, List, [], ◌∷◌, Option, none, some, Code, ok, err, ebusy, einval,
  failure, ◌≡◌, refl, sym, subst, arith, if◌then◌else◌,
}
use hdlgame_installer.Server.Installation.{
  task_game_installation, Server, with_lock, init_game_locked, init_game, prepare_locked,
  prepare_game_installation,
}
use hdlgame_installer.Server.Osd.{
  OsdOutcome, start_osd, init_default_osd_resources, init_osd_resources, with_osd, load_resource,
  osd_ended, osd_resource_load_init, write_osd_resources, cancel_osd_resource_write,
}
use hdlgame_installer.Server.Session.{
  Session, Command, Answers, Event, step, run, handle_packet, handle_verified, handle_unverified,
  starts_data, on_server, reload_if_ok, reload_game_list, handle_close_game, data_thread_ends,
  power_off_server, start_client, end_client, silent, send_version, prep_game_inst, init_game_write,
  init_game_read, close_game, load_game_list, upd_game_entry, del_game_entry, init_default_osd,
  init_osd, osd_res_load_init, write_osd, osd_res_write_cancel, shutdown, client_comes, packet,
  data_begins, data_ends, client_goes, io_dies, hangs, awaits_data, is_game,
}

-- The I/O thread of the installation is gone, and the count of the installation lock is `lock`.
pub record IsStuck (lock : ℕ) (s : Session) : Type 0 where
  pub dead : s.io_dead ≡ true
  pub task : s.server.task ≡ task_game_installation
  pub same_lock : s.server.lock ≡ lock

-- An installation that is under way keeps the tasks of the other commands from starting.
with_lock-refused :
    (f : Server → Code × Server) (s : Server)
    → s.task ≡ task_game_installation
    → with_lock f s.task s.lock s ≡ (err ebusy, s)
unfolding with_lock
with_lock-refused f s e = rw e refl

start_osd-refused :
    (o : OsdOutcome) (r : Code) (s : Server)
    → s.task ≡ task_game_installation
    → start_osd o r s.task s ≡ (err ebusy, s)
unfolding start_osd
start_osd-refused o r s e = rw e refl

with_osd-refused :
    (f : Server → Code × Server) (s : Server)
    → s.task ≡ task_game_installation
    → with_osd f s.task s ≡ (err einval, s)
with_osd-refused f s e = rw e refl

module _ (lock : ℕ) where
  starts_data-IsStuck :
      (r : Code × Server) (s : Session)
      → r ≡ (err ebusy, s.server)
      → IsStuck lock s
      → IsStuck lock (starts_data r s).0
  starts_data-IsStuck r s e h =
      subst (λ x. IsStuck lock (starts_data x s).0) (sym e)
        (record { dead = h.dead; task = h.task; same_lock = h.same_lock })

  on_server-IsStuck :
      (r : Code × Server) (c : Code) (s : Session)
      → r ≡ (c, s.server)
      → IsStuck lock s
      → IsStuck lock (on_server r s).0
  on_server-IsStuck r c s e h =
      subst (λ x. IsStuck lock (on_server x s).0) (sym e)
        (record { dead = h.dead; task = h.task; same_lock = h.same_lock })

  either-IsStuck :
      (b : Bool) (s t : Session)
      → IsStuck lock s
      → IsStuck lock t
      → IsStuck lock (if b then s else t)
  either-IsStuck true s t h k = h
  either-IsStuck false s t h k = k

  reload_if_ok-IsStuck :
      (r : Code) (s : Session) → IsStuck lock s → IsStuck lock (reload_if_ok r s).0
  unfolding reload_if_ok
  reload_if_ok-IsStuck (ok n) s h = record { dead = h.dead; task = h.task; same_lock = h.same_lock }
  reload_if_ok-IsStuck (err e) s h = h

  reload_game_list-IsStuck :
      (a : Answers) (s : Session) → IsStuck lock s → IsStuck lock (reload_game_list a s).0
  unfolding reload_game_list
  reload_game_list-IsStuck a s h = ground arith

  power_off_server-IsStuck : (s : Session) → IsStuck lock s → IsStuck lock (power_off_server s).0
  unfolding power_off_server
  power_off_server-IsStuck s h = ground arith

  -- A command that does not wait for the data thread.
  handle_verified-IsStuck :
      (c : Command) (a : Answers) (s : Session)
      → (awaits_data c && s.is_running) ≡ false
      → IsStuck lock s
      → IsStuck lock (handle_verified c a s).0
  unfolding handle_verified handle_close_game init_game prepare_game_installation
      init_default_osd_resources init_osd_resources osd_resource_load_init write_osd_resources
      cancel_osd_resource_write
  handle_verified-IsStuck prep_game_inst a s w h =
      starts_data-IsStuck (prepare_game_installation a.game s.server) s
        (with_lock-refused (prepare_locked a.game) s.server h.task) h
  handle_verified-IsStuck (init_game_write offset) a s w h =
      starts_data-IsStuck (init_game a.game offset s.server) s
        (with_lock-refused (init_game_locked a.game offset) s.server h.task) h
  handle_verified-IsStuck (init_game_read offset) a s w h =
      starts_data-IsStuck (init_game a.game offset s.server) s
        (with_lock-refused (init_game_locked a.game offset) s.server h.task) h
  handle_verified-IsStuck close_game a s w h =
      subst (λ b. IsStuck lock (if b then data_thread_ends a.game s else s)) (sym w) h
  handle_verified-IsStuck load_game_list a s w h = reload_game_list-IsStuck a s h
  handle_verified-IsStuck upd_game_entry a s w h = reload_if_ok-IsStuck a.updated s h
  handle_verified-IsStuck del_game_entry a s w h = reload_if_ok-IsStuck a.removed s h
  handle_verified-IsStuck init_default_osd a s w h =
      on_server-IsStuck (init_default_osd_resources a.osd s.server) (err ebusy) s
        (start_osd-refused a.osd (ok 0) s.server h.task) h
  handle_verified-IsStuck init_osd a s w h =
      on_server-IsStuck (init_osd_resources a.osd s.server) (err ebusy) s
        (start_osd-refused a.osd a.osd.prepared s.server h.task) h
  handle_verified-IsStuck (osd_res_load_init index) a s w h =
      on_server-IsStuck (osd_resource_load_init a.osd index s.server) (err einval) s
        (with_osd-refused (load_resource a.osd index) s.server h.task) h
  handle_verified-IsStuck write_osd a s w h =
      on_server-IsStuck (write_osd_resources a.osd s.server) (err einval) s
        (with_osd-refused (λ (t : Server). (a.osd.installed, osd_ended t)) s.server h.task) h
  handle_verified-IsStuck osd_res_write_cancel a s w h =
      on_server-IsStuck (cancel_osd_resource_write s.server) (err einval) s
        (with_osd-refused (λ (t : Server). (ok 0, osd_ended t)) s.server h.task) h
  handle_verified-IsStuck shutdown a s w h = power_off_server-IsStuck s h
  handle_verified-IsStuck _ a s w h = h

  handle_unverified-IsStuck :
      (c : Command) (s : Session) → IsStuck lock s → IsStuck lock (handle_unverified c s).0
  unfolding handle_unverified
  handle_unverified-IsStuck (send_version v) s h = ground arith
  handle_unverified-IsStuck _ s h = h

  hangs-IsStuck : (s : Session) → IsStuck lock s → hangs s ≡ true
  unfolding hangs
  hangs-IsStuck s h = rw (h.dead, h.task) refl

  packet-IsStuck :
      (c : Command) (a : Answers) (s : Session)
      → ((s.verified && awaits_data c) && (s.is_running && hangs s)) ≡ false
      → IsStuck lock s
      → IsStuck lock (handle_packet c a s).0
  unfolding handle_packet
  packet-IsStuck c a s w h = at s.connected s.verified refl
    where
      waits_not : (x y z : Bool) → z ≡ true → ((true && x) && (y && z)) ≡ false → (x && y) ≡ false
      waits_not x y z e g = ground arith

      verified : s.verified ≡ true → IsStuck lock (handle_verified c a s).0
      verified e =
          handle_verified-IsStuck c a s
            (waits_not (awaits_data c) s.is_running (hangs s) (hangs-IsStuck s h)
              (subst (λ v. ((v && awaits_data c) && (s.is_running && hangs s)) ≡ false) e w))
            h

      at :
          (b v : Bool)
          → s.verified ≡ v
          → IsStuck lock
              (if b
                then (if v then handle_verified c a s else handle_unverified c s)
                else if v
                then handle_verified c a s
                else (s, silent (err failure))).0
      at true true e = verified e
      at true false e = handle_unverified-IsStuck c s h
      at false true e = verified e
      at false false e = h

  -- What holds after an event that comes to its end.
  abbrev After : Option Session → Type 0
  After none = Unit {0}
  After (some t) = IsStuck lock t

  step-After : (e : Event) (s : Session) → IsStuck lock s → After (step e s)
  unfolding step start_client
  step-After (client_comes started) s h = ground arith
  step-After (packet c a) s h = at _ refl
    where
      at :
          (b : Bool)
          → ((s.verified && awaits_data c) && (s.is_running && hangs s)) ≡ b
          → After (if b then none else some (handle_packet c a s).0)
      at true e = tt
      at false e = packet-IsStuck c a s e h
  step-After data_begins s h =
      either-IsStuck s.is_starting (record s { is_starting = false; is_running = true }) s
        (record { dead = h.dead; task = h.task; same_lock = h.same_lock }) h
  step-After (data_ends o) s h = at s.is_running
    where
      at :
          (b : Bool)
          → After (if b then (if hangs s then none else some (data_thread_ends o s)) else some s)
      at true =
          subst (λ b. After (if b then none else some (data_thread_ends o s)))
            (sym (hangs-IsStuck s h)) tt
      at false = h
  step-After (client_goes a) s h =
      subst (λ b. After (if b then none else some (end_client a s))) (sym (hangs-IsStuck s h)) tt
  step-After io_dies s h =
      either-IsStuck (is_game s.server.task) (record s { io_dead = true }) s
        (record { dead = refl; task = h.task; same_lock = h.same_lock }) h

  run-IsStuck : (es : List Event) (s : Session) → IsStuck lock s → IsStuck lock (run es s)
  unfolding run
  run-IsStuck [] s h = h
  run-IsStuck (e ∷ es) s h = after (step e s) (step-After e s h) (λ t k. run-IsStuck es t k)
    where
      after :
          (o : Option Session)
          → After o
          → ((t : Session) → IsStuck lock t → IsStuck lock (run es t))
          → IsStuck lock (elim o as (λ x. Session) [ none ↦ s | some t ↦ run es t ])
      after none k ih = h
      after (some t) k ih = ih t k

-- Once the I/O thread of an installation has met an error, the installation is never ended and its
-- lock is never given back, whatever comes (clients, commands, the data thread, disconnections), up to
-- the first event that waits for ever for that thread and with it: the task remains the installation,
-- and the count of the lock is as it was.
pub run_never_releases :
    (es : List Event) (s : Session)
    → s.io_dead ≡ true
    → s.server.task ≡ task_game_installation
    → ((run es s).server.task ≡ task_game_installation)
      × ((run es s).server.lock ≡ s.server.lock)
      × ((run es s).io_dead ≡ true)
run_never_releases es s dead game =
    let h =
      run-IsStuck s.server.lock es s (record { dead = dead; task = game; same_lock = refl }) in
    (h.task, h.same_lock, h.dead)
