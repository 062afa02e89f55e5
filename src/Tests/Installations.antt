-- ===== src/Tests/Installations.antt =====
-- An idle client of a server whose installation lock is free, and a game that cannot be mounted.
use hdlgame_installer.Base.{true, false, ok, err, enoent, eio, refl}
use hdlgame_installer.Server.Installation.{task_none, Server, Outcome, mount_open_game, init_game}
use hdlgame_installer.Server.Installation.Release.{IsReleased, init_game-IsReleased}
use hdlgame_installer.Server.Installation.Balance.{
  Either, opened_server, mount_open_game_balanced, IsLocked, init_game_leaks_lock,
}

abbrev pub idle : Server
idle = record {
  task = task_none;
  is_open = false;
  has_data = false;
  lock = 1;
  mounts = 0;
  opens = 0;
  banks = 0;
  threads = 0;
  contexts = 0;
  resources = 0;
  new_buffer = false;
  buffers = 0;
  partitions = 0;
  need_reload = false;
}

abbrev pub no_thread : Outcome
no_thread = record {
  has_memory = true;
  prepared = ok 0;
  mounted = ok 0;
  opened = ok 3;
  seeks = true;
  alloc = ok 0;
  init = err eio;
  connected = true;
  started = true;
  ended = ok 0;
}

abbrev no_mount : Outcome
no_mount = record no_thread { mounted = err enoent }

mount_open_game_balanced_example :
    Either idle (opened_server idle) (mount_open_game no_thread 5 idle)
mount_open_game_balanced_example = mount_open_game_balanced no_thread 5 idle

init_game_leaks_lock_example : IsLocked no_thread 0 idle (init_game no_mount 0 idle)
init_game_leaks_lock_example = init_game_leaks_lock no_mount no_thread 0 0 idle refl refl refl refl

abbrev pub all_well : Outcome
all_well = record no_thread { init = ok 7 }

init_game-IsReleased_example : IsReleased all_well 1 idle (init_game all_well 5 idle)
init_game-IsReleased_example = init_game-IsReleased all_well all_well 5 idle
