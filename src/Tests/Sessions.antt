-- ===== src/Tests/Sessions.antt =====
-- A client that connects, starts an installation and goes.
use hdlgame_installer.Base.{true, false, List, [], ◌∷◌, none, some, ok, ◌+◌, ◌≡◌, refl}
use hdlgame_installer.Server.Installation.{Server, task_game_installation}
use hdlgame_installer.Server.Osd.{OsdOutcome}
use hdlgame_installer.Server.Session.{
  Session, Answers, Event, GameEntry, client_comes, packet, data_begins, client_goes, send_version,
  init_game_write, run, handle_packet, step, hangs,
}
use hdlgame_installer.Server.Session.Invariant.{Holds}
use hdlgame_installer.Server.Session.Gate.{
  OnlyVerifies, handle_packet-OnlyVerifies, end_client_releases,
}
use hdlgame_installer.Server.Session.Stuck.{run_never_releases}
use hdlgame_installer.Tests.Installations.{idle, all_well}

abbrev osd_well : OsdOutcome
osd_well = record {
  has_memory = true;
  prepared = ok 0;
  has_buffer = true;
  received = ok 0;
  loaded = ok 0;
  installed = ok 0;
}

abbrev no_entry : GameEntry
no_entry = record {
  part_name = [];
  disc_id = [];
  compatibility_mode_flags = 0;
  tr_type = 0;
  tr_mode = 0;
  disc_type = 0;
  sectors = 0;
  game_title = [];
}

abbrev answers : Answers
answers = record {
  game = all_well;
  osd = osd_well;
  io_state = ok 0;
  loaded_games = [];
  retrieved = ok 0;
  retrieved_entry = no_entry;
  updated = ok 0;
  removed = ok 0;
  part_name = none;
  free_space = ok 0;
  free_sectors = 0;
  stats = ok 0;
  stat_sizes = [];
  has_memory = true;
  read_file = ok 0;
  file = [];
  titles = ok 0;
  title_lines = [];
  save_check = ok 0;
  save_stat = ok 0;
  save_read = ok 0;
}

abbrev fresh : Session
fresh = record {
  connected = false;
  verified = false;
  server = idle;
  is_starting = false;
  is_running = false;
  io_dead = false;
  games = [];
  num_clients = 0;
  powered = true;
}

abbrev events : List Event
events =
    client_comes true
    ∷ packet (send_version 0x0C) answers
    ∷ packet (init_game_write 5) answers
    ∷ data_begins
    ∷ client_goes answers
    ∷ []

abbrev greeted : Session
greeted = record fresh { connected = true }

handle_packet-OnlyVerifies_example :
    OnlyVerifies (init_game_write 5) greeted (handle_packet (init_game_write 5) answers greeted).0
handle_packet-OnlyVerifies_example =
    handle_packet-OnlyVerifies (init_game_write 5) answers greeted refl refl

abbrev installing : Server
installing = record idle {
  task = task_game_installation;
  is_open = true;
  has_data = true;
  lock = 0;
  mounts = 1;
  opens = 1;
  banks = 1;
  threads = 1;
  contexts = 1;
}

installing-Holds : Holds installing
installing-Holds = record {
  mounts = refl;
  opens = refl;
  banks = refl;
  threads = refl;
  new_buffer = refl;
  buffers = refl;
}

abbrev busy : Session
busy = record fresh { connected = true; verified = true; server = installing }

end_client_releases_example :
    (t : Session) × (step (client_goes answers) busy ≡ some t)
    × (t.server.mounts ≡ 0)
    × (t.server.opens ≡ 0)
    × (t.server.banks ≡ 0)
    × (t.server.threads ≡ 0)
    × (t.server.lock ≡ 0 + 1)
unfolding hangs
end_client_releases_example = end_client_releases answers busy installing-Holds refl

abbrev failing : Session
failing = record busy { is_running = true; io_dead = true }

abbrev later : List Event
later = packet (init_game_write 5) answers ∷ client_goes answers ∷ client_comes true ∷ []

run_never_releases_example :
    ((run later failing).server.task ≡ task_game_installation)
    × ((run later failing).server.lock ≡ 0)
    × ((run later failing).io_dead ≡ true)
run_never_releases_example = run_never_releases later failing refl refl
