-- ===== src/Server/Session.antt =====
-- HDLGameSvr.c: a client's connection: HandlePacket with the version check, the commands on the game
-- list, the data thread, and the end of the connection. MAX_CLIENTS is 1, so this client's state is
-- that of the server. The calls of system.c, OSD.c and the drivers are a parameter, `Answers`.
pub mod Invariant
pub mod Reachable
pub mod Stuck
pub mod Gate
use hdlgame_installer.Base.{
  ℕ, zero, suc, ◌+◌, ◌-◌, Bool, true, false, ◌&&◌, ◌||◌, List, [], ◌∷◌, Option, none, some, Code,
  ok, err, Errno, enoent, enomem, ebusy, einval, failure, if◌then◌else◌, ltb, leb, ◌==◌, length,
  get_elem?, is_ok,
}
use hdlgame_installer.Server.Installation.{
  Task, task_game_installation, task_osd_resource_config, task_none, Server, Outcome, init_game,
  prepare_game_installation, end_installation, cleanup_client_connection,
}
use hdlgame_installer.Server.Osd.{
  OsdOutcome, num_osd_files_ents, init_default_osd_resources, init_osd_resources,
  osd_resource_load_init, write_osd_resources, cancel_osd_resource_write,
}

-- struct HDLGameEntry; struct HDLGameEntryTransit has the same fields in another order.
pub record GameEntry : Type 0 where
  pub part_name : List ℕ
  pub disc_id : List ℕ
  pub compatibility_mode_flags : ℕ
  pub tr_type : ℕ
  pub tr_mode : ℕ
  pub disc_type : ℕ
  pub sectors : ℕ
  pub game_title : List ℕ

-- The commands of enum HDLGMAN_ClientServerCommands with what the code reads from their payload.
-- `unknown` is every other number.
pub data Command : Type 0 where
  get_version : Command
  send_version : ℕ → Command
  prep_game_inst : Command
  init_game_write init_game_read : (offset : ℕ) → Command
  io_status close_game load_game_list read_game_list : Command
  read_game_list_entry : (index : ℕ) → Command
  read_game_entry upd_game_entry del_game_entry get_game_part_name get_free_space : Command
  init_default_osd init_osd : Command
  osd_res_load_init : (index : ℕ) → Command
  write_osd osd_res_write_cancel : Command
  get_osd_res_stat osd_res_read_titles : Command
  osd_res_read : (index : ℕ) → Command
  osd_mc_save_check osd_mc_get_res_stat : Command
  osd_mc_res_read : (length : ℕ) → Command
  shutdown unknown : Command

-- What a response carries behind its header. `outside` is what lies outside of the array at an index
-- that is too large, or at the address NULL.
pub data Payload : Type 0 where
  nothing : Payload
  version : ℕ → Payload
  entry : GameEntry → Payload
  entries : List GameEntry → Payload
  outside : Payload
  text : List ℕ → Payload
  number : ℕ → Payload
  sizes : List ℕ → Payload

-- HandlePacket's outcome: a response, or none, with the result that HandlePacket itself returns.
pub data Response : Type 0 where
  reply : Code → Payload → Response
  silent : Code → Response

-- What the calls below answer during one command, where it makes them.
pub record Answers : Type 0 where
  pub game : Outcome
  pub osd : OsdOutcome
  pub io_state : Code
  pub loaded_games : List GameEntry
  pub retrieved : Code
  pub retrieved_entry : GameEntry
  pub updated : Code
  pub removed : Code
  pub part_name : Option (List ℕ)
  pub free_space : Code
  pub free_sectors : ℕ
  pub stats : Code
  pub stat_sizes : List ℕ
  pub has_memory : Bool
  pub read_file : Code
  pub file : List ℕ
  pub titles : Code
  pub title_lines : List ℕ
  pub save_check : Code
  pub save_stat : Code
  pub save_read : Code

-- `is_starting` from the StartThread of the data thread until it runs, `is_running` is
-- DataThreadRunning. `io_dead` is whether the I/O thread of the installation has met an error and is
-- gone: IOEndWrite and IOEndRead then wait for ever. During the command that starts an installation
-- the thread is taken to live.
pub record Session : Type 0 where
  pub connected : Bool
  pub verified : Bool
  pub server : Server
  pub is_starting : Bool
  pub is_running : Bool
  pub io_dead : Bool
  pub games : List GameEntry
  pub num_clients : ℕ
  pub powered : Bool

abbrev pub server_version : ℕ
server_version = 0x0C

abbrev pub client_version : ℕ
client_version = 0x0C

-- The commands before the versions have been compared.
unfoldable pub handle_unverified : Command → Session → Session × Response
handle_unverified get_version s = (s, reply (ok 0) (version server_version))
handle_unverified (send_version v) s =
    if v == client_version
    then (record s { verified = true }, reply (ok 0) nothing)
    else (s, reply (ok 3) nothing)
handle_unverified command s = (s, reply (err einval) nothing)

-- A command on the server's state, with an empty response.
abbrev pub on_server : Code × Server → Session → Session × Response
on_server (r, t) s = (record s { server = t }, reply r nothing)

-- The commands that start the data thread when they succeed.
abbrev pub starts_data : Code × Server → Session → Session × Response
starts_data (ok n, t) s =
    (record s { server = t; is_starting = true; io_dead = false }, reply (ok n) nothing)
starts_data (err e, t) s = (record s { server = t }, reply (err e) nothing)

-- The end of DataThread: CloseGame, if the task is a game.
unfoldable pub data_thread_ends : Outcome → Session → Session
data_thread_ends o s = record s { server = (end_installation o s.server).1; is_running = false }

-- HandleCloseGame waits for the data thread to end.
unfoldable pub handle_close_game : Outcome → Session → Session × Response
unfolding data_thread_ends
handle_close_game o s = (if s.is_running then data_thread_ends o s else s, reply (ok 0) nothing)

-- LoadGameList
unfoldable pub reload_game_list : Answers → Session → Session × Response
reload_game_list a s =
    if s.server.need_reload
    then (
      record s { server = record s.server { need_reload = false }; games = a.loaded_games },
      reply (ok (length a.loaded_games)) nothing,
    )
    else (s, reply (ok (length s.games)) nothing)

-- ReadGameList
unfoldable pub list_response : List GameEntry → Response
list_response [] = reply (err enoent) nothing
list_response (g ∷ gs) = reply (ok 0) (entries (g ∷ gs))

-- The entry at the client's index, which is not compared with the length.
unfoldable pub entry_at : Option GameEntry → Payload
entry_at none = outside
entry_at (some g) = entry g

-- ReadGameListEntry
unfoldable pub read_game_list_entry_at : (index : ℕ) → List GameEntry → Response
unfolding entry_at
read_game_list_entry_at index [] = reply (err enoent) nothing
read_game_list_entry_at index (g ∷ gs) = reply (ok 0) (entry_at (get_elem? (g ∷ gs) index))

-- ReadGameListEntryDetails
unfoldable pub read_game_list_entry_details : Code → GameEntry → Response
read_game_list_entry_details (ok n) g = reply (ok n) (entry g)
read_game_list_entry_details (err e) g = reply (err e) nothing

-- UpdateGameListEntry and DeleteGameEntry: the list is to be loaded again.
unfoldable pub reload_if_ok : Code → Session → Session × Response
reload_if_ok (ok n) s =
    (record s { server = record s.server { need_reload = true } }, reply (ok n) nothing)
reload_if_ok (err e) s = (s, reply (err e) nothing)

-- GetPartName
unfoldable pub get_part_name : Option (List ℕ) → Response
get_part_name none = reply (err enoent) nothing
get_part_name (some name) = reply (ok 0) (text name)

-- GetOSDResourceStat
unfoldable pub get_osd_resource_stat : Code → List ℕ → Response
get_osd_resource_stat (err e) files = reply (err e) nothing
get_osd_resource_stat (ok zero) files = reply (ok 0) (sizes files)
get_osd_resource_stat (ok (suc n)) files = reply (ok (suc n)) nothing

-- ReadOSDResource, once the sizes are known. When there is no memory or the read fails, the payload
-- has the file's length and the address NULL.
unfoldable pub read_osd_file : Answers → Response
read_osd_file a =
    if a.has_memory
    then elim a.read_file [
      | err e ↦ reply (err e) outside
      | ok n ↦ elim n [ zero ↦ reply (ok 0) (text a.file) | suc k ↦ reply (ok (suc k)) outside ]
    ]
    else reply (err enomem) outside

unfoldable pub read_osd_resource : Answers → (index : ℕ) → Response
unfolding read_osd_file
read_osd_resource a index = elim a.stats [
  | err e ↦ reply (err e) nothing
  | ok n ↦ elim n [
    | suc k ↦ reply (ok (suc k)) nothing
    | zero ↦ if ltb index num_osd_files_ents then read_osd_file a else reply (ok 0) outside
  ]
]

-- ReadOSDResourceTitles
unfoldable pub read_osd_resource_titles : Code → List ℕ → Response
read_osd_resource_titles (err e) lines = reply (err e) nothing
read_osd_resource_titles (ok zero) lines = reply (ok 0) (text lines)
read_osd_resource_titles (ok (suc n)) lines = reply (ok (suc n)) nothing

-- ReadMCSaveResource
unfoldable pub read_mc_save_resource : Answers → Response
read_mc_save_resource a =
    if a.has_memory
    then elim a.save_read [ err e ↦ reply (err e) nothing | ok n ↦ reply (ok n) (text a.file) ]
    else reply (err enomem) nothing

-- PowerOffServer, which sends no response.
unfoldable pub power_off_server : Session → Session × Response
power_off_server s =
    if leb s.num_clients 1
    then (record s { powered = false }, silent (ok 0))
    else (s, silent (err ebusy))

-- The commands once the versions have been compared.
unfoldable pub handle_verified : Command → Answers → Session → Session × Response
unfolding handle_close_game reload_game_list list_response read_game_list_entry_at
    read_game_list_entry_details reload_if_ok get_part_name get_osd_resource_stat read_osd_resource
    read_osd_resource_titles read_mc_save_resource power_off_server
handle_verified prep_game_inst a s = starts_data (prepare_game_installation a.game s.server) s
handle_verified (init_game_write offset) a s = starts_data (init_game a.game offset s.server) s
handle_verified (init_game_read offset) a s = starts_data (init_game a.game offset s.server) s
handle_verified io_status a s = (s, reply a.io_state nothing)
handle_verified close_game a s = handle_close_game a.game s
handle_verified load_game_list a s = reload_game_list a s
handle_verified read_game_list a s = (s, list_response s.games)
handle_verified (read_game_list_entry index) a s = (s, read_game_list_entry_at index s.games)
handle_verified read_game_entry a s =
    (s, read_game_list_entry_details a.retrieved a.retrieved_entry)
handle_verified upd_game_entry a s = reload_if_ok a.updated s
handle_verified del_game_entry a s = reload_if_ok a.removed s
handle_verified get_game_part_name a s = (s, get_part_name a.part_name)
handle_verified get_free_space a s = (s, reply a.free_space (number a.free_sectors))
handle_verified init_default_osd a s = on_server (init_default_osd_resources a.osd s.server) s
handle_verified init_osd a s = on_server (init_osd_resources a.osd s.server) s
handle_verified (osd_res_load_init index) a s =
    on_server (osd_resource_load_init a.osd index s.server) s
handle_verified write_osd a s = on_server (write_osd_resources a.osd s.server) s
handle_verified osd_res_write_cancel a s = on_server (cancel_osd_resource_write s.server) s
handle_verified get_osd_res_stat a s = (s, get_osd_resource_stat a.stats a.stat_sizes)
handle_verified osd_res_read_titles a s = (s, read_osd_resource_titles a.titles a.title_lines)
handle_verified (osd_res_read index) a s = (s, read_osd_resource a index)
handle_verified osd_mc_save_check a s = (s, reply a.save_check nothing)
handle_verified osd_mc_get_res_stat a s = (s, reply a.save_stat nothing)
handle_verified (osd_mc_res_read n) a s = (s, read_mc_save_resource a)
handle_verified shutdown a s = power_off_server s
handle_verified get_version a s = (s, silent (err einval))
handle_verified (send_version v) a s = (s, silent (err einval))
handle_verified unknown a s = (s, silent (err einval))

-- HandlePacket
unfoldable pub handle_packet : Command → Answers → Session → Session × Response
unfolding handle_unverified handle_verified
handle_packet command a s =
    if s.connected
    then (if s.verified then handle_verified command a s else handle_unverified command s)
    else if s.verified
    then handle_verified command a s
    else (s, silent (err failure))

-- ServerLoop for a client that has come: it is taken when the one slot's status is 0, and counted when
-- its thread has started.
unfoldable pub start_client : (started : Bool) → Session → Session
start_client started s = if s.connected || (s.verified || s.server.is_open) then s else record s {
  connected = true;
  num_clients = if started then s.num_clients + 1 else s.num_clients;
}

-- CleanupClientConnection, with the reload of the game list behind it.
unfoldable pub end_client : Answers → Session → Session
end_client a s =
    let t = cleanup_client_connection a.game s.server in
    record s {
      connected = false;
      verified = false;
      server = record t { need_reload = false };
      num_clients = s.num_clients - 1;
      games = if t.need_reload then a.loaded_games else s.games;
    }

abbrev pub is_game : Task → Bool
is_game task_game_installation = true
is_game task_osd_resource_config = false
is_game task_none = false

-- Whether EndInstallation would wait for ever.
unfoldable pub hangs : Session → Bool
hangs s = s.io_dead && is_game s.server.task

-- Whether a command waits for the data thread, which ends with EndInstallation.
abbrev pub awaits_data : Command → Bool
awaits_data close_game = true
awaits_data unknown = false
awaits_data _ = false

-- What happens to a server: a client comes, sends a command, goes; the data thread begins and ends;
-- the I/O thread of an installation meets an error.
pub data Event : Type 0 where
  client_comes : (started : Bool) → Event
  packet : Command → Answers → Event
  data_begins : Event
  data_ends : Outcome → Event
  client_goes : Answers → Event
  io_dies : Event

-- None where the event has a thread wait for ever in EndInstallation, with the client's state locked.
unfoldable pub step : Event → Session → Option Session
unfolding start_client handle_packet data_thread_ends end_client hangs
step (client_comes started) s = some (start_client started s)
step (packet command a) s =
    if (s.verified && awaits_data command) && (s.is_running && hangs s)
    then none
    else some (handle_packet command a s).0
step data_begins s =
    some (if s.is_starting then record s { is_starting = false; is_running = true } else s)
step (data_ends o) s =
    if s.is_running then (if hangs s then none else some (data_thread_ends o s)) else some s
step (client_goes a) s = if hangs s then none else some (end_client a s)
step io_dies s = some (if is_game s.server.task then record s { io_dead = true } else s)

-- The events up to the first that does not come to its end, and the state that it meets.
unfoldable pub run : List Event → Session → Session
unfolding step
run [] s = s
run (e ∷ es) s = elim (step e s) [ none ↦ s | some t ↦ run es t ]
