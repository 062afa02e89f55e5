-- ===== src/Server/Osd.antt =====
-- HDLGameSvr.c: the task that prepares the resources which the console's browser shows for a game.
-- PrepareOSDResources, LoadOSDResource, InstallOSDFiles and FreeOSDResources are those of OSD.c, whose
-- results are a parameter.
use hdlgame_installer.Base.{
  ℕ, suc, zero, ◌+◌, ◌-◌, Bool, true, false, Code, ok, err, enomem, ebusy, einval, if◌then◌else◌,
  ltb,
}
use hdlgame_installer.Server.Installation.{
  Task, task_game_installation, task_osd_resource_config, task_none, Server,
}
pub use hdlgame_installer.Osd.Files.{num_osd_files_ents}

-- What the calls below answer during one command: malloc, PrepareOSDResources, memalign, GetResponse,
-- LoadOSDResource and InstallOSDFiles.
pub record OsdOutcome : Type 0 where
  pub has_memory : Bool
  pub prepared : Code
  pub has_buffer : Bool
  pub received : Code
  pub loaded : Code
  pub installed : Code

-- The client once its OSD context has been allocated and filled.
abbrev pub osd_started : Server → Server
osd_started s = record s {
  task = task_osd_resource_config;
  has_data = true;
  contexts = s.contexts + 1;
  resources = s.resources + 1;
  new_buffer = false;
}

-- The two commands that start the task; `result` is what PrepareOSDResources returns, and the task is
-- set whether it is an error or not.
unfoldable pub start_osd : OsdOutcome → Code → Task → Server → Code × Server
start_osd o result task_none s =
    if o.has_memory then (result, osd_started s) else (err enomem, record s { has_data = false })
start_osd o result task_game_installation s = (err ebusy, s)
start_osd o result task_osd_resource_config s = (err ebusy, s)

-- InitDefaultOSDResources
unfoldable pub init_default_osd_resources : OsdOutcome → Server → Code × Server
unfolding start_osd
init_default_osd_resources o s = start_osd o (ok 0) s.task s

-- InitOSDResources
unfoldable pub init_osd_resources : OsdOutcome → Server → Code × Server
unfolding start_osd
init_osd_resources o s = start_osd o o.prepared s.task s

-- `if ((result = GetResponse(…)) == 0)`, with the buffer allocated. It goes to the resources when it
-- is loaded, and is freed otherwise; the context forgets it in both cases.
unfoldable pub receive_resource : OsdOutcome → Server → Code × Server
receive_resource o s =
    let done = record s { new_buffer = false; buffers = s.buffers - 1 } in
    elim o.received [
      | err e ↦ (err e, done)
      | ok n ↦ elim n [ zero ↦ (o.loaded, done) | suc k ↦ (ok (suc k), done) ]
    ]

-- The rest of OSDResourceLoadInit for the task. A negative index reads as 2 ^ 31 or more. The response
-- of 0 that asks for the file, before GetResponse, changes no state and its result is ignored.
unfoldable pub load_resource : OsdOutcome → (index : ℕ) → Server → Code × Server
unfolding receive_resource
load_resource o index s =
    if ltb index num_osd_files_ents
    then if s.new_buffer
      then (err ebusy, s)
      else if o.has_buffer
      then receive_resource o (record s { new_buffer = true; buffers = s.buffers + 1 })
      else (err enomem, s)
    else (err einval, s)

-- `client->task == TASK_OSD_RESOURCE_CONFIG` guards the other commands.
abbrev pub with_osd : (Server → Code × Server) → Task → Server → Code × Server
with_osd f task_osd_resource_config s = f s
with_osd f task_game_installation s = (err einval, s)
with_osd f task_none s = (err einval, s)

-- OSDResourceLoadInit
unfoldable pub osd_resource_load_init : OsdOutcome → (index : ℕ) → Server → Code × Server
unfolding load_resource
osd_resource_load_init o index s = with_osd (load_resource o index) s.task s

-- FreeOSDResources, free and the reset of the task.
abbrev pub osd_ended : Server → Server
osd_ended s = record s {
  task = task_none;
  has_data = false;
  contexts = s.contexts - 1;
  resources = s.resources - 1;
}

-- WriteOSDResources
unfoldable pub write_osd_resources : OsdOutcome → Server → Code × Server
write_osd_resources o s = with_osd (λ (t : Server). (o.installed, osd_ended t)) s.task s

-- CancelOSDResourceWrite
unfoldable pub cancel_osd_resource_write : Server → Code × Server
cancel_osd_resource_write s = with_osd (λ (t : Server). (ok 0, osd_ended t)) s.task s
