-- ===== src/Server/Session/Reachable.antt =====
-- HDLGameSvr.c: whatever clients send and however the calls end, the server holds what its task needs.
use hdlgame_installer.Base.{Option, none, some}
use hdlgame_installer.Server.Installation.{Server}
use hdlgame_installer.Server.Session.Invariant.{Holds}
use hdlgame_installer.Server.Session.{Session}

-- What holds after an event that comes to its end.
abbrev After : Option Session → Type 0
After none = Unit {0}
After (some t) = Holds t.server
