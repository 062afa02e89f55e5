-- ===== src/Server/Session/Gate.antt =====
-- HDLGameSvr.c: the version check in HandlePacket, and the end of a connection.
use hdlgame_installer.Base.{
  ◌+◌, true, false, some, ◌≡◌, refl, ap, ◌⊎◌, inl, inr, arith, ◌==◌, ==_iff, Bool-cases,
}
use hdlgame_installer.Server.Installation.{
  Task, task_game_installation, task_osd_resource_config, task_none, Server, Outcome,
  end_installation, end_installation_of, free_data, cleanup_client_connection,
}
use hdlgame_installer.Server.Session.Invariant.{games_of, Holds}
use hdlgame_installer.Server.Session.{
  Session, Command, Answers, handle_packet, handle_unverified, send_version, client_version,
  end_client, step, client_goes, hangs,
}

-- What a command may do to a client whose version has not been checked.
abbrev pub OnlyVerifies : Command → Session → Session → Type 0
OnlyVerifies c s t =
    (t ≡ s) ⊎ ((c ≡ send_version client_version) × (t ≡ record s { verified = true }))

unverified-OnlyVerifies : (c : Command) (s : Session) → OnlyVerifies c s (handle_unverified c s).0
unfolding handle_unverified
unverified-OnlyVerifies (send_version v) s = elim (Bool-cases (v == client_version)) [
  | inl e ↦ rw e (inr (ap send_version ((==_iff v client_version).0 e), refl))
  | inr e ↦ rw e (inl refl)
]
unverified-OnlyVerifies _ s = inl refl

-- Before a client's version has been checked, no command changes anything, but the client's version
-- itself, which sets the flag when it is the server's.
pub handle_packet-OnlyVerifies :
    (c : Command) (a : Answers) (s : Session)
    → s.connected ≡ true
    → s.verified ≡ false
    → OnlyVerifies c s (handle_packet c a s).0
unfolding handle_packet
handle_packet-OnlyVerifies c a s here unknown = ground (arith, unverified-OnlyVerifies c s)

-- What the end of a connection leaves of a server, once `s` is given.
abbrev Released : Server → Server → Type 0
Released s t =
    (t.mounts ≡ 0)
    × (t.opens ≡ 0)
    × (t.banks ≡ 0)
    × (t.threads ≡ 0)
    × (t.lock ≡ s.lock + games_of s.task)

cleanup-Released : (o : Outcome) (s : Server) → Holds s → Released s (cleanup_client_connection o s)
unfolding cleanup_client_connection end_installation end_installation_of
cleanup-Released o s h = at s.task refl
  where
    at :
        (t : Task)
        → s.task ≡ t
        → Released s
            (free_data (record (end_installation_of t o s).1 { is_open = false; task = task_none }))
    at task_game_installation e = ground (arith, ap games_of e)
    at task_osd_resource_config e = ground (arith, ap games_of e)
    at task_none e = ground (arith, ap games_of e)

-- When the client goes, and the I/O thread of an installation has not met an error, nothing of a game
-- stays mounted, open, allocated or set up, and an installation that was under way gives the lock
-- back; when there was none, the lock is as before. The server holds at the start what its task needs.
pub end_client_releases :
    (a : Answers) (s : Session)
    → Holds s.server
    → hangs s ≡ false
    → (t : Session) × (step (client_goes a) s ≡ some t)
      × (t.server.mounts ≡ 0)
      × (t.server.opens ≡ 0)
      × (t.server.banks ≡ 0)
      × (t.server.threads ≡ 0)
      × (t.server.lock ≡ s.server.lock + games_of s.server.task)
unfolding step end_client
end_client_releases a s h lives =
    let released = cleanup-Released a.game s.server h in
    (end_client a s, rw lives refl, released.0, released.1, released.2, released.3, released.4)
