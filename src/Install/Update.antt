-- ===== src/Install/Update.antt =====
-- system.c: UpdateGameInstallation, on the game's header as hdlfs keeps it.
pub mod Updated
use Prim.Native.Nat.{bit_or}
use hdlgame_installer.Base.{
  ℕ, suc, ◌+◌, ◌*◌, ◌/◌, ◌%◌, ◌^◌, Bool, true, false, List, [], ◌∷◌, ◌++◌, length, Option, none,
  some, Code, ok, err, eio,
}
use hdlgame_installer.Hdlfs.Format.{u32}
use hdlgame_installer.Hdlfs.Header.{
  Medium, Stat, Change, GameInfo, hdlfs_getstat, hdlfs_chstat, hdlfs_update_game_title,
}

-- The new values; the title in UTF-8, without its null.
pub record GameUpdate : Type 0 where
  pub title_utf8 : List ℕ
  pub compat_mode_flags : ℕ
  pub transfer_type : ℕ
  pub transfer_mode : ℕ
  pub medium_type : ℕ

-- The stat that is written. `(stat.private_0 & 0xFFFF0000) | DiscType << 16` has a low half of
-- zeros, and its upper half is the OR of the two upper halves.
unfoldable pub updated_stat : GameUpdate → Stat → Stat
updated_stat u stat = record stat {
  attr = u.transfer_mode * 2 ^ 24 + u.transfer_type * 2 ^ 16 + u.compat_mode_flags * 2 ^ 8;
  private_0 = bit_or (stat.private_0 / 2 ^ 16) u.medium_type * 2 ^ 16;
}

-- FIO_CST_ATTR | FIO_CST_PRVT
abbrev pub attr_and_private : Change
attr_and_private = record { times = false; changes_attr = true; changes_private = true }

unfoldable pub after_getstat : GameUpdate → Code × Option Stat → Medium → Code × Medium
unfolding updated_stat
after_getstat u (err e, stat) m = (err e, m)
after_getstat u (ok n, none) m = (err eio, m)
after_getstat u (ok n, some stat) m = hdlfs_chstat attr_and_private (updated_stat u stat) m

unfoldable pub after_title : GameUpdate → Code × Medium → Code × Medium
unfolding after_getstat
after_title u (err e, m) = (err e, m)
after_title u (ok n, m) = after_getstat u (hdlfs_getstat m) m

-- fileXioUmount
abbrev pub without_mount : Code × Medium → Code × Medium
without_mount (r, m) = (r, record m { mounted = false })

-- UpdateGameInstallation: `mounted` is the result of fileXioMount.
unfoldable pub update_game : (mounted : Code) → GameUpdate → Medium → Code × Medium
unfolding after_title
update_game (err e) u m = (err e, m)
update_game (ok n) u m = without_mount (
    after_title u (
      hdlfs_update_game_title (u.title_utf8 ++ 0 ∷ []) (length u.title_utf8 + 1)
        (record m { mounted = true })))
