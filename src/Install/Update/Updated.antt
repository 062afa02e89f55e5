-- ===== src/Install/Update/Updated.antt =====
-- system.c and hdlfs/main.c: what UpdateGameInstallation changes in the header.
use Prim.Native.Nat.{bit_or}
use hdlgame_installer.Base.{
  ℕ, ◌+◌, ◌-◌, ◌*◌, ◌/◌, ◌%◌, ◌^◌, ◌<◌, true, false, [], ◌∷◌, ◌++◌, length, take, replicate, ◌≡◌,
  refl, arith, ltb, ok,
}
use hdlgame_installer.Hdlfs.Format.{u32}
use hdlgame_installer.Hdlfs.Header.{
  GameInfo, title_len, fill_stat, unpack_attr, unpack_private, changed_info, hdlfs_getstat,
  hdlfs_chstat, hdlfs_update_game_title,
}
use hdlgame_installer.Install.Update.{GameUpdate, updated_stat, update_game}

-- The header behind the update.
abbrev pub updated_info : GameUpdate → GameInfo → GameInfo
updated_info u g = record g {
  gamename =
      take (length u.title_utf8 + 1) (u.title_utf8 ++ 0 ∷ [])
      ++ replicate (title_len - (length u.title_utf8 + 1)) 0;
  hdl_compat_flags = 0;
  ops2l_compat_flags = u.compat_mode_flags;
  dma_type = u.transfer_type;
  dma_mode = u.transfer_mode;
  disc_type = bit_or g.disc_type u.medium_type;
}

-- On a game whose header can be read and written, with a title that fits and bytes as its settings,
-- UpdateGameInstallation succeeds and unmounts the game. The header has the new title, flags and
-- transfer mode, and no other field is changed but the disc's type: it becomes the bitwise OR of
-- the old type and the new one.
pub update_game_lem :
    (u : GameUpdate) (g : GameInfo) (n : ℕ)
    → length u.title_utf8 + 1 < title_len
    → u.compat_mode_flags < 2 ^ 8
    → u.transfer_type < 2 ^ 8
    → u.transfer_mode < 2 ^ 8
    → g.disc_type < 2 ^ 8
    → g.num_partitions < 2 ^ 16
    → update_game
        (ok n)
        u
        (record { mounted = false; info = g; reads_all = true; writes_all = true })
      ≡ (
        ok 1024,
        record { mounted = false; info = updated_info u g; reads_all = true; writes_all = true },
      )
unfolding update_game hdlfs_update_game_title hdlfs_getstat hdlfs_chstat fill_stat changed_info
    unpack_attr unpack_private updated_stat
update_game_lem u g n fits flags type mode disc parts =
    rw (small, byte3, byte2, byte1, byte0, old_type, new_type) refl
  where
    small : ltb (length u.title_utf8 + 1) title_len ≡ true
    small = ground arith

    attr : ℕ
    attr = u.transfer_mode * 2 ^ 24 + u.transfer_type * 2 ^ 16 + u.compat_mode_flags * 2 ^ 8

    byte3 : attr / 2 ^ 24 % 2 ^ 8 ≡ u.transfer_mode
    byte3 = omega arith

    byte2 : attr / 2 ^ 16 % 2 ^ 8 ≡ u.transfer_type
    byte2 = omega arith

    byte1 : attr / 2 ^ 8 % 2 ^ 8 ≡ u.compat_mode_flags
    byte1 = omega arith

    byte0 : attr % 2 ^ 8 ≡ 0
    byte0 = omega arith

    old_type : (g.disc_type * 2 ^ 16 + g.num_partitions) % u32 / 2 ^ 16 ≡ g.disc_type
    old_type = omega arith

    new_type : bit_or g.disc_type u.medium_type * 2 ^ 16 / 2 ^ 16 ≡ bit_or g.disc_type u.medium_type
    new_type = omega arith
