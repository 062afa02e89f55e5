-- ===== src/Hdlfs/Header.antt =====
-- hdlfs/main.c: the game's header: getstat, chstat, and the devctl commands that read and set the
-- game's title. The header is on the partition of the driver below: how many bytes its read and
-- write take are parameters.
pub mod Attributes
use hdlgame_installer.Base.{
  ℕ, zero, suc, ◌+◌, ◌-◌, ◌*◌, ◌/◌, ◌%◌, ◌^◌, min, Bool, true, false, List, [], ◌∷◌, ◌++◌, Option,
  none, some, Code, ok, err, Errno, einval, eio, enodev, if◌then◌else◌, ltb, ◌==◌, take, replicate,
}
use hdlgame_installer.Hdlfs.Format.{PartSpec, u32}

-- hdl_game_info
pub record GameInfo : Type 0 where
  pub gamename : List ℕ
  pub hdl_compat_flags : ℕ
  pub ops2l_compat_flags : ℕ
  pub dma_type : ℕ
  pub dma_mode : ℕ
  pub startup : List ℕ
  pub layer1_start : ℕ
  pub disc_type : ℕ
  pub num_partitions : ℕ
  pub part_specs : List PartSpec

abbrev pub title_len : ℕ
title_len = 160

-- The mounted partition: its header, and whether read and write take all of it.
pub record Medium : Type 0 where
  pub mounted : Bool
  pub info : GameInfo
  pub reads_all : Bool
  pub writes_all : Bool

-- The fields of iox_stat_t that getstat fills.
pub record Stat : Type 0 where
  pub attr : ℕ
  pub size : ℕ
  pub private_0 : ℕ
  pub private_1 : ℕ
  pub private_5 : ℕ

-- The loop that sums the slices.
unfoldable pub game_size : (rounds : ℕ) → List PartSpec → (sum : ℕ) → ℕ
game_size zero ps sum = sum
game_size (suc rounds) [] sum = sum
game_size (suc rounds) (p ∷ ps) sum = game_size rounds ps ((sum + p.part_size / 2048) % u32)

-- `(dma_mode << 24) | (dma_type << 16) | (ops2l_compat_flags << 8) | hdl_compat_flags` on bytes
unfoldable pub pack_attr : GameInfo → ℕ
pack_attr g =
    g.dma_mode * 2 ^ 24 + g.dma_type * 2 ^ 16 + g.ops2l_compat_flags * 2 ^ 8 + g.hdl_compat_flags

-- The reverse, as chstat stores it in the header.
unfoldable pub unpack_attr : ℕ → GameInfo → GameInfo
unpack_attr attr g = record g {
  dma_mode = attr / 2 ^ 24 % 2 ^ 8;
  dma_type = attr / 2 ^ 16 % 2 ^ 8;
  ops2l_compat_flags = attr / 2 ^ 8 % 2 ^ 8;
  hdl_compat_flags = attr % 2 ^ 8;
}

-- What chstat makes of private_0 and private_1.
unfoldable pub unpack_private : (private_0 private_1 : ℕ) → GameInfo → GameInfo
unpack_private private_0 private_1 g = record g {
  disc_type = private_0 / 2 ^ 16;
  layer1_start = private_1;
}

-- `num_partitions` has the low half of private_0 to itself, as it is below 2 ^ 16.
unfoldable pub fill_stat : GameInfo → Stat
unfolding game_size pack_attr
fill_stat g = record {
  attr = pack_attr g;
  size = game_size g.num_partitions g.part_specs 0;
  private_0 = (g.disc_type * 2 ^ 16 + g.num_partitions) % u32;
  private_1 = g.layer1_start;
  private_5 = 0x2000;
}

-- hdlfs_getstat
unfoldable pub hdlfs_getstat : Medium → Code × Option Stat
unfolding fill_stat
hdlfs_getstat m =
    if m.mounted
    then (if m.reads_all then (ok 0, some (fill_stat m.info)) else (err eio, none))
    else (err enodev, none)

-- The bits of chstat's flags: `times` stands for any of FIO_CST_MODE, SIZE, CT, AT and MT.
pub record Change : Type 0 where
  pub times : Bool
  pub changes_attr : Bool
  pub changes_private : Bool

-- The header that chstat writes.
unfoldable pub changed_info : Change → Stat → GameInfo → GameInfo
unfolding unpack_attr unpack_private
changed_info c stat g =
    let with_attr = if c.changes_attr then unpack_attr stat.attr g else g in
    if c.changes_private then unpack_private stat.private_0 stat.private_1 with_attr else with_attr

-- hdlfs_chstat. A write that is not complete counts as none.
unfoldable pub hdlfs_chstat : Change → Stat → Medium → Code × Medium
unfolding changed_info
hdlfs_chstat c stat m =
    if m.mounted
    then if m.reads_all
      then if c.times
        then (err einval, m)
        else if m.writes_all
        then (ok 1024, record m { info = changed_info c stat m.info })
        else (err eio, m)
      else (err eio, m)
    else (err enodev, m)

-- HDLFS_DEVCTL_SET_TITLE: hdlfs_UpdateGameTitle behind hdlfs_devctl's guard. `name` is what the
-- `len` bytes of the argument hold.
unfoldable pub hdlfs_update_game_title : (name : List ℕ) (len : ℕ) → Medium → Code × Medium
hdlfs_update_game_title name len m =
    if m.mounted
    then if ltb len title_len
      then if m.reads_all
        then if m.writes_all
          then (
            ok 0,
            record m {
              info = record m.info { gamename = take len name ++ replicate (title_len - len) 0 };
            },
          )
          else (err eio, m)
        else (err eio, m)
      else (err einval, m)
    else (err enodev, m)

-- HDLFS_DEVCTL_GET_TITLE: hdlfs_getstat_filler with a title of at most `max_len` bytes. Of those
-- bytes it leaves what stands between the copy and the final zero as it was in `out`.
unfoldable pub hdlfs_get_title : (max_len : ℕ) (between : List ℕ) → Medium → Code × Option (List ℕ)
hdlfs_get_title max_len between m =
    if m.mounted
    then if m.reads_all
      then (ok 0, some (take (min max_len title_len - 1) m.info.gamename ++ between ++ 0 ∷ []))
      else (err eio, none)
    else (err enodev, none)
