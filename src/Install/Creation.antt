-- ===== src/Install/Creation.antt =====
-- system.c: CreateAndFormatPartition and PrepareInstallHDLGame.
pub mod Prepared
pub mod Covers
pub mod Formatted
use hdlgame_installer.Base.{
  ℕ, zero, suc, ◌+◌, ◌%◌, Bool, true, false, List, [], ◌∷◌, Option, none, some, take, if◌then◌else◌,
  ltb, Code, ok, err, is_ok,
}
use hdlgame_installer.Hdlfs.Format.{u32, sub32}
use hdlgame_installer.Install.Partitions.{
  PartSize, Apa, add_partition, sectors_left, Made, add_made, add_subs,
}

-- The arguments of the game to be installed. The title is as wcstombs gives it.
pub record GameRequest : Type 0 where
  pub game_title : List ℕ
  pub startup_fname : List ℕ
  pub compatibility_mode_flags : ℕ
  pub tr_mode : ℕ
  pub tr_type : ℕ
  pub disc_type : ℕ
  pub sectors_in_disc_layer0 : ℕ
  pub sectors_in_disc_layer1 : ℕ

-- struct HDLFS_FormatArgs
pub record FormatArgs : Type 0 where
  pub title : List ℕ
  pub startup_path : List ℕ
  pub compat_flags : ℕ
  pub transfer_type : ℕ
  pub transfer_mode : ℕ
  pub medium : ℕ
  pub num_sectors : ℕ
  pub layer1_start : ℕ

-- The sizes of the two text fields.
abbrev pub title_size : ℕ
title_size = 160

abbrev pub startup_size : ℕ
startup_size = 60

-- NumSectorsOnDisc
abbrev pub sectors_on_disc : GameRequest → ℕ
sectors_on_disc g = (g.sectors_in_disc_layer0 + g.sectors_in_disc_layer1) % u32

unfoldable pub format_args : GameRequest → FormatArgs
unfolding sub32
format_args g = record {
  title = take title_size g.game_title;
  startup_path = take startup_size g.startup_fname;
  compat_flags = g.compatibility_mode_flags;
  transfer_type = g.tr_type;
  transfer_mode = g.tr_mode;
  medium = g.disc_type;
  num_sectors = sectors_on_disc g;
  layer1_start = if ltb 0 g.sectors_in_disc_layer1 then sub32 g.sectors_in_disc_layer0 16 else 0;
}

-- What is left behind: the result, the partitions that were made, the main one first, and whether
-- the main partition, and all of them with it, has been removed again.
pub record CreationOutcome : Type 0 where
  pub result : Code
  pub parts : List PartSize
  pub removed : Bool

-- `if (result < 0) fileXioRemove(PartName);`
abbrev pub remove_if_failed : Code → List PartSize → CreationOutcome
remove_if_failed (ok n) parts = record { result = ok n; parts = parts; removed = false }
remove_if_failed (err e) parts = record { result = err e; parts = parts; removed = true }

-- `if (result >= 0)` behind the loop over the sub-partitions. fileXioFormat is given the
-- partitions that are there.
unfoldable pub format_made :
    (List PartSize → FormatArgs → Code) → GameRequest → PartSize → Made → CreationOutcome
unfolding format_args
format_made format g main m = elim m.result [
  | err e ↦ remove_if_failed (err e) (main ∷ m.parts)
  | ok n ↦ remove_if_failed (format (main ∷ m.parts) (format_args g)) (main ∷ m.parts)
]

abbrev pub with_made :
    (List PartSize → FormatArgs → Code)
    → GameRequest
    → PartSize
    → Option Made
    → Option CreationOutcome
with_made format g main none = none
with_made format g main (some m) = some (format_made format g main m)

-- `if (fd >= 0)`
unfoldable pub after_main :
    Apa
    → (List PartSize → FormatArgs → Code)
    → GameRequest
    → Code × PartSize
    → Option CreationOutcome
unfolding format_made add_subs
after_main apa format g (err e, main) =
    some (record { result = err e; parts = []; removed = false })
after_main apa format g (ok fd, main) =
    let left = sectors_left (sectors_on_disc g) main.sectors in
    with_made format g main (add_subs apa (left + 1) left 1 (ok 0) main)

-- CreateAndFormatPartition, with as much fuel for the sub-partitions as there are sectors left.
-- `unset` is what the variables that GetPartSize fills have at the start.
unfoldable pub create_and_format :
    Apa
    → (List PartSize → FormatArgs → Code)
    → (unset : PartSize) → GameRequest
    → Option CreationOutcome
unfolding after_main add_partition
create_and_format apa format unset g =
    after_main apa format g (add_partition apa (sectors_on_disc g) 0 unset)
