-- ===== src/Tests/Installs.antt =====
-- A game that gets its partitions, is copied from the disc drive, and is found again.
use hdlgame_installer.Base.{
  Option, ℕ, zero, suc, ◌+◌, ◌*◌, ◌%◌, ◌<◌, ◌≤◌, Bool, true, false, List, [], ◌∷◌, ◌++◌, length,
  none, some, drop, ◌≡◌, ◌≢◌, refl, arith, ok, err, enospc, eio, is_ok, slice, leb, ltb,
  if◌then◌else◌,
}
use mathlib.Core.List.{Perm}
use mathlib.Core.List.Perm
use hdlgame_installer.Settings.Text.{codes}
use hdlgame_installer.Hdlfs.Format.{reserved, PartSpec, Volume, u32, hdlfs_format}
use hdlgame_installer.Hdlfs.Format.Tiles.{Tiles, IsVolume}
use hdlgame_installer.Hdlfs.Header.{GameInfo}
use hdlgame_installer.Hdlfs.Descriptor.{hdl_fs_magic}
use hdlgame_installer.Install.Partitions.{size_at, PartSize, Apa, get_part_size}
use hdlgame_installer.Install.Partitions.Sizes.{get_part_size_halves}
use hdlgame_installer.Install.Partitions.Enough.{Refused}
use hdlgame_installer.Install.Creation.{GameRequest, CreationOutcome, create_and_format}
use hdlgame_installer.Install.Creation.Prepared.{IsPrepared, FailsBy, create_and_format-IsPrepared}
use hdlgame_installer.Install.Creation.Covers.{Disc, volume_of, format_on, size_in}
use hdlgame_installer.Install.Creation.Formatted.{hdlfs_format-parts, create_and_format_succeeds}
use hdlgame_installer.Install.Names.{
  Dirent, generate_part_name, part_create_cmd, part_create_cmd_size, size_text, check_existing,
  strncpy,
}
use hdlgame_installer.Install.Names.Fits.{
  part_name, part_name_size, generate_part_name_fits, part_create_cmd_overflows,
}
use hdlgame_installer.Install.Names.Found.{check_existing-part_name}
use hdlgame_installer.Install.Games.{entry_of, CentralList, load_game_list}
use hdlgame_installer.Install.Games.Listed.{
  entry_of-hdlfs_format, games_in, entries_of, load_game_list-Perm,
}
use hdlgame_installer.Install.Update.{GameUpdate, update_game}
use hdlgame_installer.Install.Update.Updated.{updated_info, update_game_lem}
use hdlgame_installer.Install.Drive.{status_ok, aborted, Round, Run, installer_thread, DriveState}
use hdlgame_installer.Install.Drive.Plan.{plan_of}
use hdlgame_installer.Install.Drive.Copies.{ends_write, Waits, installer_thread-IsCopy}

-- A driver that has room for the two smallest sizes only.
abbrev small_disc : Apa
small_disc = record {
  max_sectors = 2097152;
  create = λ part index. if ltb index 2 then ok 0 else err enospc;
}

abbrev game : GameRequest
game = record {
  game_title = codes "Ico";
  startup_fname = codes "SCES_507.60";
  compatibility_mode_flags = 0;
  tr_mode = 4;
  tr_type = 0x40;
  disc_type = 20;
  sectors_in_disc_layer0 = 300000;
  sectors_in_disc_layer1 = 0;
}

abbrev unset : PartSize
unset = record { index = 0; sectors = 0 }

abbrev disc : Disc
disc = record { handle = 3; first = λ i. 100000 * i }

create_and_format-IsPrepared_example :
    (o : CreationOutcome) × (create_and_format small_disc (λ ps args. err eio) unset game ≡ some o)
    × IsPrepared small_disc game o
    × FailsBy small_disc (λ ps args. err eio) game o
create_and_format-IsPrepared_example =
    create_and_format-IsPrepared small_disc (λ ps args. err eio) unset game

create_and_format_succeeds_example :
    (o : CreationOutcome) × (create_and_format small_disc (format_on disc) unset game ≡ some o)
    × IsPrepared small_disc game o
    × (is_ok o.result ≡ false → Refused small_disc (length o.parts) o.result)
create_and_format_succeeds_example = create_and_format_succeeds small_disc disc unset game

get_part_size_halves_example : (get_part_size (4 * size_at (0 + 1)) 300000 1 none unset).0 ≡ some 0
get_part_size_halves_example =
    get_part_size_halves 300000 0 unset (omega arith) (omega arith) (omega arith)

abbrev letters : ℕ → Bool
letters c = leb b'A' c

generate_part_name_fits_example :
    (slice
        (generate_part_name letters (codes "SCES-50760") (codes "Ico") (λ x. 7))
        0
        (length (part_name letters (codes "SCES-50760") (codes "Ico")) + 1)
      ≡ part_name letters (codes "SCES-50760") (codes "Ico") ++ 0 ∷ [])
    × (length (part_name letters (codes "SCES-50760") (codes "Ico")) + 1 ≤ part_name_size)
generate_part_name_fits_example =
    generate_part_name_fits letters (codes "SCES-50760") (codes "Ico") (λ x. 7) refl

part_create_cmd_overflows_example :
    part_create_cmd_size
    < length (
        part_create_cmd
          (part_name letters (codes "SCES-50760") (codes "Shadow of the"))
          (size_text 5))
part_create_cmd_overflows_example =
    part_create_cmd_overflows letters (codes "SCES-50760") (codes "Shadow of the") 5 refl
      (omega arith) (omega arith)

abbrev common : Dirent
common = record { name = codes "__common"; stat_mode = 0x100; is_sub = false; lba = 0 }

abbrev ico : Dirent
ico = record {
  name = drop 5 (part_name letters (codes "SCES-50760") (codes "Ico"));
  stat_mode = hdl_fs_magic;
  is_sub = false;
  lba = 4096;
}

check_existing-part_name_example :
    check_existing (ok 3) ((common ∷ []) ++ ico ∷ []) (codes "SCES-50760") 33
    ≡ some (strncpy ico.name 33)
check_existing-part_name_example =
    check_existing-part_name letters (codes "SCES-50760") (codes "Ico") 3 33 (common ∷ []) [] ico
      (refl, tt) refl refl

-- One slice of 3000 sectors, and its header.
abbrev volume : Volume
volume = volume_of disc (record { index = 0; sectors = 63488 } ∷ [])

abbrev ico_slice : PartSpec
ico_slice = record { part_offset = 0; data_start = 0x2000; part_size = 3000 * 2048 }

abbrev ico_info : GameInfo
ico_info = record {
  gamename = codes "Ico";
  hdl_compat_flags = 0;
  ops2l_compat_flags = 0;
  dma_type = 0x40;
  dma_mode = 4;
  startup = codes "SCES_507.60";
  layer1_start = 0;
  disc_type = 20;
  num_partitions = 1;
  part_specs = ico_slice ∷ [];
}

volume-IsVolume : IsVolume volume
volume-IsVolume = record { has_reserved = λ i. reserved_le i; size_u32 = λ i. below i }
  where
    reserved_le : (i : ℕ) → reserved i ≤ volume.size i
    reserved_le zero = omega arith
    reserved_le (suc i) = ground arith

    below : (i : ℕ) → volume.size i < u32
    below zero = omega arith
    below (suc i) = ground arith

formatted : hdlfs_format volume 3000 ≡ (ok 0, some (ico_slice ∷ []))
unfolding hdlfs_format
formatted = refl

entry_of-hdlfs_format_example : (entry_of ico_info (codes "PP.SCES-50760")).sectors ≡ 3000
entry_of-hdlfs_format_example =
    entry_of-hdlfs_format volume 3000 (ico_slice ∷ []) 0 ico_info (codes "PP.SCES-50760")
      volume-IsVolume (omega arith) formatted refl refl

hdlfs_format-parts_example :
    (qs : List PartSpec) × (hdlfs_format volume 3000 ≡ (ok 0, some qs))
    × Tiles (size_in 0 (record { index = 0; sectors = 63488 } ∷ [])) 0 0 3000 qs
hdlfs_format-parts_example =
    hdlfs_format-parts small_disc disc (record { index = 0; sectors = 63488 } ∷ []) 3000
      (
        record { listed = omega arith; least = omega arith; whole = refl; most = omega arith },
        refl,
        tt,
      )
      (λ e. cc) (omega arith) (omega arith)

-- Every header that is read is that of the game.
abbrev headers : ℕ → Option GameInfo
headers lba = some ico_info

abbrev fresh : CentralList
fresh = record { game_list = []; num_games = 0; generation = 0; lock = 1 }

load_game_list-Perm_example :
    (d : CentralList) × (load_game_list (λ xs. xs) true (ok 3) headers (common ∷ ico ∷ []) fresh
      ≡ some d)
    × Perm d.game_list (entries_of headers (games_in (common ∷ ico ∷ [])))
    × (d.num_games ≡ length (entries_of headers (games_in (common ∷ ico ∷ []))))
    × (d.generation ≢ fresh.generation)
    × (d.lock ≡ 1)
load_game_list-Perm_example =
    load_game_list-Perm (λ xs. xs) true 3 headers (common ∷ ico ∷ []) fresh (λ xs. Perm.refl xs)
      refl (omega arith)

-- A drive and a disc without errors.
abbrev good_round : ℕ → Round
good_round k = record {
  is_read = true;
  is_written = true;
  is_abort = false;
  is_free = true;
  is_taken = true;
}

installer_thread-IsCopy_example :
    (r : Run) × (installer_thread true true good_round true 300 0 ≡ some r)
    × (r.ended ≡ true → r.status ≡ status_ok → r.calls ≡ plan_of 0 ((300 + 0) % u32))
    × (r.status ≡ aborted → ends_write r.calls ≡ false)
    × Waits good_round true 0 r
installer_thread-IsCopy_example = installer_thread-IsCopy true true good_round true 300 0

copied :
    installer_thread true true good_round true 300 0
    ≡ some (record { calls = plan_of 0 300; status = status_ok; ended = true })
unfolding installer_thread
copied = refl

abbrev at_rest : DriveState
at_rest = record { mounts = 0; opens = 0; removed = false }

abbrev stopped_run : Run
stopped_run = record { calls = []; status = aborted; ended = true }

abbrev new_settings : GameUpdate
new_settings = record {
  title_utf8 = codes "ICO";
  compat_mode_flags = 2;
  transfer_type = 0x20;
  transfer_mode = 0;
  medium_type = 18;
}

-- The disc was a DVD (20) and becomes a CD (18): 20 and 18 give 22, which is neither.
update_game_lem_example :
    update_game
      (ok 0)
      new_settings
      (record { mounted = false; info = ico_info; reads_all = true; writes_all = true })
    ≡ (
      ok 1024,
      record {
        mounted = false;
        info = updated_info new_settings ico_info;
        reads_all = true;
        writes_all = true;
      },
    )
update_game_lem_example =
    update_game_lem new_settings ico_info 0 (omega arith) (omega arith) (omega arith) (omega arith)
      (omega arith) (omega arith)

neither_type : (updated_info new_settings ico_info).disc_type ≡ 22
neither_type = refl
