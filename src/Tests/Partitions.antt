-- ===== src/Tests/Partitions.antt =====
-- A game of two partitions: its format, its transfers and its header.
use hdlgame_installer.Base.{
  ℕ, zero, suc, ◌*◌, ◌^◌, ◌≤◌, ◌<◌, true, List, [], ◌∷◌, ◌++◌, some, ◌≡◌, refl, sym, ap, arith,
  Code, ok,
}
use hdlgame_installer.Hdlfs.Format.{
  PartSpec, Volume, u32, reserved, hdlfs_format, format_loop, finish_format, slice_sectors, sub32,
}
use hdlgame_installer.Hdlfs.Format.Tiles.{Tiles, IsVolume, hdlfs_format-Tiles}
use hdlgame_installer.Hdlfs.Descriptor.{Descriptor}
use hdlgame_installer.Hdlfs.Transfer.{
  Drive, Command, ata_dir_read, span, blocks, part_sectors, hdlfs_io_internal,
}
use hdlgame_installer.Hdlfs.Transfer.InOrder.{IsAt, Transferred, hdlfs_io_internal-Transferred}
use hdlgame_installer.Hdlfs.Header.{GameInfo, Stat, game_size, hdlfs_getstat, hdlfs_chstat}
use hdlgame_installer.Hdlfs.Header.Attributes.{intact, change_both, hdlfs_getstat-hdlfs_chstat}

-- 0x2000 + 16 sectors in the first partition, 4 + 16 in each that follows.
abbrev sizes : ℕ → ℕ
sizes zero = 0x2010
sizes (suc i) = 20

abbrev volume : Volume
volume = record {
  opened = ok 3;
  nsub = 1;
  start = λ i. ok (i * 0x10_0000);
  size = sizes;
  writes_all = true;
}

sizes-enough : (i : ℕ) → reserved i ≤ sizes i
sizes-enough zero = omega arith
sizes-enough (suc i) = omega arith

sizes-small : (i : ℕ) → sizes i < u32
sizes-small zero = omega arith
sizes-small (suc i) = omega arith

volume-IsVolume : IsVolume volume
volume-IsVolume = record { has_reserved = sizes-enough; size_u32 = sizes-small }

-- Six sectors: four in the first slice, two in the second.
abbrev slices : List PartSpec
slices =
    record { part_offset = 0; data_start = 0x2000; part_size = 8192 }
    ∷ record { part_offset = 4; data_start = 0x10_0004; part_size = 4096 }
    ∷ []

formats : hdlfs_format volume 6 ≡ (ok 0, some slices)
unfolding hdlfs_format format_loop finish_format slice_sectors sub32
formats = refl

hdlfs_format-Tiles_example : Tiles sizes 0 0 6 slices
hdlfs_format-Tiles_example =
    hdlfs_format-Tiles volume 6 volume-IsVolume (omega arith) slices 0 formats

-- A drive that lists what it has transferred.
abbrev Log : Type 0
Log = List (ℕ × ℕ) × List ℕ

abbrev log_ioctl2 : Log → Command → Code × Log
log_ioctl2 d c = (ok 0, (d.0 ++ span c.sub c.sector c.size, d.1 ++ blocks c.buffer c.size))

log_ioctl2_ok :
    (d : Log) (c : Command) {n : ℕ} {d' : Log}
    → log_ioctl2 d c ≡ (ok n, d')
    → (d'.0 ≡ d.0 ++ span c.sub c.sector c.size) × (d'.1 ≡ d.1 ++ blocks c.buffer c.size)
log_ioctl2_ok d c e = (sym (ap (λ p. p.1.0) e), sym (ap (λ p. p.1.1) e))

abbrev drive : Drive
drive = record {
  Dev = Log;
  ioctl2 = log_ioctl2;
  touched = λ d. d.0;
  placed = λ d. d.1;
  ioctl2_ok = log_ioctl2_ok;
}

-- Two 512-byte sectors before the end of the first slice.
abbrev near_end : Descriptor
near_end = record {
  mount_fd = ok 3;
  num_partitions = 2;
  current_part = 0;
  relative_sector = 14;
  offset = 14;
  size = 0x2024;
  part_specs = slices;
}

slices-small : (i : ℕ) → part_sectors slices i < 2 ^ 23
unfolding part_sectors
slices-small zero = omega arith
slices-small (suc zero) = omega arith
slices-small (suc (suc i)) = omega arith

near_end-inside : 14 ≤ part_sectors slices 0
unfolding part_sectors
near_end-inside = omega arith

near_end-IsAt : IsAt near_end
near_end-IsAt = record { few = omega arith; small = slices-small; inside = near_end-inside }

-- Four sectors: the last two of the first slice and the first two of the second.
hdlfs_io_internal-Transferred_example :
    Transferred drive ata_dir_read near_end
      ([], [])
      0x1000
      2048
      (hdlfs_io_internal drive 6 ata_dir_read (some 0x1000) 2048 near_end ([], []))
hdlfs_io_internal-Transferred_example =
    hdlfs_io_internal-Transferred drive ata_dir_read 6 near_end ([], []) 0x1000 2048 near_end-IsAt
      refl (omega arith) (omega arith)

abbrev info : GameInfo
info = record {
  gamename = 65 ∷ [];
  hdl_compat_flags = 0;
  ops2l_compat_flags = 0;
  dma_type = 0;
  dma_mode = 0;
  startup = [];
  layer1_start = 0;
  disc_type = 0;
  num_partitions = 2;
  part_specs = slices;
}

abbrev wanted : Stat
wanted = record {
  attr = 0x4020_0801;
  size = 0;
  private_0 = 0x14_0007;
  private_1 = 3;
  private_5 = 0;
}

hdlfs_getstat-hdlfs_chstat_example :
    hdlfs_getstat (hdlfs_chstat change_both wanted (intact info)).1 ≡ (
      ok 0,
      some (record {
        attr = 0x4020_0801;
        size = game_size 2 slices 0;
        private_0 = 0x14_0002;
        private_1 = 3;
        private_5 = 0x2000;
      }),
    )
hdlfs_getstat-hdlfs_chstat_example =
    hdlfs_getstat-hdlfs_chstat wanted info (omega arith) (omega arith) (omega arith)
