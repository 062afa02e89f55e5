-- ===== src/Hdlfs/Format.antt =====
-- hdlfs/main.c: hdlfs_format, which cuts a disc image into slices, one for each partition. The
-- partitions are those of the APA driver below: what it answers is a parameter.
pub mod Tiles
use hdlgame_installer.Base.{
  ℕ, zero, suc, ◌+◌, ◌-◌, ◌*◌, ◌/◌, ◌%◌, ◌^◌, Bool, true, false, List, [], ◌∷◌, Option, none, some,
  Code, ok, err, Errno, einval, enomem, eio, if◌then◌else◌, ltb, leb,
}

-- part_specs_t
pub record PartSpec : Type 0 where
  pub part_offset : ℕ
  pub data_start : ℕ
  pub part_size : ℕ

-- What open, HIOCNSUB, HIOCGETPARTSTART and HIOCGETSIZE answer for the partition to be formatted,
-- and whether write takes the whole header.
pub record Volume : Type 0 where
  pub opened : Code
  pub nsub : ℕ
  pub start : ℕ → Code
  pub size : ℕ → ℕ
  pub writes_all : Bool

abbrev pub u32 : ℕ
u32 = 2 ^ 32

-- `a - b` on unsigned int
unfoldable pub sub32 : ℕ → ℕ → ℕ
sub32 a b = (a + u32 - b) % u32

-- The sectors at the start of partition `i` that hold no game data.
abbrev pub reserved : ℕ → ℕ
reserved zero = 0x2000
reserved (suc i) = 4

-- SectorsInPart, cut to what remains of the image.
unfoldable pub slice_sectors : Volume → (number i sector_number : ℕ) → ℕ
unfolding sub32
slice_sectors v number i sector_number =
    let room = sub32 (v.size i) (reserved i) / 4 in
    let remaining = sub32 number sector_number in if ltb remaining room then remaining else room

-- The loop's outcome: an error, or the slices and SectorNumber.
pub data Tiling : Type 0 where
  failed : Errno → Tiling
  tiled : List PartSpec → ℕ → Tiling

abbrev pub add_slice : PartSpec → Tiling → Tiling
add_slice p (failed e) = failed e
add_slice p (tiled ps n) = tiled (p ∷ ps) n

-- The `for` over the partitions: `rounds` of them are left, and `i` is next.
unfoldable pub format_loop : Volume → (number rounds i sector_number : ℕ) → Tiling
format_loop v number zero i sector_number = tiled [] sector_number
format_loop v number (suc rounds) i sector_number =
    let len = slice_sectors v number i sector_number in
    let rest = format_loop v number rounds (i + 1) ((sector_number + len) % u32) in
    elim (v.start i) [
      | err e ↦ failed e
      | ok first ↦
          if leb 0x20_0000 len
          then failed einval
          else add_slice
              (record {
                part_offset = sector_number;
                data_start = (first + reserved i) % u32;
                part_size = len * 2048 % u32;
              })
              rest
    ]

-- The checks behind the loop. The header is written only when all of them pass.
unfoldable pub finish_format : Volume → ℕ → Tiling → Code × Option (List PartSpec)
finish_format v number (failed e) = (err e, none)
finish_format v number (tiled ps sector_number) =
    if ltb sector_number number
    then (err enomem, none)
    else (if v.writes_all then ok 0 else err eio, some ps)

-- hdlfs_format: its result, and the slices in the header that it writes.
unfoldable pub hdlfs_format : Volume → ℕ → Code × Option (List PartSpec)
unfolding finish_format format_loop slice_sectors
hdlfs_format v number = elim v.opened [
  | err e ↦ (err e, none)
  | ok fd ↦ finish_format v number (format_loop v number (v.nsub + 1) 0 0)
]
