-- ===== src/Hdlfs/Transfer.antt =====
-- hdlfs/main.c: hdlfs_io_internal, which cuts a read or a write into transfers that each stay in one
-- partition, with hdlfs_read and hdlfs_write. The driver's HIOCTRANSFER is a parameter.
pub mod Sectors
pub mod InOrder
use hdlgame_installer.Base.{
  ℕ, zero, suc, ◌+◌, ◌-◌, ◌*◌, ◌/◌, ◌%◌, ◌^◌, min, Bool, true, false, List, [], ◌∷◌, ◌++◌, Option,
  none, some, ◌≡◌, Code, ok, err, einval, erofs, if◌then◌else◌, ltb, ◌==◌, is_ok,
}
use hdlgame_installer.Hdlfs.Format.{PartSpec, u32, sub32, reserved}
use hdlgame_installer.Hdlfs.Descriptor.{Descriptor}

pub data Direction : Type 0 where
  ata_dir_read ata_dir_write : Direction

-- hddIoctl2Transfer_t; `buffer` is an address
pub record Command : Type 0 where
  pub sub : ℕ
  pub sector : ℕ
  pub size : ℕ
  pub mode : Direction
  pub buffer : ℕ

-- `size` sectors of partition `sub`, from `first` on
abbrev pub span : (sub first size : ℕ) → List (ℕ × ℕ)
span sub first zero = []
span sub first (suc n) = (sub, first) ∷ span sub (first + 1) n

-- The addresses of `size` blocks of 512 bytes in memory, from `at` on
abbrev pub blocks : (at size : ℕ) → List ℕ
blocks at zero = []
blocks at (suc n) = at ∷ blocks (at + 512) n

-- The APA driver: a transfer that succeeds has gone through its sectors in order, and through as
-- many blocks of memory. `touched` lists the sectors transferred so far, and `placed` the block of
-- memory from which or to which each of them went.
pub record Drive : Type 1 where
  pub Dev : Type 0
  pub ioctl2 : Dev → Command → Code × Dev
  pub touched : Dev → List (ℕ × ℕ)
  pub placed : Dev → List ℕ
  pub ioctl2_ok :
      (d : Dev) (c : Command) {n : ℕ} {d' : Dev}
      → ioctl2 d c ≡ (ok n, d')
      → (touched d' ≡ touched d ++ span c.sub c.sector c.size)
        × (placed d' ≡ placed d ++ blocks c.buffer c.size)

-- The size in 512-byte sectors of partition `i`. A header has 65 entries, zero where unused.
unfoldable pub part_sectors : List PartSpec → ℕ → ℕ
part_sectors [] i = 0
part_sectors (p ∷ ps) zero = p.part_size / 512
part_sectors (p ∷ ps) (suc i) = part_sectors ps i

-- SectorsRemainingInPartition
unfoldable pub room : Descriptor → ℕ
unfolding sub32 part_sectors
room fd = sub32 (part_sectors fd.part_specs fd.current_part) fd.relative_sector

-- The step to the next partition when the current one has no more sectors.
unfoldable pub enter : Descriptor → Descriptor
unfolding room
enter fd =
    if ltb (room fd) 1
    then record fd { current_part = (fd.current_part + 1) % 2 ^ 16; relative_sector = 0 }
    else fd

-- SectorsToRead
unfoldable pub sectors_to_read : Descriptor → ℕ → ℕ
unfolding room
sectors_to_read fd remaining = if ltb (room fd) remaining then room fd else remaining

abbrev pub command : Descriptor → Direction → (buffer size : ℕ) → Command
command fd mode buffer n = record {
  sub = fd.current_part;
  sector = (reserved fd.current_part + fd.relative_sector) % u32;
  size = n;
  mode = mode;
  buffer = buffer;
}

abbrev pub advance : Descriptor → ℕ → Descriptor
advance fd n = record fd {
  offset = (fd.offset + n) % u32;
  relative_sector = (fd.relative_sector + n) % u32;
}

module _ (k : Drive) where
  open k use {Dev, ioctl2}

  -- The loop of hdlfs_io_internal. `none` means that the fuel ran out.
  unfoldable pub io_loop :
      (fuel : ℕ)
      → Direction
      → Descriptor
      → Dev
      → (buffer remaining : ℕ) → Option (Code × Descriptor × Dev)
  unfolding enter sectors_to_read
  io_loop fuel mode fd d buffer zero = some (ok 0, fd, d)
  io_loop zero mode fd d buffer (suc m) = none
  io_loop (suc fuel) mode fd d buffer (suc m) =
      let entered = enter fd in
      let n = sectors_to_read entered (suc m) in
      let (r, d') = ioctl2 d (command entered mode buffer n) in
      let rest : Option (Code × Descriptor × Dev) =
        io_loop fuel mode (advance entered n) d' (buffer + n * 512) (suc m - n) in
      if is_ok r then rest else some (r, entered, d')

  -- `(result < 0) ? result : size`
  unfoldable pub io_result :
      (size : ℕ) → Option (Code × Descriptor × Dev) → Option (Code × Descriptor × Dev)
  io_result size none = none
  io_result size (some (ok n, fd, d)) = some (ok size, fd, d)
  io_result size (some (err e, fd, d)) = some (err e, fd, d)

  -- `none` as the buffer is NULL.
  unfoldable pub hdlfs_io_internal :
      (fuel : ℕ)
      → Direction
      → (buffer : Option ℕ) (size : ℕ) → Descriptor
      → Dev
      → Option (Code × Descriptor × Dev)
  unfolding io_loop io_result
  hdlfs_io_internal fuel mode none size fd d = some (err einval, fd, d)
  hdlfs_io_internal fuel mode (some buffer) size fd d =
      if size % 512 == 0
      then io_result size (io_loop fuel mode fd d buffer (size / 512))
      else some (err einval, fd, d)

  -- `can_read` and `can_write` are the bits O_RDONLY and O_WRONLY of the file's mode.
  unfoldable pub hdlfs_read :
      (fuel : ℕ) (can_read : Bool) (buffer : Option ℕ) (size : ℕ)
      → Descriptor
      → Dev
      → Option (Code × Descriptor × Dev)
  unfolding hdlfs_io_internal
  hdlfs_read fuel true buffer size fd d = hdlfs_io_internal fuel ata_dir_read buffer size fd d
  hdlfs_read fuel false buffer size fd d = some (err einval, fd, d)

  unfoldable pub hdlfs_write :
      (fuel : ℕ) (can_write : Bool) (buffer : Option ℕ) (size : ℕ)
      → Descriptor
      → Dev
      → Option (Code × Descriptor × Dev)
  unfolding hdlfs_io_internal
  hdlfs_write fuel true buffer size fd d = hdlfs_io_internal fuel ata_dir_write buffer size fd d
  hdlfs_write fuel false buffer size fd d = some (err erofs, fd, d)
