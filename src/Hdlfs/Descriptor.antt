-- ===== src/Hdlfs/Descriptor.antt =====
-- hdlfs/main.c: the two file descriptors of the file system, with mount, umount, open and lseek.
-- The APA driver's getstat, open, read and ioctl2 are below it: what they answer is a parameter.
use hdlgame_installer.Base.{
  ℕ, zero, suc, ◌+◌, ◌*◌, ◌/◌, ◌%◌, ◌^◌, Bool, ◌&&◌, List, [], ◌∷◌, Code, ok, err, einval, enodev,
  emfile, failure, if◌then◌else◌, ltb, leb, ◌==◌,
}
use hdlgame_installer.Hdlfs.Format.{PartSpec, u32, sub32}

-- struct HDLFS_FileDescriptor, whose semaphore is held in each operation from its first access to its last.
pub record Descriptor : Type 0 where
  pub mount_fd : Code
  pub num_partitions : ℕ
  pub current_part : ℕ
  pub relative_sector : ℕ
  pub offset : ℕ
  pub size : ℕ
  pub part_specs : List PartSpec

-- A descriptor as hdlfs_init leaves it.
abbrev pub unmounted : Descriptor
unmounted = record {
  mount_fd = err failure;
  num_partitions = 0;
  current_part = 0;
  relative_sector = 0;
  offset = 0;
  size = 0;
  part_specs = [];
}

-- FD_List, MAX_AVAILABLE_FDs long
abbrev pub hdlfs_init : List Descriptor
hdlfs_init = unmounted ∷ unmounted ∷ []

-- What the driver answers when a partition is mounted: its getstat, the stat's mode, its open, and
-- how many bytes of the header it reads.
pub record Partition : Type 0 where
  pub stat : Code
  pub stat_mode : ℕ
  pub opened : Code
  pub header_read : Code
  pub header_specs : List PartSpec
  pub nsub : ℕ
  pub size_of : ℕ → ℕ

abbrev pub hdl_fs_magic : ℕ
hdl_fs_magic = 0x1337

-- The sum of HIOCGETSIZE over the partitions.
unfoldable pub total_size : (ℕ → ℕ) → (rounds part sum : ℕ) → ℕ
total_size size_of zero part sum = sum
total_size size_of (suc rounds) part sum =
    total_size size_of rounds (part + 1) ((sum + size_of part) % u32)

-- The read of the header by an open MountFD. A short read leaves MountFD open and gives its count.
unfoldable pub read_header : Partition → (unit : ℕ) → Descriptor → Code × Descriptor
unfolding total_size
read_header p unit d = elim p.header_read [
  | err e ↦ (err e, record d { mount_fd = p.opened })
  | ok n ↦
      if n == 1024
      then (
        ok unit,
        record {
          mount_fd = p.opened;
          num_partitions = (p.nsub + 1) % 2 ^ 16;
          current_part = 0;
          relative_sector = 0;
          offset = 0;
          size = total_size p.size_of ((p.nsub + 1) % 2 ^ 16) 0 0;
          part_specs = p.header_specs;
        },
      )
      else (ok n, record d { mount_fd = p.opened })
]

-- hdlfs_mount, for a unit that is in FD_List.
unfoldable pub mount_at : Partition → (unit : ℕ) → Descriptor → Code × Descriptor
unfolding read_header
mount_at p unit d = elim p.stat [
  | err e ↦ (err e, d)
  | ok n ↦
      if p.stat_mode == hdl_fs_magic
      then elim p.opened [
        | err e ↦ (err e, record d { mount_fd = err e })
        | ok fd ↦ read_header p unit d
      ]
      else (err emfile, d)
]

-- `FD_List[unit].MountFD >= 0` guards what an operation does with the descriptor.
unfoldable pub when_mounted : (Descriptor → Code × Descriptor) → Descriptor → Code × Descriptor
when_mounted f d = elim d.mount_fd [ err e ↦ (err enodev, d) | ok fd ↦ f d ]

-- The operation on `FD_List[unit]`, with -ENODEV for a unit that is not in the list.
unfoldable pub on_unit :
    (Descriptor → Code × Descriptor) → (unit : ℕ) → List Descriptor → Code × List Descriptor
on_unit f unit [] = (err enodev, [])
on_unit f zero (d ∷ ds) = let (r, d') = f d in (r, d' ∷ ds)
on_unit f (suc unit) (d ∷ ds) = let (r, ds') = on_unit f unit ds in (r, d ∷ ds')

unfoldable pub hdlfs_mount : Partition → (unit : ℕ) → List Descriptor → Code × List Descriptor
unfolding on_unit mount_at
hdlfs_mount p unit fds = on_unit (mount_at p unit) unit fds

abbrev pub close_mount : Descriptor → Code × Descriptor
close_mount d = (ok 0, record d { mount_fd = err failure })

unfoldable pub unmount : (unit : ℕ) → List Descriptor → Code × List Descriptor
unfolding on_unit when_mounted
unmount unit fds = on_unit (when_mounted close_mount) unit fds

unfoldable pub hdlfs_open : (unit : ℕ) → List Descriptor → Code × List Descriptor
unfolding on_unit when_mounted
hdlfs_open unit fds = on_unit (when_mounted (λ d. (ok unit, d))) unit fds

pub data Whence : Type 0 where
  seek_set seek_cur seek_end : Whence

-- Whether `at`, in 2048-byte sectors, is in the slice.
unfoldable pub is_inside : PartSpec → ℕ → Bool
is_inside p at = leb p.part_offset at && ltb at ((p.part_offset + p.part_size / 2048) % u32)

-- The new offset in 512-byte sectors.
unfoldable pub seek_offset : Descriptor → (at : ℕ) → Whence → ℕ
unfolding sub32
seek_offset d at seek_set = at * 4 % u32
seek_offset d at seek_cur = (d.offset + at * 4) % u32
seek_offset d at seek_end = sub32 d.size (at * 4 % u32)

-- The loop of hdlfs_lseek: `rounds` slices are left, and `i` is next. The slice is chosen by the
-- argument, for each of the three origins.
unfoldable pub lseek_loop :
    (rounds i : ℕ) → List PartSpec → (at : ℕ) → Whence → Descriptor → Code × Descriptor
unfolding seek_offset sub32 is_inside
lseek_loop zero i ps at whence d = (err einval, d)
lseek_loop (suc rounds) i [] at whence d = (err einval, d)
lseek_loop (suc rounds) i (p ∷ ps) at whence d =
    let rest = lseek_loop rounds (i + 1) ps at whence d in
    let offset' = seek_offset d at whence in
    if is_inside p at
    then (
      ok (offset' / 4),
      record d {
        offset = offset';
        relative_sector = sub32 offset' (p.part_offset * 4 % u32);
        current_part = i;
      },
    )
    else rest

-- hdlfs_lseek. `at` is the `int` argument as the comparisons with unsigned fields read it.
unfoldable pub hdlfs_lseek : (unit at : ℕ) → Whence → List Descriptor → Code × List Descriptor
unfolding on_unit when_mounted lseek_loop
hdlfs_lseek unit at whence fds =
    on_unit (when_mounted (λ d. lseek_loop d.num_partitions 0 d.part_specs at whence d)) unit fds
