-- ===== src/Install/Partitions.antt =====
-- system.c: GetPartSize and CreateAndFormatPartition, which make the partitions of a game. What
-- the APA driver and the format answer is a parameter.
pub mod Sizes
pub mod Enough
use hdlgame_installer.Base.{
  ℕ, zero, suc, ◌+◌, ◌-◌, ◌/◌, ◌%◌, Bool, true, false, ◌&&◌, ◌||◌, List, [], ◌∷◌, Option, none,
  some, get_or, if◌then◌else◌, ltb, leb, ◌==◌, Code, ok, err, enospc, is_ok,
}
use hdlgame_installer.Hdlfs.Format.{u32, sub32}

-- APAPartSizeList: the sizes of partitions, in sectors of 2048 bytes.
abbrev pub part_sizes : List ℕ
part_sizes = 65536 ∷ 131072 ∷ 262144 ∷ 524288 ∷ 1048576 ∷ 2097152 ∷ []

abbrev pub number_of_sizes : ℕ
number_of_sizes = 6

abbrev pub size_at : ℕ → ℕ
size_at i = get_or part_sizes i 0

-- ReservedSectors
abbrev pub reserved_sectors : (part_number : ℕ) → ℕ
reserved_sectors zero = 0x800
reserved_sectors (suc i) = 1

-- What GetPartSize gives through its pointers: the index of the size whose text it is, and the
-- sectors of the disc image that the partition holds.
pub record PartSize : Type 0 where
  pub index : ℕ
  pub sectors : ℕ

-- The index for the size that the loop has come to, or the one below it.
unfoldable pub chosen_index : (num i : ℕ) → ℕ
unfolding sub32
chosen_index num i = if ltb 0 i && leb (size_at 0) (sub32 (size_at i) num) then i - 1 else i

abbrev pub size_of : (reserved i : ℕ) → PartSize
size_of reserved i = record { index = i; sectors = size_at i - reserved }

-- The `for` over the sizes. The differences are unsigned; those of `size_at` do not wrap.
unfoldable pub find_size : (num max reserved rounds i : ℕ) → PartSize → Option ℕ × PartSize
unfolding chosen_index sub32
find_size num max reserved zero i unset = (none, unset)
find_size num max reserved (suc rounds) i unset =
    let rest = find_size num max reserved rounds (i + 1) unset in
    if leb num (size_at i - reserved) || leb (sub32 max reserved) (size_at i - reserved)
    then (some (chosen_index num i), size_of reserved (chosen_index num i))
    else rest

-- The largest request that a partition is made for.
unfoldable pub limit_request : (num reserved : ℕ) → ℕ
limit_request num reserved = if ltb (size_at 5 - reserved) num then size_at 5 - reserved else num

-- GetPartSize. The result is the index, or none for -EINVAL, which leaves what the pointers have.
unfoldable pub get_part_size :
    (max_sectors num part_number : ℕ) → (override : Option ℕ) → PartSize → Option ℕ × PartSize
unfolding find_size limit_request
get_part_size max_sectors num part_number none unset =
    let reserved = reserved_sectors part_number in
    find_size (limit_request num reserved) (max_sectors / 4) reserved number_of_sizes 0 unset
get_part_size max_sectors num part_number (some i) unset =
    if ltb i number_of_sizes
    then (some i, size_of (reserved_sectors part_number) i)
    else (none, unset)

-- The driver: the answer to HDIOC_MAXSECTOR, and to the creation of a partition of one of the
-- sizes: the main one (fileXioOpen) is number 0, the others (HDDIO_ADD_SUB) follow.
pub record Apa : Type 0 where
  pub max_sectors : ℕ
  pub create : (part_number index : ℕ) → Code

abbrev pub is_full : Code → Bool
is_full (err enospc) = true
is_full c = false

-- `while (result == -ENOSPC && (--PartitionSizeIndex) >= 0)`, with GetPartSize giving back the
-- index that it is given, which is below the number of sizes.
unfoldable pub smaller_sizes : Apa → (num part_number index : ℕ) → Code → PartSize → Code × PartSize
unfolding get_part_size
smaller_sizes apa num part_number zero result p = (result, p)
smaller_sizes apa num part_number (suc index) result p =
    let q = (get_part_size apa.max_sectors num part_number (some index) p).1 in
    let rest = smaller_sizes apa num part_number index (apa.create part_number q.index) q in
    if is_full result then rest else (result, p)

unfoldable pub with_index : Apa → (num part_number : ℕ) → Option ℕ × PartSize → Code × PartSize
unfolding smaller_sizes
with_index apa num part_number (none, p) = (apa.create part_number p.index, p)
with_index apa num part_number (some index, p) =
    smaller_sizes apa num part_number index (apa.create part_number p.index) p

-- The `do` loop that makes one partition.
unfoldable pub add_partition : Apa → (num part_number : ℕ) → PartSize → Code × PartSize
unfolding with_index get_part_size
add_partition apa num part_number unset =
    with_index apa num part_number (get_part_size apa.max_sectors num part_number none unset)

-- `(SectorsInPartition > SectorsRemaining) ? 0 : SectorsRemaining - SectorsInPartition`
abbrev pub sectors_left : (remaining in_partition : ℕ) → ℕ
sectors_left remaining in_partition =
    if ltb remaining in_partition then 0 else remaining - in_partition

-- The loop's result, and the partitions that it has made.
pub record Made : Type 0 where
  pub result : Code
  pub parts : List PartSize

abbrev pub add_made : PartSize → Option Made → Option Made
add_made p none = none
add_made p (some m) = some (record m { parts = p ∷ m.parts })

-- A partition that could not be made is not in the list.
abbrev pub note_made : Code → PartSize → Option Made → Option Made
note_made (err e) p m = m
note_made (ok n) p m = add_made p m

-- The `while` over the sub-partitions. None is the end of the fuel.
unfoldable pub add_subs : Apa → (fuel remaining part_number : ℕ) → Code → PartSize → Option Made
add_subs apa zero remaining part_number result p = none
add_subs apa (suc fuel) remaining part_number result p =
    let (r, q) = add_partition apa remaining part_number p in
    let rest = add_subs apa fuel (sectors_left remaining q.sectors) (part_number + 1) r q in
    if ltb 0 remaining && is_ok result
    then note_made r q rest
    else some (record { result = result; parts = [] })
