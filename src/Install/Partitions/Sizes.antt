-- ===== src/Install/Partitions/Sizes.antt =====
-- system.c: what GetPartSize chooses.
use hdlgame_installer.Base.{
  ℕ, zero, suc, ◌+◌, ◌-◌, ◌*◌, ◌/◌, ◌≤◌, ◌<◌, Bool, true, false, ◌&&◌, ◌||◌, Option, none, some,
  ◌≡◌, refl, arith, ltb, leb, if◌then◌else◌,
}
use hdlgame_installer.Hdlfs.Format.{sub32, u32}
use hdlgame_installer.Install.Partitions.{
  number_of_sizes, size_at, reserved_sectors, PartSize, size_of, chosen_index, find_size,
  limit_request, get_part_size,
}

-- A size of the list with its reserved sectors taken off.
pub record IsPartSize (part_number : ℕ) (p : PartSize) : Type 0 where
  pub listed : p.index < number_of_sizes
  pub least : 63488 ≤ p.sectors
  pub whole : p.sectors + reserved_sectors part_number ≡ size_at p.index
  pub most : size_at p.index ≤ 2097152

reserved_bounds :
    (part_number : ℕ) → (1 ≤ reserved_sectors part_number) × (reserved_sectors part_number ≤ 2048)
reserved_bounds zero = omega arith
reserved_bounds (suc i) = omega arith

size_at_bounds : (i : ℕ) → i < number_of_sizes → (65536 ≤ size_at i) × (size_at i ≤ 2097152)
size_at_bounds zero h = omega arith
size_at_bounds (suc zero) h = omega arith
size_at_bounds (suc (suc zero)) h = omega arith
size_at_bounds (suc (suc (suc zero))) h = omega arith
size_at_bounds (suc (suc (suc (suc zero)))) h = omega arith
size_at_bounds (suc (suc (suc (suc (suc zero))))) h = omega arith
size_at_bounds (suc (suc (suc (suc (suc (suc i)))))) h = absurd (omega arith)

pub size_of-IsPartSize :
    (part_number i : ℕ)
    → i < number_of_sizes
    → IsPartSize part_number (size_of (reserved_sectors part_number) i)
size_of-IsPartSize part_number i h =
    let s = size_at_bounds i h in
    let r = reserved_bounds part_number in
    record { listed = h; least = omega arith; whole = omega arith; most = s.1 }

chosen_index-lt : (num i : ℕ) → i < number_of_sizes → chosen_index num i < number_of_sizes
unfolding chosen_index
chosen_index-lt num i h = test (ltb 0 i && leb (size_at 0) (sub32 (size_at i) num))
  where
    test : (b : Bool) → (if b then i - 1 else i) < number_of_sizes
    test true = omega arith
    test false = h

-- The result of GetPartSize is an index with its size.
abbrev IsFound : (reserved : ℕ) → Option ℕ × PartSize → Type 0
IsFound reserved r = (j : ℕ) × (j < number_of_sizes) × (r ≡ (some j, size_of reserved j))

find_size-IsFound :
    (num max reserved : ℕ) (rounds i : ℕ) (unset : PartSize)
    → num ≤ size_at 5 - reserved
    → rounds + i ≡ 5
    → IsFound reserved (find_size num max reserved (suc rounds) i unset)
unfolding find_size
find_size-IsFound num max reserved zero i unset h e =
    (chosen_index num i, chosen_index-lt num i (omega arith), rw at_end refl)
  where
    i_is : i ≡ 5
    i_is = omega arith

    at_end :
        (leb num (size_at i - reserved) || leb (sub32 max reserved) (size_at i - reserved)) ≡ true
    at_end = rw i_is (ground arith)
find_size-IsFound num max reserved (suc rounds) i unset h e =
    test (leb num (size_at i - reserved) || leb (sub32 max reserved) (size_at i - reserved))
      (find_size-IsFound num max reserved rounds (i + 1) unset h (omega arith))
  where
    rest : Option ℕ × PartSize
    rest = find_size num max reserved (suc rounds) (i + 1) unset

    test :
        (b : Bool)
        → IsFound reserved rest
        → IsFound reserved
            (if b then (some (chosen_index num i), size_of reserved (chosen_index num i)) else rest)
    test true ih = (chosen_index num i, chosen_index-lt num i (omega arith), refl)
    test false ih = ih

-- A size is always found when none is asked for.
pub get_part_size-IsFound :
    (max_sectors num part_number : ℕ) (unset : PartSize)
    → (j : ℕ) × (j < number_of_sizes)
      × (get_part_size max_sectors num part_number none unset
          ≡ (some j, size_of (reserved_sectors part_number) j))
unfolding get_part_size
get_part_size-IsFound max_sectors num part_number unset =
    find_size-IsFound (limit_request num reserved) (max_sectors / 4) reserved 5 0 unset
      (limited num) refl
  where
    reserved : ℕ
    reserved = reserved_sectors part_number

    limited : (n : ℕ) → limit_request n reserved ≤ size_at 5 - reserved
    limited n = ground (arith, limit_request)

-- The size that is asked for is given.
pub get_part_size_override :
    (max_sectors num part_number i : ℕ) (unset : PartSize)
    → i < number_of_sizes
    → get_part_size max_sectors num part_number (some i) unset
      ≡ (some i, size_of (reserved_sectors part_number) i)
unfolding get_part_size
get_part_size_override max_sectors num part_number i unset h =
    let e : ltb i number_of_sizes ≡ true = ground arith in rw e refl

-- On a disc whose largest partition has size `i + 1` of the list, which is not the last, GetPartSize
-- chooses size `i` for a sub-partition of a game that is larger than that.
pub get_part_size_halves :
    (num i : ℕ) (unset : PartSize)
    → i < 4
    → size_at (i + 1) < num
    → num < u32
    → (get_part_size (4 * size_at (i + 1)) num 1 none unset).0 ≡ some i
unfolding get_part_size
get_part_size_halves num zero unset h k l = ground arith
get_part_size_halves num (suc zero) unset h k l = ground arith
get_part_size_halves num (suc (suc zero)) unset h k l = ground arith
get_part_size_halves num (suc (suc (suc zero))) unset h k l = ground arith
get_part_size_halves num (suc (suc (suc (suc i)))) unset h k l = absurd (omega arith)
