-- ===== src/Install/Creation/Covers.antt =====
-- system.c and hdlfs/main.c: the slices of the partitions that CreateAndFormatPartition makes.
use hdlgame_installer.Base.{
  ℕ, zero, suc, ◌+◌, ◌-◌, ◌*◌, ◌%◌, ◌≤◌, ◌<◌, Bool, true, false, List, [], ◌∷◌, length, ◌≡◌, refl,
  ap, ◌∙◌, arith, ltb, leb, if◌then◌else◌, ◌==◌, ==_refl, Code, ok, einval,
}
use hdlgame_installer.Hdlfs.Format.{
  PartSpec, Volume, u32, reserved, slice_sectors, Tiling, failed, tiled, add_slice, format_loop,
  hdlfs_format,
}
use hdlgame_installer.Install.Partitions.{PartSize, Apa, reserved_sectors, size_at}
use hdlgame_installer.Install.Partitions.Enough.{capacity, AreParts}
use hdlgame_installer.Install.Creation.{FormatArgs}

-- The driver's size of partition `i`, in sectors of 512 bytes, where the first has number `k`.
abbrev pub size_in : (k : ℕ) → List PartSize → ℕ → ℕ
size_in k [] i = reserved i
size_in k (p ∷ ps) i = if i == k then 4 * size_at p.index else size_in (k + 1) ps i

-- A driver on which the partitions of a game can be opened and written.
pub record Disc : Type 0 where
  pub handle : ℕ
  pub first : ℕ → ℕ

abbrev pub volume_of : Disc → List PartSize → Volume
volume_of d ps = record {
  opened = ok d.handle;
  nsub = length ps - 1;
  start = λ i. ok (d.first i);
  size = size_in 0 ps;
  writes_all = true;
}

-- Its format.
abbrev pub format_on : Disc → List PartSize → FormatArgs → Code
format_on d ps args = (hdlfs_format (volume_of d ps) args.num_sectors).0

-- The slice for one partition: the rest of the image, or all that the partition holds.
pub slice_lem :
    (v : Volume) (number i at sectors : ℕ)
    → v.size i ≡ 4 * (sectors + reserved_sectors i)
    → sectors + reserved_sectors i ≤ 2097152
    → at ≤ number
    → number < u32
    → slice_sectors v number i at ≡ (if ltb (number - at) sectors then number - at else sectors)
unfolding slice_sectors
slice_lem v number zero at sectors e h k l = ground arith
slice_lem v number (suc i) at sectors e h k l = ground arith

pub reserved_pos : (i : ℕ) → 1 ≤ reserved_sectors i
reserved_pos zero = omega arith
reserved_pos (suc i) = omega arith

-- The driver's sizes from partition `i` on are those of `ps`.
abbrev pub AreSizes : (ℕ → ℕ) → (i : ℕ) → List PartSize → Type 0
AreSizes size i [] = Unit
AreSizes size i (p ∷ ps) = (size i ≡ 4 * size_at p.index) × AreSizes size (i + 1) ps

module _ (d : Disc) (size : ℕ → ℕ) (parts : ℕ) (number : ℕ) (small : number < u32) where
  abbrev pub the_volume : Volume
  the_volume = record {
    opened = ok d.handle;
    nsub = parts;
    start = λ i. ok (d.first i);
    size = size;
    writes_all = true;
  }

  -- The slices go on up to `end`, which is the end of the image when the partitions hold it.
  abbrev pub IsCovered : (at room : ℕ) → Tiling → Type 0
  IsCovered at room t =
      (qs : List PartSpec) × (end : ℕ) × (t ≡ tiled qs end) × (number ≤ at + room → number ≤ end)

  pub one_slice :
      (i at len sectors room : ℕ) (spec : PartSpec) (rest : Tiling)
      → len ≡ (if ltb (number - at) sectors then number - at else sectors)
      → sectors + 1 ≤ 2097152
      → at ≤ number
      → IsCovered ((at + len) % u32) room rest
      → IsCovered at
          (sectors + room)
          (if leb 0x20_0000 len then failed einval else add_slice spec rest)
  one_slice i at len sectors room spec rest e k h (qs, end, same, covers) =
      let fits : leb 0x20_0000 len ≡ false = ground arith in
      rw fits (spec ∷ qs, end, ap (add_slice spec) same, λ all. covers (ground arith))

  pub format_loop_covers :
      (apa : Apa) (ps : List PartSize) (i at : ℕ)
      → AreParts apa i ps
      → AreSizes size i ps
      → at ≤ number
      → IsCovered at (capacity ps) (format_loop the_volume number (length ps) i at)
  unfolding format_loop
  format_loop_covers apa [] i at h s k = ([], at, refl, λ all. omega arith)
  format_loop_covers apa (p ∷ ps) i at h s k =
      one_slice i at len p.sectors (capacity ps)
        (record {
          part_offset = at;
          data_start = (d.first i + reserved i) % u32;
          part_size = len * 2048 % u32;
        })
        (format_loop the_volume number (length ps) (i + 1) ((at + len) % u32)) same
        (omega (arith, reserved_pos i, h.0.whole, h.0.most)) k
        (format_loop_covers apa ps (i + 1) ((at + len) % u32) h.2 s.1
          (omega (arith, k, below (number - at) p.sectors len same)))
    where
      len : ℕ
      len = slice_sectors the_volume number i at

      same : len ≡ (if ltb (number - at) p.sectors then number - at else p.sectors)
      same =
          slice_lem the_volume number i at p.sectors (omega (arith, s.0, h.0.whole))
            (omega (arith, h.0.whole, h.0.most)) k small

      below :
          (left sectors n : ℕ)
          → n ≡ (if ltb left sectors then left else sectors)
          → (at + n) % u32 ≤ at + left
      below left sectors n e = ground arith

AreSizes-ext :
    (f g : ℕ → ℕ) (j : ℕ) (ps : List PartSize)
    → ((i : ℕ) → j ≤ i → g i ≡ f i)
    → AreSizes f j ps
    → AreSizes g j ps
AreSizes-ext f g j [] h s = tt
AreSizes-ext f g j (p ∷ ps) h s =
    (h j (omega arith) ∙ s.0, AreSizes-ext f g (j + 1) ps (λ i le. h i (omega arith)) s.1)

pub size_in-AreSizes : (k : ℕ) (ps : List PartSize) → AreSizes (size_in k ps) k ps
size_in-AreSizes k [] = tt
size_in-AreSizes k (p ∷ ps) = (
  rw (==_refl k) refl,
  AreSizes-ext (size_in (k + 1) ps) (size_in k (p ∷ ps)) (k + 1) ps
      (λ i le. let e : (i == k) ≡ false = ground arith in rw e refl) (size_in-AreSizes (k + 1) ps),
)

pub size_in_bounds :
    (apa : Apa) (k : ℕ) (ps : List PartSize) (i : ℕ)
    → AreParts apa k ps
    → (reserved i ≤ size_in k ps i) × (size_in k ps i < u32)
size_in_bounds apa k [] zero h = omega arith
size_in_bounds apa k [] (suc i) h = omega arith
size_in_bounds apa k (p ∷ ps) i h = test (i == k) (size_in_bounds apa (k + 1) ps i h.2)
  where
    reserved-le : (j : ℕ) → reserved j ≤ 8192
    reserved-le zero = omega arith
    reserved-le (suc j) = omega arith

    test :
        (b : Bool)
        → (reserved i ≤ size_in (k + 1) ps i) × (size_in (k + 1) ps i < u32)
        → (reserved i ≤ (if b then 4 * size_at p.index else size_in (k + 1) ps i))
          × ((if b then 4 * size_at p.index else size_in (k + 1) ps i) < u32)
    test true ih = omega (arith, reserved-le i, h.0.least, h.0.whole, h.0.most)
    test false ih = ih
