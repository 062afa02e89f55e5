-- ===== src/Hdlfs/Format/Tiles.antt =====
-- hdlfs/main.c: the slices of a formatted game cover the disc image, one behind the other, and each
-- lies in its partition.
use hdlgame_installer.Base.{
  ℕ, zero, suc, ◌+◌, ◌*◌, ◌/◌, ◌%◌, ◌≤◌, ◌<◌, Bool, true, false, List, [], ◌∷◌, Option, none, some,
  ◌≡◌, refl, subst, Code, ok, err, einval, enomem, eio, if◌then◌else◌, ltb, leb, arith,
}
use hdlgame_installer.Hdlfs.Format.{
  PartSpec, Volume, u32, reserved, slice_sectors, Tiling, failed, tiled, add_slice, format_loop,
  finish_format, hdlfs_format,
}

-- From sector `at` of the image and partition `i` on, the slices follow one another up to `end`:
-- each begins where the one before it ends, has a whole number of 2048-byte sectors, and fits in
-- its partition of `size i` 512-byte sectors behind the reserved ones.
abbrev pub Tiles : (size : ℕ → ℕ) (i at end : ℕ) → List PartSpec → Type 0
Tiles size i at end [] = at ≡ end
Tiles size i at end (p ∷ ps) =
    (p.part_offset ≡ at)
    × (p.part_size % 2048 ≡ 0)
    × (reserved i + p.part_size / 512 ≤ size i)
    × Tiles size (i + 1) (at + p.part_size / 2048) end ps

-- The driver's partitions: each has its reserved sectors, and sizes are 32-bit numbers.
pub record IsVolume (v : Volume) : Type 0 where
  pub has_reserved : (i : ℕ) → reserved i ≤ v.size i
  pub size_u32 : (i : ℕ) → v.size i < u32

slice_sectors_bounds :
    (v : Volume) (number i at : ℕ)
    → reserved i ≤ v.size i
    → v.size i < u32
    → at ≤ number
    → number < u32
    → (at + slice_sectors v number i at ≤ number)
      × (reserved i + 4 * slice_sectors v number i at ≤ v.size i)
unfolding slice_sectors
slice_sectors_bounds v number i at h1 h2 h3 h4 = ground arith

leb-false : (a b : ℕ) → leb a b ≡ false → b < a
leb-false a b e = ground arith

ltb-false : (a b : ℕ) → ltb a b ≡ false → b ≤ a
ltb-false a b e = ground arith

module _ (v : Volume) (number : ℕ) (volume : IsVolume v) (small : number < u32) where
  abbrev IsTiled : (i at : ℕ) → Tiling → Type 0
  IsTiled i at (failed e) = Unit
  IsTiled i at (tiled ps n) = (n ≤ number) × Tiles v.size i at n ps

  abbrev cut : (i at len first : ℕ) → PartSpec
  cut i at len first = record {
    part_offset = at;
    data_start = (first + reserved i) % u32;
    part_size = len * 2048 % u32;
  }

  add_slice-IsTiled :
      (i at len first : ℕ) (t : Tiling)
      → at + len ≤ number
      → reserved i + 4 * len ≤ v.size i
      → len < 0x20_0000
      → IsTiled (i + 1) ((at + len) % u32) t
      → IsTiled i at (add_slice (cut i at len first) t)
  add_slice-IsTiled i at len first (failed e) h1 h2 h3 t = tt
  add_slice-IsTiled i at len first (tiled ps n) h1 h2 h3 t = (
    t.0,
    (refl, omega arith, omega arith, subst (λ a. Tiles v.size (i + 1) a n ps) (omega arith) t.1),
  )

  cut_slice-IsTiled :
      (i at len : ℕ) (t : Tiling)
      → at + len ≤ number
      → reserved i + 4 * len ≤ v.size i
      → IsTiled (i + 1) ((at + len) % u32) t
      → (c : Code)
      → IsTiled i at (elim c [
        | err e ↦ failed e
        | ok first ↦ if leb 0x20_0000 len then failed einval else add_slice (cut i at len first) t
      ])
  cut_slice-IsTiled i at len t h1 h2 h3 (err e) = tt
  cut_slice-IsTiled i at len t h1 h2 h3 (ok first) = test (leb 0x20_0000 len) refl
    where
      test :
          (b : Bool)
          → leb 0x20_0000 len ≡ b
          → IsTiled i at (if b then failed einval else add_slice (cut i at len first) t)
      test true e = tt
      test false e = add_slice-IsTiled i at len first t h1 h2 (leb-false 0x20_0000 len e) h3

  format_loop-IsTiled :
      (rounds i at : ℕ) → at ≤ number → IsTiled i at (format_loop v number rounds i at)
  unfolding format_loop
  format_loop-IsTiled zero i at h = (h, refl)
  format_loop-IsTiled (suc rounds) i at h =
      cut_slice-IsTiled i at len rest fits.0 fits.1
        (format_loop-IsTiled rounds (i + 1) ((at + len) % u32) (wrapped (at + len) fits.0))
        (v.start i)
    where
      len : ℕ
      len = slice_sectors v number i at

      rest : Tiling
      rest = format_loop v number rounds (i + 1) ((at + len) % u32)

      fits : (at + len ≤ number) × (reserved i + 4 * len ≤ v.size i)
      fits = slice_sectors_bounds v number i at (volume.has_reserved i) (volume.size_u32 i) h small

      wrapped : (a : ℕ) → a ≤ number → a % u32 ≤ number
      wrapped a le = omega arith

  finish_format-Tiles :
      (t : Tiling) (ps : List PartSpec) (n : ℕ)
      → IsTiled 0 0 t
      → finish_format v number t ≡ (ok n, some ps)
      → Tiles v.size 0 0 number ps
  unfolding finish_format
  finish_format-Tiles (failed x) ps n h e = cc
  finish_format-Tiles (tiled qs k) ps n h e = test (ltb k number) refl e
    where
      test :
          (b : Bool)
          → ltb k number ≡ b
          → ◌≡◌ {A = Code × Option (List PartSpec)}
              (if b then (err enomem, none) else (if v.writes_all then ok 0 else err eio, some qs))
              (ok n, some ps)
          → Tiles v.size 0 0 number ps
      test true short e = cc
      test false enough e =
          subst (λ xs. Tiles v.size 0 0 number xs) same
            (subst (λ x. Tiles v.size 0 0 x qs) (antisym h.0 (ltb-false k number enough)) h.1)
        where
          same : qs ≡ ps
          same = cc

          antisym : {a b : ℕ} → a ≤ b → b ≤ a → a ≡ b
          antisym h1 h2 = omega arith

  -- A format that succeeds has written slices that cover the whole image from sector 0 to its last
  -- one, one behind the other, each inside its partition, when the driver's partitions have their
  -- reserved sectors and the sizes are 32-bit numbers.
  pub hdlfs_format-Tiles :
      (ps : List PartSpec) (n : ℕ)
      → hdlfs_format v number ≡ (ok n, some ps)
      → Tiles v.size 0 0 number ps
  unfolding hdlfs_format
  hdlfs_format-Tiles ps n e = test v.opened e
    where
      test :
          (c : Code)
          → ◌≡◌ {A = Code × Option (List PartSpec)}
              (elim c [
                | err e ↦ (err e, none)
                | ok fd ↦ finish_format v number (format_loop v number (v.nsub + 1) 0 0)
              ])
              (ok n, some ps)
          → Tiles v.size 0 0 number ps
      test (err x) e = cc
      test (ok fd) e =
          finish_format-Tiles (format_loop v number (v.nsub + 1) 0 0) ps n
            (format_loop-IsTiled (v.nsub + 1) 0 0 (omega arith)) e
