-- ===== src/Osd/Area/Held.antt =====
-- OSD.c: what one file of the extended attribute area holds, and how later writes leave it.
use hdlgame_installer.Base.{
  ℕ, zero, suc, ◌+◌, ◌-◌, ◌≤◌, Bool, true, false, ◌&&◌, ◌||◌, List, [], ◌∷◌, ◌++◌, length,
  length-append, take, replicate, ◌==◌, Memory, slice, store, slice-store_ne, slice-store_self,
  take-slice, ◌≡◌, refl, sym, ap, ◌∙◌, subst, ◌⊎◌, inl, inr, arith, if◌then◌else◌,
}
use hdlgame_installer.Osd.Files.{OsdFile}
use hdlgame_installer.Osd.Area.{FileEnt, round_up, padded, buffer_bytes, WriteAnswer, taken_bytes}
use hdlgame_installer.Osd.Area.Header.{length-take, length-replicate}

pub take_all : (n : ℕ) (xs : List ℕ) → length xs ≤ n → take n xs ≡ xs
take_all zero [] h = refl
take_all zero (x ∷ xs) h = absurd (omega arith)
take_all (suc n) [] h = refl
take_all (suc n) (x ∷ xs) h = ap (x ∷◌) (take_all n xs (omega arith))

pub take_whole : (n : ℕ) (xs : List ℕ) → length (take n xs) ≡ length xs → take n xs ≡ xs
take_whole n xs h = take_all n xs (omega (arith, length-take n xs))

pub take-append : (xs ys : List ℕ) → take (length xs) (xs ++ ys) ≡ xs
take-append [] ys = refl
take-append (x ∷ xs) ys = ap (x ∷◌) (take-append xs ys)

slice_empty : (m : Memory) (a n : ℕ) → n ≡ 0 → slice m a n ≡ []
slice_empty m a zero h = refl
slice_empty m a (suc n) h = absurd (omega arith)

-- The entry `e` has the content `bs`, which ends before `limit` and, unless it is empty, stands
-- behind the table.
abbrev pub Held : Memory → (limit : ℕ) → FileEnt → List ℕ → Type 0
Held disc limit e bs =
    (length bs ≡ e.size)
    × (slice disc e.offset e.size ≡ bs)
    × (e.offset + e.size ≤ limit)
    × ((e.size ≡ 0) ⊎ (512 ≤ e.offset))

-- A write behind everything that is held.
pub Held-store :
    (disc : Memory) (limit limit' at : ℕ) (e : FileEnt) (bs xs : List ℕ)
    → Held disc limit e bs
    → limit ≤ at
    → limit ≤ limit'
    → Held (store disc at xs) limit' e bs
Held-store disc limit limit' at e bs xs (l, same, fits, behind) h k =
    (l, slice-store_ne disc at e.offset e.size xs (inl (omega arith)) ∙ same, omega arith, behind)

-- The write of the table.
pub Held-table :
    (disc : Memory) (limit : ℕ) (e : FileEnt) (bs xs : List ℕ)
    → Held disc limit e bs
    → length xs ≤ 512
    → Held (store disc 0 xs) limit e bs
Held-table disc limit e bs xs (l, same, fits, inl none_of) h = (
  l,
  slice_empty (store disc 0 xs) e.offset e.size none_of
      ∙ sym (slice_empty disc e.offset e.size none_of)
      ∙ same,
  fits,
  inl none_of,
)
Held-table disc limit e bs xs (l, same, fits, inr behind) h =
    (l, slice-store_ne disc 0 e.offset e.size xs (inr (omega arith)) ∙ same, fits, inr behind)

-- A file without content.
pub Held-empty :
    (disc : Memory) (limit : ℕ) (bs : List ℕ)
    → length bs ≡ 0
    → Held disc limit (record { offset = 0; size = 0 }) bs
Held-empty disc limit [] h = (refl, refl, omega arith, inl refl)
Held-empty disc limit (b ∷ bs) h = absurd (omega arith)

-- A file whose size is the length of its buffer.
abbrev pub Sized : OsdFile → Type 0
Sized f = length (buffer_bytes f.buffer) ≡ f.size

pub round_up_bounds : (size : ℕ) → (size ≤ round_up size) × (round_up size ≤ size + 511)
unfolding round_up
round_up_bounds size = omega arith

pub padded-Sized :
    (f : OsdFile)
    → Sized f
    → padded f ≡ buffer_bytes f.buffer ++ replicate (round_up f.size - f.size) 0
unfolding padded
padded-Sized f h =
    ap (λ bs. bs ++ replicate (round_up f.size - f.size) 0)
      (take_all f.size (buffer_bytes f.buffer) (omega arith))

pub length-padded-Sized : (f : OsdFile) → Sized f → length (padded f) ≡ round_up f.size
length-padded-Sized f h =
    ap length (padded-Sized f h)
    ∙ omega (
      arith,
      h,
      length-append (buffer_bytes f.buffer) (replicate (round_up f.size - f.size) 0),
      length-replicate (round_up f.size - f.size) 0,
      round_up_bounds f.size,
    )

-- A write that took as many bytes as the file has took the file.
pub taken_bytes_whole :
    (a : WriteAnswer) (f : OsdFile)
    → Sized f
    → 1 ≤ f.size
    → length (taken_bytes a f) ≡ round_up f.size
    → taken_bytes a f ≡ padded f
unfolding taken_bytes
taken_bytes_whole a f h some_bytes =
    test (a.has_memory || (f.size == round_up f.size && a.is_aligned))
  where
    test :
        (b : Bool)
        → length (if b then take a.written (padded f) else []) ≡ round_up f.size
        → (if b then take a.written (padded f) else []) ≡ padded f
    test true e = take_whole a.written (padded f) (e ∙ sym (length-padded-Sized f h))
    test false e = absurd (omega (arith, round_up_bounds f.size))

prefix :
    (m : Memory) (at : ℕ) (xs ys : List ℕ)
    → slice m at (length (xs ++ ys)) ≡ xs ++ ys
    → slice m at (length xs) ≡ xs
prefix m at xs ys h =
    sym (take-slice m at (length xs) (length (xs ++ ys)) (omega (arith, length-append xs ys)))
    ∙ ap (take (length xs)) h
    ∙ take-append xs ys

-- A file that has just been written.
pub Held-padded :
    (disc : Memory) (at : ℕ) (f : OsdFile)
    → Sized f
    → 512 ≤ at
    → Held
        (store disc at (padded f))
        (at + round_up f.size)
        (record { offset = at; size = f.size })
        (buffer_bytes f.buffer)
Held-padded disc at f h behind = (
  h,
  subst (λ n. slice (store disc at (padded f)) at n ≡ buffer_bytes f.buffer) h
      (prefix (store disc at (padded f)) at (buffer_bytes f.buffer)
        (replicate (round_up f.size - f.size) 0)
        (subst (λ bs. slice (store disc at (padded f)) at (length bs) ≡ bs) (padded-Sized f h)
          (slice-store_self disc at (padded f)))),
  omega (arith, round_up_bounds f.size),
  inr behind,
)
