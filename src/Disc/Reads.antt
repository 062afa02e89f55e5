-- ===== src/Disc/Reads.antt =====
-- HDLGManClient/iso9660.c: ReadSectors and the content of the image.
use hdlgame_installer.Base.{
  ℕ, zero, suc, ◌+◌, ◌-◌, ◌*◌, ◌%◌, ◌^◌, ◌≤◌, ◌<◌, false, List, [], ◌++◌, Memory, slice, slice-add,
  take, drop, take-slice, drop-slice, ◌≡◌, refl, sym, ap, ap₂, ◌∙◌, subst, ◌⊎◌, inl, inr, arith,
  if◌then◌else◌, true, ◌==◌, ==_iff, ==_refl, Bool-cases,
}
use mathlib.Core.List.{append-nil}
use hdlgame_installer.Disc.{
  ImageFile, SectorType, mode1, mode2_xa, headerless, raw_size, skipped, Reader, Answer, read_file,
  raw_loop, read_flat, read_raw, seek_to, raw_read_sectors, read_loop, read_all, read_sectors,
}

-- `n` pieces of `len` bytes, `step` bytes apart, from `at` on.
pub pieces : Memory → (step len at n : ℕ) → List ℕ
pieces m step len at zero = []
pieces m step len at (suc n) = slice m at len ++ pieces m step len (at + step) n

-- The data of the sectors from `lsn` on in an image of this type.
abbrev pub user_data : Memory → SectorType → (lsn sectors : ℕ) → List ℕ
user_data m t lsn sectors = pieces m (raw_size t) 2048 (lsn * raw_size t + skipped t) sectors

pieces_joined : (m : Memory) (len at n : ℕ) → pieces m len len at n ≡ slice m at (n * len)
unfolding pieces
pieces_joined m len at zero = ap (slice m at) zero_times
  where
    zero_times : 0 ≡ 0 * len
    zero_times = omega arith
pieces_joined m len at (suc n) =
    ap (slice m at len ++◌) (pieces_joined m len (at + len) n)
    ∙ sym (slice-add m at len (n * len))
    ∙ ap (slice m at) (omega arith)

cut :
    (m : Memory) (a n len k : ℕ)
    → len ≤ k
    → take len (drop n (slice m a (n + k))) ≡ slice m (a + n) len
cut m a n len k h = ap (take len) (drop-slice m a n k) ∙ take-slice m (a + n) len k h

less_differs : (c d : ℕ) → c < d → (c == d) ≡ false
less_differs c d h = ground arith

differs : (n : ℕ) → 1 ≤ n → (0 == n) ≡ false
differs n h = ground arith

differs_not : (c d : ℕ) → (c == d) ≡ false → c ≡ d → ⊥
differs_not c d e h = ground arith

if_yes :
    {A : Type 0} (P : A → Type 0) (c d : ℕ) (x y : A) → c ≡ d → P x → P (if c == d then x else y)
if_yes P c d x y e p = rw (e, ==_refl d) p

if_no :
    {A : Type 0} (P : A → Type 0) (c d : ℕ) (x y : A) → c < d → P y → P (if c == d then x else y)
if_no P c d x y e p = rw (less_differs c d e) p

if_one : {A : Type 0} (P : A → Type 0) (c : ℕ) (x y : A) → c ≡ 1 → P x → P (if c == 1 then x else y)
if_one P c x y e p = rw e p

module _ (k : ImageFile) where
  open k use {
    Handle, bytes, size, position, set_file_pointer, api_read, position-set_file_pointer,
    api_read-bytes, api_read-position,
  }

  -- The file is at the sector that current_lsn says.
  abbrev pub Synced : SectorType → Reader k → Type 0
  Synced t s = position s.handle ≡ s.current_lsn * raw_size t

  -- The file is at sector `lsn`, or the seek to it succeeds.
  abbrev pub CanSeek : SectorType → ℕ → Reader k → Type 0
  CanSeek t lsn s =
      (s.current_lsn ≡ lsn) ⊎ ((set_file_pointer s.handle (lsn * raw_size t)).0 ≡ true)

  -- The last read was one inside the file, at position `at`, and it failed.
  abbrev pub FailedAt : (at : ℕ) → Handle → Type 0
  FailedAt at h' =
      (h : Handle) × (n : ℕ) × (position h ≡ at)
      × (position h + n ≤ size)
      × ((api_read h n).0 ≡ false)
      × (h' ≡ (api_read h n).2)

  read_file-cases :
      (h : Handle) (n : ℕ)
      → position h + n ≤ size
      → (FailedAt (position h) (read_file k h n).2 × ((read_file k h n).0 ≡ 0))
        ⊎ (((read_file k h n).0 ≡ n)
            × ((read_file k h n).1 ≡ slice bytes (position h) n)
            × (position (read_file k h n).2 ≡ position h + n))
  unfolding read_file
  read_file-cases h n inside = elim (Bool-cases (api_read h n).0) [
    | inl e ↦ inr (rw e refl, api_read-bytes h n inside e, api_read-position h n inside e)
    | inr e ↦ inl ((h, n, refl, inside, e, refl), rw e refl)
  ]

  position-seek_to :
      (t : SectorType) (lsn : ℕ) (s : Reader k)
      → Synced t s
      → CanSeek t lsn s
      → position (seek_to k t lsn s) ≡ lsn * raw_size t
  unfolding seek_to
  position-seek_to t lsn s synced can = elim (Bool-cases (s.current_lsn == lsn)) [
    | inl e ↦ rw e (synced ∙ ap (λ n. n * raw_size t) ((==_iff s.current_lsn lsn).0 e))
    | inr e ↦ rw e (elim can [
      | inl same ↦ absurd (differs_not s.current_lsn lsn e same)
      | inr moved ↦ position-set_file_pointer s.handle (lsn * raw_size t) moved
    ])
  ]

  -- One raw sector.
  raw_loop_one :
      (t : SectorType) (h : Handle)
      → 1 ≤ raw_size t
      → position h + raw_size t ≤ size
      → (FailedAt (position h) (raw_loop k t 1 h).2 × ((raw_loop k t 1 h).0 ≡ 1))
        ⊎ (((raw_loop k t 1 h).0 ≡ 0)
            × ((raw_loop k t 1 h).1 ≡ slice bytes (position h) (raw_size t))
            × (position (raw_loop k t 1 h).2 ≡ position h + raw_size t))
  unfolding raw_loop
  raw_loop_one t h some_bytes inside = elim (read_file-cases h (raw_size t) inside) [
    | inl (failed, none_of) ↦ inl (
      rw (none_of, differs (raw_size t) some_bytes) failed,
      rw (none_of, differs (raw_size t) some_bytes) refl,
    )
    | inr (all_of, same, at) ↦ inr (
      rw (all_of, ==_refl (raw_size t)) refl,
      rw (all_of, ==_refl (raw_size t)) (append-nil (read_file k h (raw_size t)).1 ∙ same),
      rw (all_of, ==_refl (raw_size t)) at,
    )
  ]

  raw_read_one :
      (t : SectorType) (lsn : ℕ) (s : Reader k)
      → 1 ≤ raw_size t
      → read_raw k t ≡ raw_loop k t
      → Synced t s
      → CanSeek t lsn s
      → lsn + 1 < 2 ^ 32
      → lsn * raw_size t + raw_size t ≤ size
      → (FailedAt (lsn * raw_size t) (raw_read_sectors k t lsn 1 s).2.handle
          × ((raw_read_sectors k t lsn 1 s).0 ≡ 0))
        ⊎ (((raw_read_sectors k t lsn 1 s).0 ≡ 1)
            × ((raw_read_sectors k t lsn 1 s).1 ≡ slice bytes (lsn * raw_size t) (raw_size t))
            × (position (raw_read_sectors k t lsn 1 s).2.handle ≡ lsn * raw_size t + raw_size t)
            × ((raw_read_sectors k t lsn 1 s).2.current_lsn ≡ lsn + 1))
  unfolding raw_read_sectors
  raw_read_one t lsn s some_bytes loop synced can small inside =
      elim (raw_loop_one t (seek_to k t lsn s) some_bytes (omega (arith, at))) [
        | inl (failed, left) ↦ inl (
          rw loop (subst (λ a. FailedAt a (raw_loop k t 1 (seek_to k t lsn s)).2) at failed),
          rw (loop, left) refl,
        )
        | inr (left, same, next) ↦ inr (
          rw (loop, left) refl,
          rw loop (same ∙ ap (λ a. slice bytes a (raw_size t)) at),
          rw loop (next ∙ ap (λ a. a + raw_size t) at),
          rw (loop, left) (omega arith),
        )
      ]
    where
      at : position (seek_to k t lsn s) ≡ lsn * raw_size t
      at = position-seek_to t lsn s synced can

  -- What is read: fewer sectors, and the last read, at the first sector that is missing, failed; or
  -- all of them, with their data, and the file at the next sector.
  abbrev pub IsRead : SectorType → (lsn sectors : ℕ) → Answer k → Type 0
  IsRead t lsn sectors r =
      (FailedAt ((lsn + r.0) * raw_size t) r.2.handle × (r.0 < sectors))
      ⊎ ((r.0 ≡ sectors) × (r.1 ≡ user_data bytes t lsn sectors) × Synced t r.2)

  data_of_sector :
      (t : SectorType) (lsn len j : ℕ)
      → skipped t + j ≡ raw_size t
      → len ≤ j
      → take len (drop (skipped t) (slice bytes (lsn * raw_size t) (raw_size t)))
        ≡ slice bytes (lsn * raw_size t + skipped t) len
  data_of_sector t lsn len j e h =
      ap (λ n. take len (drop (skipped t) (slice bytes (lsn * raw_size t) n))) (sym e)
      ∙ cut bytes (lsn * raw_size t) (skipped t) len j h

  read_loop-IsRead :
      (t : SectorType) (j n lsn : ℕ) (s : Reader k)
      → skipped t + j ≡ raw_size t
      → 2048 ≤ j
      → read_raw k t ≡ raw_loop k t
      → Synced t s
      → CanSeek t lsn s
      → lsn + n < 2 ^ 32
      → (lsn + n) * raw_size t ≤ size
      → IsRead t lsn n (read_loop k t n lsn s)
  unfolding read_loop pieces
  read_loop-IsRead t j zero lsn s e h loop synced can small inside = inr (refl, refl, synced)
  read_loop-IsRead t j (suc n) lsn s e h loop synced can small inside =
      elim (raw_read_one t lsn s (omega arith) loop synced can (omega arith) (omega arith)) [
        | inl (failed, none_of) ↦ rw none_of (
            inl (
              subst (λ a. FailedAt (a * raw_size t) (raw_read_sectors k t lsn 1 s).2.handle)
                  none_more failed,
              omega arith,
            ))
        | inr (one, same, at, next) ↦
            if_one (IsRead t lsn (suc n)) (raw_read_sectors k t lsn 1 s).0 _ _ one
              (elim (read_loop-IsRead t j n ((lsn + 1) % 2 ^ 32) (raw_read_sectors k t lsn 1 s).2 e
                h loop (at ∙ omega (arith, next) ∙ ap (λ l. l * raw_size t) (sym next))
                (inl (next ∙ sym wraps)) (omega arith)
                (subst (λ l. (l + n) * raw_size t ≤ size) (sym wraps) (omega arith))) [
                  | inl (failed, fewer) ↦ inl (
                    subst (λ a. FailedAt (a * raw_size t) rest.2.handle) (ends rest.0) failed,
                    omega (arith, fewer),
                  )
                  | inr (all_of, data_is, synced_after) ↦ inr (
                    ap suc all_of,
                    ap₂ ◌++◌
                        (ap (λ bs. take 2048 (drop (skipped t) bs)) same
                          ∙ data_of_sector t lsn 2048 j e h)
                        (data_is
                          ∙ ap (λ a. pieces bytes (raw_size t) 2048 a n)
                              (ap (λ l. l * raw_size t + skipped t) wraps ∙ omega arith)),
                    synced_after,
                  )
                ])
      ]
    where
      wraps : (lsn + 1) % 2 ^ 32 ≡ lsn + 1
      wraps = omega arith

      none_more : lsn ≡ lsn + 0
      none_more = omega arith

      rest : Answer k
      rest = read_loop k t n ((lsn + 1) % 2 ^ 32) (raw_read_sectors k t lsn 1 s).2

      ends : (m : ℕ) → (lsn + 1) % 2 ^ 32 + m ≡ lsn + suc m
      ends m = omega arith

  read_flat-cases :
      (sectors : ℕ) (h : Handle)
      → 1 ≤ sectors
      → sectors < 2 ^ 20
      → position h + sectors * 2048 ≤ size
      → (FailedAt (position h) (read_flat k sectors h).2 × ((read_flat k sectors h).0 ≡ sectors))
        ⊎ (((read_flat k sectors h).0 ≡ 0)
            × ((read_flat k sectors h).1 ≡ slice bytes (position h) (sectors * 2048))
            × (position (read_flat k sectors h).2 ≡ position h + sectors * 2048))
  unfolding read_flat
  read_flat-cases sectors h some_of few inside =
      elim (read_file-cases h (2048 * sectors % 2 ^ 32) (omega arith)) [
        | inl (failed, none_of) ↦
            inl (failed, rw (none_of, differs (2048 * sectors % 2 ^ 32) (omega arith)) refl)
        | inr (all_of, same, at) ↦ inr (
          rw (all_of, ==_refl (2048 * sectors % 2 ^ 32)) refl,
          same ∙ ap (slice bytes (position h)) (omega arith),
          at ∙ omega arith,
        )
      ]

  read_all-IsRead :
      (lsn sectors : ℕ) (s : Reader k)
      → 1 ≤ sectors
      → sectors < 2 ^ 20
      → Synced headerless s
      → CanSeek headerless lsn s
      → lsn + sectors < 2 ^ 32
      → (lsn + sectors) * 2048 ≤ size
      → IsRead headerless lsn sectors (read_all k lsn sectors s)
  unfolding read_all raw_read_sectors read_raw
  read_all-IsRead lsn sectors s some_of few synced can small inside =
      elim (read_flat-cases sectors (seek_to k headerless lsn s) some_of few (omega (arith, at))) [
        | inl (failed, left) ↦
            if_no (IsRead headerless lsn sectors)
              (sectors - (read_flat k sectors (seek_to k headerless lsn s)).0) sectors _ _
              (omega (arith, left))
              (inl (
                subst (λ a. FailedAt a (read_flat k sectors (seek_to k headerless lsn s)).2)
                    (at ∙ omega arith) failed,
                omega arith,
              ))
        | inr (left, same, next) ↦
            if_yes (IsRead headerless lsn sectors)
              (sectors - (read_flat k sectors (seek_to k headerless lsn s)).0) sectors _ _
              (omega (arith, left))
              (inr (
                refl,
                same
                    ∙ ap (λ a. slice bytes a (sectors * 2048)) (at ∙ omega arith)
                    ∙ sym (pieces_joined bytes 2048 (lsn * 2048 + 0) sectors),
                next ∙ omega (arith, at, left),
              ))
      ]
    where
      at : position (seek_to k headerless lsn s) ≡ lsn * 2048
      at = position-seek_to headerless lsn s synced can

  -- ReadSectors on sectors of the image, when the file is at the sector of current_lsn and a seek
  -- that it makes succeeds: either it gives fewer sectors than asked for, and its last read, inside
  -- the file at the first sector that is missing, has failed; or it gives all of them, with the data
  -- of each, and leaves the file at the sector of current_lsn. The sectors are at least one and fewer
  -- than 2^20, and sector numbers fit in 32 bits.
  pub read_sectors-IsRead :
      (t : SectorType) (lsn sectors : ℕ) (s : Reader k)
      → 1 ≤ sectors
      → sectors < 2 ^ 20
      → Synced t s
      → CanSeek t lsn s
      → lsn + sectors < 2 ^ 32
      → (lsn + sectors) * raw_size t ≤ size
      → IsRead t lsn sectors (read_sectors k t lsn sectors s)
  unfolding read_sectors read_raw
  read_sectors-IsRead mode1 lsn sectors s some_of few synced can small inside =
      read_loop-IsRead mode1 2336 sectors lsn s refl (omega arith) refl synced can small inside
  read_sectors-IsRead mode2_xa lsn sectors s some_of few synced can small inside =
      read_loop-IsRead mode2_xa 2328 sectors lsn s refl (omega arith) refl synced can small inside
  read_sectors-IsRead headerless lsn sectors s some_of few synced can small inside =
      read_all-IsRead lsn sectors s some_of few synced can small inside
