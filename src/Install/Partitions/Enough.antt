-- ===== src/Install/Partitions/Enough.antt =====
-- system.c: the partitions that the loops of CreateAndFormatPartition make hold what they are for.
use hdlgame_installer.Base.{
  ℕ, zero, suc, ◌+◌, ◌≤◌, ◌<◌, Bool, true, false, ◌&&◌, List, [], ◌∷◌, Option, some, ◌≡◌, refl, ap,
  ◌∙◌, length, sym, subst, arith, ltb, if◌then◌else◌, Code, ok, err, is_ok,
}
use hdlgame_installer.Install.Partitions.{
  PartSize, number_of_sizes, size_of, reserved_sectors, get_part_size, Apa, is_full, smaller_sizes,
  with_index, add_partition, sectors_left, Made, add_made, note_made, add_subs,
}
use hdlgame_installer.Install.Partitions.Sizes.{
  IsPartSize, size_of-IsPartSize, get_part_size-IsFound, get_part_size_override,
}

-- The sectors of the disc image that the partitions hold.
abbrev pub capacity : List PartSize → ℕ
capacity [] = 0
capacity (p ∷ ps) = p.sectors + capacity ps

-- Partitions from number `i` on, each of a listed size, and each made by the driver.
abbrev pub AreParts : Apa → (i : ℕ) → List PartSize → Type 0
AreParts apa i [] = Unit
AreParts apa i (p ∷ ps) =
    IsPartSize i p × (is_ok (apa.create i p.index) ≡ true) × AreParts apa (i + 1) ps

-- A size, and the driver's answer for it. When the answer is -ENOSPC, the size is the smallest one:
-- before, the next smaller size is tried.
abbrev pub IsTried : Apa → (part_number : ℕ) → Code × PartSize → Type 0
IsTried apa part_number r =
    IsPartSize part_number r.1
    × (r.0 ≡ apa.create part_number r.1.index)
    × (is_full r.0 ≡ true → r.1.index ≡ 0)

smaller_sizes-IsTried :
    (apa : Apa) (num part_number index : ℕ) (r : Code) (p : PartSize)
    → index < number_of_sizes
    → p.index ≡ index
    → IsPartSize part_number p
    → r ≡ apa.create part_number p.index
    → IsTried apa part_number (smaller_sizes apa num part_number index r p)
unfolding smaller_sizes
smaller_sizes-IsTried apa num part_number zero r p h same t answer = (t, answer, λ f. same)
smaller_sizes-IsTried apa num part_number (suc index) r p h same t answer = test (is_full r) refl (
    smaller_sizes-IsTried apa num part_number index (apa.create part_number q.index) q (omega arith)
      chosen listed refl)
  where
    q : PartSize
    q = (get_part_size apa.max_sectors num part_number (some index) p).1

    chosen : q.index ≡ index
    chosen =
        ap (λ (x : Option ℕ × PartSize). x.1.index)
          (get_part_size_override apa.max_sectors num part_number index p (omega arith))

    listed : IsPartSize part_number q
    listed =
        subst (λ (x : Option ℕ × PartSize). IsPartSize part_number x.1)
          (sym (get_part_size_override apa.max_sectors num part_number index p (omega arith)))
          (size_of-IsPartSize part_number index (omega arith))

    rest : Code × PartSize
    rest = smaller_sizes apa num part_number index (apa.create part_number q.index) q

    test :
        (b : Bool)
        → is_full r ≡ b
        → IsTried apa part_number rest
        → IsTried apa part_number (if b then rest else (r, p))
    test true e ih = ih
    test false e ih = (t, answer, λ f. cc)

pub add_partition-IsTried :
    (apa : Apa) (num part_number : ℕ) (unset : PartSize)
    → IsTried apa part_number (add_partition apa num part_number unset)
unfolding add_partition
add_partition-IsTried apa num part_number unset =
    let (j, lt, e) = get_part_size-IsFound apa.max_sectors num part_number unset in
    subst (λ x. IsTried apa part_number (with_index apa num part_number x)) (sym e)
      (smaller_sizes-IsTried apa num part_number j (apa.create part_number j)
        (size_of (reserved_sectors part_number) j) lt refl (size_of-IsPartSize part_number j lt)
        refl)

-- `r` is the error with which the driver refuses partition `i` in one of the sizes, in the smallest
-- one if the error is -ENOSPC.
abbrev pub Refused : Apa → (i : ℕ) → Code → Type 0
Refused apa i r =
    (index : ℕ) × (index < number_of_sizes)
    × (r ≡ apa.create i index)
    × (is_ok r ≡ false)
    × (is_full r ≡ true → index ≡ 0)

abbrev IsMade : Apa → (remaining part_number : ℕ) → (before : Code) → Option Made → Type 0
IsMade apa remaining part_number before o =
    (m : Made) × (o ≡ some m)
    × AreParts apa part_number m.parts
    × (is_ok m.result ≡ true → remaining ≤ capacity m.parts)
    × (is_ok before ≡ true
        → is_ok m.result ≡ false
        → Refused apa (part_number + length m.parts) m.result)

note_made-IsMade :
    (apa : Apa) (remaining part_number : ℕ) (r : Code) (q : PartSize) (rest : Option Made)
    → IsPartSize part_number q
    → r ≡ apa.create part_number q.index
    → (is_full r ≡ true → q.index ≡ 0)
    → IsMade apa (sectors_left remaining q.sectors) (part_number + 1) r rest
    → (is_ok r ≡ false → rest ≡ some (record { result = r; parts = [] }))
    → (before : Code) → IsMade apa remaining part_number before (note_made r q rest)
note_made-IsMade apa remaining part_number (ok n) q rest listed answer full
      (m, e, parts, enough, why) failed before =
    (
      record m { parts = q ∷ m.parts },
      ap (add_made q) e,
      (listed, ap is_ok (sym answer), parts),
      λ h. ground (arith, enough h),
      λ k f. subst (λ i. Refused apa i m.result) (omega arith) (why refl f),
    )
note_made-IsMade apa remaining part_number (err x) q rest listed answer full ih failed before = (
  record { result = err x; parts = [] },
  failed refl,
  tt,
  λ h. cc,
  λ k f.
      (q.index, listed.listed, answer ∙ ap (λ i. apa.create i q.index) (omega arith), refl, full),
)

left-lt :
    (fuel remaining in_partition : ℕ)
    → 0 < remaining
    → remaining < suc fuel
    → 63488 ≤ in_partition
    → sectors_left remaining in_partition < fuel
left-lt fuel remaining in_partition h k l = ground arith

-- A failure ends the loop.
add_subs-failed :
    (apa : Apa) (fuel remaining part_number : ℕ) (r : Code) (p : PartSize)
    → 0 < fuel
    → is_ok r ≡ false
    → add_subs apa fuel remaining part_number r p ≡ some (record { result = r; parts = [] })
unfolding add_subs
add_subs-failed apa zero remaining part_number r p h e = absurd (omega arith)
add_subs-failed apa (suc fuel) remaining part_number r p h e =
    let stop : (ltb 0 remaining && is_ok r) ≡ false = rw e (and_false (ltb 0 remaining)) in
    rw stop refl
  where
    and_false : (b : Bool) → (b && false) ≡ false
    and_false true = refl
    and_false false = refl

-- The loop ends, and when it has succeeded, its partitions hold what remained.
pub add_subs-IsMade :
    (apa : Apa) (fuel remaining part_number : ℕ) (r : Code) (unset : PartSize)
    → remaining < fuel
    → (m : Made) × (add_subs apa fuel remaining part_number r unset ≡ some m)
      × AreParts apa part_number m.parts
      × (is_ok m.result ≡ true → remaining ≤ capacity m.parts)
      × (is_ok r ≡ true
          → is_ok m.result ≡ false
          → Refused apa (part_number + length m.parts) m.result)
unfolding add_subs
add_subs-IsMade apa zero remaining part_number r unset h = absurd (omega arith)
add_subs-IsMade apa (suc fuel) zero part_number r unset h =
    (record { result = r; parts = [] }, refl, tt, λ k. omega arith, λ k f. cc)
add_subs-IsMade apa (suc fuel) (suc k) part_number (err x) unset h = (
  record { result = err x; parts = [] },
  add_subs-failed apa (suc fuel) (suc k) part_number (err x) unset (omega arith) refl,
  tt,
  λ e. cc,
  λ e. cc,
)
add_subs-IsMade apa (suc fuel) (suc k) part_number (ok n) unset h =
    let go : ltb 0 (suc k) ≡ true = ground arith in
    rw go (
      note_made-IsMade apa (suc k) part_number r q
        (add_subs apa fuel (sectors_left (suc k) q.sectors) (part_number + 1) r q) tried.0 tried.1
        tried.2
        (add_subs-IsMade apa fuel (sectors_left (suc k) q.sectors) (part_number + 1) r q less)
        (add_subs-failed apa fuel (sectors_left (suc k) q.sectors) (part_number + 1) r q
          (omega (arith, less)))
        (ok n))
  where
    r : Code
    r = (add_partition apa (suc k) part_number unset).0

    q : PartSize
    q = (add_partition apa (suc k) part_number unset).1

    tried : IsTried apa part_number (r, q)
    tried = add_partition-IsTried apa (suc k) part_number unset

    less : sectors_left (suc k) q.sectors < fuel
    less = left-lt fuel (suc k) q.sectors (omega arith) h tried.0.least
