-- ===== src/Hdlfs/Transfer/Sectors.antt =====
-- hdlfs/main.c: the sectors of a mounted game in the order of its disc image.
use hdlgame_installer.Base.{
  ℕ, zero, suc, ◌+◌, ◌-◌, ◌/◌, ◌≤◌, ◌<◌, List, [], ◌∷◌, ◌++◌, ◌≡◌, refl, ap, ap₂, ◌∙◌, arith,
  length,
}
use Prim.Native.Nat.add
use hdlgame_installer.Hdlfs.Format.{PartSpec, reserved}
use hdlgame_installer.Hdlfs.Transfer.{span, part_sectors}

-- All the sectors of the partitions from `i` on.
abbrev pub sectors : ℕ → List PartSpec → List (ℕ × ℕ)
sectors i [] = []
sectors i (p ∷ ps) = span i (reserved i) (p.part_size / 512) ++ sectors (i + 1) ps

-- Those that follow sector `rel` of the partition `cur` places behind `i`.
abbrev pub ahead_at : (i cur rel : ℕ) → List PartSpec → List (ℕ × ℕ)
ahead_at i cur rel [] = []
ahead_at i zero rel (p ∷ ps) =
    span i (reserved i + rel) (p.part_size / 512 - rel) ++ sectors (i + 1) ps
ahead_at i (suc cur) rel (p ∷ ps) = ahead_at (i + 1) cur rel ps

pub length-span : (sub first n : ℕ) → length (span sub first n) ≡ n
length-span sub first zero = refl
length-span sub first (suc n) = ap suc (length-span sub (first + 1) n)

pub span-add :
    (sub first a b : ℕ) → span sub first (a + b) ≡ span sub first a ++ span sub (first + a) b
span-add sub first zero b = ap₂ (span sub) first_eq b_eq
  where
    first_eq : first ≡ first + 0
    first_eq = omega arith

    b_eq : 0 + b ≡ b
    b_eq = omega arith
span-add sub first (suc a) b =
    ap (span sub first) (add.suc a b)
    ∙ ap ((sub, first) ∷◌) (
        span-add sub (first + 1) a b
        ∙ ap (λ x. span sub (first + 1) a ++ span sub x b) (omega arith))

pub append_assoc {ℓ} : {A : Type ℓ} (xs ys zs : List A) → (xs ++ ys) ++ zs ≡ xs ++ (ys ++ zs)
append_assoc [] ys zs = refl
append_assoc (x ∷ xs) ys zs = ap (x ∷◌) (append_assoc xs ys zs)

pub ahead_at-advance :
    (i cur rel n : ℕ) (ps : List PartSpec)
    → cur < length ps
    → rel + n ≤ part_sectors ps cur
    → ahead_at i cur rel ps
      ≡ span (i + cur) (reserved (i + cur) + rel) n ++ ahead_at i cur (rel + n) ps
unfolding part_sectors
ahead_at-advance i cur rel n [] h le = absurd (omega arith)
ahead_at-advance i zero rel n (p ∷ ps) h le =
    ap (λ xs. xs ++ sectors (i + 1) ps)
      (ap (span i (reserved i + rel)) size_eq ∙ span-add i (reserved i + rel) n left)
    ∙ append_assoc (span i (reserved i + rel) n) (span i (reserved i + rel + n) left)
        (sectors (i + 1) ps)
    ∙ ap₂ (λ a b. span a (reserved a + rel) n ++ (span i b left ++ sectors (i + 1) ps)) i_eq
        first_eq
  where
    left : ℕ
    left = p.part_size / 512 - (rel + n)

    size_eq : p.part_size / 512 - rel ≡ n + left
    size_eq = omega arith

    i_eq : i ≡ i + 0
    i_eq = omega arith

    first_eq : reserved i + rel + n ≡ reserved i + (rel + n)
    first_eq = omega arith
ahead_at-advance i (suc cur) rel n (p ∷ ps) h le =
    ahead_at-advance (i + 1) cur rel n ps (omega arith) le
    ∙ ap (λ a. span a (reserved a + rel) n ++ ahead_at (i + 1) cur (rel + n) ps) (omega arith)

sectors-ahead_at : (i : ℕ) (ps : List PartSpec) → sectors i ps ≡ ahead_at i 0 0 ps
sectors-ahead_at i [] = refl
sectors-ahead_at i (p ∷ ps) = ap₂ (λ a b. span i a b ++ sectors (i + 1) ps) first_eq size_eq
  where
    first_eq : reserved i ≡ reserved i + 0
    first_eq = omega arith

    size_eq : p.part_size / 512 ≡ p.part_size / 512 - 0
    size_eq = omega arith

pub ahead_at-next :
    (i cur rel : ℕ) (ps : List PartSpec)
    → part_sectors ps cur ≤ rel
    → ahead_at i cur rel ps ≡ ahead_at i (cur + 1) 0 ps
unfolding part_sectors
ahead_at-next i cur rel [] le = refl
ahead_at-next i zero rel (p ∷ ps) le =
    ap (λ n. span i (reserved i + rel) n ++ sectors (i + 1) ps) none_left
    ∙ sectors-ahead_at (i + 1) ps
  where
    none_left : p.part_size / 512 - rel ≡ 0
    none_left = omega arith
ahead_at-next i (suc cur) rel (p ∷ ps) le =
    ahead_at-next (i + 1) cur rel ps le ∙ ap (λ c. ahead_at i c 0 (p ∷ ps)) cur_eq
  where
    cur_eq : suc (cur + 1) ≡ suc cur + 1
    cur_eq = omega arith

pub ahead_at_bounds :
    (i cur rel : ℕ) (ps : List PartSpec) → 0 < length (ahead_at i cur rel ps) → cur < length ps
ahead_at_bounds i cur rel [] h = absurd (omega arith)
ahead_at_bounds i zero rel (p ∷ ps) h = omega arith
ahead_at_bounds i (suc cur) rel (p ∷ ps) h = omega (arith, ahead_at_bounds (i + 1) cur rel ps h)
