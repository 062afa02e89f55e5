-- ===== src/Install/Names/Fits.antt =====
-- system.c: the length of a partition's name, and of the command that creates it.
use hdlgame_installer.Base.{
  ℕ, zero, suc, ◌+◌, ◌≤◌, ◌<◌, Bool, List, [], ◌∷◌, ◌++◌, map, take, length, length-append, Memory,
  slice, store, length-slice, slice-add, slice-store_self, slice-store_ne, ◌≡◌, refl, sym, ap, ap₂,
  ◌∙◌, inl, subst, arith,
}
use mathlib.Core.List.{append_assoc}
use hdlgame_installer.Settings.Text.{codes, c_string}
use hdlgame_installer.Install.Partitions.{number_of_sizes}
use hdlgame_installer.Install.Names.{
  name_char, title_part, name_start, generate_part_name, size_text, part_create_cmd,
  part_create_cmd_size,
}

length-map : (f : ℕ → ℕ) (xs : List ℕ) → length (map f xs) ≡ length xs
length-map f [] = refl
length-map f (x ∷ xs) = ap suc (length-map f xs)

length-take : (n : ℕ) (xs : List ℕ) → length (take n xs) ≤ n
length-take zero xs = omega arith
length-take (suc n) [] = omega arith
length-take (suc n) (x ∷ xs) = omega (arith, length-take n xs)

length-take-le : (n k : ℕ) (xs : List ℕ) → k ≤ n → k ≤ length xs → k ≤ length (take n xs)
length-take-le zero k xs h l = h
length-take-le (suc n) zero xs h l = omega arith
length-take-le (suc n) (suc k) [] h l = absurd (omega arith)
length-take-le (suc n) (suc k) (x ∷ xs) h l =
    omega (arith, length-take-le n k xs (omega arith) (omega arith))

same_prefix : (us xs vs zs : List ℕ) → length us ≡ length xs → us ++ vs ≡ xs ++ zs → us ≡ xs
same_prefix [] [] vs zs h e = refl
same_prefix [] (x ∷ xs) vs zs h e = absurd (omega (arith, h))
same_prefix (u ∷ us) [] vs zs h e = absurd (omega (arith, h))
same_prefix (u ∷ us) (x ∷ xs) vs zs h e =
    let heads : u ≡ x = cc in
    let tails : us ++ vs ≡ xs ++ zs = cc in
    ap₂ ◌∷◌ heads (same_prefix us xs vs zs (omega (arith, h)) tails)

-- The size of PartName in the menu.
abbrev pub part_name_size : ℕ
part_name_size = 38

-- The name that stands in the memory: the start, and the characters of the title.
abbrev pub part_name : (is_alnum : ℕ → Bool) → (disc_id title : List ℕ) → List ℕ
part_name is_alnum disc_id title = name_start disc_id ++ title_part is_alnum title

title_part_bound : (is_alnum : ℕ → Bool) (title : List ℕ) → length (title_part is_alnum title) ≤ 14
title_part_bound is_alnum title = omega (
  arith,
  length-map (name_char is_alnum) (take 14 (c_string title)),
  length-take 14 (c_string title),
)

length-name_start : (disc_id : List ℕ) → length disc_id ≡ 10 → length (name_start disc_id) ≡ 23
length-name_start disc_id h = omega (
  arith,
  length-append (codes "hdd0:PP.") (disc_id ++ codes ".HDL."),
  length-append disc_id (codes ".HDL."),
)

-- A text that is stored, and another that is stored behind its first `n` bytes.
stored_twice :
    (m : Memory) (xs ys zs : List ℕ)
    → slice (store (store m 0 (xs ++ zs)) (length xs) ys) 0 (length xs + length ys) ≡ xs ++ ys
stored_twice m xs ys zs =
    slice-add (store inner (length xs) ys) 0 (length xs) (length ys)
    ∙ ap₂ ◌++◌ (slice-store_ne inner (length xs) 0 (length xs) ys (inl (omega arith)) ∙ first) (
        ap (λ a. slice (store inner (length xs) ys) a (length ys)) (omega arith)
        ∙ slice-store_self inner (length xs) ys)
  where
    inner : Memory
    inner = store m 0 (xs ++ zs)

    whole : slice inner 0 (length xs) ++ slice inner (0 + length xs) (length zs) ≡ xs ++ zs
    whole =
        sym (slice-add inner 0 (length xs) (length zs))
        ∙ ap (slice inner 0) (sym (length-append xs zs))
        ∙ slice-store_self m 0 (xs ++ zs)

    first : slice inner 0 (length xs) ≡ xs
    first =
        same_prefix (slice inner 0 (length xs)) xs (slice inner (0 + length xs) (length zs)) zs
          (length-slice inner 0 (length xs)) whole

-- GeneratePartName puts the name and a null into the first 38 bytes, the size of the buffer, when
-- the disc's ID has its ten characters: the ID behind the prefix, and at most 14 characters of the
-- title.
pub generate_part_name_fits :
    (is_alnum : ℕ → Bool) (disc_id title : List ℕ) (m : Memory)
    → length disc_id ≡ 10
    → (slice
          (generate_part_name is_alnum disc_id title m)
          0
          (length (part_name is_alnum disc_id title) + 1)
        ≡ part_name is_alnum disc_id title ++ 0 ∷ [])
      × (length (part_name is_alnum disc_id title) + 1 ≤ part_name_size)
unfolding generate_part_name
generate_part_name_fits is_alnum disc_id title m h = (
  subst
      (λ k.
        slice
          (store (store m 0 (name_start disc_id ++ 0 ∷ [])) k (title_part is_alnum title ++ 0 ∷ []))
          0 (length (part_name is_alnum disc_id title) + 1)
        ≡ part_name is_alnum disc_id title ++ 0 ∷ [])
      (length-name_start disc_id h)
      (ap (slice stored 0) size
        ∙ stored_twice m (name_start disc_id) (title_part is_alnum title ++ 0 ∷ []) (0 ∷ [])
        ∙ sym (append_assoc (name_start disc_id) (title_part is_alnum title) (0 ∷ []))),
  omega (
    arith,
    length-append (name_start disc_id) (title_part is_alnum title),
    length-name_start disc_id h,
    title_part_bound is_alnum title,
  ),
)
  where
    stored : Memory
    stored =
        store (store m 0 (name_start disc_id ++ 0 ∷ [])) (length (name_start disc_id))
          (title_part is_alnum title ++ 0 ∷ [])

    size :
        length (part_name is_alnum disc_id title) + 1
        ≡ length (name_start disc_id) + length (title_part is_alnum title ++ 0 ∷ [])
    size = omega (
      arith,
      length-append (name_start disc_id) (title_part is_alnum title),
      length-append (title_part is_alnum title) (0 ∷ []),
    )

length-part_create_cmd :
    (name text : List ℕ) → length (part_create_cmd name text) ≡ length name + length text + 8
unfolding part_create_cmd
length-part_create_cmd name text = omega (
  arith,
  length-append name (codes ",,," ++ (text ++ (codes ",HDL" ++ 0 ∷ []))),
  length-append text (codes ",HDL" ++ 0 ∷ []),
)

length-size_text : (i : ℕ) → i < number_of_sizes → 2 ≤ length (size_text i)
length-size_text zero h = omega arith
length-size_text (suc zero) h = omega arith
length-size_text (suc (suc zero)) h = omega arith
length-size_text (suc (suc (suc zero))) h = omega arith
length-size_text (suc (suc (suc (suc zero)))) h = omega arith
length-size_text (suc (suc (suc (suc (suc zero))))) h = omega arith
length-size_text (suc (suc (suc (suc (suc (suc i)))))) h = absurd (omega arith)

-- With a disc's ID of ten characters and a title of twelve or more, the command that creates the
-- main partition is longer than the array that it is printed into, whatever the size.
pub part_create_cmd_overflows :
    (is_alnum : ℕ → Bool) (disc_id title : List ℕ) (i : ℕ)
    → length disc_id ≡ 10
    → 12 ≤ length (c_string title)
    → i < number_of_sizes
    → part_create_cmd_size
      < length (part_create_cmd (part_name is_alnum disc_id title) (size_text i))
part_create_cmd_overflows is_alnum disc_id title i h k l = omega (
  arith,
  length-part_create_cmd (part_name is_alnum disc_id title) (size_text i),
  length-append (name_start disc_id) (title_part is_alnum title),
  length-name_start disc_id h,
  length-map (name_char is_alnum) (take 14 (c_string title)),
  length-take-le 14 12 (c_string title) (omega arith) k,
  length-size_text i l,
)
