-- ===== src/Osd/Area/Stored.antt =====
-- OSD.c: the extended attribute area while InstallOSDFiles puts one file after the other into it.
use hdlgame_installer.Base.{
  ℕ, suc, ◌+◌, ◌*◌, ◌^◌, ◌≤◌, ◌<◌, Bool, true, false, ◌&&◌, List, length, Memory, store, ◌≡◌, refl,
  sym, ap, ◌∙◌, subst, ◌⊎◌, inl, inr, arith, if◌then◌else◌, ◌==◌, ==_iff, Code, ok, err, is_ok,
  einval,
}
use hdlgame_installer.Osd.Files.{OsdFile, del_icon_index, view_icon_index}
use hdlgame_installer.Osd.Area.{
  FileEnt, no_ent, AreaState, WriteAnswer, round_up, padded, adjust_offset, set_ent, install_empty,
  taken_bytes, note_written, write_file, buffer_bytes,
}
use hdlgame_installer.Osd.Area.Header.{adjust_offset_bounds}
use hdlgame_installer.Osd.Area.Held.{
  Held, Held-store, Held-empty, Held-padded, Sized, taken_bytes_whole, round_up_bounds,
}

-- What is to be read as file `i`: a delete icon without content is the view icon.
abbrev pub resource : (ℕ → OsdFile) → ℕ → List ℕ
resource file i =
    if i == del_icon_index && (file i).size == 0
    then buffer_bytes (file view_icon_index).buffer
    else buffer_bytes (file i).buffer

-- Sizes below 16 MB keep all offsets within 32 bits.
abbrev pub Fits : OsdFile → Type 0
Fits f = Sized f × (f.size ≤ 2 ^ 24)

-- The area when the first `i` files have been put into it.
abbrev pub Stored : (ℕ → OsdFile) → (i : ℕ) → AreaState → Type 0
Stored file i s =
    (512 ≤ s.part_ext_attr_offset)
    × (s.part_ext_attr_offset ≤ 512 + i * 2 ^ 25)
    × ((j : ℕ) → j < i → Held s.disc s.part_ext_attr_offset (s.file_ent j) (resource file j))
    × ((j : ℕ) → i ≤ j → s.file_ent j ≡ no_ent)

set_ent_same : (t : ℕ → FileEnt) (i : ℕ) (e : FileEnt) → set_ent t i e i ≡ e
unfolding set_ent
set_ent_same t i e = ground arith

set_ent_other :
    (t : ℕ → FileEnt) (i j : ℕ) (e : FileEnt) → (j < i) ⊎ (i < j) → set_ent t i e j ≡ t j
unfolding set_ent
set_ent_other t i j e h = ground arith

resource_sized :
    (file : ℕ → OsdFile) (i : ℕ)
    → 1 ≤ (file i).size
    → resource file i ≡ buffer_bytes (file i).buffer
resource_sized file i h = ground arith

resource_del_icon :
    (file : ℕ → OsdFile) (i : ℕ) → i ≡ 3 → (file i).size ≡ 0 → resource file i ≡ resource file 2
resource_del_icon file i at h = ground arith

resource_empty :
    (file : ℕ → OsdFile) (i : ℕ) → (i == 3) ≡ false → resource file i ≡ buffer_bytes (file i).buffer
resource_empty file i h = ground arith

-- A state with one more entry.
with_ent :
    (file : ℕ → OsdFile) (i limit' : ℕ) (disc' : Memory) (t : ℕ → FileEnt) (e : FileEnt)
    → ((j : ℕ) → j < i → Held disc' limit' (t j) (resource file j))
    → ((j : ℕ) → i ≤ j → t j ≡ no_ent)
    → Held disc' limit' e (resource file i)
    → ((j : ℕ) → j < suc i → Held disc' limit' (set_ent t i e j) (resource file j))
      × ((j : ℕ) → suc i ≤ j → set_ent t i e j ≡ no_ent)
with_ent file i limit' disc' t e old new here = (held, later)
  where
    split : (j : ℕ) → (j < i) ⊎ (j ≡ i) → Held disc' limit' (set_ent t i e j) (resource file j)
    split j (inl h) =
        subst (λ x. Held disc' limit' x (resource file j)) (sym (set_ent_other t i j e (inl h)))
          (old j h)
    split j (inr h) =
        subst (λ k. Held disc' limit' (set_ent t i e k) (resource file k)) (sym h)
          (subst (λ x. Held disc' limit' x (resource file i)) (sym (set_ent_same t i e)) here)

    held : (j : ℕ) → j < suc i → Held disc' limit' (set_ent t i e j) (resource file j)
    held j h = split j (omega arith)

    later : (j : ℕ) → suc i ≤ j → set_ent t i e j ≡ no_ent
    later j h = set_ent_other t i j e (inr (omega arith)) ∙ new j (omega arith)

pub not_ok : {A : Type 0} → false ≡ true → A
not_ok h = absurd (ground (arith, h))

module _ (file : ℕ → OsdFile) (fits : (i : ℕ) → Fits (file i)) where
  -- A file without content.
  pub install_empty-Stored :
      (i : ℕ) (s : AreaState)
      → (file i).size ≡ 0
      → Stored file i s
      → is_ok (install_empty i (file i) s).0 ≡ true
      → Stored file (suc i) (install_empty i (file i) s).1
  unfolding install_empty
  install_empty-Stored i s none_of (lo, hi, old, new) = optional (file i).is_optional
    where
      copied : Bool → Code × AreaState
      copied b =
          if b
          then (
            ok (s.file_ent view_icon_index).offset,
            record s { file_ent = set_ent s.file_ent i (s.file_ent view_icon_index) },
          )
          else (ok 0, s)

      empty_held :
          (i == 3) ≡ false → Held s.disc s.part_ext_attr_offset (s.file_ent i) (resource file i)
      empty_held h =
          subst (λ e. Held s.disc s.part_ext_attr_offset e (resource file i))
            (sym (new i (omega arith)))
            (Held-empty s.disc s.part_ext_attr_offset (resource file i)
              (ap length (resource_empty file i h) ∙ (fits i).0 ∙ none_of))

      last :
          (i == 3) ≡ false
          → (j : ℕ) → (j < i) ⊎ (j ≡ i)
          → Held s.disc s.part_ext_attr_offset (s.file_ent j) (resource file j)
      last h j (inl lt) = old j lt
      last h j (inr eq) =
          subst (λ k. Held s.disc s.part_ext_attr_offset (s.file_ent k) (resource file k)) (sym eq)
            (empty_held h)

      del : (b : Bool) → (i == 3) ≡ b → Stored file (suc i) (copied b).1
      del true h =
          let at : i ≡ 3 = (==_iff i 3).0 h in
          let both =
            with_ent file i s.part_ext_attr_offset s.disc s.file_ent (s.file_ent 2) old new (
              subst (Held s.disc s.part_ext_attr_offset (s.file_ent 2))
                (sym (resource_del_icon file i at none_of)) (old 2 (omega arith))) in
          (lo, omega arith, both.0, both.1)
      del false h = (lo, omega arith, λ j lt. last h j (omega arith), λ j le. new j (omega arith))

      optional :
          (b : Bool)
          → is_ok (if◌then◌else◌ {A = Code × AreaState} b (copied (i == 3)) (err einval, s)).0
            ≡ true
          → Stored file
              (suc i)
              (if◌then◌else◌ {A = Code × AreaState} b (copied (i == 3)) (err einval, s)).1
      optional true h = del (i == 3) refl
      optional false h = not_ok h

  pub write_file-Stored :
      (a : WriteAnswer) (i : ℕ) (s : AreaState)
      → 1 ≤ (file i).size
      → Stored file i s
      → let at = adjust_offset s.part_ext_attr_offset (round_up (file i).size) in
        is_ok (write_file a i at (file i) s).0 ≡ true
        → Stored file (suc i) (write_file a i at (file i) s).1
  unfolding write_file note_written
  write_file-Stored a i s some_bytes (lo, hi, old, new) =
      wrote (length (taken_bytes a (file i)) == round_up (file i).size) refl
    where
      at : ℕ
      at = adjust_offset s.part_ext_attr_offset (round_up (file i).size)

      t : AreaState
      t = record s {
        part_ext_attr_offset = at + round_up (file i).size;
        disc = store s.disc at (taken_bytes a (file i));
      }

      at_bounds :
          (s.part_ext_attr_offset ≤ at) × (at + round_up (file i).size ≤ 512 + suc i * 2 ^ 25)
      at_bounds = omega (
        arith,
        hi,
        fits i,
        round_up_bounds (file i).size,
        adjust_offset_bounds s.part_ext_attr_offset (round_up (file i).size),
      )

      here :
          taken_bytes a (file i) ≡ padded (file i)
          → Held t.disc t.part_ext_attr_offset
              (record { offset = at; size = (file i).size })
              (resource file i)
      here same =
          subst
            (λ bs.
              Held (store s.disc at bs) t.part_ext_attr_offset
                (record { offset = at; size = (file i).size }) (resource file i))
            (sym same)
            (subst
              (Held (store s.disc at (padded (file i))) t.part_ext_attr_offset
                (record { offset = at; size = (file i).size }))
              (sym (resource_sized file i some_bytes))
              (Held-padded s.disc at (file i) (fits i).0 (omega (arith, lo, at_bounds))))

      wrote :
          (b : Bool)
          → (length (taken_bytes a (file i)) == round_up (file i).size) ≡ b
          → is_ok (note_written b i at (file i) t).0 ≡ true
          → Stored file (suc i) (note_written b i at (file i) t).1
      wrote true h good =
          let same =
            taken_bytes_whole a (file i) (fits i).0 some_bytes
              ((==_iff (length (taken_bytes a (file i))) (round_up (file i).size)).0 h) in
          let both =
            with_ent file i t.part_ext_attr_offset t.disc s.file_ent
              (record { offset = at; size = (file i).size })
              (λ j lt.
                Held-store s.disc s.part_ext_attr_offset t.part_ext_attr_offset at (s.file_ent j)
                  (resource file j) (taken_bytes a (file i)) (old j lt) (at_bounds.0)
                  (omega (arith, at_bounds)))
              new (here same) in
          (omega (arith, lo, at_bounds), at_bounds.1, both.0, both.1)
      wrote false h good = not_ok good
