-- ===== src/Osd/Area/Read.antt =====
-- OSD.c: InstallOSDFiles, followed by GetOSDResourceFileStats and ReadOSDResourceFile.
use hdlgame_installer.Base.{
  ℕ, zero, suc, ◌+◌, ◌*◌, ◌/◌, ◌%◌, ◌^◌, ◌≤◌, ◌<◌, Bool, true, false, List, Option, none, some,
  take, Memory, slice, store, slice-store_self, take-slice, ◌≡◌, refl, sym, ap, ◌∙◌, subst, arith,
  if◌then◌else◌, ltb, ◌==◌, ==_iff, Code, ok, err, is_ok, eio, enomem,
}
use hdlgame_installer.Net.Packet.{u32_bytes, u32_at}
use hdlgame_installer.Osd.Files.{OsdFile, num_osd_files_ents}
use hdlgame_installer.Osd.Area.{
  FileEnt, no_ent, AreaState, WriteAnswer, table_size, round_up, init_area, install_sized,
  install_osd_file, install_loop, ent_bytes, table_bytes, write_table, InstallAnswers, after_open,
  install_osd_files, ReadAnswers, ent_at, get_file_stats, read_osd_resource_file,
}
use hdlgame_installer.Osd.Area.Header.{length-table_bytes}
use hdlgame_installer.Osd.Area.Held.{Held, Held-table, take_all, round_up_bounds}
use hdlgame_installer.Osd.Area.Stored.{
  resource, Fits, Stored, not_ok, install_empty-Stored, write_file-Stored,
}

module _ (file : ℕ → OsdFile) (fits : (i : ℕ) → Fits (file i)) where
  install_sized-Stored :
      (a : WriteAnswer) (i size : ℕ) (s : AreaState)
      → size ≡ (file i).size
      → Stored file i s
      → is_ok (install_sized a i (file i) size s).0 ≡ true
      → Stored file (suc i) (install_sized a i (file i) size s).1
  unfolding install_sized
  install_sized-Stored a i zero s e st = install_empty-Stored file fits i s (sym e) st
  install_sized-Stored a i (suc n) s e st = write_file-Stored file fits a i s (omega arith) st

  install_loop-Stored :
      (answer : ℕ → WriteAnswer) (rounds i : ℕ) (r : Code) (s : AreaState)
      → 1 ≤ i
      → i + rounds ≡ num_osd_files_ents
      → (is_ok r ≡ true → Stored file i s)
      → is_ok (install_loop answer file rounds i r s).0 ≡ true
      → Stored file num_osd_files_ents (install_loop answer file rounds i r s).1
  unfolding install_loop install_osd_file init_area
  install_loop-Stored answer zero i r s p e st good =
      subst (λ k. Stored file k s) (omega arith) (st good)
  install_loop-Stored answer (suc rounds) i (err x) s p e st good = not_ok good
  install_loop-Stored answer (suc rounds) zero (ok n) s p e st good = absurd (omega arith)
  install_loop-Stored answer (suc rounds) (suc i) (ok n) s p e st good =
      let done = install_sized (answer (suc i)) (suc i) (file (suc i)) (file (suc i)).size s in
      install_loop-Stored answer rounds (suc i + 1) done.0 done.1 (omega arith) (omega arith)
        (λ h.
          subst (λ k. Stored file k done.1) (omega arith)
            (install_sized-Stored (answer (suc i)) (suc i) (file (suc i)).size s refl (st refl) h))
        good

  -- The five files, from an area in any state.
  files-Stored :
      (answer : ℕ → WriteAnswer) (s : AreaState)
      → is_ok (install_loop answer file num_osd_files_ents 0 (ok 0) s).0 ≡ true
      → Stored file num_osd_files_ents (install_loop answer file num_osd_files_ents 0 (ok 0) s).1
  unfolding install_loop install_osd_file init_area
  files-Stored answer s good =
      let clean : AreaState = record s {
        part_ext_attr_offset = table_size;
        file_ent = λ i. no_ent;
      } in
      let done = install_sized (answer 0) 0 (file 0) (file 0).size clean in
      install_loop-Stored answer 4 1 done.0 done.1 (omega arith) refl
        (install_sized-Stored (answer 0) 0 (file 0).size clean refl
          (omega arith, omega arith, λ j h. absurd (omega arith), λ j h. refl))
        good

ltb-true : (a b : ℕ) → a < b → ltb a b ≡ true
ltb-true a b h = ground arith

-- A table whose numbers fit is read back from its bytes.
u32_value :
    (n : ℕ)
    → n < 2 ^ 32
    → n % 256 + n / 2 ^ 8 % 256 * 2 ^ 8 + n / 2 ^ 16 % 256 * 2 ^ 16 + n / 2 ^ 24 % 256 * 2 ^ 24 ≡ n
u32_value n h = omega arith

ent_of :
    (e : FileEnt) (a b : ℕ)
    → a ≡ e.offset
    → b ≡ e.size
    → ◌≡◌ {A = FileEnt} (record { offset = a; size = b }) e
ent_of e a b h k = cc

ent_at-table_bytes :
    (t : ℕ → FileEnt) (j : ℕ)
    → j < num_osd_files_ents
    → (t j).offset < 2 ^ 32
    → (t j).size < 2 ^ 32
    → ent_at (table_bytes t) j ≡ t j
unfolding ent_at table_bytes ent_bytes u32_bytes u32_at
ent_at-table_bytes t zero h a b =
    ent_of (t 0) _ _ (u32_value (t 0).offset a) (u32_value (t 0).size b)
ent_at-table_bytes t (suc zero) h a b =
    ent_of (t 1) _ _ (u32_value (t 1).offset a) (u32_value (t 1).size b)
ent_at-table_bytes t (suc (suc zero)) h a b =
    ent_of (t 2) _ _ (u32_value (t 2).offset a) (u32_value (t 2).size b)
ent_at-table_bytes t (suc (suc (suc zero))) h a b =
    ent_of (t 3) _ _ (u32_value (t 3).offset a) (u32_value (t 3).size b)
ent_at-table_bytes t (suc (suc (suc (suc zero)))) h a b =
    ent_of (t 4) _ _ (u32_value (t 4).offset a) (u32_value (t 4).size b)
ent_at-table_bytes t (suc (suc (suc (suc (suc j))))) h a b = absurd (omega arith)

-- GetOSDResourceFileStats and then ReadOSDResourceFile, when the driver and the allocator do not
-- fail.
abbrev pub no_failure : ReadAnswers
no_failure = record { is_allocated = true; handle = ok 0; reads_all = true }

abbrev pub with_stats : (index : ℕ) → Memory → Code × Option (ℕ → FileEnt) → Code × Option (List ℕ)
with_stats index disc (result, none) = (result, none)
with_stats index disc (result, some files) = read_osd_resource_file no_failure index files disc

abbrev pub read_back : (index : ℕ) → Memory → Code × Option (List ℕ)
read_back index disc = with_stats index disc (get_file_stats no_failure disc)

read_osd_resource_file-Held :
    (index limit : ℕ) (files : ℕ → FileEnt) (disc : Memory) (bs : List ℕ)
    → index < num_osd_files_ents
    → Held disc limit (files index) bs
    → read_osd_resource_file no_failure index files disc ≡ (ok 0, some bs)
unfolding read_osd_resource_file
read_osd_resource_file-Held index limit files disc bs h held =
    rw
      (
        ltb-true index num_osd_files_ents h,
        take-slice disc (files index).offset (files index).size (round_up (files index).size)
            (round_up_bounds (files index).size).0,
        held.1,
      )
      refl

-- The table in front of the files.
table_of :
    (file : ℕ → OsdFile) (s : AreaState) (index : ℕ)
    → Stored file num_osd_files_ents s
    → index < num_osd_files_ents
    → read_back index (store s.disc 0 (table_bytes s.file_ent)) ≡ (ok 0, some (resource file index))
unfolding get_file_stats
table_of file s index (lo, hi, old, new) h =
    read_osd_resource_file-Held index s.part_ext_attr_offset
      (ent_at (slice (store s.disc 0 (table_bytes s.file_ent)) 0 512))
      (store s.disc 0 (table_bytes s.file_ent)) (resource file index) h
      (subst
        (λ e.
          Held (store s.disc 0 (table_bytes s.file_ent)) s.part_ext_attr_offset e
            (resource file index))
        (sym same)
        (Held-table s.disc s.part_ext_attr_offset (s.file_ent index) (resource file index)
          (table_bytes s.file_ent) (old index h) (omega (arith, length-table_bytes s.file_ent))))
  where
    stored : slice (store s.disc 0 (table_bytes s.file_ent)) 0 512 ≡ table_bytes s.file_ent
    stored =
        subst (λ n. slice (store s.disc 0 (table_bytes s.file_ent)) 0 n ≡ table_bytes s.file_ent)
          (length-table_bytes s.file_ent) (slice-store_self s.disc 0 (table_bytes s.file_ent))

    same : ent_at (slice (store s.disc 0 (table_bytes s.file_ent)) 0 512) index ≡ s.file_ent index
    same =
        ap (λ bs. ent_at bs index) stored
        ∙ ent_at-table_bytes s.file_ent index h (omega (arith, hi, old index h))
            (omega (arith, hi, old index h))

write_table-Read :
    (file : ℕ → OsdFile) (written : ℕ) (r : Code × AreaState) (index : ℕ)
    → (is_ok r.0 ≡ true → Stored file num_osd_files_ents r.1)
    → index < num_osd_files_ents
    → is_ok (write_table written r).0 ≡ true
    → read_back index (write_table written r).1.disc ≡ (ok 0, some (resource file index))
unfolding write_table
write_table-Read file written (result, s) index st h = test (written == table_size) refl
  where
    disc_of : List ℕ → Memory
    disc_of = store s.disc 0

    test :
        (b : Bool)
        → (written == table_size) ≡ b
        → is_ok (if b then result else err eio) ≡ true
        → read_back index (disc_of (take written (table_bytes s.file_ent)))
          ≡ (ok 0, some (resource file index))
    test true e good =
        subst (λ bs. read_back index (disc_of bs) ≡ (ok 0, some (resource file index)))
          (sym (
            take_all written (table_bytes s.file_ent)
              (omega (arith, (==_iff written table_size).0 e, length-table_bytes s.file_ent))))
          (table_of file s index (st good) h)
    test false e good = not_ok good

-- Once InstallOSDFiles has reported success, each of the five files is read back as it was given,
-- and a delete icon without content as the view icon. The sizes are those of the buffers, and at
-- most 16 MB.
pub install_osd_files-Read :
    (a : InstallAnswers) (file : ℕ → OsdFile) (s : AreaState) (index : ℕ)
    → ((i : ℕ) → Fits (file i))
    → is_ok (install_osd_files a file s).0 ≡ true
    → index < num_osd_files_ents
    → read_back index (install_osd_files a file s).1.disc ≡ (ok 0, some (resource file index))
unfolding install_osd_files after_open
install_osd_files-Read a file s index fits good h = allocated a.has_table good
  where
    opened :
        (c : Code)
        → is_ok (after_open a file c s).0 ≡ true
        → read_back index (after_open a file c s).1.disc ≡ (ok 0, some (resource file index))
    opened (err e) g = not_ok g
    opened (ok fd) g =
        write_table-Read file a.table_written
          (install_loop a.answer file num_osd_files_ents 0 (ok 0) s) index
          (files-Stored file fits a.answer s) h g

    outcome : Bool → Code × AreaState
    outcome b = if b then after_open a file a.opened s else (err enomem, s)

    allocated :
        (b : Bool)
        → is_ok (outcome b).0 ≡ true
        → read_back index (outcome b).1.disc ≡ (ok 0, some (resource file index))
    allocated true g = opened a.opened g
    allocated false g = not_ok g
