-- ===== src/Osd/Area/Header.antt =====
-- OSD.c: InstallOSDFiles and the game's header.
use hdlgame_installer.Base.{
  ℕ, zero, suc, ◌+◌, ◌-◌, ◌≤◌, Bool, true, false, ◌&&◌, ◌||◌, List, [], ◌∷◌, length, length-append,
  take, replicate, Memory, slice, store, slice-store_ne, ◌≡◌, refl, ap, ◌∙◌, ◌⊎◌, inl, inr, arith,
  if◌then◌else◌, ◌==◌, Code, ok, err, enomem,
}
use hdlgame_installer.Osd.Files.{OsdFile, num_osd_files_ents}
use hdlgame_installer.Osd.Area.{
  FileEnt, AreaState, WriteAnswer, game_data_offset, game_data_size, round_up, padded,
  adjust_offset, init_area, install_empty, taken_bytes, note_written, write_file, install_sized,
  install_osd_file, install_loop, ent_bytes, table_bytes, write_table, InstallAnswers, after_open,
  install_osd_files, buffer_bytes,
}

pub length-take :
    {A : Type 0} (n : ℕ) (xs : List A) → (length (take n xs) ≤ n) × (length (take n xs) ≤ length xs)
length-take zero xs = omega arith
length-take (suc n) [] = omega arith
length-take (suc n) (x ∷ xs) = omega (arith, length-take n xs)

pub length-replicate : (n a : ℕ) → length (replicate n a) ≡ n
length-replicate zero a = refl
length-replicate (suc n) a = ap suc (length-replicate n a)

pub length-padded : (f : OsdFile) → length (padded f) ≤ round_up f.size
unfolding padded
length-padded f = omega (
  arith,
  length-append (take f.size (buffer_bytes f.buffer)) (replicate (round_up f.size - f.size) 0),
  length-take f.size (buffer_bytes f.buffer),
  length-replicate (round_up f.size - f.size) 0,
)

pub length-taken_bytes :
    (a : WriteAnswer) (f : OsdFile) → length (taken_bytes a f) ≤ round_up f.size
unfolding taken_bytes
length-taken_bytes a f = test (a.has_memory || (f.size == round_up f.size && a.is_aligned))
  where
    test : (b : Bool) → length (if b then take a.written (padded f) else []) ≤ round_up f.size
    test true = omega (arith, length-take a.written (padded f), length-padded f)
    test false = omega arith

-- Where a file goes: at the offset or behind it, and not over the header.
pub adjust_offset_bounds :
    (offset len : ℕ)
    → (offset ≤ adjust_offset offset len)
      × (adjust_offset offset len ≤ offset + 1049600)
      × ((adjust_offset offset len + len ≤ game_data_offset)
          ⊎ (game_data_offset + game_data_size ≤ adjust_offset offset len))
unfolding adjust_offset
adjust_offset_bounds offset len = ground arith

pub length-table_bytes : (t : ℕ → FileEnt) → length (table_bytes t) ≡ 512
unfolding table_bytes ent_bytes
length-table_bytes t = refl

-- The bytes of the header.
abbrev pub game_header : Memory → List ℕ
game_header disc = slice disc game_data_offset game_data_size

store-game_header :
    (disc : Memory) (at n : ℕ) (bs : List ℕ)
    → (at + n ≤ game_data_offset) ⊎ (game_data_offset + game_data_size ≤ at)
    → length bs ≤ n
    → game_header (store disc at bs) ≡ game_header disc
store-game_header disc at n bs (inl h) k =
    slice-store_ne disc at game_data_offset game_data_size bs (inr (omega arith))
store-game_header disc at n bs (inr h) k =
    slice-store_ne disc at game_data_offset game_data_size bs (inl h)

note_written-disc :
    (b : Bool) (index at : ℕ) (f : OsdFile) (s : AreaState)
    → (note_written b index at f s).1.disc ≡ s.disc
unfolding note_written
note_written-disc true index at f s = refl
note_written-disc false index at f s = refl

write_file-game_header :
    (a : WriteAnswer) (index at : ℕ) (f : OsdFile) (s : AreaState)
    → (at + round_up f.size ≤ game_data_offset) ⊎ (game_data_offset + game_data_size ≤ at)
    → game_header (write_file a index at f s).1.disc ≡ game_header s.disc
unfolding write_file
write_file-game_header a index at f s h =
    ap game_header (
      note_written-disc (length (taken_bytes a f) == round_up f.size) index at f (record s {
        part_ext_attr_offset = at + round_up f.size;
        disc = store s.disc at (taken_bytes a f);
      }))
    ∙ store-game_header s.disc at (round_up f.size) (taken_bytes a f) h (length-taken_bytes a f)

install_empty-disc :
    (index : ℕ) (f : OsdFile) (s : AreaState) → (install_empty index f s).1.disc ≡ s.disc
unfolding install_empty
install_empty-disc index f s = ground arith

init_area-disc : (index : ℕ) (s : AreaState) → (init_area index s).disc ≡ s.disc
unfolding init_area
init_area-disc zero s = refl
init_area-disc (suc index) s = refl

install_sized-game_header :
    (a : WriteAnswer) (index size : ℕ) (f : OsdFile) (s : AreaState)
    → game_header (install_sized a index f size s).1.disc ≡ game_header s.disc
unfolding install_sized
install_sized-game_header a index zero f s = ap game_header (install_empty-disc index f s)
install_sized-game_header a index (suc n) f s =
    write_file-game_header a index (adjust_offset s.part_ext_attr_offset (round_up f.size)) f s
      (adjust_offset_bounds s.part_ext_attr_offset (round_up f.size)).2

install_loop-game_header :
    (answer : ℕ → WriteAnswer) (file : ℕ → OsdFile) (rounds i : ℕ) (r : Code) (s : AreaState)
    → game_header (install_loop answer file rounds i r s).1.disc ≡ game_header s.disc
unfolding install_loop install_osd_file
install_loop-game_header answer file zero i r s = refl
install_loop-game_header answer file (suc rounds) i (err e) s = refl
install_loop-game_header answer file (suc rounds) i (ok n) s =
    let done = install_sized (answer i) i (file i) (file i).size (init_area i s) in
    install_loop-game_header answer file rounds (i + 1) done.0 done.1
    ∙ install_sized-game_header (answer i) i (file i).size (file i) (init_area i s)
    ∙ ap game_header (init_area-disc i s)

write_table-game_header :
    (written : ℕ) (r : Code × AreaState)
    → game_header (write_table written r).1.disc ≡ game_header r.1.disc
unfolding write_table
write_table-game_header written (result, s) =
    store-game_header s.disc 0 512 (take written (table_bytes s.file_ent)) (inl (omega arith))
      (omega (arith, length-take written (table_bytes s.file_ent), length-table_bytes s.file_ent))

-- InstallOSDFiles leaves the game's header as it is, whatever the files are and whatever fails.
pub install_osd_files-game_header :
    (a : InstallAnswers) (file : ℕ → OsdFile) (s : AreaState)
    → game_header (install_osd_files a file s).1.disc ≡ game_header s.disc
unfolding install_osd_files
install_osd_files-game_header a file s = allocated a.has_table
  where
    opened : (c : Code) → game_header (after_open a file c s).1.disc ≡ game_header s.disc
    opened (err e) = refl
    opened (ok fd) =
        write_table-game_header a.table_written
          (install_loop a.answer file num_osd_files_ents 0 (ok 0) s)
        ∙ install_loop-game_header a.answer file num_osd_files_ents 0 (ok 0) s

    allocated :
        (b : Bool)
        → ◌≡◌ {A = List ℕ}
            (game_header
              (if◌then◌else◌ {A = Code × AreaState} b
                (after_open a file a.opened s)
                (err enomem, s)).1.disc)
            (game_header s.disc)
    allocated true = opened a.opened
    allocated false = refl
