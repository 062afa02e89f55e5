-- ===== src/Osd/Area/Success.antt =====
-- OSD.c: when InstallOSDFiles reports success.
use hdlgame_installer.Base.{
  ℕ, zero, suc, ◌+◌, ◌≤◌, true, length, ◌≡◌, refl, ap, ◌∙◌, ◌⊎◌, inl, inr, arith, ==_iff, Code, ok,
  err, is_ok,
}
use hdlgame_installer.Osd.Files.{OsdFile, num_osd_files_ents}
use hdlgame_installer.Osd.Area.{
  AreaState, WriteAnswer, table_size, round_up, padded, adjust_offset, init_area, install_empty,
  taken_bytes, note_written, write_file, install_sized, install_osd_file, install_loop, write_table,
  InstallAnswers, after_open, install_osd_files,
}
use hdlgame_installer.Osd.Area.Header.{length-padded}
use hdlgame_installer.Osd.Area.Held.{Sized, take_all, length-padded-Sized}

-- Nothing fails for this file, and it has content or is optional.
abbrev pub Goes : WriteAnswer → OsdFile → Type 0
Goes a f =
    Sized f
    × (a.has_memory ≡ true)
    × (round_up f.size ≤ a.written)
    × ((f.is_optional ≡ true) ⊎ (1 ≤ f.size))

taken_bytes-Goes :
    (a : WriteAnswer) (f : OsdFile) → Goes a f → length (taken_bytes a f) ≡ round_up f.size
unfolding taken_bytes
taken_bytes-Goes a f (sized, memory, written, some_of) = rw memory (
    ap length (take_all a.written (padded f) (omega (arith, length-padded f, written)))
    ∙ length-padded-Sized f sized)

install_empty-ok :
    (index : ℕ) (f : OsdFile) (s : AreaState)
    → f.is_optional ≡ true
    → is_ok (install_empty index f s).0 ≡ true
unfolding install_empty
install_empty-ok index f s h = rw h (ground arith)

write_file-ok :
    (a : WriteAnswer) (index at : ℕ) (f : OsdFile) (s : AreaState)
    → Goes a f
    → is_ok (write_file a index at f s).0 ≡ true
unfolding write_file note_written
write_file-ok a index at f s goes =
    rw ((==_iff (length (taken_bytes a f)) (round_up f.size)).1 (taken_bytes-Goes a f goes)) refl

install_sized-ok :
    (a : WriteAnswer) (index size : ℕ) (f : OsdFile) (s : AreaState)
    → size ≡ f.size
    → Goes a f
    → is_ok (install_sized a index f size s).0 ≡ true
unfolding install_sized
install_sized-ok a index zero f s e (sized, memory, written, inl optional) =
    install_empty-ok index f s optional
install_sized-ok a index zero f s e (sized, memory, written, inr some_of) = absurd (omega arith)
install_sized-ok a index (suc n) f s e goes =
    write_file-ok a index (adjust_offset s.part_ext_attr_offset (round_up f.size)) f s goes

install_loop-ok :
    (answer : ℕ → WriteAnswer) (file : ℕ → OsdFile) (rounds i : ℕ) (r : Code) (s : AreaState)
    → ((j : ℕ) → Goes (answer j) (file j))
    → is_ok r ≡ true
    → is_ok (install_loop answer file rounds i r s).0 ≡ true
unfolding install_loop install_osd_file
install_loop-ok answer file zero i r s goes h = h
install_loop-ok answer file (suc rounds) i (err e) s goes h = absurd (ground (arith, h))
install_loop-ok answer file (suc rounds) i (ok n) s goes h =
    let done = install_sized (answer i) i (file i) (file i).size (init_area i s) in
    install_loop-ok answer file rounds (i + 1) done.0 done.1 goes
      (install_sized-ok (answer i) i (file i).size (file i) (init_area i s) refl (goes i))

-- InstallOSDFiles reports success when its table is allocated and written whole, the partition opens,
-- there is memory for the copy of each file, no write falls short, every file has the size of its
-- buffer, and every file has content or is optional.
pub install_osd_files-ok :
    (a : InstallAnswers) (file : ℕ → OsdFile) (s : AreaState) (fd : ℕ)
    → a.has_table ≡ true
    → a.opened ≡ ok fd
    → ((j : ℕ) → Goes (a.answer j) (file j))
    → a.table_written ≡ table_size
    → is_ok (install_osd_files a file s).0 ≡ true
unfolding install_osd_files after_open write_table
install_osd_files-ok a file s fd table open_of goes whole =
    rw (table, open_of, (==_iff a.table_written table_size).1 whole)
      (install_loop-ok a.answer file num_osd_files_ents 0 (ok 0) s goes refl)
