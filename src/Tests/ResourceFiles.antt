-- ===== src/Tests/ResourceFiles.antt =====
-- Resource files on a small partition: a system.cnf, an icon.sys, a view icon, no delete icon and
-- no program.
use hdlgame_installer.Base.{
  ℕ, zero, suc, inl, inr, true, false, [], ◌∷◌, some, ok, err, eio, ◌≡◌, refl, arith, is_ok,
}
use hdlgame_installer.Osd.Files.{OsdFile, built_in_file, empty_optional}
use hdlgame_installer.Osd.Area.{AreaState, WriteAnswer, InstallAnswers, round_up, install_osd_files}
use hdlgame_installer.Osd.Area.Header.{game_header, install_osd_files-game_header}
use hdlgame_installer.Osd.Area.Stored.{Fits}
use hdlgame_installer.Osd.Area.Read.{read_back, install_osd_files-Read}
use hdlgame_installer.Osd.Area.Success.{Goes, install_osd_files-ok}

abbrev files : ℕ → OsdFile
files zero = built_in_file (66 ∷ 79 ∷ 79 ∷ 84 ∷ []) false
files (suc zero) = built_in_file (80 ∷ 83 ∷ 50 ∷ []) false
files (suc (suc zero)) = built_in_file (1 ∷ 2 ∷ 3 ∷ 4 ∷ 5 ∷ []) false
files (suc (suc (suc i))) = empty_optional

abbrev takes_all : WriteAnswer
takes_all = record { has_memory = true; is_aligned = true; written = 512 }

abbrev answers : InstallAnswers
answers = record { has_table = true; opened = ok 3; answer = λ i. takes_all; table_written = 512 }

abbrev blank : AreaState
blank = record {
  part_ext_attr_offset = 0;
  file_ent = λ i. record { offset = 0; size = 0 };
  disc = λ i. i;
}

files-Fits : (i : ℕ) → Fits (files i)
files-Fits zero = (refl, omega arith)
files-Fits (suc zero) = (refl, omega arith)
files-Fits (suc (suc zero)) = (refl, omega arith)
files-Fits (suc (suc (suc i))) = (refl, omega arith)

files-Goes : (i : ℕ) → Goes takes_all (files i)
unfolding round_up
files-Goes zero = (refl, refl, omega arith, inr (omega arith))
files-Goes (suc zero) = (refl, refl, omega arith, inr (omega arith))
files-Goes (suc (suc zero)) = (refl, refl, omega arith, inr (omega arith))
files-Goes (suc (suc (suc i))) = (refl, refl, omega arith, inl refl)

install_osd_files-game_header_example :
    game_header (install_osd_files answers files blank).1.disc ≡ game_header blank.disc
install_osd_files-game_header_example = install_osd_files-game_header answers files blank

install_osd_files-ok_example : is_ok (install_osd_files answers files blank).0 ≡ true
install_osd_files-ok_example = install_osd_files-ok answers files blank 3 refl refl files-Goes refl

-- The delete icon is the view icon.
install_osd_files-Read_example :
    read_back 3 (install_osd_files answers files blank).1.disc
    ≡ (ok 0, some (1 ∷ 2 ∷ 3 ∷ 4 ∷ 5 ∷ []))
install_osd_files-Read_example =
    install_osd_files-Read answers files blank 3 files-Fits install_osd_files-ok_example
      (omega arith)

-- A write that takes fewer bytes ends in -EIO.
short_write :
    (install_osd_files
      (record answers { answer = λ i. record takes_all { written = 100 } })
      files
      blank).0
    ≡ err eio
unfolding install_osd_files
short_write = refl
