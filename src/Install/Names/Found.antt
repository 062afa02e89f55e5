-- ===== src/Install/Names/Found.antt =====
-- system.c: a game that is installed under its generated name is found again by its disc's ID.
use hdlgame_installer.Base.{
  ℕ, Bool, true, false, ◌&&◌, List, [], ◌∷◌, ◌++◌, drop, some, ◌≡◌, refl, ap, ◌∙◌, All, ==_refl, ok,
}
use mathlib.Core.List.{append_assoc}
use hdlgame_installer.Settings.Text.{codes}
use hdlgame_installer.Install.Names.{
  Dirent, is_game, after_first_dot, starts_with, dot_matches, find_existing, check_existing,
  strncpy, title_part,
}
use hdlgame_installer.Install.Names.Fits.{part_name}

-- The entry is a game whose name has the ID behind its first dot.
abbrev pub is_match : (disc_id : List ℕ) → Dirent → Bool
is_match disc_id d = is_game d && dot_matches disc_id (after_first_dot d.name)

starts_with-append : (ps rest : List ℕ) → starts_with ps (ps ++ rest) ≡ true
unfolding starts_with
starts_with-append [] rest = refl
starts_with-append (p ∷ ps) rest = rw (==_refl p) (starts_with-append ps rest)

generated_matches :
    (is_alnum : ℕ → Bool) (disc_id title : List ℕ)
    → dot_matches disc_id (after_first_dot (drop 5 (part_name is_alnum disc_id title))) ≡ true
unfolding dot_matches after_first_dot
generated_matches is_alnum disc_id title =
    ap (starts_with disc_id) (append_assoc disc_id (codes ".HDL.") (title_part is_alnum title))
    ∙ starts_with-append disc_id (codes ".HDL." ++ title_part is_alnum title)

find_existing-append :
    (disc_id : List ℕ) (before after : List Dirent) (d : Dirent)
    → All (λ e. is_match disc_id e ≡ false) before
    → is_match disc_id d ≡ true
    → find_existing disc_id (before ++ d ∷ after) ≡ some d.name
unfolding find_existing
find_existing-append disc_id [] after d h e = rw e refl
find_existing-append disc_id (b ∷ before) after d h e =
    rw h.0 (find_existing-append disc_id before after d h.1 e)

-- When a game's main partition has the name that GeneratePartName gave it (without `hdd0:`), and no
-- entry before it is a game with the same ID, CheckForExistingGameInstallation finds it, and gives
-- its name, cut to the buffer.
pub check_existing-part_name :
    (is_alnum : ℕ → Bool) (disc_id title : List ℕ) (fd size : ℕ) (before after : List Dirent)
    (d : Dirent)
    → All (λ e. is_match disc_id e ≡ false) before
    → is_game d ≡ true
    → d.name ≡ drop 5 (part_name is_alnum disc_id title)
    → check_existing (ok fd) (before ++ d ∷ after) disc_id size ≡ some (strncpy d.name size)
unfolding check_existing
check_existing-part_name is_alnum disc_id title fd size before after d h game e =
    rw (check_existing, find_existing-append disc_id before after d h matches) refl
  where
    matches : is_match disc_id d ≡ true
    matches = rw (game, e) (generated_matches is_alnum disc_id title)
