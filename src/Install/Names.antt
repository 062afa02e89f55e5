-- ===== src/Install/Names.antt =====
-- system.c: the names of a game's partition and of its disc. Texts are lists of character codes,
-- a wide text too; what iswalnum says of a character is a parameter.
pub mod Fits
pub mod Found
use Prim.Native.Char.{code}
use hdlgame_installer.Base.{
  ℕ, zero, suc, ◌+◌, ◌-◌, ◌%◌, Bool, true, false, ◌&&◌, ◌||◌, not, List, [], ◌∷◌, ◌++◌, map, Option,
  none, some, take, drop, get_or, Memory, store, if◌then◌else◌, ◌==◌, Code, ok, err,
}
use hdlgame_installer.Hdlfs.Descriptor.{hdl_fs_magic}
use hdlgame_installer.Settings.Text.{codes, c_string}

-- A character of the title as it stands in the name, cut to a char.
unfoldable pub name_char : (is_alnum : ℕ → Bool) → ℕ → ℕ
name_char is_alnum c = (if not (is_alnum c) && not (c == b'_') then b'_' else c) % 256

-- The characters that the loop takes from the title.
abbrev pub title_part : (is_alnum : ℕ → Bool) → List ℕ → List ℕ
title_part is_alnum title = map (name_char is_alnum) (take 14 (c_string title))

-- `hdd0:PP.%s.HDL.`
abbrev pub name_start : List ℕ → List ℕ
name_start disc_id = codes "hdd0:PP." ++ (disc_id ++ codes ".HDL.")

-- GeneratePartName, on the memory at PartName.
unfoldable pub generate_part_name :
    (is_alnum : ℕ → Bool) → (disc_id title : List ℕ) → Memory → Memory
unfolding name_char
generate_part_name is_alnum disc_id title m =
    store (store m 0 (name_start disc_id ++ 0 ∷ [])) 23 (title_part is_alnum title ++ 0 ∷ [])

-- The texts of APAPartSizeList.
abbrev pub size_text : ℕ → List ℕ
size_text i =
    get_or (codes "128M" ∷ codes "256M" ∷ codes "512M" ∷ codes "1G" ∷ codes "2G" ∷ codes "4G" ∷ [])
      i []

-- `sprintf(PartCreateCmd, "%s,,,%s,HDL", PartName, PartSizeTxt)`, with the null behind it.
unfoldable pub part_create_cmd : (part_name part_size_txt : List ℕ) → List ℕ
part_create_cmd part_name part_size_txt =
    part_name ++ (codes ",,," ++ (part_size_txt ++ (codes ",HDL" ++ 0 ∷ [])))

abbrev pub part_create_cmd_size : ℕ
part_create_cmd_size = 32 + 11 + 1

-- `strncpy(d, s, n)`, of a text with no null in it.
abbrev pub strncpy : List ℕ → ℕ → List ℕ
strncpy s zero = []
strncpy [] (suc n) = 0 ∷ strncpy [] n
strncpy (c ∷ s) (suc n) = c ∷ strncpy s n

-- GetDiscIDFromStartupFilename: the bytes of DiscID, for a name of ten characters or more.
unfoldable pub disc_id_from_startup : List ℕ → List ℕ
disc_id_from_startup name =
    strncpy name 4 ++ (b'-' ∷ (strncpy (drop 5 name) 3 ++ (strncpy (drop 9 name) 2 ++ 0 ∷ [])))

-- An entry of the directory of hdd0:, with its partition's type, flags and first sector.
pub record Dirent : Type 0 where
  pub name : List ℕ
  pub stat_mode : ℕ
  pub is_sub : Bool
  pub lba : ℕ

-- `dirent.stat.mode == HDL_FS_MAGIC && !(dirent.stat.attr & APA_FLAG_SUB)`
abbrev pub is_game : Dirent → Bool
is_game d = d.stat_mode == hdl_fs_magic && not d.is_sub

-- What stands behind the first dot.
unfoldable pub after_first_dot : List ℕ → Option (List ℕ)
after_first_dot [] = none
after_first_dot (c ∷ cs) = if c == b'.' then some cs else after_first_dot cs

-- `strncmp(text, prefix, strlen(prefix)) == 0`
unfoldable pub starts_with : (prefix text : List ℕ) → Bool
starts_with [] text = true
starts_with (p ∷ ps) [] = false
starts_with (p ∷ ps) (c ∷ cs) = p == c && starts_with ps cs

unfoldable pub dot_matches : (disc_id : List ℕ) → Option (List ℕ) → Bool
unfolding starts_with
dot_matches disc_id none = false
dot_matches disc_id (some rest) = starts_with disc_id rest

-- The loop of CheckForExistingGameInstallation: the name of the first entry that matches.
unfoldable pub find_existing : (disc_id : List ℕ) → List Dirent → Option (List ℕ)
unfolding dot_matches after_first_dot
find_existing disc_id [] = none
find_existing disc_id (d ∷ ds) =
    if is_game d && dot_matches disc_id (after_first_dot d.name)
    then some d.name
    else find_existing disc_id ds

-- CheckForExistingGameInstallation, with the entries that fileXioDread gives: none for 0, or the
-- bytes of ExistingPartName for 1.
unfoldable pub check_existing :
    (opened : Code) → List Dirent → (disc_id : List ℕ) → (buffer_size : ℕ) → Option (List ℕ)
unfolding find_existing
check_existing (err e) ds disc_id buffer_size = none
check_existing (ok fd) ds disc_id buffer_size = elim (find_existing disc_id ds) [
  | none ↦ none
  | some name ↦ some (strncpy name buffer_size)
]
