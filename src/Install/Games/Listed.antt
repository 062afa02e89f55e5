-- ===== src/Install/Games/Listed.antt =====
-- HDLGameList.c and hdlfs/main.c: the game list shows the games as they were formatted.
use hdlgame_installer.Base.{
  ℕ, ◌+◌, ◌/◌, ◌%◌, ◌≤◌, ◌<◌, Bool, true, false, List, [], ◌∷◌, length, take, some, ◌≡◌, refl, ap,
  ◌∙◌, ◌≢◌, subst, Option, none, arith, if◌then◌else◌, ok,
}
use mathlib.Core.List.{Perm}
use mathlib.Core.List.Perm
use hdlgame_installer.Hdlfs.Format.{PartSpec, Volume, u32, hdlfs_format}
use hdlgame_installer.Hdlfs.Format.Tiles.{Tiles, IsVolume, hdlfs_format-Tiles}
use hdlgame_installer.Hdlfs.Header.{GameInfo}
use hdlgame_installer.Server.Session.{GameEntry}
use hdlgame_installer.Install.Names.{Dirent, is_game}
use hdlgame_installer.Install.Games.{
  add_sizes, entry_of, header_sector, retrieve_sector, add_entry, collect, CentralList,
  unlock_central, load_locked, load_game_list,
}

Tiles-le : (size : ℕ → ℕ) (i at end : ℕ) (ps : List PartSpec) → Tiles size i at end ps → at ≤ end
Tiles-le size i at end [] h = omega arith
Tiles-le size i at end (p ∷ ps) h =
    omega (arith, Tiles-le size (i + 1) (at + p.part_size / 2048) end ps h.3)

add_sizes-Tiles :
    (size : ℕ → ℕ) (i at end : ℕ) (ps : List PartSpec)
    → Tiles size i at end ps
    → end < u32
    → add_sizes ps at ≡ end
unfolding add_sizes
add_sizes-Tiles size i at end [] h small = h
add_sizes-Tiles size i at end (p ∷ ps) h small =
    ap (add_sizes ps) whole
    ∙ add_sizes-Tiles size (i + 1) (at + p.part_size / 2048) end ps h.3 small
  where
    whole : (at + p.part_size / 2048) % u32 ≡ at + p.part_size / 2048
    whole = omega (arith, Tiles-le size (i + 1) (at + p.part_size / 2048) end ps h.3)

take-length {ℓ} : {A : Type ℓ} (xs : List A) → take (length xs) xs ≡ xs
take-length [] = refl
take-length (x ∷ xs) = ap (x ∷◌) (take-length xs)

-- The size that the game list shows for a game whose header hdlfs_format has written is the number
-- of sectors that it was formatted for.
pub entry_of-hdlfs_format :
    (v : Volume) (number : ℕ) (ps : List PartSpec) (n : ℕ) (info : GameInfo) (partition : List ℕ)
    → IsVolume v
    → number < u32
    → hdlfs_format v number ≡ (ok n, some ps)
    → info.part_specs ≡ ps
    → info.num_partitions ≡ length ps
    → (entry_of info partition).sectors ≡ number
unfolding entry_of
entry_of-hdlfs_format v number ps n info partition volume small e specs count =
    rw (specs, count)
      (ap (λ xs. add_sizes xs 0) (take-length ps)
        ∙ add_sizes-Tiles v.size 0 0 number ps (hdlfs_format-Tiles v number volume small ps n e)
            small)

-- The games in the directory of the disc.
pub games_in : List Dirent → List Dirent
games_in [] = []
games_in (d ∷ ds) = if is_game d then d ∷ games_in ds else games_in ds

-- The entries of games, of each whose header can be read, with the size and settings from there.
pub entries_of : (read : ℕ → Option GameInfo) → List Dirent → List GameEntry
entries_of read [] = []
entries_of read (d ∷ ds) = elim (read (header_sector d.lba)) [
  | none ↦ entries_of read ds
  | some info ↦ entry_of info d.name ∷ entries_of read ds
]

collect-entries :
    (read : ℕ → Option GameInfo) (ds : List Dirent)
    → collect read ds ≡ entries_of read (games_in ds)
unfolding collect retrieve_sector games_in entries_of
collect-entries read [] = refl
collect-entries read (d ∷ ds) = at (is_game d) (collect-entries read ds)
  where
    found :
        (o : Option GameInfo)
        → collect read ds ≡ entries_of read (games_in ds)
        → add_entry
            (elim o [ none ↦ none | some info ↦ some (entry_of info d.name) ])
            (collect read ds)
          ≡ elim o [
            | none ↦ entries_of read (games_in ds)
            | some info ↦ entry_of info d.name ∷ entries_of read (games_in ds)
          ]
    found none ih = ih
    found (some info) ih = ap (entry_of info d.name ∷◌) ih

    at :
        (b : Bool)
        → collect read ds ≡ entries_of read (games_in ds)
        → (if b
            then add_entry (retrieve_sector read d.lba d.name) (collect read ds)
            else collect read ds)
          ≡ entries_of read (if b then d ∷ games_in ds else games_in ds)
    at true ih = found (read (header_sector d.lba)) ih
    at false ih = ih

-- When the lock is free and the directory can be opened, LoadHDLGameList returns, and the lock is free
-- again. The central list then has an entry for each game in the directory whose header can be read,
-- in some order and with their number, and its generation has changed, if qsort permutes its array
-- and the generation is a 32-bit number.
pub load_game_list-Perm :
    (sort : List GameEntry → List GameEntry) (sort_titles : Bool) (fd : ℕ)
    (read : ℕ → Option GameInfo) (ds : List Dirent) (c : CentralList)
    → ((xs : List GameEntry) → Perm (sort xs) xs)
    → c.lock ≡ 1
    → c.generation < u32
    → (d : CentralList) × (load_game_list sort sort_titles (ok fd) read ds c ≡ some d)
      × Perm d.game_list (entries_of read (games_in ds))
      × (d.num_games ≡ length (entries_of read (games_in ds)))
      × (d.generation ≢ c.generation)
      × (d.lock ≡ 1)
unfolding load_game_list unlock_central load_locked
load_game_list-Perm sort sort_titles fd read ds c is_sort free small = (
  unlock_central (load_locked sort sort_titles (collect read ds) (record c { lock = 0 })),
  rw free refl,
  subst (Perm (if sort_titles then sort (collect read ds) else collect read ds))
      (collect-entries read ds) (games sort_titles),
  ap length (collect-entries read ds),
  λ e. absurd (omega (arith, small, e)),
  refl,
)
  where
    games :
        (b : Bool) → Perm (if b then sort (collect read ds) else collect read ds) (collect read ds)
    games true = is_sort (collect read ds)
    games false = Perm.refl (collect read ds)
