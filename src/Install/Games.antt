-- ===== src/Install/Games.antt =====
-- HDLGameList.c, and the reading of a game's header in system.c. What a read of the disc gives, and
-- the C library's qsort, are parameters.
pub mod Listed
use hdlgame_installer.Base.{
  ℕ, zero, suc, ◌+◌, ◌-◌, ◌*◌, ◌/◌, ◌%◌, Bool, true, false, List, [], ◌∷◌, ◌++◌, length, take,
  Option, none, some, if◌then◌else◌, Code, ok, err,
}
use hdlgame_installer.Settings.Text.{c_string}
use hdlgame_installer.Hdlfs.Format.{PartSpec, u32}
use hdlgame_installer.Hdlfs.Header.{GameInfo}
use hdlgame_installer.Server.Session.{GameEntry}
use hdlgame_installer.Install.Names.{strncpy, disc_id_from_startup, Dirent, is_game}

-- `strncpy(d, s, n); d[n] = '\0';`
abbrev pub text_field : List ℕ → ℕ → List ℕ
text_field s n = strncpy (c_string s) n ++ 0 ∷ []

-- The loop that adds up GameSize.
unfoldable pub add_sizes : List PartSpec → (game_size : ℕ) → ℕ
add_sizes [] game_size = game_size
add_sizes (p ∷ ps) game_size = add_sizes ps ((game_size + p.part_size / 2048) % u32)

-- RetrieveGameInstallationDataBuffer
unfoldable pub entry_of : GameInfo → (partition : List ℕ) → GameEntry
unfolding add_sizes disc_id_from_startup
entry_of info partition = record {
  part_name = text_field partition 32;
  disc_id = disc_id_from_startup (c_string (take 60 info.startup));
  compatibility_mode_flags = info.ops2l_compat_flags;
  tr_type = info.dma_type;
  tr_mode = info.dma_mode;
  disc_type = info.disc_type;
  sectors = add_sizes (take info.num_partitions info.part_specs) 0;
  game_title = text_field info.gamename 160;
}

-- The sector of the header, behind the 4 KB of the partition's own.
abbrev pub header_sector : (lba : ℕ) → ℕ
header_sector lba = lba + (0x10_0000 + 4096) / 512

-- RetrieveGameInstallationSector, where `read` is the header that there is memory for and that
-- HDIOC_READSECTOR reads, or none.
unfoldable pub retrieve_sector :
    (read : ℕ → Option GameInfo) → (lba : ℕ) → (partition : List ℕ) → Option GameEntry
unfolding entry_of
retrieve_sector read lba partition = elim (read (header_sector lba)) [
  | none ↦ none
  | some info ↦ some (entry_of info partition)
]

abbrev pub add_entry : Option GameEntry → List GameEntry → List GameEntry
add_entry none es = es
add_entry (some e) es = e ∷ es

-- The loop over the directory, whose linked list becomes the array.
unfoldable pub collect : (read : ℕ → Option GameInfo) → List Dirent → List GameEntry
unfolding retrieve_sector
collect read [] = []
collect read (d ∷ ds) =
    let rest = collect read ds in
    if is_game d then add_entry (retrieve_sector read d.lba d.name) rest else rest

-- LoadHDLGameListIntoBuffer
unfoldable pub load_into_buffer :
    (opened : Code) → (read : ℕ → Option GameInfo) → List Dirent → List GameEntry
unfolding collect
load_into_buffer (err e) read ds = []
load_into_buffer (ok fd) read ds = collect read ds

-- The central list with its number of games, its generation and the count of its lock.
pub record CentralList : Type 0 where
  pub game_list : List GameEntry
  pub num_games : ℕ
  pub generation : ℕ
  pub lock : ℕ

-- InitCentralHDLGameList, on what the variables are at the start.
unfoldable pub init_central : CentralList
init_central = record { game_list = []; num_games = 0; generation = 0; lock = 1 }

-- WaitSema; none where it waits.
unfoldable pub lock_central : CentralList → Option CentralList
lock_central c = elim c.lock [ zero ↦ none | suc n ↦ some (record c { lock = n }) ]

-- SignalSema
unfoldable pub unlock_central : CentralList → CentralList
unlock_central c = record c { lock = c.lock + 1 }

-- What LoadHDLGameList does under the lock, with what LoadHDLGameListIntoBuffer has loaded: the
-- array, and the number of its entries.
unfoldable pub load_locked :
    (sort : List GameEntry → List GameEntry)
    → (sort_titles : Bool) → (loaded : List GameEntry) → CentralList
    → CentralList
load_locked sort sort_titles loaded c = record c {
  game_list = if sort_titles then sort loaded else loaded;
  num_games = length loaded;
  generation = (c.generation + 1) % u32;
}

-- LoadHDLGameList
unfoldable pub load_game_list :
    (sort : List GameEntry → List GameEntry)
    → (sort_titles : Bool) → (opened : Code) → (read : ℕ → Option GameInfo) → List Dirent
    → CentralList
    → Option CentralList
unfolding lock_central unlock_central load_locked load_into_buffer
load_game_list sort sort_titles opened read ds c = elim (lock_central c) [
  | none ↦ none
  | some locked ↦
      some (unlock_central (load_locked sort sort_titles (load_into_buffer opened read ds) locked))
]

-- FreeHDLGameList
unfoldable pub free_game_list : CentralList → CentralList
free_game_list c = record c { game_list = []; num_games = 0 }
