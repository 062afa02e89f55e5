-- ===== src/Disc.antt =====
-- HDLGManClient/iso9660.c: the reading of sectors from a disc image on the PC, with the static
-- current_lsn that saves a seek; seekFile and readFile of HDLGManClient/system.c.
pub mod Reads
use hdlgame_installer.Base.{
  ℕ, zero, suc, ◌+◌, ◌-◌, ◌*◌, ◌%◌, ◌^◌, ◌≤◌, Bool, true, false, List, [], ◌∷◌, ◌++◌, Memory, slice,
  take, drop, ◌≡◌, if◌then◌else◌, ◌==◌,
}

-- An open file of the PC with its content. SetFilePointerEx with FILE_BEGIN: whether it succeeds, and
-- the file then, which is at the position if it does. ReadFile: whether it succeeds, and the buffer
-- then. A read inside the file that succeeds gives what stands at the
-- file's position, and moves that.
pub record ImageFile : Type 1 where
  pub Handle : Type 0
  pub bytes : Memory
  pub size : ℕ
  pub position : Handle → ℕ
  pub set_file_pointer : Handle → ℕ → Bool × Handle
  pub api_read : Handle → ℕ → Bool × List ℕ × Handle
  pub position-set_file_pointer :
      (h : Handle) (at : ℕ)
      → (set_file_pointer h at).0 ≡ true
      → position (set_file_pointer h at).1 ≡ at
  pub api_read-bytes :
      (h : Handle) (n : ℕ)
      → position h + n ≤ size
      → (api_read h n).0 ≡ true
      → (api_read h n).1 ≡ slice bytes (position h) n
  pub api_read-position :
      (h : Handle) (n : ℕ)
      → position h + n ≤ size
      → (api_read h n).0 ≡ true
      → position (api_read h n).2 ≡ position h + n

-- The sector types 1, 2 and 0xFF.
pub data SectorType : Type 0 where
  mode1 mode2_xa headerless : SectorType

-- The bytes of a sector in the image.
abbrev pub raw_size : SectorType → ℕ
raw_size mode1 = 2352
raw_size mode2_xa = 2352
raw_size headerless = 2048

-- The bytes in front of a sector's data.
abbrev pub skipped : SectorType → ℕ
skipped mode1 = 16
skipped mode2_xa = 24
skipped headerless = 0

module _ (k : ImageFile) where
  open k use {Handle, set_file_pointer, api_read}

  -- The handle, and current_lsn.
  pub record Reader : Type 0 where
    pub handle : Handle
    pub current_lsn : ℕ

  -- How many sectors, or bytes, what they are, and the state then.
  abbrev pub Answer : Type 0
  Answer = ℕ × List ℕ × Reader

  -- readFile: all the bytes count as read when ReadFile succeeds.
  unfoldable pub read_file : Handle → (nbytes : ℕ) → ℕ × List ℕ × Handle
  read_file h nbytes =
      let (is_read, buffer, h') = api_read h nbytes in (if is_read then nbytes else 0, buffer, h')

  -- The loop of RawReadSectors over raw sectors: the sectors that are left.
  unfoldable pub raw_loop : SectorType → (sectors : ℕ) → Handle → ℕ × List ℕ × Handle
  unfolding read_file
  raw_loop t zero h = (0, [], h)
  raw_loop t (suc n) h =
      let (count, buffer, h') = read_file h (raw_size t) in
      let (left, more, h'') = raw_loop t n h' in
      if count == raw_size t then (left, buffer ++ more, h'') else (suc n, buffer, h')

  unfoldable pub read_flat : (sectors : ℕ) → Handle → ℕ × List ℕ × Handle
  unfolding read_file
  read_flat sectors h =
      let (count, buffer, h') = read_file h (2048 * sectors % 2 ^ 32) in
      (if count == 2048 * sectors % 2 ^ 32 then 0 else sectors, buffer, h')

  unfoldable pub read_raw : SectorType → (sectors : ℕ) → Handle → ℕ × List ℕ × Handle
  unfolding raw_loop read_flat
  read_raw mode1 sectors h = raw_loop mode1 sectors h
  read_raw mode2_xa sectors h = raw_loop mode2_xa sectors h
  read_raw headerless sectors h = read_flat sectors h

  -- Seek only when required. The result of seekFile is ignored.
  unfoldable pub seek_to : SectorType → (lsn : ℕ) → Reader → Handle
  seek_to t lsn s =
      if s.current_lsn == lsn then s.handle else (set_file_pointer s.handle (lsn * raw_size t)).1

  -- RawReadSectors
  unfoldable pub raw_read_sectors : SectorType → (lsn sectors : ℕ) → Reader → Answer
  unfolding read_raw seek_to
  raw_read_sectors t lsn sectors s =
      let (left, buffer, h) = read_raw t sectors (seek_to t lsn s) in
      (
        sectors - left,
        buffer,
        record { handle = h; current_lsn = (lsn + (sectors - left)) % 2 ^ 32 },
      )

  -- The loop of ReadSectors over raw sectors, of each of which it copies the data: the sectors read.
  unfoldable pub read_loop : SectorType → (sectors lsn : ℕ) → Reader → Answer
  unfolding raw_read_sectors
  read_loop t zero lsn s = (0, [], s)
  read_loop t (suc n) lsn s =
      let (count, buffer, s') = raw_read_sectors t lsn 1 s in
      let (done, more, s'') = read_loop t n ((lsn + 1) % 2 ^ 32) s' in
      if count == 1
      then (suc done, take 2048 (drop (skipped t) buffer) ++ more, s'')
      else (0, [], s')

  unfoldable pub read_all : (lsn sectors : ℕ) → Reader → Answer
  unfolding raw_read_sectors
  read_all lsn sectors s =
      let (count, buffer, s') = raw_read_sectors headerless lsn sectors s in
      if count == sectors then (sectors, buffer, s') else (0, buffer, s')

  -- ReadSectors
  unfoldable pub read_sectors : SectorType → (lsn sectors : ℕ) → Reader → Answer
  unfolding read_loop read_all
  read_sectors mode1 lsn sectors s = read_loop mode1 sectors lsn s
  read_sectors mode2_xa lsn sectors s = read_loop mode2_xa sectors lsn s
  read_sectors headerless lsn sectors s = read_all lsn sectors s
