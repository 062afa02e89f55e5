-- ===== src/Tests/DiscImages.antt =====
-- A disc image whose reads do not fail, read with and without a seek.
use hdlgame_installer.Base.{ℕ, ◌+◌, ◌%◌, true, Memory, slice, ◌≡◌, refl, inr, arith}
use hdlgame_installer.Disc.{ImageFile, mode2_xa, headerless, Reader, read_sectors}
use hdlgame_installer.Disc.Reads.{IsRead, read_sectors-IsRead}

abbrev content : Memory
content i = i % 251

abbrev image : ImageFile
image = record {
  Handle = ℕ;
  bytes = content;
  size = 20_000;
  position = λ h. h;
  set_file_pointer = λ h at. (true, at);
  api_read = λ h n. (true, slice content h n, h + n);
  position-set_file_pointer = λ h at good. refl;
  api_read-bytes = λ h n inside good. refl;
  api_read-position = λ h n inside good. refl;
}

abbrev start : Reader image
start = record { handle = 0; current_lsn = 0 }

read_sectors-IsRead_example : IsRead image mode2_xa 1 2 (read_sectors image mode2_xa 1 2 start)
read_sectors-IsRead_example =
    read_sectors-IsRead image mode2_xa 1 2 start (omega arith) (omega arith) refl (inr refl)
      (omega arith) (omega arith)

-- The number of sectors, and where the file is then.
reads_two : (read_sectors image headerless 3 2 start).0 ≡ 2
unfolding read_sectors
reads_two = refl

ends_behind : (read_sectors image headerless 3 2 start).2.handle ≡ 10_240
unfolding read_sectors
ends_behind = refl
