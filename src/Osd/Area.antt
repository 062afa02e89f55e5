-- ===== src/Osd/Area.antt =====
-- OSD.c: the extended attribute area of a partition: InstallOSDFiles writes the resource files and
-- their table there, around the game's header; GetOSDResourceFileStats and ReadOSDResourceFile read
-- them. What the driver and the allocator answer is a parameter.
pub mod Header
pub mod Held
pub mod Stored
pub mod Read
pub mod Success
use Prim.Native.Char.{code}
use hdlgame_installer.Base.{
  ℕ, zero, suc, ◌+◌, ◌-◌, ◌*◌, ◌/◌, Bool, true, false, ◌&&◌, ◌||◌, List, [], ◌∷◌, ◌++◌, Option,
  none, some, length, take, replicate, Memory, slice, store, if◌then◌else◌, ltb, leb, ◌==◌, Code,
  ok, err, einval, eio, enomem,
}
use hdlgame_installer.Net.Packet.{u32_bytes, u32_at}
use hdlgame_installer.Settings.Text.{codes}
use hdlgame_installer.Osd.Files.{OsdFile, del_icon_index, view_icon_index, num_osd_files_ents}

-- OSDResFileEnt_t
pub record FileEnt : Type 0 where
  pub offset : ℕ
  pub size : ℕ

abbrev pub no_ent : FileEnt
no_ent = record { offset = 0; size = 0 }

-- PartExtAttrOffset, PartAttr->FileEnt, and the bytes of the partition from its start.
pub record AreaState : Type 0 where
  pub part_ext_attr_offset : ℕ
  pub file_ent : ℕ → FileEnt
  pub disc : Memory

-- For one file: whether memalign succeeds, whether the buffer can be written as it is, and how many
-- of the bytes fileXioWrite takes.
pub record WriteAnswer : Type 0 where
  pub has_memory : Bool
  pub is_aligned : Bool
  pub written : ℕ

abbrev pub table_size : ℕ
table_size = 512

abbrev pub game_data_offset : ℕ
game_data_offset = 0x10_0000

abbrev pub game_data_size : ℕ
game_data_size = 1024

-- `(size + 0x1FF) & ~0x1FF`
unfoldable pub round_up : ℕ → ℕ
round_up size = (size + 511) / 512 * 512

-- The bytes in front of a length.
abbrev pub buffer_bytes : Option (List ℕ) → List ℕ
buffer_bytes none = []
buffer_bytes (some bs) = bs

-- The file, filled up with zeros to whole sectors.
unfoldable pub padded : OsdFile → List ℕ
unfolding round_up
padded f = take f.size (buffer_bytes f.buffer) ++ replicate (round_up f.size - f.size) 0

-- The offset, moved behind the game's header where the file would touch that.
unfoldable pub adjust_offset : (offset length_rounded_up : ℕ) → ℕ
adjust_offset offset length_rounded_up =
    if (leb game_data_offset offset && ltb offset (game_data_offset + game_data_size))
      || (leb offset game_data_offset && ltb game_data_offset (offset + length_rounded_up))
    then 1049600
    else offset

unfoldable pub set_ent : (ℕ → FileEnt) → ℕ → FileEnt → ℕ → FileEnt
set_ent t index e i = if i == index then e else t i

-- The initialisation with the first file.
unfoldable pub init_area : (index : ℕ) → AreaState → AreaState
init_area zero s = record s { part_ext_attr_offset = table_size; file_ent = λ i. no_ent }
init_area (suc index) s = s

-- A file without content: the delete icon takes the entry of the view icon. Its result is an offset,
-- of which only the sign counts.
unfoldable pub install_empty : (index : ℕ) → OsdFile → AreaState → Code × AreaState
unfolding set_ent
install_empty index f s =
    if f.is_optional
    then if index == del_icon_index
      then (
        ok (s.file_ent view_icon_index).offset,
        record s { file_ent = set_ent s.file_ent index (s.file_ent view_icon_index) },
      )
      else (ok 0, s)
    else (err einval, s)

-- The bytes that fileXioWrite takes: of a copy, when the buffer cannot be written as it is.
unfoldable pub taken_bytes : WriteAnswer → OsdFile → List ℕ
unfolding padded
taken_bytes a f =
    if a.has_memory || (f.size == round_up f.size && a.is_aligned)
    then take a.written (padded f)
    else []

-- The entry of a file that has been written in whole. An error of any kind becomes -EIO.
unfoldable pub note_written : Bool → (index at : ℕ) → OsdFile → AreaState → Code × AreaState
unfolding set_ent
note_written true index at f s =
    (ok 0, record s { file_ent = set_ent s.file_ent index (record { offset = at; size = f.size }) })
note_written false index at f s = (err eio, s)

-- The write at the adjusted offset. The result of fileXioLseek, which the code ignores, is taken to be
-- a success, and the offsets, sums of the sizes of buffers in memory, to stay below 2^32.
unfoldable pub write_file : WriteAnswer → (index at : ℕ) → OsdFile → AreaState → Code × AreaState
unfolding taken_bytes note_written
write_file a index at f s =
    note_written (length (taken_bytes a f) == round_up f.size) index at f (record s {
      part_ext_attr_offset = at + round_up f.size;
      disc = store s.disc at (taken_bytes a f);
    })

unfoldable pub install_sized :
    WriteAnswer → (index : ℕ) → OsdFile → (size : ℕ) → AreaState → Code × AreaState
unfolding install_empty write_file adjust_offset
install_sized a index f zero s = install_empty index f s
install_sized a index f (suc n) s =
    write_file a index (adjust_offset s.part_ext_attr_offset (round_up f.size)) f s

-- InstallOSDFile
unfoldable pub install_osd_file : WriteAnswer → (index : ℕ) → OsdFile → AreaState → Code × AreaState
unfolding install_sized init_area
install_osd_file a index f s = install_sized a index f f.size (init_area index s)

-- The loop of InstallOSDFiles: `rounds` files are left, from `i` on.
unfoldable pub install_loop :
    (ℕ → WriteAnswer) → (ℕ → OsdFile) → (rounds i : ℕ) → Code → AreaState → Code × AreaState
unfolding install_osd_file
install_loop answer file zero i result s = (result, s)
install_loop answer file (suc rounds) i (err e) s = (err e, s)
install_loop answer file (suc rounds) i (ok n) s =
    let (r, t) = install_osd_file (answer i) i (file i) s in
    install_loop answer file rounds (i + 1) r t

-- The bytes of t_PartAttrTab.
unfoldable pub ent_bytes : FileEnt → List ℕ
unfolding u32_bytes
ent_bytes e = u32_bytes e.offset ++ u32_bytes e.size

unfoldable pub table_bytes : (ℕ → FileEnt) → List ℕ
unfolding ent_bytes
table_bytes t =
    codes "PS2ICON3D"
    ++ (replicate 7 0
        ++ (ent_bytes (t 0)
            ++ (ent_bytes (t 1)
                ++ (ent_bytes (t 2) ++ (ent_bytes (t 3) ++ (ent_bytes (t 4) ++ replicate 456 0))))))

-- What follows the loop: the table is written whatever the loop's result is.
unfoldable pub write_table : (written : ℕ) → Code × AreaState → Code × AreaState
unfolding table_bytes
write_table written (result, s) = (
  if written == table_size then result else err eio,
  record s { disc = store s.disc 0 (take written (table_bytes s.file_ent)) },
)

-- InstallOSDFiles: whether the table's buffer is allocated, fileXioOpen's result, and the answers to
-- the writes.
pub record InstallAnswers : Type 0 where
  pub has_table : Bool
  pub opened : Code
  pub answer : ℕ → WriteAnswer
  pub table_written : ℕ

unfoldable pub after_open : InstallAnswers → (ℕ → OsdFile) → Code → AreaState → Code × AreaState
unfolding install_loop write_table
after_open a file (err e) s = (err e, s)
after_open a file (ok fd) s =
    write_table a.table_written (install_loop a.answer file num_osd_files_ents 0 (ok 0) s)

unfoldable pub install_osd_files : InstallAnswers → (ℕ → OsdFile) → AreaState → Code × AreaState
unfolding after_open
install_osd_files a file s = if a.has_table then after_open a file a.opened s else (err enomem, s)

-- The answers to a read: memory, fileXioOpen, and whether fileXioRead gives all that is asked for.
pub record ReadAnswers : Type 0 where
  pub is_allocated : Bool
  pub handle : Code
  pub reads_all : Bool

-- An entry in the bytes of the table.
unfoldable pub ent_at : List ℕ → (i : ℕ) → FileEnt
unfolding u32_at
ent_at bs i = record { offset = u32_at bs (16 + 8 * i); size = u32_at bs (20 + 8 * i) }

-- GetOSDResourceFileStats
unfoldable pub get_file_stats : ReadAnswers → Memory → Code × Option (ℕ → FileEnt)
unfolding ent_at
get_file_stats a disc =
    if a.is_allocated
    then elim a.handle [
      | err e ↦ (err e, none)
      | ok fd ↦
          if a.reads_all then (ok 0, some (ent_at (slice disc 0 table_size))) else (err eio, none)
    ]
    else (err enomem, none)

-- ReadOSDResourceFile
unfoldable pub read_osd_resource_file :
    ReadAnswers → (index : ℕ) → (files : ℕ → FileEnt) → Memory → Code × Option (List ℕ)
unfolding round_up
read_osd_resource_file a index files disc =
    let e = files index in
    if ltb index num_osd_files_ents
    then if a.is_allocated
      then elim a.handle [
        | err x ↦ (err x, none)
        | ok fd ↦
            if a.reads_all
            then (ok 0, some (take e.size (slice disc e.offset (round_up e.size))))
            else (err eio, none)
      ]
      else (err enomem, none)
    else (err einval, none)
