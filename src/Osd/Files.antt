-- ===== src/Osd/Files.antt =====
-- OSD.c: the list of resource files to be installed, with the buffers that it owns.
use hdlgame_installer.Base.{
  ℕ, zero, suc, ◌+◌, ◌-◌, Bool, true, false, ◌&&◌, List, Option, none, some, length, if◌then◌else◌,
  ltb, ◌==◌, Code, ok, err, Errno, other,
}

-- enum OSD_RESOURCE_FILE_TYPES
abbrev pub system_cnf_index : ℕ
system_cnf_index = 0

abbrev pub icon_sys_index : ℕ
icon_sys_index = 1

abbrev pub view_icon_index : ℕ
view_icon_index = 2

abbrev pub del_icon_index : ℕ
del_icon_index = 3

abbrev pub boot_kelf_index : ℕ
boot_kelf_index = 4

abbrev pub num_osd_files_ents : ℕ
num_osd_files_ents = 5

-- struct OSDResourceFileEntry with the bytes of its buffer, or none for NULL, and its two flags.
pub record OsdFile : Type 0 where
  pub buffer : Option (List ℕ)
  pub size : ℕ
  pub is_optional : Bool
  pub is_allocated : Bool

-- InstFileList, and the number of allocated buffers.
pub record FileList : Type 0 where
  pub file : ℕ → OsdFile
  pub buffers : ℕ

unfoldable pub set_file : (ℕ → OsdFile) → ℕ → OsdFile → ℕ → OsdFile
set_file f index e i = if i == index then e else f i

-- The built-in files that InitOSDResourceFiles puts into DefaultFileList.
pub record BuiltIn : Type 0 where
  pub system_cnf : List ℕ
  pub view_icon : List ℕ
  pub boot_kelf : List ℕ

abbrev pub built_in_file : List ℕ → Bool → OsdFile
built_in_file bytes is_optional = record {
  buffer = some bytes;
  size = length bytes;
  is_optional = is_optional;
  is_allocated = false;
}

abbrev pub empty_optional : OsdFile
empty_optional = record { buffer = none; size = 0; is_optional = true; is_allocated = false }

-- DefaultFileList behind InitOSDResourceFiles.
unfoldable pub default_file_list : BuiltIn → ℕ → OsdFile
default_file_list b zero = built_in_file b.system_cnf false
default_file_list b (suc zero) = empty_optional
default_file_list b (suc (suc zero)) = built_in_file b.view_icon false
default_file_list b (suc (suc (suc zero))) = empty_optional
default_file_list b (suc (suc (suc (suc i)))) = built_in_file b.boot_kelf true

-- PrepareOSDDefaultResources. What the list had is overwritten.
unfoldable pub prepare_default_resources : BuiltIn → FileList → FileList
unfolding default_file_list
prepare_default_resources b l = record l { file = default_file_list b }

-- `buffer != NULL && (flags & FILE_FLAGS_ALLOCATED)`
abbrev pub has_buffer : Option (List ℕ) → Bool
has_buffer none = false
has_buffer (some bs) = true

abbrev pub owns : OsdFile → Bool
owns f = has_buffer f.buffer && f.is_allocated

unfoldable pub release : OsdFile → ℕ → ℕ
release f buffers = if owns f then buffers - 1 else buffers

abbrev pub enxio : Errno
enxio = other 6

-- LoadOSDResource. An allocated buffer becomes the list's.
unfoldable pub load_osd_resource :
    (index : ℕ)
    → (buffer : List ℕ) → (length : ℕ) → (is_allocated : Bool) → FileList
    → Code × FileList
unfolding set_file release
load_osd_resource index buffer length is_allocated l =
    if ltb index num_osd_files_ents
    then (
      ok 0,
      record l {
        file = set_file l.file index (record {
          buffer = some buffer;
          size = length;
          is_optional = false;
          is_allocated = is_allocated;
        });
        buffers = release (l.file index) l.buffers;
      },
    )
    else (err enxio, l)

-- The body of FreeOSDResources' loop.
unfoldable pub free_file : (i : ℕ) → FileList → FileList
unfolding set_file
free_file i l =
    if owns (l.file i)
    then record l {
      file = set_file l.file i (record (l.file i) { buffer = none; is_allocated = false });
      buffers = l.buffers - 1;
    }
    else l

unfoldable pub free_loop : (rounds i : ℕ) → FileList → FileList
unfolding free_file
free_loop zero i l = l
free_loop (suc rounds) i l = free_loop rounds (i + 1) (free_file i l)

-- FreeOSDResources
unfoldable pub free_osd_resources : FileList → FileList
unfolding free_loop
free_osd_resources l = free_loop num_osd_files_ents 0 l
