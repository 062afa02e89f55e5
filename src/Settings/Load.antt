-- ===== src/Settings/Load.antt =====
-- settings.c: LoadSettings, with what it takes and gives back. What the file system and the
-- allocator answer is a parameter.
use hdlgame_installer.Base.{
  ℕ, zero, suc, ◌-◌, Bool, List, [], ◌∷◌, ◌++◌, Option, none, some, if◌then◌else◌, Code, ok, err,
  eio, enomem, failure,
}
use hdlgame_installer.Settings.{Settings, load_defaults, parse_settings}

-- The mounts of pfs1:, the open files and the buffers, and RuntimeData.
pub record Loader : Type 0 where
  pub mounts : ℕ
  pub files : ℕ
  pub buffers : ℕ
  pub settings : Settings

-- The results of fileXioMount, fileXioOpen and the first fileXioLseek; whether memalign succeeds;
-- and the bytes that fileXioRead gives when it gives as many as were asked for.
pub record LoadAnswers : Type 0 where
  pub mounted : Code
  pub opened : Code
  pub len : Code
  pub has_memory : Bool
  pub contents : Option (List ℕ)

-- `fileXioClose(fd)`
unfoldable pub close_file : Loader → Loader
close_file s = record s { files = s.files - 1 }

-- fileXioRead, fileXioClose, ParseSettings and free.
unfoldable pub read_settings : (unset : Code) → Option (List ℕ) → Loader → Code × Loader
unfolding close_file
read_settings unset none s = (err eio, record (close_file s) { buffers = s.buffers - 1 })
read_settings unset (some bytes) s =
    let (r, t) = parse_settings unset (bytes ++ 0 ∷ []) s.settings in
    (r, record (close_file s) { buffers = s.buffers - 1; settings = t })

-- `if (len > 0) ... else result = -1;`
unfoldable pub with_len : (unset : Code) → LoadAnswers → Code → Loader → Code × Loader
unfolding read_settings close_file
with_len unset a (err e) s = (err failure, s)
with_len unset a (ok zero) s = (err failure, s)
with_len unset a (ok (suc n)) s =
    if a.has_memory
    then read_settings unset a.contents (record s { buffers = suc s.buffers })
    else (err enomem, close_file s)

unfoldable pub with_file : (unset : Code) → LoadAnswers → Code → Loader → Code × Loader
unfolding with_len
with_file unset a (err e) s = (err e, s)
with_file unset a (ok fd) s = with_len unset a a.len (record s { files = suc s.files })

unfoldable pub with_mount : (unset : Code) → LoadAnswers → Code → Loader → Code × Loader
unfolding with_file
with_mount unset a (err e) s = (err e, s)
with_mount unset a (ok m) s =
    let (r, t) = with_file unset a a.opened (record s { mounts = suc s.mounts }) in
    (r, record t { mounts = t.mounts - 1 })

-- LoadSettings, for the value of NETMAN_NETIF_ETH_LINK_MODE_AUTO.
unfoldable pub load_settings :
    (link_mode_auto : ℕ) (unset : Code) → LoadAnswers → Loader → Code × Loader
unfolding with_mount
load_settings link_mode_auto unset a s =
    with_mount unset a a.mounted (record s { settings = load_defaults link_mode_auto })
