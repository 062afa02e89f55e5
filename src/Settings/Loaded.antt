-- ===== src/Settings/Loaded.antt =====
-- settings.c: what LoadSettings holds at its end, and what it loads from a saved file.
use hdlgame_installer.Base.{
  ℕ, zero, suc, ◌+◌, Bool, true, false, List, [], ◌∷◌, ◌++◌, length, Option, none, some, ◌≡◌, refl,
  ap, ◌∙◌, arith, if◌then◌else◌, Code, ok, err, enomem,
}
use hdlgame_installer.Settings.Text.{print_short, codes, c_string, strtok_all}
use hdlgame_installer.Settings.{
  Settings, write_boolean, write_addr, load_defaults, parse_lines, parse_settings, write_line,
  write_settings,
}
use hdlgame_installer.Settings.Load.{
  Loader, LoadAnswers, close_file, read_settings, with_len, with_file, with_mount, load_settings,
}
use hdlgame_installer.Settings.RoundTrip.{IsSettings, parse_settings-write_settings}

-- The files that are left open for these results of mount, open and lseek: one, when the file is
-- empty or its length is not known.
abbrev pub left_open : (mounted opened len : Code) → ℕ
left_open (err e) opened len = 0
left_open (ok m) (err e) len = 0
left_open (ok m) (ok fd) (err e) = 1
left_open (ok m) (ok fd) (ok zero) = 1
left_open (ok m) (ok fd) (ok (suc n)) = 0

-- The mounts and the buffers are as before, and `leaked` more files are open.
pub record IsHeld (leaked : ℕ) (s t : Loader) : Type 0 where
  pub same_mounts : t.mounts ≡ s.mounts
  pub same_buffers : t.buffers ≡ s.buffers
  pub more_files : t.files ≡ leaked + s.files

abbrev opened_file : Loader → Loader
opened_file s = record s { files = suc s.files }

read_settings-IsHeld :
    (unset : Code) (contents : Option (List ℕ)) (s : Loader)
    → IsHeld 0 s
        (read_settings unset contents (record (opened_file s) { buffers = suc s.buffers })).1
unfolding read_settings close_file
read_settings-IsHeld unset none s = record {
  same_mounts = refl;
  same_buffers = omega arith;
  more_files = omega arith;
}
read_settings-IsHeld unset (some bytes) s = record {
  same_mounts = refl;
  same_buffers = omega arith;
  more_files = omega arith;
}

with_len-IsHeld :
    (m fd : ℕ) (unset : Code) (a : LoadAnswers) (len : Code) (s : Loader)
    → IsHeld (left_open (ok m) (ok fd) len) s (with_len unset a len (opened_file s)).1
unfolding with_len close_file
with_len-IsHeld m fd unset a (err e) s = record {
  same_mounts = refl;
  same_buffers = refl;
  more_files = omega arith;
}
with_len-IsHeld m fd unset a (ok zero) s = record {
  same_mounts = refl;
  same_buffers = refl;
  more_files = omega arith;
}
with_len-IsHeld m fd unset a (ok (suc n)) s = test a.has_memory
  where
    test :
        (b : Bool)
        → IsHeld 0 s
            (if b
              then read_settings unset a.contents
                  (record (opened_file s) { buffers = suc s.buffers })
              else (err enomem, close_file (opened_file s))).1
    test true = read_settings-IsHeld unset a.contents s
    test false = record { same_mounts = refl; same_buffers = refl; more_files = omega arith }

with_file-IsHeld :
    (m : ℕ) (unset : Code) (a : LoadAnswers) (opened : Code) (s : Loader)
    → IsHeld (left_open (ok m) opened a.len) s (with_file unset a opened s).1
unfolding with_file
with_file-IsHeld m unset a (err e) s = record {
  same_mounts = refl;
  same_buffers = refl;
  more_files = omega arith;
}
with_file-IsHeld m unset a (ok fd) s = with_len-IsHeld m fd unset a a.len s

with_mount-IsHeld :
    (unset : Code) (a : LoadAnswers) (mounted : Code) (s : Loader)
    → IsHeld (left_open mounted a.opened a.len) s (with_mount unset a mounted s).1
unfolding with_mount
with_mount-IsHeld unset a (err e) s = record {
  same_mounts = refl;
  same_buffers = refl;
  more_files = omega arith;
}
with_mount-IsHeld unset a (ok m) s =
    let h = with_file-IsHeld m unset a a.opened (record s { mounts = suc s.mounts }) in
    record {
      same_mounts = omega (arith, h.same_mounts);
      same_buffers = h.same_buffers;
      more_files = h.more_files;
    }

-- LoadSettings gives back its mount and its buffer, whatever fails, and its file but when the
-- file is empty or its length is not known: then the file stays open.
pub load_settings-IsHeld :
    (link_mode_auto : ℕ) (unset : Code) (a : LoadAnswers) (s : Loader)
    → IsHeld (left_open a.mounted a.opened a.len) s (load_settings link_mode_auto unset a s).1
unfolding load_settings
load_settings-IsHeld link_mode_auto unset a s =
    let h =
      with_mount-IsHeld unset a a.mounted (record s { settings = load_defaults link_mode_auto }) in
    record { same_mounts = h.same_mounts; same_buffers = h.same_buffers; more_files = h.more_files }

-- A text that ends by itself: what comes behind it does not matter.
record Ends (cs : List ℕ) : Type 0 where
  same : (rest : List ℕ) → c_string (cs ++ rest) ≡ c_string cs

append_lem :
    (xs ys rest : List ℕ)
    → c_string (ys ++ rest) ≡ c_string ys
    → c_string ((xs ++ ys) ++ rest) ≡ c_string (xs ++ ys)
append_lem [] ys rest h = h
append_lem (zero ∷ xs) ys rest h = refl
append_lem (suc x ∷ xs) ys rest h = ap (suc x ∷◌) (append_lem xs ys rest h)

write_line-Ends : (key value rest : List ℕ) → Ends rest → Ends (write_line key value rest)
unfolding write_line
write_line-Ends key value rest h = record {
  same = λ more.
      append_lem (key ++ (codes " = " ++ value)) (b'\n' ∷ rest) more
        (append_lem (b'\n' ∷ []) rest more (h.same more));
}

write_settings-Ends : (s : Settings) → Ends (write_settings s)
unfolding write_settings
write_settings-Ends s = write_line-Ends (codes "SORT") (write_boolean s.sort_titles) x1 h1
  where
    x7 : List ℕ
    x7 = write_line (codes "FLOWCTRL") (write_boolean s.ethernet_flow_control) (0 ∷ [])

    h7 : Ends x7
    h7 =
        write_line-Ends (codes "FLOWCTRL") (write_boolean s.ethernet_flow_control) (0 ∷ [])
          (record { same = λ more. refl })

    x6 : List ℕ
    x6 = write_line (codes "LINKMODE") (print_short s.ethernet_link_mode) x7

    h6 : Ends x6
    h6 = write_line-Ends (codes "LINKMODE") (print_short s.ethernet_link_mode) x7 (h7)

    x5 : List ℕ
    x5 = write_line (codes "ADVNETWORK") (write_boolean s.advanced_network_settings) x6

    h5 : Ends x5
    h5 = write_line-Ends (codes "ADVNETWORK") (write_boolean s.advanced_network_settings) x6 (h6)

    x4 : List ℕ
    x4 = write_line (codes "GW") (write_addr s.gateway) x5

    h4 : Ends x4
    h4 = write_line-Ends (codes "GW") (write_addr s.gateway) x5 (h5)

    x3 : List ℕ
    x3 = write_line (codes "NM") (write_addr s.subnet_mask) x4

    h3 : Ends x3
    h3 = write_line-Ends (codes "NM") (write_addr s.subnet_mask) x4 (h4)

    x2 : List ℕ
    x2 = write_line (codes "IP") (write_addr s.ip_address) x3

    h2 : Ends x2
    h2 = write_line-Ends (codes "IP") (write_addr s.ip_address) x3 (h3)

    x1 : List ℕ
    x1 = write_line (codes "DHCP") (write_boolean s.use_dhcp) x2

    h1 : Ends x1
    h1 = write_line-Ends (codes "DHCP") (write_boolean s.use_dhcp) x2 (h2)

-- The second null, which LoadSettings puts behind the file's text, changes nothing.
parse_settings-null :
    (unset : Code) (s t : Settings)
    → IsSettings s
    → parse_settings unset (write_settings s ++ 0 ∷ []) t ≡ (ok 0, s)
unfolding parse_settings
parse_settings-null unset s t h =
    ap (λ text. parse_lines (strtok_all text) unset t) ((write_settings-Ends s).same (0 ∷ []))
    ∙ parse_settings-write_settings unset s t h

-- The answers when the file that WriteSettings has written is there and everything succeeds.
abbrev pub reads_saved : (m fd : ℕ) (saved : Settings) → LoadAnswers
reads_saved m fd saved = record {
  mounted = ok m;
  opened = ok fd;
  len = ok (length (write_settings saved));
  has_memory = true;
  contents = some (write_settings saved);
}

-- When the file that WriteSettings has written is read without an error, LoadSettings returns 0,
-- and RuntimeData has the saved settings, when the saved fields fit their C types.
pub load_settings-write_settings :
    (link_mode_auto : ℕ) (unset : Code) (m fd : ℕ) (saved : Settings) (s : Loader)
    → IsSettings saved
    → ((load_settings link_mode_auto unset (reads_saved m fd saved) s).0 ≡ ok 0)
      × ((load_settings link_mode_auto unset (reads_saved m fd saved) s).1.settings ≡ saved)
unfolding load_settings with_mount with_file with_len read_settings write_settings write_line
load_settings-write_settings link_mode_auto unset m fd saved s h =
    let e = parse_settings-null unset saved (load_defaults link_mode_auto) h in
    (ap (λ (p : Code × Settings). p.0) e, ap (λ (p : Code × Settings). p.1) e)
