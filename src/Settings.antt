-- ===== src/Settings.antt =====
-- settings.c: the settings file, WriteSettings' text and ParseSettings. The C library's functions on
-- text are those of Settings.Text.
pub mod Text
pub mod Decimal
pub mod Signed
pub mod Lines
pub mod Values
pub mod RoundTrip
pub mod Bounds
pub mod Load
pub mod Loaded
use Prim.Native.Char.{code}
use Prim.Native.String.{String}
use hdlgame_installer.Base.{
  ℕ, zero, suc, ◌+◌, ◌%◌, ◌^◌, Bool, true, false, List, [], ◌∷◌, ◌++◌, Option, none, some, Code, ok,
  err, Errno, einval, failure, if◌then◌else◌, ◌==◌,
}
use hdlgame_installer.Settings.Text.{
  codes, str_eq, c_string, strtok_all, is_space, is_alnum, is_graph, skip_while, take_while,
  strtoul, strtol_short, print_short, print_u,
}

-- Four bytes of an address.
pub record NetAddr : Type 0 where
  pub a0 : ℕ
  pub a1 : ℕ
  pub a2 : ℕ
  pub a3 : ℕ

-- The part of struct RuntimeData that the file holds. The link mode is the bit pattern of a short.
pub record Settings : Type 0 where
  pub sort_titles : Bool
  pub use_dhcp : Bool
  pub ip_address : NetAddr
  pub subnet_mask : NetAddr
  pub gateway : NetAddr
  pub advanced_network_settings : Bool
  pub ethernet_link_mode : ℕ
  pub ethernet_flow_control : Bool

-- LoadDefaults, for the value of NETMAN_NETIF_ETH_LINK_MODE_AUTO.
unfoldable pub load_defaults : (link_mode_auto : ℕ) → Settings
load_defaults link_mode_auto = record {
  sort_titles = false;
  use_dhcp = true;
  ip_address = record { a0 = 192; a1 = 168; a2 = 0; a3 = 10 };
  subnet_mask = record { a0 = 255; a1 = 255; a2 = 255; a3 = 0 };
  gateway = record { a0 = 192; a1 = 168; a2 = 0; a3 = 1 };
  advanced_network_settings = false;
  ethernet_link_mode = link_mode_auto;
  ethernet_flow_control = true;
}

-- `if (*next == '.')`, with what follows it.
unfoldable pub after_dot : List ℕ → Option (List ℕ)
after_dot [] = none
after_dot (c ∷ cs) = if c == b'.' then some cs else none

-- ParseNetAddr: the four numbers, each cut to a byte, with a dot behind each but the last.
unfoldable pub fourth_byte : (o1 o2 o3 : ℕ) → Option (List ℕ) → Option NetAddr
fourth_byte o1 o2 o3 none = none
fourth_byte o1 o2 o3 (some cs) =
    some (record { a0 = o1; a1 = o2; a2 = o3; a3 = (strtoul cs).0 % 256 })

unfoldable pub third_byte : (o1 o2 : ℕ) → Option (List ℕ) → Option NetAddr
unfolding fourth_byte after_dot
third_byte o1 o2 none = none
third_byte o1 o2 (some cs) = fourth_byte o1 o2 ((strtoul cs).0 % 256) (after_dot (strtoul cs).1)

unfoldable pub second_byte : (o1 : ℕ) → Option (List ℕ) → Option NetAddr
unfolding third_byte after_dot
second_byte o1 none = none
second_byte o1 (some cs) = third_byte o1 ((strtoul cs).0 % 256) (after_dot (strtoul cs).1)

unfoldable pub parse_net_addr : List ℕ → Option NetAddr
unfolding second_byte after_dot
parse_net_addr cs = second_byte ((strtoul cs).0 % 256) (after_dot (strtoul cs).1)

-- `strcmp(value, "true") == 0` and so on; `set` writes the field.
unfoldable pub parse_boolean : (Bool → Settings) → Settings → List ℕ → Code × Settings
parse_boolean set s value =
    if str_eq value (codes "true")
    then (ok 0, set true)
    else (if str_eq value (codes "false") then (ok 0, set false) else (err einval, s))

unfoldable pub set_addr : (NetAddr → Settings) → Settings → Option NetAddr → Code × Settings
set_addr set s none = (err einval, s)
set_addr set s (some a) = (ok 0, set a)

-- ParseLine
unfoldable pub parse_line : (key value : List ℕ) → Settings → Code × Settings
unfolding parse_boolean set_addr parse_net_addr
parse_line key value s =
    if str_eq key (codes "SORT")
    then parse_boolean (λ b. record s { sort_titles = b }) s value
    else if str_eq key (codes "DHCP")
    then parse_boolean (λ b. record s { use_dhcp = b }) s value
    else if str_eq key (codes "IP")
    then set_addr (λ a. record s { ip_address = a }) s (parse_net_addr value)
    else if str_eq key (codes "NM")
    then set_addr (λ a. record s { subnet_mask = a }) s (parse_net_addr value)
    else if str_eq key (codes "GW")
    then set_addr (λ a. record s { gateway = a }) s (parse_net_addr value)
    else if str_eq key (codes "ADVNETWORK")
    then parse_boolean (λ b. record s { advanced_network_settings = b }) s value
    else if str_eq key (codes "LINKMODE")
    then (ok 0, record s { ethernet_link_mode = strtol_short value })
    else if str_eq key (codes "FLOWCTRL")
    then parse_boolean (λ b. record s { ethernet_flow_control = b }) s value
    else (err einval, s)

-- The value behind `=`, or none when that is missing.
unfoldable pub after_equals : List ℕ → Option (List ℕ)
after_equals [] = none
after_equals (c ∷ cs) =
    if c == b'=' then some (take_while is_graph (skip_while is_space cs)) else none

-- One line: the key, and what follows it.
unfoldable pub split_line : List ℕ → List ℕ × Option (List ℕ)
unfolding after_equals
split_line line =
    let text = skip_while is_space line in
    (take_while is_alnum text, after_equals (skip_while is_space (skip_while is_alnum text)))

unfoldable pub parse_split : List ℕ × Option (List ℕ) → Settings → Code × Settings
unfolding parse_line
parse_split (key, none) s = (err failure, s)
parse_split (key, some value) s = parse_line key value s

-- The loop of ParseSettings behind one line's result.
unfoldable pub parse_lines : List (List ℕ) → Code → Settings → Code × Settings
unfolding parse_split split_line
parse_lines [] result s = (result, s)
parse_lines (line ∷ lines) result s =
    let (r, t) = parse_split (split_line line) s in
    let rest = parse_lines lines r t in elim r [ err e ↦ (err e, t) | ok n ↦ rest ]

-- ParseSettings. `unset` is the result for a file without a line: the variable is not initialised.
unfoldable pub parse_settings : (unset : Code) → List ℕ → Settings → Code × Settings
unfolding parse_lines
parse_settings unset buffer s = parse_lines (strtok_all (c_string buffer)) unset s

-- WriteBoolean
unfoldable pub write_boolean : Bool → List ℕ
write_boolean true = codes "true"
write_boolean false = codes "false"

-- `%u.%u.%u.%u`
unfoldable pub write_addr : NetAddr → List ℕ
write_addr a = print_u a.a0 (b'.' ∷ print_u a.a1 (b'.' ∷ print_u a.a2 (b'.' ∷ print_u a.a3 [])))

-- `KEY = value\n`
unfoldable pub write_line : (key value : List ℕ) → List ℕ → List ℕ
write_line key value rest = (key ++ (codes " = " ++ value)) ++ (b'\n' ∷ rest)

-- The text of WriteSettings, with the null behind it.
unfoldable pub write_settings : Settings → List ℕ
unfolding write_line write_boolean write_addr
write_settings s = write_line (codes "SORT") (write_boolean s.sort_titles) (
    write_line (codes "DHCP") (write_boolean s.use_dhcp) (
      write_line (codes "IP") (write_addr s.ip_address) (
        write_line (codes "NM") (write_addr s.subnet_mask) (
          write_line (codes "GW") (write_addr s.gateway) (
            write_line (codes "ADVNETWORK") (write_boolean s.advanced_network_settings) (
              write_line (codes "LINKMODE") (print_short s.ethernet_link_mode) (
                write_line (codes "FLOWCTRL") (write_boolean s.ethernet_flow_control)
                  (0 ∷ []))))))))
