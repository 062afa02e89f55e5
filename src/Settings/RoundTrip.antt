-- ===== src/Settings/RoundTrip.antt =====
-- settings.c: the settings that are saved are the settings that are loaded.
use hdlgame_installer.Base.{
  ℕ, ◌%◌, ◌^◌, ◌≤◌, ◌<◌, Bool, true, false, List, [], ◌∷◌, some, ◌≡◌, refl, ap, ◌∙◌, arith, ◌&&◌,
  Code, ok,
}
use hdlgame_installer.Settings.Text.{codes, is_alnum, print_u, print_short, strtoul, digit_value}
use hdlgame_installer.Settings.Decimal.{strtoul-print_u}
use hdlgame_installer.Settings.Signed.{strtol_short-print_short}
use hdlgame_installer.Settings.Lines.{IsKey, parse_text-write_line}
use hdlgame_installer.Settings.{
  NetAddr, Settings, after_dot, second_byte, third_byte, fourth_byte, parse_net_addr, parse_boolean,
  set_addr, parse_line, parse_lines, parse_settings, write_boolean, write_addr, write_line,
  write_settings,
}
use hdlgame_installer.Settings.Values.{
  write_addr-IsValue, write_boolean-IsValue, print_short-IsValue,
}

-- The fields fit their C types: bytes, and a short.
pub record IsAddr (a : NetAddr) : Type 0 where
  pub b0 : a.a0 < 256
  pub b1 : a.a1 < 256
  pub b2 : a.a2 < 256
  pub b3 : a.a3 < 256

pub record IsSettings (s : Settings) : Type 0 where
  pub ip : IsAddr s.ip_address
  pub mask : IsAddr s.subnet_mask
  pub gateway : IsAddr s.gateway
  pub mode : s.ethernet_link_mode < 2 ^ 16

-- A dot stops a number.
dot_stops : 10 ≤ digit_value b'.'
unfolding digit_value
dot_stops = omega arith

after_dot_lem : (rest : List ℕ) → after_dot (b'.' ∷ rest) ≡ some rest
unfolding after_dot
after_dot_lem rest = refl

byte_lem : (n : ℕ) → n < 256 → n % 256 ≡ n
byte_lem n h = omega arith

number_dot :
    (n : ℕ) (rest : List ℕ) → n < 256 → strtoul (print_u n (b'.' ∷ rest)) ≡ (n, b'.' ∷ rest)
number_dot n rest h = strtoul-print_u n (b'.' ∷ rest) (omega arith) dot_stops

parse_net_addr-write_addr : (a : NetAddr) → IsAddr a → parse_net_addr (write_addr a) ≡ some a
unfolding parse_net_addr second_byte third_byte fourth_byte write_addr
parse_net_addr-write_addr a h =
    ap (λ (p : ℕ × List ℕ). second_byte (p.0 % 256) (after_dot p.1)) (number_dot a.a0 t1 h.b0)
    ∙ ap (second_byte (a.a0 % 256)) (after_dot_lem t1)
    ∙ ap (λ (p : ℕ × List ℕ). third_byte (a.a0 % 256) (p.0 % 256) (after_dot p.1))
        (number_dot a.a1 t2 h.b1)
    ∙ ap (third_byte (a.a0 % 256) (a.a1 % 256)) (after_dot_lem t2)
    ∙ ap (λ (p : ℕ × List ℕ). fourth_byte (a.a0 % 256) (a.a1 % 256) (p.0 % 256) (after_dot p.1))
        (number_dot a.a2 t3 h.b2)
    ∙ ap (fourth_byte (a.a0 % 256) (a.a1 % 256) (a.a2 % 256)) (after_dot_lem t3)
    ∙ ap
        (λ (p : ℕ × List ℕ).
          some (record { a0 = a.a0 % 256; a1 = a.a1 % 256; a2 = a.a2 % 256; a3 = p.0 % 256 }))
        (strtoul-print_u a.a3 [] (omega (arith, h.b3)) tt)
    ∙ rw (byte_lem a.a0 h.b0, byte_lem a.a1 h.b1, byte_lem a.a2 h.b2, byte_lem a.a3 h.b3) refl
  where
    t3 : List ℕ
    t3 = print_u a.a3 []

    t2 : List ℕ
    t2 = print_u a.a2 (b'.' ∷ t3)

    t1 : List ℕ
    t1 = print_u a.a1 (b'.' ∷ t2)

parse_boolean-write_boolean :
    (set : Bool → Settings) (s : Settings) (b : Bool)
    → parse_boolean set s (write_boolean b) ≡ (ok 0, set b)
unfolding parse_boolean write_boolean
parse_boolean-write_boolean set s true = refl
parse_boolean-write_boolean set s false = refl

set_addr-write_addr :
    (set : NetAddr → Settings) (s : Settings) (a : NetAddr)
    → IsAddr a
    → set_addr set s (parse_net_addr (write_addr a)) ≡ (ok 0, set a)
unfolding set_addr
set_addr-write_addr set s a h = ap (set_addr set s) (parse_net_addr-write_addr a h)

-- The test of a whole key, for the keys below.
abbrev all_alnum : List ℕ → Bool
all_alnum [] = true
all_alnum (c ∷ cs) = is_alnum c && all_alnum cs

all_alnum-IsKey : (cs : List ℕ) → all_alnum cs ≡ true → IsKey cs
all_alnum-IsKey [] h = tt
all_alnum-IsKey (c ∷ cs) h = test (is_alnum c) refl h (λ k. all_alnum-IsKey cs k)
  where
    test :
        (b : Bool)
        → is_alnum c ≡ b
        → (b && all_alnum cs) ≡ true
        → (all_alnum cs ≡ true → IsKey cs)
        → (is_alnum c ≡ true) × IsKey cs
    test true e k ih = (e, ih k)
    test false e k ih = cc

keys_lem :
    IsKey (codes "SORT")
    × IsKey (codes "DHCP")
    × IsKey (codes "IP")
    × IsKey (codes "NM")
    × IsKey (codes "GW")
    × IsKey (codes "ADVNETWORK")
    × IsKey (codes "LINKMODE")
    × IsKey (codes "FLOWCTRL")
unfolding is_alnum
keys_lem = (
  all_alnum-IsKey (codes "SORT") refl,
  all_alnum-IsKey (codes "DHCP") refl,
  all_alnum-IsKey (codes "IP") refl,
  all_alnum-IsKey (codes "NM") refl,
  all_alnum-IsKey (codes "GW") refl,
  all_alnum-IsKey (codes "ADVNETWORK") refl,
  all_alnum-IsKey (codes "LINKMODE") refl,
  all_alnum-IsKey (codes "FLOWCTRL") refl,
)

-- What WriteSettings prints, ParseSettings reads without an error, and sets every setting to what
-- was saved, whatever the settings were, when the fields fit their C types.
pub parse_settings-write_settings :
    (unset : Code) (s t : Settings)
    → IsSettings s
    → parse_settings unset (write_settings s) t ≡ (ok 0, s)
unfolding parse_settings write_settings parse_line parse_lines
parse_settings-write_settings unset s t h =
    parse_text-write_line b'S' (codes "ORT") (write_boolean s.sort_titles) x1 unset t t1 keys_lem.0
      (write_boolean-IsValue s.sort_titles)
      (parse_boolean-write_boolean (λ b. record t { sort_titles = b }) t s.sort_titles)
    ∙ parse_text-write_line b'D' (codes "HCP") (write_boolean s.use_dhcp) x2 (ok 0) t1 t2 keys_lem.1
        (write_boolean-IsValue s.use_dhcp)
        (parse_boolean-write_boolean (λ b. record t1 { use_dhcp = b }) t1 s.use_dhcp)
    ∙ parse_text-write_line b'I' (codes "P") (write_addr s.ip_address) x3 (ok 0) t2 t3 keys_lem.2
        (write_addr-IsValue s.ip_address)
        (set_addr-write_addr (λ a. record t2 { ip_address = a }) t2 s.ip_address h.ip)
    ∙ parse_text-write_line b'N' (codes "M") (write_addr s.subnet_mask) x4 (ok 0) t3 t4 keys_lem.3
        (write_addr-IsValue s.subnet_mask)
        (set_addr-write_addr (λ a. record t3 { subnet_mask = a }) t3 s.subnet_mask h.mask)
    ∙ parse_text-write_line b'G' (codes "W") (write_addr s.gateway) x5 (ok 0) t4 t5 keys_lem.4
        (write_addr-IsValue s.gateway)
        (set_addr-write_addr (λ a. record t4 { gateway = a }) t4 s.gateway h.gateway)
    ∙ parse_text-write_line b'A' (codes "DVNETWORK") (write_boolean s.advanced_network_settings) x6
        (ok 0) t5 t6 keys_lem.5 (write_boolean-IsValue s.advanced_network_settings)
        (parse_boolean-write_boolean (λ b. record t5 { advanced_network_settings = b }) t5
          s.advanced_network_settings)
    ∙ parse_text-write_line b'L' (codes "INKMODE") (print_short s.ethernet_link_mode) x7 (ok 0) t6
        t7 keys_lem.6 (print_short-IsValue s.ethernet_link_mode)
        (ap (λ m. (ok 0, record t6 { ethernet_link_mode = m }))
          (strtol_short-print_short s.ethernet_link_mode h.mode))
    ∙ parse_text-write_line b'F' (codes "LOWCTRL") (write_boolean s.ethernet_flow_control) (0 ∷ [])
        (ok 0) t7 s keys_lem.7 (write_boolean-IsValue s.ethernet_flow_control)
        (parse_boolean-write_boolean (λ b. record t7 { ethernet_flow_control = b }) t7
          s.ethernet_flow_control)
  where
    x7 : List ℕ
    x7 = write_line (codes "FLOWCTRL") (write_boolean s.ethernet_flow_control) (0 ∷ [])

    x6 : List ℕ
    x6 = write_line (codes "LINKMODE") (print_short s.ethernet_link_mode) x7

    x5 : List ℕ
    x5 = write_line (codes "ADVNETWORK") (write_boolean s.advanced_network_settings) x6

    x4 : List ℕ
    x4 = write_line (codes "GW") (write_addr s.gateway) x5

    x3 : List ℕ
    x3 = write_line (codes "NM") (write_addr s.subnet_mask) x4

    x2 : List ℕ
    x2 = write_line (codes "IP") (write_addr s.ip_address) x3

    x1 : List ℕ
    x1 = write_line (codes "DHCP") (write_boolean s.use_dhcp) x2

    t1 : Settings
    t1 = record t { sort_titles = s.sort_titles }

    t2 : Settings
    t2 = record t1 { use_dhcp = s.use_dhcp }

    t3 : Settings
    t3 = record t2 { ip_address = s.ip_address }

    t4 : Settings
    t4 = record t3 { subnet_mask = s.subnet_mask }

    t5 : Settings
    t5 = record t4 { gateway = s.gateway }

    t6 : Settings
    t6 = record t5 { advanced_network_settings = s.advanced_network_settings }

    t7 : Settings
    t7 = record t6 { ethernet_link_mode = s.ethernet_link_mode }
