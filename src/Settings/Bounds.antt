-- ===== src/Settings/Bounds.antt =====
-- settings.c: the text of WriteSettings and the buffer that it is printed into.
use hdlgame_installer.Base.{
  ℕ, zero, suc, ◌+◌, ◌-◌, ◌/◌, ◌%◌, ◌^◌, ◌≤◌, Bool, true, false, List, [], ◌∷◌, ◌++◌, length, ◌≡◌,
  refl, arith, if◌then◌else◌, ltb,
}
use hdlgame_installer.Base.Lists.{length-append}
use hdlgame_installer.Settings.Text.{codes, print_digits, print_u, print_short}
use hdlgame_installer.Settings.{
  NetAddr, Settings, write_boolean, write_addr, write_line, write_settings,
}

-- The size of the buffer.
abbrev pub settings_buffer_size : ℕ
settings_buffer_size = 512

length-print_digits :
    (fuel n : ℕ) (rest : List ℕ) → length (print_digits fuel n rest) ≤ suc fuel + length rest
unfolding print_digits
length-print_digits zero n rest = omega arith
length-print_digits (suc fuel) n rest =
    test (ltb n 10) (length-print_digits fuel (n / 10) ((48 + n % 10) ∷ rest))
  where
    more : List ℕ
    more = print_digits fuel (n / 10) ((48 + n % 10) ∷ rest)

    test :
        (b : Bool)
        → length more ≤ suc fuel + suc (length rest)
        → length (if b then (48 + n) ∷ rest else more) ≤ suc (suc fuel) + length rest
    test true h = omega arith
    test false h = omega (arith, h)

length-print_u : (n : ℕ) (rest : List ℕ) → length (print_u n rest) ≤ 10 + length rest
unfolding print_u
length-print_u n rest = length-print_digits 9 n rest

length-print_short : (m : ℕ) → length (print_short m) ≤ 11
unfolding print_short
length-print_short m = test (ltb m (2 ^ 15))
  where
    test : (b : Bool) → length (if b then print_u m [] else b'-' ∷ print_u (2 ^ 16 - m) []) ≤ 11
    test true = omega (arith, length-print_u m [])
    test false = omega (arith, length-print_u (2 ^ 16 - m) [])

length-write_addr : (a : NetAddr) → length (write_addr a) ≤ 43
unfolding write_addr
length-write_addr a = omega (
  arith,
  length-print_u a.a0 (b'.' ∷ t2),
  length-print_u a.a1 (b'.' ∷ t3),
  length-print_u a.a2 (b'.' ∷ t4),
  length-print_u a.a3 [],
)
  where
    t4 : List ℕ
    t4 = print_u a.a3 []

    t3 : List ℕ
    t3 = print_u a.a2 (b'.' ∷ t4)

    t2 : List ℕ
    t2 = print_u a.a1 (b'.' ∷ t3)

length-write_boolean : (b : Bool) → length (write_boolean b) ≤ 5
unfolding write_boolean
length-write_boolean true = omega arith
length-write_boolean false = omega arith

-- A line of a key and a value of at most so many characters.
length-write_line :
    (key value rest : List ℕ) (k m : ℕ)
    → length key ≡ k
    → length value ≤ m
    → length (write_line key value rest) ≤ k + m + 4 + length rest
unfolding write_line
length-write_line key value rest k m hk hm = omega (
  arith,
  hk,
  hm,
  length-append (key ++ (codes " = " ++ value)) (b'\n' ∷ rest),
  length-append key (codes " = " ++ value),
)

-- The text of the settings and the null behind it fit the buffer.
pub length-write_settings : (s : Settings) → length (write_settings s) ≤ settings_buffer_size
unfolding write_settings
length-write_settings s = omega (
  arith,
  length-write_line (codes "SORT") (write_boolean s.sort_titles) x1 4 5 refl
      (length-write_boolean s.sort_titles),
  length-write_line (codes "DHCP") (write_boolean s.use_dhcp) x2 4 5 refl
      (length-write_boolean s.use_dhcp),
  length-write_line (codes "IP") (write_addr s.ip_address) x3 2 43 refl
      (length-write_addr s.ip_address),
  length-write_line (codes "NM") (write_addr s.subnet_mask) x4 2 43 refl
      (length-write_addr s.subnet_mask),
  length-write_line (codes "GW") (write_addr s.gateway) x5 2 43 refl (length-write_addr s.gateway),
  length-write_line (codes "ADVNETWORK") (write_boolean s.advanced_network_settings) x6 10 5 refl
      (length-write_boolean s.advanced_network_settings),
  length-write_line (codes "LINKMODE") (print_short s.ethernet_link_mode) x7 8 11 refl
      (length-print_short s.ethernet_link_mode),
  length-write_line (codes "FLOWCTRL") (write_boolean s.ethernet_flow_control) (0 ∷ []) 8 5 refl
      (length-write_boolean s.ethernet_flow_control),
)
  where
    x7 : List ℕ
    x7 = write_line (codes "FLOWCTRL") (write_boolean s.ethernet_flow_control) (0 ∷ [])

    x6 : List ℕ
    x6 = write_line (codes "LINKMODE") (print_short s.ethernet_link_mode) x7

    x5 : List ℕ
    x5 = write_line (codes "ADVNETWORK") (write_boolean s.advanced_network_settings) x6

    x4 : List ℕ
    x4 = write_line (codes "GW") (write_addr s.gateway) x5

    x3 : List ℕ
    x3 = write_line (codes "NM") (write_addr s.subnet_mask) x4

    x2 : List ℕ
    x2 = write_line (codes "IP") (write_addr s.ip_address) x3

    x1 : List ℕ
    x1 = write_line (codes "DHCP") (write_boolean s.use_dhcp) x2
