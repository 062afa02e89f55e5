-- ===== src/Tests/SavedSettings.antt =====
-- A settings file that is written and read back.
use hdlgame_installer.Base.{
  none, ◌≤◌, length, ◌≡◌, refl, true, false, arith, ok, err, einval, failure,
}
use hdlgame_installer.Settings.Text.{codes, is_newline, is_space, is_alnum}
use hdlgame_installer.Settings.{Settings, load_defaults, parse_settings, write_settings}
use hdlgame_installer.Settings.RoundTrip.{IsSettings, parse_settings-write_settings}
use hdlgame_installer.Settings.Bounds.{settings_buffer_size, length-write_settings}
use hdlgame_installer.Settings.Load.{Loader, LoadAnswers, load_settings}
use hdlgame_installer.Settings.Loaded.{
  IsHeld, reads_saved, load_settings-IsHeld, load_settings-write_settings,
}

-- The defaults with another address, and half duplex forced.
abbrev mine : Settings
mine = record {
  sort_titles = true;
  use_dhcp = false;
  ip_address = record { a0 = 10; a1 = 0; a2 = 255; a3 = 7 };
  subnet_mask = record { a0 = 255; a1 = 0; a2 = 0; a3 = 0 };
  gateway = record { a0 = 10; a1 = 0; a2 = 0; a3 = 1 };
  advanced_network_settings = true;
  ethernet_link_mode = 65535;
  ethernet_flow_control = false;
}

mine-IsSettings : IsSettings mine
mine-IsSettings = record {
  ip = record { b0 = omega arith; b1 = omega arith; b2 = omega arith; b3 = omega arith };
  mask = record { b0 = omega arith; b1 = omega arith; b2 = omega arith; b3 = omega arith };
  gateway = record { b0 = omega arith; b1 = omega arith; b2 = omega arith; b3 = omega arith };
  mode = omega arith;
}

parse_settings-write_settings_example :
    parse_settings (err failure) (write_settings mine) (load_defaults 0) ≡ (ok 0, mine)
parse_settings-write_settings_example =
    parse_settings-write_settings (err failure) mine (load_defaults 0) mine-IsSettings

length-write_settings_example : length (write_settings mine) ≤ settings_buffer_size
length-write_settings_example = length-write_settings mine

-- Nothing is held before, and the file is empty.
abbrev nothing_held : Loader
nothing_held = record { mounts = 0; files = 0; buffers = 0; settings = mine }

abbrev empty_file : LoadAnswers
empty_file = record {
  mounted = ok 0;
  opened = ok 3;
  len = ok 0;
  has_memory = true;
  contents = none;
}

load_settings-IsHeld_example :
    IsHeld 1 nothing_held (load_settings 0 (ok 0) empty_file nothing_held).1
load_settings-IsHeld_example = load_settings-IsHeld 0 (ok 0) empty_file nothing_held

load_settings-write_settings_example :
    ((load_settings 0 (err failure) (reads_saved 0 3 mine) nothing_held).0 ≡ ok 0)
    × ((load_settings 0 (err failure) (reads_saved 0 3 mine) nothing_held).1.settings ≡ mine)
load_settings-write_settings_example =
    load_settings-write_settings 0 (err failure) 0 3 mine nothing_held mine-IsSettings

missing_equals : (parse_settings (ok 0) (codes "SORT true") mine).0 ≡ err failure
unfolding parse_settings is_newline is_space is_alnum
missing_equals = refl

unknown_key : (parse_settings (ok 0) (codes "COLOUR = 1") mine).0 ≡ err einval
unfolding parse_settings is_newline is_space is_alnum
unknown_key = refl
