-- ===== src/Usb/Examples/Wireless.antt =====
-- A disk whose settings name a network.
use multi_port_convertor.Base.{
  ℕ, ◌≡◌, refl, List, [], ◌∷◌, ◌++◌, none, some, arith, done, if◌then◌else◌, length, ◌==◌,
  replicate,
}
use multi_port_convertor.Tool.KeyFile.{Glib, Settings, null, freed}
use multi_port_convertor.Usb.Disk.{Disks, mnt, sd}
use multi_port_convertor.Usb.Disk.Texts.{
  set_ssid, set_key, commit, restart, copy_from, to_home, system_conf,
}
use multi_port_convertor.Usb.Disk.Wireless.{default_passwd, read_wifi_file}
use multi_port_convertor.Usb.Disk.Wireless.Commands.{read_wifi_file-commands}
use multi_port_convertor.Usb.Examples.{stack, disks}

-- The file is its one text, which is that of every key of four letters.
abbrev short_keys : Glib (List ℕ)
short_keys = record {
  load_from_data = λ bytes. some bytes;
  to_data = λ f. f;
  get_integer = λ f group key. none;
  get_string = λ f group key. if length key == 4 then some f else none;
  set_integer = λ f group key value. f;
  set_string = λ f group key text. text;
}

abbrev on_disk : Settings (List ℕ)
on_disk = record { keyfile = null; files = λ name. some (65 ∷ 80 ∷ []) }

-- The disk is mounted on `/mnt/sda1`.
abbrev mounted : Disks
mounted = record disks {
  g_udisk = λ i. record {
    port = 0;
    state = 0;
    all_capacity = 1000;
    left_capacity = 500;
    dir = mnt ++ sd b'a';
  };
}

abbrev conf_path : List ℕ
conf_path = (mnt ++ sd b'a') ++ system_conf

read_wifi_file-commands_example :
    read_wifi_file short_keys stack (replicate 32 7) (replicate 32 7) 0 on_disk mounted
    ≡ done (
      record on_disk { keyfile = freed },
      record mounted {
        shell =
            (copy_from ++ (conf_path ++ to_home))
            ∷ restart
            ∷ commit
            ∷ (set_key ++ (default_passwd ++ (39 ∷ [])))
            ∷ (set_ssid ++ ((65 ∷ 80 ∷ []) ++ (39 ∷ [])))
            ∷ [];
      },
    )
read_wifi_file-commands_example =
    read_wifi_file-commands short_keys stack (replicate 32 7) (replicate 32 7) refl refl 0 on_disk
      mounted (65 ∷ 80 ∷ []) refl (record { short = omega arith; no_nul = refl; no_format = refl })
      (record { short = omega arith; no_nul = refl; no_format = refl })
      (record { short = omega arith; no_nul = refl; no_format = refl })
