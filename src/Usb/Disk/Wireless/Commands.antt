-- ===== src/Usb/Disk/Wireless/Commands.antt =====
-- What `read_wifi_param` of usb/udisk.c runs for the settings of a disk, and for too long ones.
use multi_port_convertor.Base.{
  ℕ, ◌+◌, ◌≤◌, ◌<◌, ◌≡◌, refl, false, true, List, [], ◌∷◌, ◌++◌, some, arith, done, faults, copy,
  text_copied, replicate, has, length, length-append, length-replicate, drop, leb,
}
use multi_port_convertor.Tool.KeyFile.{
  Glib, Settings, freed, load, or_default, key_file_open, key_file_get_string, key_file_close,
}
use multi_port_convertor.Uart.Reply.Plain.{format_alone-plain}
use multi_port_convertor.Uart.Upload.Fields.{c_string-append}
use multi_port_convertor.Usb.Disk.{Disks, read_wifi_param}
use multi_port_convertor.Usb.Disk.Texts.{
  set_ssid, set_key, commit, restart, copy_from, to_home, system_conf,
}
use multi_port_convertor.Usb.Disk.Wireless.{
  wifi_set, ssid_key, passwd_key, default_ssid, default_passwd, read_wifi_file,
}

-- A text that the program can use: it ends before its array, is no format and has no NUL.
pub record IsPlain (text : List ℕ) : Type 0 where
  pub short : length text < 32
  pub no_nul : has 0 text ≡ false
  pub no_format : has b'%' text ≡ false

module _ {F : Type 0} (glib : Glib F) (stack ssid passwd : List ℕ) (room : length ssid ≡ 32)
    (room' : length passwd ≡ 32) (i : ℕ) (s : Settings F) (d : Disks) (f : F) where
  -- The file on the disk.
  abbrev pub conf : List ℕ
  conf = (d.g_udisk i).dir ++ system_conf

  -- The name of the network and the password in it, or else those of the program.
  abbrev pub name_in : List ℕ
  name_in = or_default glib (glib.get_string f wifi_set ssid_key) default_ssid

  abbrev pub passwd_in : List ℕ
  passwd_in = or_default glib (glib.get_string f wifi_set passwd_key) default_passwd

  -- Where the settings file of the disk loads, and its path, the name of the network and the
  -- password are texts of less than 32 bytes without a percent sign or a NUL: `read_wifi_param`
  -- runs the five commands that set the name, set the password, commit both, restart the network
  -- and copy the file, in this order, changes nothing else of the disks, and closes the file.
  pub read_wifi_file-commands :
      load glib (s.files conf) ≡ some f
      → IsPlain conf
      → IsPlain name_in
      → IsPlain passwd_in
      → read_wifi_file glib stack ssid passwd i s d
        ≡ done (
          record s { keyfile = freed },
          record d {
            shell =
                (copy_from ++ (conf ++ to_home))
                ∷ restart
                ∷ commit
                ∷ (set_key ++ (passwd_in ++ (39 ∷ [])))
                ∷ (set_ssid ++ (name_in ++ (39 ∷ [])))
                ∷ d.shell;
          },
        )
  unfolding read_wifi_file key_file_open key_file_get_string key_file_close read_wifi_param
  read_wifi_file-commands e c n p =
      rw
        (
          text_copied (replicate 32 0) conf (omega (arith, c.short, length-replicate {A = ℕ} 32 0)),
          e,
          text_copied ssid name_in (omega (arith, n.short)),
          text_copied passwd passwd_in (omega (arith, p.short)),
          c_string-append name_in (drop (length name_in + 1) ssid) n.no_nul,
          c_string-append passwd_in (drop (length passwd_in + 1) passwd) p.no_nul,
          format_alone-plain name_in n.no_format,
          format_alone-plain passwd_in p.no_format,
          format_alone-plain conf c.no_format,
        )
        refl

  -- A name of 32 bytes or more in the settings file of a disk is written past the array for it.
  pub read_wifi_file-overflow :
      load glib (s.files conf) ≡ some f
      → IsPlain conf
      → 32 ≤ length name_in
      → read_wifi_file glib stack ssid passwd i s d ≡ faults
  unfolding read_wifi_file key_file_open key_file_get_string copy
  read_wifi_file-overflow e c l =
      let k : leb (0 + length (name_in ++ (0 ∷ []))) (length ssid) ≡ false =
        ground (arith, length-append name_in (0 ∷ [])) in
      let o : leb (0 + length (conf ++ (0 ∷ []))) (length (replicate {A = ℕ} 32 0)) ≡ true =
        ground (arith, c.short, length-append conf (0 ∷ [])) in
      rw (o, e, k) refl
