-- ===== src/Usb/Disk/Wireless.antt =====
-- `read_wifi_param` of usb/udisk.c with its settings file, which tool/key_file.c reads, and the arrays
-- for what it finds there.
pub mod Commands
use multi_port_convertor.Base.{
  ℕ, List, [], ◌∷◌, ◌++◌, none, some, Outcome, done, ◌>>=◌, if◌then◌else◌, copy, replicate,
}
use multi_port_convertor.Tool.KeyFile.{
  Glib, Settings, key_file_open, key_file_get_string, key_file_close,
}
use multi_port_convertor.Uart.Reply.{c_string}
use multi_port_convertor.Usb.Disk.{Disks, read_wifi_param}
use multi_port_convertor.Usb.Disk.Texts.{system_conf}

-- "wifi_set", "ssid" and "passwd"
abbrev pub wifi_set : List ℕ
wifi_set = b'w' ∷ b'i' ∷ b'f' ∷ b'i' ∷ b'_' ∷ b's' ∷ b'e' ∷ b't' ∷ []

abbrev pub ssid_key : List ℕ
ssid_key = b's' ∷ b's' ∷ b'i' ∷ b'd' ∷ []

abbrev pub passwd_key : List ℕ
passwd_key = b'p' ∷ b'a' ∷ b's' ∷ b's' ∷ b'w' ∷ b'd' ∷ []

-- "skywalker" and "wireless"
abbrev pub default_ssid : List ℕ
default_ssid = b's' ∷ b'k' ∷ b'y' ∷ b'w' ∷ b'a' ∷ b'l' ∷ b'k' ∷ b'e' ∷ b'r' ∷ []

abbrev pub default_passwd : List ℕ
default_passwd = b'w' ∷ b'i' ∷ b'r' ∷ b'e' ∷ b'l' ∷ b'e' ∷ b's' ∷ b's' ∷ []

-- `stack` is what the arrays of the notifications hold before them; `ssid` and `passwd` are the local
-- arrays of 32 bytes, as they are before the call, and `key_file_name` is zeroed.
module _ {F : Type 0} (glib : Glib F) (stack ssid passwd : List ℕ) where
  unfoldable pub read_wifi_file : ℕ → Settings F → Disks → Outcome (Settings F × Disks)
  read_wifi_file i s d = do
    let file = (d.g_udisk i).dir ++ system_conf
    key_file_name ← copy (replicate 32 0) 0 (file ++ (0 ∷ []))
    let (opened, s1) = key_file_open glib file s
    let closed = (do d' ← read_wifi_param stack none i d; done (s1, d'))
    let read = (do
      a ← key_file_get_string glib ssid wifi_set ssid_key default_ssid s1
      b ← key_file_get_string glib passwd wifi_set passwd_key default_passwd s1
      name ← c_string a
      key ← c_string b
      d' ← read_wifi_param stack (some (name, key)) i d
      s2 ← key_file_close glib s1
      done (s2, d'))
    (if opened then read else closed)
