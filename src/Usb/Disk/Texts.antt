-- ===== src/Usb/Disk/Texts.antt =====
-- The constant texts of `read_wifi_param` in usb/udisk.c, as bytes.
use multi_port_convertor.Base.{ℕ, List, [], ◌∷◌}

-- `"uci set wireless.sta.ssid='"`
abbrev pub set_ssid : List ℕ
set_ssid =
    b'u' ∷ b'c' ∷ b'i' ∷ 32 ∷ b's' ∷ b'e' ∷ b't' ∷ 32 ∷ b'w' ∷ b'i' ∷ b'r' ∷ b'e' ∷ b'l' ∷ b'e'
    ∷ b's' ∷ b's' ∷ b'.' ∷ b's' ∷ b't' ∷ b'a' ∷ b'.' ∷ b's' ∷ b's' ∷ b'i' ∷ b'd' ∷ 61 ∷ 39 ∷ []

-- `"uci set wireless.sta.key='"`
abbrev pub set_key : List ℕ
set_key =
    b'u' ∷ b'c' ∷ b'i' ∷ 32 ∷ b's' ∷ b'e' ∷ b't' ∷ 32 ∷ b'w' ∷ b'i' ∷ b'r' ∷ b'e' ∷ b'l' ∷ b'e'
    ∷ b's' ∷ b's' ∷ b'.' ∷ b's' ∷ b't' ∷ b'a' ∷ b'.' ∷ b'k' ∷ b'e' ∷ b'y' ∷ 61 ∷ 39 ∷ []

-- `"uci commit wireless"`
abbrev pub commit : List ℕ
commit =
    b'u' ∷ b'c' ∷ b'i' ∷ 32 ∷ b'c' ∷ b'o' ∷ b'm' ∷ b'm' ∷ b'i' ∷ b't' ∷ 32 ∷ b'w' ∷ b'i' ∷ b'r'
    ∷ b'e' ∷ b'l' ∷ b'e' ∷ b's' ∷ b's' ∷ []

-- `"/etc/init.d/network restart"`
abbrev pub restart : List ℕ
restart =
    b'/' ∷ b'e' ∷ b't' ∷ b'c' ∷ b'/' ∷ b'i' ∷ b'n' ∷ b'i' ∷ b't' ∷ b'.' ∷ b'd' ∷ b'/' ∷ b'n' ∷ b'e'
    ∷ b't' ∷ b'w' ∷ b'o' ∷ b'r' ∷ b'k' ∷ 32 ∷ b'r' ∷ b'e' ∷ b's' ∷ b't' ∷ b'a' ∷ b'r' ∷ b't' ∷ []

-- `"cp "`
abbrev pub copy_from : List ℕ
copy_from = b'c' ∷ b'p' ∷ 32 ∷ []

-- `" /home/root"`
abbrev pub to_home : List ℕ
to_home = 32 ∷ b'/' ∷ b'h' ∷ b'o' ∷ b'm' ∷ b'e' ∷ b'/' ∷ b'r' ∷ b'o' ∷ b'o' ∷ b't' ∷ []

-- `"/system.conf"`
abbrev pub system_conf : List ℕ
system_conf = b'/' ∷ b's' ∷ b'y' ∷ b's' ∷ b't' ∷ b'e' ∷ b'm' ∷ b'.' ∷ b'c' ∷ b'o' ∷ b'n' ∷ b'f' ∷ []
