-- ===== src/Usb/Keys/Codes.antt =====
-- Which characters the table of usb/hid_usage_id.h can give.
use multi_port_convertor.Base.{ℕ, ◌<◌, ◌≡◌, List, [], ◌∷◌, some, arith, All}
use multi_port_convertor.Usb.Keys.{HidId, hid_id_tab, find_from, find_key}

abbrev Printable : ℕ → Type 0
Printable c = (0 < c) × (c < 128)

find_from-Printable :
    (ks : List HidId) (a b c : ℕ) {r : ℕ}
    → All (λ k. k.ascii < 128) ks
    → find_from ks a b c ≡ some r
    → Printable r
unfolding find_from
find_from-Printable [] a b c {r} l h = cc
find_from-Printable (k ∷ ks) a b c {r} l h =
    ground (arith, find_from-Printable ks a b c {r = r} l.1)

tab-Printable : All (λ k. k.ascii < 128) hid_id_tab
unfolding hid_id_tab
tab-Printable = omega arith

-- A report that the table knows stands for a character between 1 and 127.
pub find_key-Printable : (a b c : ℕ) {r : ℕ} → find_key a b c ≡ some r → Printable r
unfolding find_key
find_key-Printable a b c h = find_from-Printable hid_id_tab a b c tab-Printable h
