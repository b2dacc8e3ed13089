-- ===== src/Usb/Keys.antt =====
-- usb/hid_usage_id.h: the reports of the keys and the characters that they stand for, and the
-- devices that are known.
pub mod Codes
use multi_port_convertor.Base.{
  ℕ, Bool, true, false, ◌&&◌, List, [], ◌∷◌, Option, none, some, ◌==◌, if◌then◌else◌,
}

-- `struct hid_id_str`, with the three bytes of `id`.
pub record HidId : Type 0 where
  pub id0 : ℕ
  pub id1 : ℕ
  pub id2 : ℕ
  pub ascii : ℕ

abbrev key : ℕ → ℕ → ℕ → ℕ → HidId
key a b c d = record { id0 = a; id1 = b; id2 = c; ascii = d }

unfoldable pub hid_id_tab : List HidId
hid_id_tab =
    key 32 0 4 65
    ∷ key 32 0 5 66
    ∷ key 32 0 6 67
    ∷ key 32 0 7 68
    ∷ key 32 0 8 69
    ∷ key 32 0 9 70
    ∷ key 32 0 10 71
    ∷ key 32 0 11 72
    ∷ key 32 0 12 73
    ∷ key 32 0 13 74
    ∷ key 32 0 14 75
    ∷ key 32 0 15 76
    ∷ key 32 0 16 77
    ∷ key 32 0 17 78
    ∷ key 32 0 18 79
    ∷ key 32 0 19 80
    ∷ key 32 0 20 81
    ∷ key 32 0 21 82
    ∷ key 32 0 22 83
    ∷ key 32 0 23 84
    ∷ key 32 0 24 85
    ∷ key 32 0 25 86
    ∷ key 32 0 26 87
    ∷ key 32 0 27 88
    ∷ key 32 0 28 89
    ∷ key 32 0 29 90
    ∷ key 2 0 4 65
    ∷ key 2 0 5 66
    ∷ key 2 0 6 67
    ∷ key 2 0 7 68
    ∷ key 2 0 8 69
    ∷ key 2 0 9 70
    ∷ key 2 0 10 71
    ∷ key 2 0 11 72
    ∷ key 2 0 12 73
    ∷ key 2 0 13 74
    ∷ key 2 0 14 75
    ∷ key 2 0 15 76
    ∷ key 2 0 16 77
    ∷ key 2 0 17 78
    ∷ key 2 0 18 79
    ∷ key 2 0 19 80
    ∷ key 2 0 20 81
    ∷ key 2 0 21 82
    ∷ key 2 0 22 83
    ∷ key 2 0 23 84
    ∷ key 2 0 24 85
    ∷ key 2 0 25 86
    ∷ key 2 0 26 87
    ∷ key 2 0 27 88
    ∷ key 2 0 28 89
    ∷ key 2 0 29 90
    ∷ key 0 0 4 97
    ∷ key 0 0 5 98
    ∷ key 0 0 6 99
    ∷ key 0 0 7 100
    ∷ key 0 0 8 101
    ∷ key 0 0 9 102
    ∷ key 0 0 10 103
    ∷ key 0 0 11 104
    ∷ key 0 0 12 105
    ∷ key 0 0 13 106
    ∷ key 0 0 14 107
    ∷ key 0 0 15 108
    ∷ key 0 0 16 109
    ∷ key 0 0 17 110
    ∷ key 0 0 18 111
    ∷ key 0 0 19 112
    ∷ key 0 0 20 113
    ∷ key 0 0 21 114
    ∷ key 0 0 22 115
    ∷ key 0 0 23 116
    ∷ key 0 0 24 117
    ∷ key 0 0 25 118
    ∷ key 0 0 26 119
    ∷ key 0 0 27 120
    ∷ key 0 0 28 121
    ∷ key 0 0 29 122
    ∷ key 0 0 30 49
    ∷ key 0 0 31 50
    ∷ key 0 0 32 51
    ∷ key 0 0 33 52
    ∷ key 0 0 34 53
    ∷ key 0 0 35 54
    ∷ key 0 0 36 55
    ∷ key 0 0 37 56
    ∷ key 0 0 38 57
    ∷ key 0 0 39 48
    ∷ key 0 0 40 13
    ∷ key 0 0 44 32
    ∷ key 0 0 46 61
    ∷ key 0 0 0 0
    ∷ []

-- `memcmp(hid_id_tab[i].id, pcmp, 3) == 0`
abbrev pub same_id : HidId → ℕ → ℕ → ℕ → Bool
same_id k a b c = (k.id0 == a) && ((k.id1 == b) && (k.id2 == c))

-- The search of `hid_data_tsk`, which stops at the row with no character.
unfoldable pub find_from : List HidId → ℕ → ℕ → ℕ → Option ℕ
find_from [] a b c = none
find_from (k ∷ ks) a b c =
    let rest = find_from ks a b c in
    if k.ascii == 0 then none else if same_id k a b c then some k.ascii else rest

unfoldable pub find_key : ℕ → ℕ → ℕ → Option ℕ
unfolding find_from hid_id_tab
find_key = find_from hid_id_tab

-- `usb_product_list_t`
pub record UsbProduct : Type 0 where
  pub product : ℕ
  pub usb_type : ℕ

abbrev pub usb_product_list : List UsbProduct
usb_product_list =
    record { product = 0x7638; usb_type = 1 }
    ∷ record { product = 0x16c1; usb_type = 1 }
    ∷ record { product = 0x1010; usb_type = 2 }
    ∷ record { product = 0; usb_type = 0 }
    ∷ []

-- The loop of `find_hid_type`, which stops at the row with no product.
unfoldable pub find_product : List UsbProduct → ℕ → ℕ
find_product [] product = 0
find_product (p ∷ ps) product =
    let rest = find_product ps product in
    if p.product == 0 then 0 else if product == p.product then p.usb_type else rest

-- `find_hid_type`
unfoldable pub find_hid_type : ℕ → ℕ
unfolding find_product
find_hid_type = find_product usb_product_list
