-- ===== src/Usb/Open.antt =====
-- `open_hid` of usb/usb.c: the first device file that opens.
pub mod Paths
use multi_port_convertor.Base.{ℕ, List, [], ◌∷◌, ◌++◌, Option, none, some, ◌==◌, if◌then◌else◌}

-- "/dev/"
abbrev pub dev : List ℕ
dev = b'/' ∷ b'd' ∷ b'e' ∷ b'v' ∷ b'/' ∷ []

-- "hidraw" and a digit
abbrev pub hidraw : ℕ → List ℕ
hidraw digit = b'h' ∷ b'i' ∷ b'd' ∷ b'r' ∷ b'a' ∷ b'w' ∷ digit ∷ []

abbrev pub possible_hid : List (List ℕ)
possible_hid = hidraw b'0' ∷ hidraw b'1' ∷ hidraw b'2' ∷ []

-- `do_check`: what `access` returns for the file.
abbrev pub do_check : (access : List ℕ → ℕ) → List ℕ → ℕ
do_check access name = access (dev ++ name)

-- The first result, where it is a descriptor.
abbrev pub or_else : Option ℕ → Option ℕ → Option ℕ
or_else (some fd) later = some fd
or_else none later = later

-- The loop from an entry on. `path` is what `absolute_file_name` holds: `strcat` appends to it in
-- each round. `fd` is the last descriptor, `none` where it is negative, which is what `open` gives
-- for a failure. The three names fit into the array of 32 bytes.
unfoldable pub open_from :
    (access : List ℕ → ℕ) (opens : List ℕ → Option ℕ)
    → List (List ℕ)
    → (path : List ℕ) → (fd : Option ℕ) → Option ℕ
open_from access opens [] path fd = fd
open_from access opens (name ∷ names) path fd =
    let path' = path ++ name in
    let missing = open_from access opens names path fd in
    let failed = open_from access opens names path' none in
    if do_check access name == 0 then or_else (opens path') failed else missing

-- `open_hid`: 0 where there is no device file.
unfoldable pub open_hid : (access : List ℕ → ℕ) (opens : List ℕ → Option ℕ) → Option ℕ
unfolding open_from
open_hid access opens = open_from access opens possible_hid dev (some 0)
