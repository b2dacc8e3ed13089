-- ===== src/Base/Bytes.antt =====
-- Bytes, and copies into an array of fixed size.
use Prim.Native.Nat.{ℕ, ◌+◌, ◌*◌, ◌%◌, ◌≤◌, ◌<◌}
use mathlib.Core.Path.{◌≡◌, refl}
use mathlib.Core.List.{List, [], ◌∷◌, ◌++◌, append_assoc}
use native.Mathlib.Omega.{arith}
use multi_port_convertor.Base.Tests.{leb, ltb, if◌then◌else◌}
use multi_port_convertor.Base.Lists.{length, length-append, take, drop, set, get_or, All}
use multi_port_convertor.Base.Results.{Outcome, done, faults}

-- The conversion to `__u8`.
abbrev pub u8 : ℕ → ℕ
u8 n = n % 256

-- The conversion to `__u16`.
abbrev pub u16 : ℕ → ℕ
u16 n = n % 65536

-- The conversion to `__u32`.
abbrev pub u32 : ℕ → ℕ
u32 n = n % 4294967296

-- `(msb << 8) + lsb`
abbrev pub word : ℕ → ℕ → ℕ
word msb lsb = msb * 256 + lsb

-- `memcpy(&buf[off], src, n)`, where `src` is the `n` bytes. It faults where it leaves `buf`.
unfoldable pub copy : List ℕ → ℕ → List ℕ → Outcome (List ℕ)
copy buf off src =
    if leb (off + length src) (length buf)
    then done (take off buf ++ (src ++ drop (off + length src) buf))
    else faults

-- `buf[i] = v`
unfoldable pub put : List ℕ → ℕ → ℕ → Outcome (List ℕ)
put buf i v = if ltb i (length buf) then done (set buf i v) else faults

-- `buf[i]`
unfoldable pub fetch : List ℕ → ℕ → Outcome ℕ
fetch buf i = if ltb i (length buf) then done (get_or buf i 0) else faults

-- The first `n` bytes of `buf`, for a function that reads them.
unfoldable pub read : List ℕ → ℕ → Outcome (List ℕ)
read buf n = if leb n (length buf) then done (take n buf) else faults

pub put-done : (buf : List ℕ) (i v : ℕ) → i < length buf → put buf i v ≡ done (set buf i v)
unfolding put
put-done buf i v h = ground arith

pub fetch-done : (buf : List ℕ) (i : ℕ) → i < length buf → fetch buf i ≡ done (get_or buf i 0)
unfolding fetch
fetch-done buf i h = ground arith

pub read-done : (buf : List ℕ) (n : ℕ) → n ≤ length buf → read buf n ≡ done (take n buf)
unfolding read
read-done buf n h = ground arith

pub copy-done :
    (buf : List ℕ) (off : ℕ) (src : List ℕ)
    → off + length src ≤ length buf
    → copy buf off src ≡ done (take off buf ++ (src ++ drop (off + length src) buf))
unfolding copy
copy-done buf off src h = ground arith

-- `sprintf` or `strcpy` of a text into an array in which it fits.
pub text_copied :
    (array text : List ℕ)
    → length text < length array
    → copy array 0 (text ++ (0 ∷ [])) ≡ done (text ++ (0 ∷ drop (length text + 1) array))
text_copied array text h =
    let one : length (text ++ (0 ∷ [])) ≡ length text + 1 =
      omega (arith, length-append text (0 ∷ [])) in
    let zero_add : 0 + (length text + 1) ≡ length text + 1 = omega arith in
    rw
      (
        copy-done array 0 (text ++ (0 ∷ [])) (omega arith),
        one,
        zero_add,
        append_assoc text (0 ∷ []) (drop (length text + 1) array),
      )
      refl

-- Every entry is a byte.
abbrev pub AllBytes : List ℕ → Type 0
AllBytes = All (λ b. b < 256)
