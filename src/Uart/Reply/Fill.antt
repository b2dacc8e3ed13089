-- ===== src/Uart/Reply/Fill.antt =====
-- The answers of uart/uart_protocol.c, written byte by byte over the array of an older frame.
use multi_port_convertor.Base.{
  ℕ, suc, ◌+◌, ◌%◌, ◌≤◌, ◌<◌, ◌≡◌, List, [], ◌∷◌, ◌++◌, arith, done, faults, copy, length,
  length-append, drop, take-append, append_assoc, put-done, copy-done, set-behind, drop-behind,
  length-drop,
}
use multi_port_convertor.Uart.Reply.{Response, add_byte, add_bytes}

-- The bytes `out` have been written over the array `old`.
abbrev pub filled : List ℕ → List ℕ → Response
filled out old = record { payload = out ++ drop (length out) old; len = length out }

pub length-filled :
    (out old : List ℕ) → length out ≤ length old → length (filled out old).payload ≡ length old
length-filled out old h =
    omega (arith, length-append out (drop (length out) old), length-drop (length out) old)

pub add_byte-filled :
    (v : ℕ) (out old : List ℕ)
    → length out < length old
    → length old < 65536
    → add_byte v (filled out old) ≡ done (filled (out ++ (v % 256 ∷ [])) old)
unfolding add_byte
add_byte-filled v out old h s =
    let w = v % 256 in
    let e : length (out ++ (w ∷ [])) ≡ suc (length out) =
      omega (arith, length-append out (w ∷ [])) in
    rw
      (
        put-done (out ++ drop (length out) old) (length out) w
            (omega (arith, length-filled out old)),
        set-behind out old w h,
        e,
      )
      (ground (arith, append_assoc out (w ∷ []) (drop (suc (length out)) old)))

pub add_bytes-filled :
    (src out old : List ℕ)
    → length out + length src ≤ length old
    → length old < 65536
    → add_bytes src (filled out old) ≡ done (filled (out ++ src) old)
unfolding add_bytes
add_bytes-filled src out old h s =
    rw
      (
        copy-done (out ++ drop (length out) old) (length out) src
            (omega (arith, length-filled out old)),
        take-append out (drop (length out) old),
        drop-behind out old (length src) (omega arith),
        length-append out src,
      )
      (ground (arith, append_assoc out src (drop (length out + length src) old)))

-- Bytes that do not fit behind the others are written past the array.
pub add_bytes-faults :
    (src out old : List ℕ)
    → length out ≤ length old
    → length old < length out + length src
    → add_bytes src (filled out old) ≡ faults
unfolding add_bytes copy
add_bytes-faults src out old h b = ground (arith, length-filled out old)
