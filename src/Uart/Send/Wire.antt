-- ===== src/Uart/Send/Wire.antt =====
-- Which bytes `uart_send_tsk` puts on the line.
use multi_port_convertor.Base.{
  ℕ, zero, suc, ◌+◌, ◌*◌, ◌/◌, ◌%◌, ◌≤◌, ◌<◌, ◌≡◌, refl, ap, ◌∙◌, List, [], ◌∷◌, ◌++◌, arith, done,
  faults, length, length-append, take, drop, append-nil, read, read-done, length-drop, length,
}
use multi_port_convertor.Uart.Frame.{bytes_of, frame_len}
use multi_port_convertor.Uart.Frame.Checksum.{sum}
use multi_port_convertor.Uart.Notify.{SendInfo}
use multi_port_convertor.Uart.Notify.Frames.{framed}
use multi_port_convertor.Uart.Send.{cmd_size, send_loop}

take-take : (n : ℕ) (xs : List ℕ) → take n (take n xs) ≡ take n xs
take-take zero xs = refl
take-take (suc n) [] = refl
take-take (suc n) (x ∷ xs) = ap (λ ys. x ∷ ys) (take-take n xs)

-- Where the port takes a frame in one call, the line gets the frame's bytes.
pub send_loop-whole :
    (object later : List ℕ) (len : ℕ)
    → 0 < len
    → len ≤ length object
    → send_loop (len ∷ later) object 0 len ≡ done (take len object)
unfolding send_loop
send_loop-whole object [] len p h =
    ground (arith, read-done object len, take-take len object, append-nil (take len object))
send_loop-whole object (x ∷ later) len p h =
    ground (arith, read-done object len, take-take len object, append-nil (take len object))

drop_all : (n : ℕ) (xs : List ℕ) → length xs ≤ n → drop n xs ≡ []
drop_all zero [] h = refl
drop_all zero (x ∷ xs) h = absurd (omega arith)
drop_all (suc n) [] h = refl
drop_all (suc n) (x ∷ xs) h = drop_all n xs (omega arith)

-- Where the port takes only a part of a frame of at most 136 bytes and would then take more, the
-- second call reads outside the object.
pub send_loop-partial :
    (object later : List ℕ) (len first second : ℕ)
    → length object ≡ cmd_size
    → len ≤ cmd_size
    → 0 < first
    → first < len
    → 0 < second
    → send_loop (first ∷ second ∷ later) object 0 len ≡ faults
unfolding send_loop read
send_loop-partial object later len first second s l a b c =
    ground (arith, drop_all ((0 + first) * cmd_size) object)

take-append_suc :
    (xs : List ℕ) (y : ℕ) (ys : List ℕ) → take (suc (length xs)) (xs ++ (y ∷ ys)) ≡ xs ++ (y ∷ [])
take-append_suc [] y ys = refl
take-append_suc (x ∷ xs) y ys = ap (λ zs. x ∷ zs) (take-append_suc xs y ys)

-- Where the port takes the frame of at most 128 bytes in one call, the line gets the start byte,
-- the length in two bytes, four header bytes, the content, and the sum of header and content modulo
-- 256.
pub send_loop-framed :
    (info : SendInfo) (sn : ℕ) (content old later : List ℕ)
    → length content ≤ 128
    → length old ≡ 129
    → let f = framed info sn content old in
      send_loop ((frame_len f + 4) ∷ later) (bytes_of f) 0 (frame_len f + 4)
      ≡ done (
          0xD0
          ∷ (length content + 4) / 256
          ∷ (length content + 4) % 256
          ∷ 0
          ∷ sn
          ∷ info.pdt_type
          ∷ info.cmd_id
          ∷ (content ++ ((sn + (info.pdt_type + (info.cmd_id + sum content))) % 256 ∷ [])))
send_loop-framed info sn content old later h o =
    let f = framed info sn content old in
    let c = (sn + (info.pdt_type + (info.cmd_id + sum content))) % 256 in
    let e : frame_len f + 4 ≡ suc (suc (suc (suc (suc (suc (suc (suc (length content)))))))) =
      omega arith in
    send_loop-whole (bytes_of f) later (frame_len f + 4) (omega arith) (
      omega (
        arith,
        length-append content (c ∷ drop (suc (length content)) old),
        length-drop (suc (length content)) old,
      ))
    ∙ rw (e, take-append_suc content c (drop (suc (length content)) old)) (ap done (ground arith))
