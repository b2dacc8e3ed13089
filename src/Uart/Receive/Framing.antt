-- ===== src/Uart/Receive/Framing.antt =====
-- What `uart_get_data` of uart/uart_communicat.c makes of the bytes of a frame.
use multi_port_convertor.Base.{
  ℕ, suc, ◌+◌, ◌≤◌, ◌<◌, ◌≡◌, refl, ◌∙◌, ap, true, false, List, [], ◌∷◌, ◌++◌, arith, done, has,
  length, length-append, append_assoc, drop, set, word, put-done,
}
use multi_port_convertor.Uart.Receive.{Receiver, recv_size, more, returned, on_byte, uart_get_data}

set-append_length :
    (xs ys : List ℕ) (y b : ℕ) → set (xs ++ (y ∷ ys)) (length xs) b ≡ (xs ++ (b ∷ [])) ++ ys
set-append_length [] ys y b = refl
set-append_length (x ∷ xs) ys y b = ap (λ zs. x ∷ zs) (set-append_length xs ys y b)

-- In the middle of a frame: `got` has come, `left` bytes are to come, `tail` is older.
abbrev reading : List ℕ → ℕ → List ℕ → Receiver
reading got left tail = record {
  proctol_start = true;
  recv_len = length got;
  data_len = left;
  buf = got ++ tail;
}

-- Between two frames.
abbrev pub resting : List ℕ → Receiver
resting buf = record { proctol_start = false; recv_len = 0; data_len = 0; buf = buf }

on_byte-middle :
    (got : List ℕ) (left x y : ℕ) (tail : List ℕ)
    → 3 ≤ length got
    → left < 1000
    → on_byte x (reading got (suc (suc left)) (y ∷ tail))
      ≡ done (reading (got ++ (x ∷ [])) (suc left) tail, more)
unfolding on_byte
on_byte-middle got left x y tail h b = ground (
  arith,
  put-done (got ++ (y ∷ tail)) (length got) x,
  set-append_length got tail y x,
  length-append got (y ∷ tail),
  length-append got (x ∷ []),
)

on_byte-last :
    (got : List ℕ) (x y : ℕ) (tail : List ℕ)
    → 3 ≤ length got
    → on_byte x (reading got 1 (y ∷ tail))
      ≡ done (resting ((got ++ (x ∷ [])) ++ tail), returned true)
unfolding on_byte
on_byte-last got x y tail h = ground (
  arith,
  put-done (got ++ (y ∷ tail)) (length got) x,
  set-append_length got tail y x,
  length-append got (y ∷ tail),
)

-- The bytes behind the length field.
rest-returned :
    (got rest tail next : List ℕ)
    → 3 ≤ length got
    → length rest < 1000
    → 0 < length rest
    → length rest ≤ length tail
    → uart_get_data (reading got (length rest) tail) (rest ++ next)
      ≡ done (true, resting (got ++ (rest ++ drop (length rest) tail)), next)
unfolding uart_get_data
rest-returned got [] tail next h s p t = absurd (omega arith)
rest-returned got (x ∷ rest) [] next h s p t = absurd (omega arith)
rest-returned got (x ∷ []) (y ∷ tail) next h s p t = rw (on_byte-last got x y tail h, append_assoc)
rest-returned got (x ∷ z ∷ rest) (y ∷ tail) next h s p t =
    rw (on_byte-middle got (length rest) x y tail h (omega arith)) (
      rest-returned (got ++ (x ∷ [])) (z ∷ rest) tail next
        (omega (arith, length-append got (x ∷ []))) (omega arith) (omega arith) (omega arith)
      ∙ ap (λ b. done (true, resting b, next))
          (append_assoc got (x ∷ []) (z ∷ (rest ++ drop (suc (length rest)) tail))))

-- Bytes before the start byte are passed over.
noise-skipped :
    (buf noise chs : List ℕ)
    → has 0xC0 noise ≡ false
    → uart_get_data (resting buf) (noise ++ chs) ≡ uart_get_data (resting buf) chs
unfolding uart_get_data on_byte
noise-skipped buf [] chs h = refl
noise-skipped buf (x ∷ noise) chs h = ground (arith, noise-skipped buf noise chs)

-- The start byte and the length, where the length is allowed.
head-read :
    (a b c msb lsb : ℕ) (tail chs : List ℕ)
    → word msb lsb + 1 ≤ 129
    → uart_get_data (resting (a ∷ b ∷ c ∷ tail)) (0xC0 ∷ msb ∷ lsb ∷ chs)
      ≡ uart_get_data (reading (0xC0 ∷ msb ∷ lsb ∷ []) (word msb lsb + 1) tail) chs
unfolding uart_get_data on_byte
head-read a b c msb lsb tail chs h = ground (
  arith,
  put-done (a ∷ b ∷ c ∷ tail) 0 0xC0,
  put-done (0xC0 ∷ b ∷ c ∷ tail) 1 msb,
  put-done (0xC0 ∷ msb ∷ c ∷ tail) 2 lsb,
)

head-refused :
    (a b c msb lsb : ℕ) (tail chs : List ℕ)
    → 128 < word msb lsb
    → uart_get_data (resting (a ∷ b ∷ c ∷ tail)) (0xC0 ∷ msb ∷ lsb ∷ chs)
      ≡ done (false, resting (0xC0 ∷ msb ∷ lsb ∷ tail), chs)
unfolding uart_get_data on_byte
head-refused a b c msb lsb tail chs h = ground (
  arith,
  put-done (a ∷ b ∷ c ∷ tail) 0 0xC0,
  put-done (0xC0 ∷ b ∷ c ∷ tail) 1 msb,
  put-done (0xC0 ∷ msb ∷ c ∷ tail) 2 lsb,
)

-- Between two frames, with a buffer of 136 bytes and behind any bytes without a start byte: a frame
-- whose length field is at most 128 and counts the bytes behind it less one is returned whole at
-- the front of the buffer. What follows it is not read, and the variables are ready for the next
-- frame.
pub uart_get_data-frame :
    (buf noise body next : List ℕ) (msb lsb : ℕ)
    → length buf ≡ recv_size
    → has 0xC0 noise ≡ false
    → length body ≡ word msb lsb + 1
    → word msb lsb ≤ 128
    → uart_get_data (resting buf) (noise ++ (0xC0 ∷ msb ∷ lsb ∷ (body ++ next)))
      ≡ done (true, resting (0xC0 ∷ msb ∷ lsb ∷ (body ++ drop (length body) (drop 3 buf))), next)
uart_get_data-frame [] noise body next msb lsb s n l w = absurd (omega arith)
uart_get_data-frame (a ∷ []) noise body next msb lsb s n l w = absurd (omega arith)
uart_get_data-frame (a ∷ b ∷ []) noise body next msb lsb s n l w = absurd (omega arith)
uart_get_data-frame (a ∷ b ∷ c ∷ tail) noise body next msb lsb s n l w =
    noise-skipped (a ∷ b ∷ c ∷ tail) noise (0xC0 ∷ msb ∷ lsb ∷ (body ++ next)) n
    ∙ head-read a b c msb lsb tail (body ++ next) (omega arith)
    ∙ rw (← l) (
        rest-returned (0xC0 ∷ msb ∷ lsb ∷ []) body tail next (omega arith) (omega arith)
          (omega arith) (omega arith))

-- Between two frames, with a buffer of 136 bytes and behind any bytes without a start byte: a
-- length field above 128 makes `uart_get_data` return false as soon as it has come, with the rest
-- unread and the variables ready for the next frame.
pub uart_get_data-too_long :
    (buf noise chs : List ℕ) (msb lsb : ℕ)
    → length buf ≡ recv_size
    → has 0xC0 noise ≡ false
    → 128 < word msb lsb
    → uart_get_data (resting buf) (noise ++ (0xC0 ∷ msb ∷ lsb ∷ chs))
      ≡ done (false, resting (0xC0 ∷ msb ∷ lsb ∷ drop 3 buf), chs)
uart_get_data-too_long [] noise chs msb lsb s n w = absurd (omega arith)
uart_get_data-too_long (a ∷ []) noise chs msb lsb s n w = absurd (omega arith)
uart_get_data-too_long (a ∷ b ∷ []) noise chs msb lsb s n w = absurd (omega arith)
uart_get_data-too_long (a ∷ b ∷ c ∷ tail) noise chs msb lsb s n w =
    noise-skipped (a ∷ b ∷ c ∷ tail) noise (0xC0 ∷ msb ∷ lsb ∷ chs) n
    ∙ head-refused a b c msb lsb tail chs w
