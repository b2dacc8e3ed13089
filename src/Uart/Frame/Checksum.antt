-- ===== src/Uart/Frame/Checksum.antt =====
-- What the check sum of uart/uart_protocol.c protects.
use multi_port_convertor.Base.{
  ℕ, zero, suc, ◌+◌, ◌-◌, ◌%◌, ◌≤◌, ◌<◌, ◌≡◌, ◌≢◌, refl, true, false, List, [], ◌∷◌, arith, done,
  ◌==◌, length, take, set, get_or, read-done, fetch-done, length-set, ap, sym,
}
use multi_port_convertor.Uart.Frame.{
  CmdFormat, covered, frame_len, sum_from, check_sum_cal, procotol_check,
}

-- The plain sum.
abbrev pub sum : List ℕ → ℕ
sum [] = 0
sum (x ∷ xs) = x + sum xs

pub sum_from-sum : (tmp : ℕ) (xs : List ℕ) → sum_from tmp xs % 256 ≡ (tmp + sum xs) % 256
unfolding sum_from
sum_from-sum tmp [] = omega arith
sum_from-sum tmp (x ∷ xs) = omega (arith, sum_from-sum ((tmp + x) % 4294967296) xs)

-- `check_sum_cal` is the sum of the bytes modulo 256.
pub check_sum_cal-sum :
    (p : List ℕ) (len : ℕ)
    → len ≤ length p
    → len < 65536
    → check_sum_cal p len ≡ done (sum (take len p) % 256)
unfolding check_sum_cal
check_sum_cal-sum p len h b = ground (arith, read-done p len, sum_from-sum 0 (take len p))

-- The check is passed exactly where the byte behind the covered ones is their sum modulo 256.
pub procotol_check_lem :
    (f : CmdFormat)
    → 4 ≤ frame_len f
    → frame_len f < length f.payload + 4
    → frame_len f < 65536
    → procotol_check f
      ≡ done (get_or f.payload (frame_len f - 4) 0 == (sum (take (frame_len f) (covered f)) % 256))
unfolding procotol_check
procotol_check_lem f lo hi w =
    ground
      (arith, check_sum_cal-sum (covered f) (frame_len f), fetch-done f.payload (frame_len f - 4))

sum-take-set :
    (n k b : ℕ) (xs : List ℕ)
    → k < n
    → k < length xs
    → sum (take n (set xs k b)) + get_or xs k 0 ≡ sum (take n xs) + b
sum-take-set zero k b xs h l = absurd (omega arith)
sum-take-set (suc n) k b [] h l = absurd (omega arith)
sum-take-set (suc n) zero b (x ∷ xs) h l = omega arith
sum-take-set (suc n) (suc k) b (x ∷ xs) h l = omega (arith, sum-take-set n k b xs)

get_or-set-below : (xs : List ℕ) (k i b : ℕ) → k < i → get_or (set xs k b) i 0 ≡ get_or xs i 0
get_or-set-below [] k i b h = refl
get_or-set-below (x ∷ xs) zero zero b h = absurd (omega arith)
get_or-set-below (x ∷ xs) zero (suc i) b h = refl
get_or-set-below (x ∷ xs) (suc k) zero b h = absurd (omega arith)
get_or-set-below (x ∷ xs) (suc k) (suc i) b h = get_or-set-below xs k i b (omega arith)

-- The same frame with one covered byte replaced.
pub record IsCorrupted (f g : CmdFormat) (k b : ℕ) : Type 0 where
  pub same_msb : g.length_msb ≡ f.length_msb
  pub same_lsb : g.length_lsb ≡ f.length_lsb
  pub replaced : covered g ≡ set (covered f) k b
  pub within : k < frame_len f
  pub byte : b < 256
  pub was_byte : get_or (covered f) k 0 < 256
  pub differs : b ≢ get_or (covered f) k 0

-- The byte that is compared with the sum.
check_byte : (f : CmdFormat) (n : ℕ) → 4 ≤ n → get_or f.payload (n - 4) 0 ≡ get_or (covered f) n 0
check_byte f n h =
    let e : n ≡ suc (suc (suc (suc (n - 4)))) = omega arith in
    sym (ap (λ k. get_or (covered f) k 0) e)

-- A frame of an allowed length that passes the check fails it once any one of the bytes that the
-- sum covers is changed to another byte.
pub procotol_check-corrupted :
    (f g : CmdFormat) (k b : ℕ)
    → IsCorrupted f g k b
    → 4 ≤ frame_len f
    → frame_len f < length f.payload + 4
    → frame_len f < 65536
    → procotol_check f ≡ done true
    → procotol_check g ≡ done false
procotol_check-corrupted f g k b c lo hi w passed = ground (
  arith,
  procotol_check_lem f lo hi w,
  procotol_check_lem g,
  check_byte f (frame_len f) lo,
  check_byte g (frame_len f) lo,
  ap length c.replaced,
  length-set (covered f) k b,
  get_or-set-below (covered f) k (frame_len f) b c.within,
  sum-take-set (frame_len f) k b (covered f) c.within,
)
