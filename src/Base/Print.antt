-- ===== src/Base/Print.antt =====
-- The conversions of sprintf that the program uses, on numbers that are not negative.
use multi_port_convertor.Base.Tests.{ltb, if◌then◌else◌}
use Prim.Native.Nat.{ℕ, zero, suc, ◌+◌, ◌*◌, ◌-◌, ◌/◌, ◌%◌, ◌^◌, ◌<◌}
use mathlib.Core.Path.{◌≡◌, refl}
use mathlib.Core.List.{List, [], ◌∷◌, ◌++◌}
use native.Mathlib.Omega.{arith}

-- The digits of `n`, at most `k` of them.
unfoldable pub digits : ℕ → ℕ → List ℕ
digits zero n = []
digits (suc k) n =
    let front = digits k (n / 10) in
    if ltb n 10 then (48 + n) ∷ [] else front ++ ((48 + n % 10) ∷ [])

-- `%d`; a number of 32 bits has ten digits at most.
unfoldable pub decimal : ℕ → List ℕ
unfolding digits
decimal n = digits 10 n

-- `%02d`
unfoldable pub two_digits : ℕ → List ℕ
unfolding decimal
two_digits n = if ltb n 10 then 48 ∷ decimal n else decimal n

abbrev hex_digit : ℕ → ℕ
hex_digit n = if ltb n 10 then 48 + n else 87 + n

-- `%02x` of a byte
unfoldable pub hex_byte : ℕ → List ℕ
hex_byte b = hex_digit (b / 16) ∷ hex_digit (b % 16) ∷ []

-- The number that digits stand for, behind the digits of `n`.
abbrev pub value_from : ℕ → List ℕ → ℕ
value_from n [] = n
value_from n (c ∷ cs) = value_from (10 * n + (c - 48)) cs

value_from-append :
    (n : ℕ) (xs ys : List ℕ) → value_from n (xs ++ ys) ≡ value_from (value_from n xs) ys
value_from-append n [] ys = refl
value_from-append n (x ∷ xs) ys = value_from-append (10 * n + (x - 48)) xs ys

-- `10 ^ k`
abbrev ten : ℕ → ℕ
ten zero = 1
ten (suc k) = 10 * ten k

value_from-digits : (k n : ℕ) → n < ten k → value_from 0 (digits k n) ≡ n
unfolding digits
value_from-digits zero n h = omega arith
value_from-digits (suc k) n h =
    let q : n / 10 < ten k = omega arith in
    ground (
      arith,
      value_from-append 0 (digits k (n / 10)) ((48 + n % 10) ∷ []),
      value_from-digits k (n / 10) q,
    )

-- Reading what `decimal` prints gives the number back, for numbers of 32 bits.
pub value_from-decimal : (n : ℕ) → n < 2 ^ 32 → value_from 0 (decimal n) ≡ n
unfolding decimal
value_from-decimal n h = value_from-digits 10 n (omega arith)
