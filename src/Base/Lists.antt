-- ===== src/Base/Lists.antt =====
-- Lists measured and indexed by native numbers, and membership as a Boolean.
use Prim.Native.Nat.{ℕ, zero, suc, ◌+◌, ◌-◌, ◌≤◌, ◌<◌, min}
use mathlib.Core.Path.{◌≡◌, refl, ap}
use mathlib.Core.Bool.{Bool, false, ◌||◌}
use mathlib.Core.List.{List, [], ◌∷◌, ◌++◌, append_assoc}
use native.Mathlib.Omega.{arith}
use multi_port_convertor.Base.Tests.{◌==◌, ltb, if◌then◌else◌}

module _ {ℓ} {A : Type ℓ} where
  abbrev pub length : List A → ℕ
  length [] = 0
  length (x ∷ xs) = suc (length xs)

  abbrev pub get_or : List A → ℕ → A → A
  get_or [] i d = d
  get_or (x ∷ xs) zero d = x
  get_or (x ∷ xs) (suc i) d = get_or xs i d

  -- A write out of bounds changes nothing.
  abbrev pub set : List A → ℕ → A → List A
  set [] i v = []
  set (x ∷ xs) zero v = v ∷ xs
  set (x ∷ xs) (suc i) v = x ∷ set xs i v

  abbrev pub take : ℕ → List A → List A
  take zero xs = []
  take (suc n) [] = []
  take (suc n) (x ∷ xs) = x ∷ take n xs

  abbrev pub drop : ℕ → List A → List A
  drop zero xs = xs
  drop (suc n) [] = []
  drop (suc n) (x ∷ xs) = drop n xs

  abbrev pub replicate : ℕ → A → List A
  replicate zero a = []
  replicate (suc n) a = a ∷ replicate n a

  pub length-append : (xs ys : List A) → length (xs ++ ys) ≡ length xs + length ys
  length-append [] ys = omega arith
  length-append (x ∷ xs) ys = omega (arith, length-append xs ys)

  pub length-set : (xs : List A) (i : ℕ) (v : A) → length (set xs i v) ≡ length xs
  length-set [] i v = refl
  length-set (x ∷ xs) zero v = refl
  length-set (x ∷ xs) (suc i) v = ap suc (length-set xs i v)

  pub length-take : (n : ℕ) (xs : List A) → length (take n xs) ≡ min n (length xs)
  length-take zero xs = omega arith
  length-take (suc n) [] = omega arith
  length-take (suc n) (x ∷ xs) = omega (arith, length-take n xs)

  pub length-drop : (n : ℕ) (xs : List A) → length (drop n xs) ≡ length xs - n
  length-drop zero xs = omega arith
  length-drop (suc n) [] = omega arith
  length-drop (suc n) (x ∷ xs) = omega (arith, length-drop n xs)

  pub length-replicate : (n : ℕ) (a : A) → length (replicate n a) ≡ n
  length-replicate zero a = refl
  length-replicate (suc n) a = ap suc (length-replicate n a)

  pub take-append : (xs ys : List A) → take (length xs) (xs ++ ys) ≡ xs
  take-append [] ys = refl
  take-append (x ∷ xs) ys = ap (λ zs. x ∷ zs) (take-append xs ys)

  pub drop-append : (xs ys : List A) → drop (length xs) (xs ++ ys) ≡ ys
  drop-append [] ys = refl
  drop-append (x ∷ xs) ys = drop-append xs ys

  pub get_or-append_length : (xs ys : List A) (y d : A) → get_or (xs ++ (y ∷ ys)) (length xs) d ≡ y
  get_or-append_length [] ys y d = refl
  get_or-append_length (x ∷ xs) ys y d = get_or-append_length xs ys y d

  pub set-behind :
      (src old : List A) (v : A)
      → length src < length old
      → set (src ++ drop (length src) old) (length src) v ≡ src ++ (v ∷ drop (suc (length src)) old)
  set-behind src [] v h = absurd (omega arith)
  set-behind [] (x ∷ old) v h = refl
  set-behind (y ∷ src) (x ∷ old) v h = ap (λ zs. y ∷ zs) (set-behind src old v (omega arith))

  pub drop-behind :
      (src old : List A) (k : ℕ)
      → length src ≤ length old
      → drop (length src + k) (src ++ drop (length src) old) ≡ drop (length src + k) old
  drop-behind [] old k h = refl
  drop-behind (y ∷ src) [] k h = absurd (omega arith)
  drop-behind (y ∷ src) (x ∷ old) k h =
      let e : suc (length src) + k ≡ suc (length src + k) = omega arith in
      rw e (drop-behind src old k (omega arith))

-- Is the number in the list?
abbrev pub has : ℕ → List ℕ → Bool
has a [] = false
has a (x ∷ xs) = (a == x) || has a xs

-- How often the number stands in the list.
abbrev pub count : ℕ → List ℕ → ℕ
count n [] = 0
count n (m ∷ ms) = (if m == n then 1 else 0) + count n ms

pub count-has : (a : ℕ) (xs : List ℕ) → has a xs ≡ ltb 0 (count a xs)
count-has a [] = refl
count-has a (x ∷ xs) = ground (arith, count-has a xs)

pub count-append :
    (n : ℕ) (first second : List ℕ) → count n (first ++ second) ≡ count n first + count n second
count-append n [] second = omega arith
count-append n (m ∷ first) second = omega (arith, count-append n first second)

-- No number stands twice in the list.
abbrev pub Distinct : List ℕ → Type 0
Distinct [] = Unit
Distinct (x ∷ xs) = (has x xs ≡ false) × Distinct xs

pub has-append : (a : ℕ) (xs ys : List ℕ) → has a (xs ++ ys) ≡ (has a xs || has a ys)
has-append a [] ys = refl
has-append a (x ∷ xs) ys = ground (arith, has-append a xs ys)

abbrev pub All {ℓ κ} : {A : Type ℓ} → (A → Type κ) → List A → Type κ
All P [] = Unit
All P (x ∷ xs) = P x × All P xs

pub Distinct-append_one :
    (xs : List ℕ) (a : ℕ) → Distinct xs → has a xs ≡ false → Distinct (xs ++ (a ∷ []))
Distinct-append_one [] a d h = (refl, tt)
Distinct-append_one (x ∷ xs) a d h =
    (ground (arith, has-append x xs (a ∷ [])), Distinct-append_one xs a d.1 (ground arith))

pub Distinct-middle :
    (xs : List ℕ) (e : ℕ) (ys : List ℕ)
    → Distinct (xs ++ (e ∷ ys))
    → Distinct (xs ++ ys) × (has e (xs ++ ys) ≡ false)
Distinct-middle [] e ys d = (d.1, d.0)
Distinct-middle (x ∷ xs) e ys d =
    ground (arith, Distinct-middle xs e ys d.1, has-append x xs (e ∷ ys), has-append x xs ys)

pub rotate :
    (xs : List ℕ) (b : ℕ) (ys : List ℕ)
    → Distinct (xs ++ (b ∷ ys))
    → Distinct (xs ++ (ys ++ (b ∷ [])))
rotate xs b ys d =
    let (e, n) = Distinct-middle xs b ys d in
    rw (← (append_assoc xs ys (b ∷ []))) (Distinct-append_one (xs ++ ys) b e n)

pub to_middle :
    (xs : List ℕ) (b : ℕ) (ys : List ℕ) → Distinct (b ∷ (xs ++ ys)) → Distinct (xs ++ (b ∷ ys))
to_middle [] b ys d = d
to_middle (x ∷ xs) b ys d =
    (ground (arith, has-append x xs (b ∷ ys), has-append x xs ys), to_middle xs b ys (ground arith))

pub rotate-length :
    (xs : List ℕ) (b : ℕ) (ys : List ℕ) → length (xs ++ (ys ++ (b ∷ []))) ≡ length (xs ++ (b ∷ ys))
rotate-length xs b ys =
    omega (
      arith,
      length-append xs (ys ++ (b ∷ [])),
      length-append ys (b ∷ []),
      length-append xs (b ∷ ys),
    )

pub Distinct-count : (xs : List ℕ) → ((a : ℕ) → count a xs ≤ 1) → Distinct xs
Distinct-count [] h = tt
Distinct-count (x ∷ xs) h =
    (ground (arith, count-has x xs, h x), Distinct-count xs (λ a. omega (arith, h a)))
