-- ===== src/Base/Results.antt =====
-- What a run of C code comes to.
use mathlib.Core.Path.{◌≡◌, refl, subst}
use mathlib.Core.Bool.{Bool, true, false}
use multi_port_convertor.Base.Tests.{if◌then◌else◌}

-- `exits` is the macro ERROR of tool/debug.h, which ends the process by `exit(-1)`; `faults` is a
-- read or a write outside an object, or through NULL.
pub data Outcome {ℓ} (A : Type ℓ) : Type ℓ where
  done : A → Outcome A
  exits : Outcome A
  faults : Outcome A

infixl 5 ◌>>=◌ ◌>>◌
abbrev pub ◌>>=◌ {ℓ κ} : {A : Type ℓ} {B : Type κ} → Outcome A → (A → Outcome B) → Outcome B
done a >>= f = f a
exits >>= f = exits
faults >>= f = faults

abbrev pub ◌>>◌ {ℓ} : {B : Type ℓ} → Outcome (Unit {0}) → Outcome B → Outcome B
m >> k = m >>= λ _. k

-- The run ends the process, faults, or leaves a state with the property.
abbrev pub Safe : {A : Type 0} → (A → Type 0) → Outcome A → Type 0
Safe P (done a) = P a
Safe P exits = Unit
Safe P faults = Unit

pub Safe-bind :
    {A B : Type 0} (P : A → Type 0) (Q : B → Type 0) (o : Outcome A) (k : A → Outcome B)
    → Safe P o
    → ((a : A) → P a → Safe Q (k a))
    → Safe Q (o >>= k)
Safe-bind P Q (done a) k p f = f a p
Safe-bind P Q exits k p f = tt
Safe-bind P Q faults k p f = tt

pub always : {A : Type 0} (o : Outcome A) → Safe (λ a. Unit {0}) o
always (done a) = tt
always exits = tt
always faults = tt

-- A test that faults where it fails.
pub Safe-test :
    {A : Type 0} (P : A → Type 0) (t : Bool) (a : A)
    → (t ≡ true → P a)
    → Safe P (if t then done a else faults)
Safe-test P true a p = p refl
Safe-test P false a p = tt

pub Safe-done : {A : Type 0} (P : A → Type 0) (o : Outcome A) {a : A} → Safe P o → o ≡ done a → P a
Safe-done P (done b) p e = subst P (cc) p
Safe-done P exits p e = cc
Safe-done P faults p e = cc

pub Safe-weaken :
    {A : Type 0} (P Q : A → Type 0) (o : Outcome A) → Safe P o → ((a : A) → P a → Q a) → Safe Q o
Safe-weaken P Q (done a) p f = f a p
Safe-weaken P Q exits p f = tt
Safe-weaken P Q faults p f = tt

pub Safe-if :
    {A : Type 0} (P : A → Type 0) (t : Bool) (x y : Outcome A)
    → Safe P x
    → Safe P y
    → Safe P (if t then x else y)
Safe-if P true x y p q = p
Safe-if P false x y p q = q
