-- ===== src/Prelude/Faults.antt =====
-- What a run of C code gives: a result, or `fault` where it reads or writes outside an object, or
-- does something else that the language leaves undefined.
use mathlib.Core.Path.{◌≡◌, refl}
use mathlib.Core.Bool.{Bool, true, false}
use mathlib.Core.Logic.{◌⊎◌, inl, inr}
use vcmp.Prelude.Tests.{if◌then◌else◌}

pub data Outcome {ℓ} (A : Type ℓ) : Type ℓ where
  done : A → Outcome A
  fault : Outcome A

pub Outcome-cases {ℓ} : {A : Type ℓ} (o : Outcome A) → ((a : A) × (o ≡ done a)) ⊎ (o ≡ fault)
Outcome-cases (done a) = inl (a, refl)
Outcome-cases fault = inr refl

infixl 5 ◌>>=◌ ◌>>◌
abbrev pub ◌>>=◌ {ℓ κ} : {A : Type ℓ} {B : Type κ} → Outcome A → (A → Outcome B) → Outcome B
done a >>= f = f a
fault >>= f = fault

abbrev ◌>>◌ {ℓ κ} : {A : Type ℓ} {B : Type κ} → Outcome A → Outcome B → Outcome B
m >> k = m >>= λ _. k

>>=-eq-done {ℓ κ} :
    {A : Type ℓ} {B : Type κ} (m : Outcome A) (f : A → Outcome B) {b : B}
    → (m >>= f) ≡ done b
    → (a : A) × (m ≡ done a) × (f a ≡ done b)
>>=-eq-done (done a) f h = (a, refl, h)
>>=-eq-done fault f h = cc

-- The result, where there is one, has the property.
abbrev pub Holds {ℓ κ} : {A : Type ℓ} → (A → Type κ) → Outcome A → Type κ
Holds P (done a) = P a
Holds P fault = Unit

pub >>=-Holds {ℓ κ ι} :
    {A : Type ℓ} {B : Type κ} (P : B → Type ι) (m : Outcome A) (f : A → Outcome B)
    → ((a : A) → m ≡ done a → Holds P (f a))
    → Holds P (m >>= f)
>>=-Holds P (done a) f h = h a refl
>>=-Holds P fault f h = tt

pub if-Holds {ℓ κ} :
    {A : Type ℓ} (P : A → Type κ) (b : Bool) (x y : Outcome A)
    → (b ≡ true → Holds P x)
    → (b ≡ false → Holds P y)
    → Holds P (if b then x else y)
if-Holds P true x y hx hy = hx refl
if-Holds P false x y hx hy = hy refl

pub Holds-done {ℓ κ} :
    {A : Type ℓ} (P : A → Type κ) (m : Outcome A) {a : A} → Holds P m → m ≡ done a → P a
Holds-done P m h e = rw e at h

pub Holds-map {ℓ κ ι} :
    {A : Type ℓ} {P : A → Type κ} {Q : A → Type ι}
    → ((a : A) → P a → Q a)
    → (m : Outcome A) → Holds P m
    → Holds Q m
Holds-map f (done a) h = f a h
Holds-map f fault h = tt

-- No fault.
abbrev pub Runs {ℓ} : {A : Type ℓ} → Outcome A → Type 0
Runs (done a) = Unit
Runs fault = ⊥

pub >>=-Runs {ℓ κ} :
    {A : Type ℓ} {B : Type κ} (m : Outcome A) (f : A → Outcome B)
    → Runs m
    → ((a : A) → m ≡ done a → Runs (f a))
    → Runs (m >>= f)
>>=-Runs (done a) f h k = k a refl
>>=-Runs fault f h k = h

pub if-Runs {ℓ} :
    {A : Type ℓ} (b : Bool) (x y : Outcome A)
    → (b ≡ true → Runs x)
    → (b ≡ false → Runs y)
    → Runs (if b then x else y)
if-Runs true x y hx hy = hx refl
if-Runs false x y hx hy = hy refl

pub Runs-eq_done {ℓ} : {A : Type ℓ} (m : Outcome A) {a : A} → m ≡ done a → Runs m
Runs-eq_done m e = rw e tt

pub Runs-done {ℓ} : {A : Type ℓ} (m : Outcome A) → Runs m → (a : A) × (m ≡ done a)
Runs-done (done a) h = (a, refl)
Runs-done fault h = absurd h
