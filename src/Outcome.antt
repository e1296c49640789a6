-- ===== src/Outcome.antt =====
-- How a run of the program's code ends: with a value, in undefined behaviour, or not within the
-- rounds that the model allows it.
use async_event_loop.Base.{◌≡◌, refl}

pub data Fault : Type 0 where
  null_dereference use_after_free double_free out_of_fuel : Fault

pub data Outcome {ℓ} (A : Type ℓ) : Type ℓ where
  ok : A → Outcome A
  fault : Fault → Outcome A

infixl 5 ◌>>=◌
abbrev pub ◌>>=◌ {ℓ κ} : {A : Type ℓ} {B : Type κ} → Outcome A → (A → Outcome B) → Outcome B
ok a >>= f = f a
fault x >>= f = fault x

-- The outcome has the property, or a bound on the rounds of a loop was too small. No other fault is safe.
abbrev pub Safe {ℓ} : {A : Type ℓ} → (A → Type 0) → Outcome A → Type 0
Safe P (ok a) = P a
Safe P (fault out_of_fuel) = Unit
Safe P (fault use_after_free) = ⊥
Safe P (fault null_dereference) = ⊥
Safe P (fault double_free) = ⊥

pub Safe-bind {ℓ κ} :
    {A : Type ℓ} {B : Type κ} (P : A → Type 0) (Q : B → Type 0) (m : Outcome A) (f : A → Outcome B)
    → Safe P m
    → ((a : A) → P a → Safe Q (f a))
    → Safe Q (m >>= f)
Safe-bind P Q (ok a) f p h = h a p
Safe-bind P Q (fault out_of_fuel) f p h = tt
Safe-bind P Q (fault use_after_free) f p h = absurd p
Safe-bind P Q (fault null_dereference) f p h = absurd p
Safe-bind P Q (fault double_free) f p h = absurd p

pub Safe-weaken {ℓ} :
    {A : Type ℓ} (P Q : A → Type 0) (m : Outcome A) → Safe P m → ((a : A) → P a → Q a) → Safe Q m
Safe-weaken P Q (ok a) p h = h a p
Safe-weaken P Q (fault out_of_fuel) p h = tt
Safe-weaken P Q (fault use_after_free) p h = absurd p
Safe-weaken P Q (fault null_dereference) p h = absurd p
Safe-weaken P Q (fault double_free) p h = absurd p

-- A value that comes out is the outcome's.
pub Safe-self :
    {A : Type 0} (P : A → Type 0) (m : Outcome A) → Safe P m → Safe (λ a. P a × (m ≡ ok a)) m
Safe-self P (ok a) p = (p, refl)
Safe-self P (fault out_of_fuel) p = tt
Safe-self P (fault use_after_free) p = absurd p
Safe-self P (fault null_dereference) p = absurd p
Safe-self P (fault double_free) p = absurd p

-- If a value comes out it has the property.
abbrev pub Returns {ℓ} : {A : Type ℓ} → (A → Type 0) → Outcome A → Type 0
Returns P (ok a) = P a
Returns P (fault x) = Unit

pub Returns-bind {ℓ κ} :
    {A : Type ℓ} {B : Type κ} (P : A → Type 0) (Q : B → Type 0) (m : Outcome A) (f : A → Outcome B)
    → Returns P m
    → ((a : A) → P a → Returns Q (f a))
    → Returns Q (m >>= f)
Returns-bind P Q (ok a) f p h = h a p
Returns-bind P Q (fault x) f p h = tt

pub Returns-map {ℓ} :
    {A : Type ℓ} (P Q : A → Type 0) (m : Outcome A)
    → ((a : A) → P a → Q a)
    → Returns P m
    → Returns Q m
Returns-map P Q (ok a) h p = h a p
Returns-map P Q (fault x) h p = tt

pub Safe-Returns {ℓ} :
    {A : Type ℓ} (P Q : A → Type 0) (m : Outcome A)
    → Safe P m
    → Returns Q m
    → Safe (λ a. P a × Q a) m
Safe-Returns P Q (ok a) p q = (p, q)
Safe-Returns P Q (fault out_of_fuel) p q = tt
Safe-Returns P Q (fault use_after_free) p q = absurd p
Safe-Returns P Q (fault null_dereference) p q = absurd p
Safe-Returns P Q (fault double_free) p q = absurd p
