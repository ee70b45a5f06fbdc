-- ===== src/Base/Runs.antt =====
-- `Result<T, E>`, and the runs of code that may panic or loop.

use mathlib.Core.Logic.{◌⊎◌, inl, inr}
use mathlib.Core.Path.{◌≡◌, refl}

pub data Result {ℓ κ} (E : Type ℓ) (A : Type κ) : Type (ℓ ⊔ κ) where
  ok : A → Result E A
  err : E → Result E A

-- `out_of_fuel` is an outcome of the model alone: it stands for a loop that has not ended.
pub data Run {ℓ} (A : Type ℓ) : Type ℓ where
  returned : A → Run A
  panicked : Run A
  out_of_fuel : Run A

infixl 5 ◌>>=◌
abbrev pub ◌>>=◌ {ℓ κ} : {A : Type ℓ} {B : Type κ} → Run A → (A → Run B) → Run B
returned a >>= f = f a
panicked >>= f = panicked
out_of_fuel >>= f = out_of_fuel

-- A run that ends, in a state with the property.
abbrev pub Returns {ℓ} : {A : Type ℓ} → (A → Type 0) → Run A → Type 0
Returns P (returned a) = P a
Returns P panicked = ⊥
Returns P out_of_fuel = ⊥

pub Returns-bind {ℓ κ} :
    {A : Type ℓ} {B : Type κ} (P : A → Type 0) (Q : B → Type 0) (m : Run A) (f : A → Run B)
    → Returns P m
    → ((a : A) → P a → Returns Q (f a))
    → Returns Q (m >>= f)
Returns-bind P Q (returned a) f h k = k a h
Returns-bind P Q panicked f h k = absurd h
Returns-bind P Q out_of_fuel f h k = absurd h

pub Returns-map {ℓ} :
    {A : Type ℓ} (P Q : A → Type 0) (m : Run A) → ((a : A) → P a → Q a) → Returns P m → Returns Q m
Returns-map P Q (returned a) f h = f a h
Returns-map P Q panicked f h = absurd h
Returns-map P Q out_of_fuel f h = absurd h

pub Returns-value {ℓ} :
    {A : Type ℓ} (P : A → Type 0) (m : Run A) → Returns P m → (a : A) × (m ≡ returned a)
Returns-value P (returned a) h = (a, refl)
Returns-value P panicked h = absurd h
Returns-value P out_of_fuel h = absurd h

-- What a run that ends returns.
abbrev pub outcome {ℓ} : {A : Type ℓ} (m : Run A) → Returns (λ a. Unit) m → A
outcome (returned a) h = a
outcome panicked h = absurd h
outcome out_of_fuel h = absurd h

pub outcome_lem {ℓ} :
    {A : Type ℓ} (m : Run A) (h : Returns (λ a. Unit) m) → m ≡ returned (outcome m h)
outcome_lem (returned a) h = refl
outcome_lem panicked h = absurd h
outcome_lem out_of_fuel h = absurd h

pub Result-cases {ℓ κ} :
    {E : Type ℓ} {A : Type κ} (r : Result E A) → ((a : A) × (r ≡ ok a)) ⊎ ((e : E) × (r ≡ err e))
Result-cases (ok a) = inl (a, refl)
Result-cases (err e) = inr (e, refl)

abbrev pub match_result {ℓ κ μ} :
    {E : Type ℓ} {A : Type κ} {B : Type μ} → Result E A → (E → B) → (A → B) → B
match_result (ok a) failed f = f a
match_result (err e) failed f = failed e

pub match_result_ind {ℓ κ μ ν} :
    {E : Type ℓ} {A : Type κ} {B : Type μ} (P : B → Type ν) (r : Result E A) {failed : E → B}
    {f : A → B}
    → ((e : E) → r ≡ err e → P (failed e))
    → ((a : A) → r ≡ ok a → P (f a))
    → P (match_result r failed f)
match_result_ind P (ok a) on_err on_ok = on_ok a refl
match_result_ind P (err e) on_err on_ok = on_err e refl
