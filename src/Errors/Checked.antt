-- ===== src/Errors/Checked.antt =====
-- A function with `&mut Vec<ConfigError>` and `&mut Vec<ConfigWarning>`: what it returns, and what it
-- appends to each.
use servicrab.Base.{List, [], ◌∷◌, ◌++◌, ◌≡◌, refl}
use servicrab.Errors.{ConfigError, ConfigWarning}

pub record Checked {ℓ} (A : Type ℓ) : Type ℓ where
  pub value : A
  pub errors : List ConfigError
  pub warnings : List ConfigWarning

abbrev pub pure {ℓ} : {A : Type ℓ} → A → Checked A
pure a = record { value = a; errors = []; warnings = [] }

infixl 5 ◌>>=◌ ◌>>◌
unfoldable pub ◌>>=◌ {ℓ κ} : {A : Type ℓ} {B : Type κ} → Checked A → (A → Checked B) → Checked B
m >>= f = record {
  value = (f m.value).value;
  errors = m.errors ++ (f m.value).errors;
  warnings = m.warnings ++ (f m.value).warnings;
}

abbrev pub ◌>>◌ {ℓ} : {B : Type ℓ} → Checked (Unit {0}) → Checked B → Checked B
m >> k = m >>= λ _. k

-- `errors.push(error)`
abbrev pub report : ConfigError → Checked (Unit {0})
report error = record { value = tt; errors = error ∷ []; warnings = [] }

-- `warnings.push(warning)`
abbrev pub warn : ConfigWarning → Checked (Unit {0})
warn warning = record { value = tt; errors = []; warnings = warning ∷ [] }

-- `errors.push(error); value`
abbrev pub refuse {ℓ} : {A : Type ℓ} → ConfigError → A → Checked A
refuse error a = record { value = a; errors = error ∷ []; warnings = [] }

-- No error is appended.
abbrev pub Passes {ℓ} : {A : Type ℓ} → Checked A → Type 0
Passes m = m.errors ≡ []

pub append-nil-inv {ℓ} : {A : Type ℓ} (xs ys : List A) → xs ++ ys ≡ [] → (xs ≡ []) × (ys ≡ [])
append-nil-inv [] ys h = (refl, h)
append-nil-inv (x ∷ xs) ys h = cc

-- What passes, passes in each of its parts.
pub Passes-bind {ℓ κ} :
    {A : Type ℓ} {B : Type κ} (m : Checked A) (f : A → Checked B)
    → Passes (m >>= f)
    → Passes m × Passes (f m.value)
unfolding ◌>>=◌
Passes-bind m f h = append-nil-inv m.errors (f m.value).errors h

pub first_passes {ℓ κ} :
    {A : Type ℓ} {B : Type κ} (m : Checked A) (f : A → Checked B) → Passes (m >>= f) → Passes m
first_passes m f h = (Passes-bind m f h).0

pub rest_passes {ℓ κ} :
    {A : Type ℓ} {B : Type κ} (m : Checked A) (f : A → Checked B)
    → Passes (m >>= f)
    → Passes (f m.value)
rest_passes m f h = (Passes-bind m f h).1

pub value-bind {ℓ κ} :
    {A : Type ℓ} {B : Type κ} (m : Checked A) (f : A → Checked B)
    → (m >>= f).value ≡ (f m.value).value
unfolding ◌>>=◌
value-bind m f = refl
