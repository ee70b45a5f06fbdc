-- ===== src/Base/Count.antt =====
-- How often a text stands in a list, and whether it does.
use Prim.Native.Nat.{ℕ, ◌+◌, ◌<◌}
use mathlib.Core.Path.{◌≡◌, refl}
use mathlib.Core.Logic.{◌↔◌, inl, inr}
use mathlib.Core.Bool.{Bool, true, false, ◌||◌, ◌&&◌}
use mathlib.Core.List.{List, [], ◌∷◌, ◌++◌}
use native.Mathlib.Omega.{arith}
use servicrab.Base.Tests.{if◌then◌else◌, Bool-cases}
use servicrab.Base.Lists.{All, filter}
use servicrab.Base.Texts.{Text, same, same_iff, same_refl}

abbrev pub count : Text → List Text → ℕ
count a [] = 0
count a (x ∷ xs) = (if same x a then 1 else 0) + count a xs

-- `Vec::contains`
abbrev pub contains : List Text → Text → Bool
contains [] a = false
contains (x ∷ xs) a = same x a || contains xs a

pub count-append : (a : Text) (xs ys : List Text) → count a (xs ++ ys) ≡ count a xs + count a ys
count-append a [] ys = omega arith
count-append a (x ∷ xs) ys = omega (arith, count-append a xs ys)

pub contains_iff : (xs : List Text) (a : Text) → (contains xs a ≡ true) ↔ (0 < count a xs)
contains_iff [] a = ground arith
contains_iff (x ∷ xs) a = ground (arith, contains_iff xs a)

pub contains-append :
    (xs ys : List Text) (a : Text) → contains (xs ++ ys) a ≡ (contains xs a || contains ys a)
contains-append [] ys a = refl
contains-append (x ∷ xs) ys a = ground (arith, contains-append xs ys a)

pub count-filter :
    (p : Text → Bool) (a : Text) (xs : List Text)
    → count a (filter p xs) ≡ (if p a then count a xs else 0)
count-filter p a [] = ground arith
count-filter p a (x ∷ xs) = ground (arith, count-filter p a xs, same_iff x a)

pub contains-filter :
    (p : Text → Bool) (k : Text) (xs : List Text)
    → contains (filter p xs) k ≡ (p k && contains xs k)
contains-filter p k [] = ground arith
contains-filter p k (x ∷ xs) = ground (arith, contains-filter p k xs, same_iff x k)

-- A predicate that holds all along a list holds of each text in it.
pub All-contains {ℓ} :
    (P : Text → Type ℓ) (xs : List Text) (a : Text) → All P xs → contains xs a ≡ true → P a
All-contains P [] a h c = absurd (ground arith)
All-contains P (x ∷ xs) a h c = elim (Bool-cases (same x a)) [
  | inl e ↦ rw ((same_iff x a).0 e) at h.0
  | inr e ↦ All-contains P xs a h.1 (ground arith)
]

pub All-of_contains {ℓ} :
    (P : Text → Type ℓ) (xs : List Text) → ((a : Text) → contains xs a ≡ true → P a) → All P xs
All-of_contains P [] f = tt
All-of_contains P (x ∷ xs) f =
    (f x (ground (arith, same_refl x)), All-of_contains P xs (λ a c. f a (ground arith)))
