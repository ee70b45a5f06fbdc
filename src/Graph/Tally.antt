-- ===== src/Graph/Tally.antt =====
-- Counting the members of one list in another: a list with no repetition fits into one that has all
-- of its members.
use servicrab.Base.{
  ◌<◌, Bool-cases, inl, inr, same_refl, true, ◌==◌, ℕ, ◌+◌, ◌≤◌, List, [], ◌∷◌, ◌≡◌, refl, Text,
  length, same_iff, arith, All,
}
use servicrab.Base.Count.{count, contains}

-- How often the members of `ks` stand in `xs`.
pub tally : List Text → List Text → ℕ
tally xs [] = 0
tally xs (k ∷ ks) = count k xs + tally xs ks

pub tally-cons : (x : Text) (xs ks : List Text) → tally (x ∷ xs) ks ≡ count x ks + tally xs ks
unfolding tally
tally-cons x xs [] = refl
tally-cons x xs (k ∷ ks) = ground (arith, tally-cons x xs ks, same_iff x k, same_iff k x)

pub tally-nil : (ks : List Text) → tally [] ks ≡ 0
unfolding tally
tally-nil [] = refl
tally-nil (k ∷ ks) = omega (arith, tally-nil ks)

-- If each member of `xs` stands once in `ks`, the tally is the length.
pub tally-eq-length : (xs ks : List Text) → All (λ x. count x ks ≡ 1) xs → tally xs ks ≡ length xs
tally-eq-length [] ks h = tally-nil ks
tally-eq-length (x ∷ xs) ks h = omega (arith, tally-cons x xs ks, tally-eq-length xs ks h.1, h.0)

pub tally-le : (xs ks : List Text) → ((k : Text) → count k xs ≤ 1) → tally xs ks ≤ length ks
unfolding tally
tally-le xs [] h = omega arith
tally-le xs (k ∷ ks) h = omega (arith, tally-le xs ks h, h k)

-- If the tally is as large as it can be, each member of `ks` is there.
pub All-counted :
    (xs ks : List Text)
    → ((k : Text) → count k xs ≤ 1)
    → length ks ≤ tally xs ks
    → All (λ k. count k xs ≡ 1) ks
unfolding tally
All-counted xs [] h full = tt
All-counted xs (k ∷ ks) h full = (
  omega (arith, tally-le xs ks h, h k),
  All-counted xs ks h (omega (arith, tally-le xs ks h, h k)),
)

-- If the tally is not as large as it can be, a member is missing.
pub missing_one :
    (xs ks : List Text)
    → ((k : Text) → count k xs ≤ 1)
    → tally xs ks < length ks
    → (k : Text) × (contains ks k ≡ true) × (count k xs ≡ 0)
unfolding tally
missing_one xs [] h less = elim less [ ]
missing_one xs (k ∷ ks) h less = elim (Bool-cases (count k xs == 0)) [
  | inl e ↦ (k, ground (arith, same_refl k), ground arith)
  | inr e ↦
      let (k', m, none_there) = missing_one xs ks h (ground (arith, h k)) in
      (k', ground arith, none_there)
]
