-- ===== src/Base/Entries.antt =====
-- `BTreeMap::remove`, maps over all values, and sums over them.
use Prim.Native.Nat.{ℕ, ◌+◌}
use mathlib.Core.Path.{◌≡◌, refl, ap}
use mathlib.Core.Bool.{true}
use mathlib.Core.Logic.{inl, inr}
use mathlib.Core.Option.{Option, none, some}
use mathlib.Core.List.{List, [], ◌∷◌}
use native.Mathlib.Omega.{arith}
use servicrab.Base.Tests.{if◌then◌else◌, if_ind, Bool-cases}
use servicrab.Base.Lists.{All, All-map}
use servicrab.Base.Texts.{Text, same, same_iff, same_refl, before, before_trans}
use servicrab.Base.Map
use servicrab.Base.Map.{BTreeMap}

module _ {ℓ} {V : Type ℓ} where
  unfoldable pub remove : Text → BTreeMap V → BTreeMap V
  remove k [] = []
  remove k ((j, v) ∷ m) = let rest = remove k m in if same k j then rest else (j, v) ∷ rest

  pub get-remove :
      (m : BTreeMap V) (k j : Text)
      → Map.get (remove k m) j ≡ (if same k j then none else Map.get m j)
  unfolding remove Map.get
  get-remove [] k j = ground arith
  get-remove ((i, v) ∷ m) k j =
      ground (arith, get-remove m k j, same_iff k i, same_iff k j, same_iff i j)

  All-keys-remove {κ} :
      (P : Text → Type κ) (k : Text) (m : BTreeMap V)
      → All P (Map.keys m)
      → All P (Map.keys (remove k m))
  unfolding remove
  All-keys-remove P k [] h = tt
  All-keys-remove P k ((j, v) ∷ m) h =
      if_ind (λ (l : BTreeMap V). All P (Map.keys l)) (same k j) (λ _. All-keys-remove P k m h.1)
        (λ _. (h.0, All-keys-remove P k m h.1))

  pub remove-IsMap : (k : Text) (m : BTreeMap V) → Map.IsMap m → Map.IsMap (remove k m)
  unfolding remove
  remove-IsMap k [] h = tt
  remove-IsMap k ((j, v) ∷ m) h =
      if_ind Map.IsMap (same k j) (λ _. remove-IsMap k m h.1)
        (λ _. (All-keys-remove (λ i. before j i ≡ true) k m h.0, remove-IsMap k m h.1))

  pub Each-remove {κ} :
      (P : V → Type κ) (k : Text) (m : BTreeMap V) → Map.Each P m → Map.Each P (remove k m)
  Each-remove P k m h j w e = h j w (ground (arith, e, get-remove m k j))

  -- `for (k, v) in m.iter_mut() { *v = f(k, v) }`
  unfoldable pub map_values : (Text → V → V) → BTreeMap V → BTreeMap V
  map_values f [] = []
  map_values f ((k, v) ∷ m) = (k, f k v) ∷ map_values f m

  pub get-map_values :
      (f : Text → V → V) (m : BTreeMap V) (k : Text)
      → Map.get (map_values f m) k ≡ elim (Map.get m k) [ none ↦ none | some v ↦ some (f k v) ]
  unfolding map_values Map.get
  get-map_values f [] k = refl
  get-map_values f ((j, v) ∷ m) k = ground (arith, get-map_values f m k, same_iff j k)

  keys-map_values : (f : Text → V → V) (m : BTreeMap V) → Map.keys (map_values f m) ≡ Map.keys m
  unfolding map_values
  keys-map_values f [] = refl
  keys-map_values f ((k, v) ∷ m) = ap (λ (ks : List Text). k ∷ ks) (keys-map_values f m)

  pub map_values-IsMap :
      (f : Text → V → V) (m : BTreeMap V) → Map.IsMap m → Map.IsMap (map_values f m)
  unfolding map_values
  map_values-IsMap f [] h = tt
  map_values-IsMap f ((k, v) ∷ m) h = (rw (keys-map_values f m) h.0, map_values-IsMap f m h.1)

  -- The sum of a number over all values.
  unfoldable pub total : (V → ℕ) → BTreeMap V → ℕ
  total f [] = 0
  total f ((k, v) ∷ m) = f v + total f m

  abbrev pub part : (V → ℕ) → Option V → ℕ
  part f none = 0
  part f (some v) = f v

  -- An insertion replaces the part of its key.
  pub total-insert :
      (f : V → ℕ) (k : Text) (v : V) (m : BTreeMap V)
      → Map.IsMap m
      → total f (Map.insert k v m) + part f (Map.get m k) ≡ total f m + f v
  unfolding total Map.insert Map.get
  total-insert f k v [] h = omega arith
  total-insert f k v ((j, w) ∷ m) h = elim (Bool-cases (same k j)) [
    | inl at ↦ ground (arith, at, same_iff k j, same_iff j k)
    | inr other ↦ elim (Bool-cases (before k j)) [
      | inl below ↦
          let absent =
            Map.get_above k m (All-map (λ i. before_trans k j i below) (Map.keys m) h.0) in
          ground (arith, other, below, absent, same_iff k j, same_iff j k)
      | inr above ↦
          ground (arith, other, above, total-insert f k v m h.1, same_iff k j, same_iff j k)
    ]
  ]

  remove_absent : (k : Text) (m : BTreeMap V) → Map.get m k ≡ none → remove k m ≡ m
  unfolding remove Map.get
  remove_absent k [] h = refl
  remove_absent k ((j, v) ∷ m) h = ground (arith, h, remove_absent k m, same_iff j k, same_iff k j)

  pub total-remove :
      (f : V → ℕ) (k : Text) (m : BTreeMap V)
      → Map.IsMap m
      → total f (remove k m) + part f (Map.get m k) ≡ total f m
  unfolding total remove Map.get
  total-remove f k [] h = omega arith
  total-remove f k ((j, w) ∷ m) h = elim (Bool-cases (same k j)) [
    | inl at ↦
        let absent : Map.get m k ≡ none = rw ((same_iff k j).0 at) (Map.get_above j m h.0) in
        ground (arith, at, same_iff k j, same_iff j k, remove_absent k m absent)
    | inr other ↦ ground (arith, other, total-remove f k m h.1, same_iff k j, same_iff j k)
  ]

  pub total-map_values :
      (f : V → ℕ) (g : Text → V → V) (m : BTreeMap V)
      → ((k : Text) (v : V) → f (g k v) ≡ f v)
      → total f (map_values g m) ≡ total f m
  unfolding total map_values
  total-map_values f g [] h = refl
  total-map_values f g ((k, v) ∷ m) h = omega (arith, h k v, total-map_values f g m h)

  -- A number that is 0 for every value has the sum 0.
  pub total_zero :
      (f : V → ℕ) (m : BTreeMap V) → Map.IsMap m → Map.Each (λ v. f v ≡ 0) m → total f m ≡ 0
  unfolding total Map.get
  total_zero f [] h z = refl
  total_zero f ((k, v) ∷ m) h z =
      let first : f v ≡ 0 = z k v (ground (arith, same_refl k)) in
      let rest : total f m ≡ 0 =
        total_zero f m h.1
          (λ j w e. z j w (ground (arith, e, same_iff k j, Map.get_above k m h.0))) in
      omega (arith, first, rest)
