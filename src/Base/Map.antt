-- ===== src/Base/Map.antt =====
-- `BTreeMap<String, V>` as the list of its entries, in ascending order of the keys.
use mathlib.Core.Path.{◌≡◌, refl, subst}
use mathlib.Core.Logic.{inl, inr}
use mathlib.Core.Bool.{Bool, true, false}
use mathlib.Core.Option.{Option, none, some}
use mathlib.Core.List.{List, [], ◌∷◌}
use native.Mathlib.Omega.{arith}
use Prim.Native.Nat.{ℕ, ◌≤◌}
use servicrab.Base.Tests.{if◌then◌else◌, if_ind, Bool-cases}
use servicrab.Base.Lists.{All, All-map}
use servicrab.Base.Texts.{
  Text, same, same_iff, same_refl, before, before_irrefl, before_trans, before_total,
}
use servicrab.Base.Count.{count, contains, contains_iff}

abbrev pub BTreeMap {ℓ} : Type ℓ → Type ℓ
BTreeMap V = List (Text × V)

-- A key below all others is none of them.
count-keys_above : (k : Text) (ks : List Text) → All (λ i. before k i ≡ true) ks → count k ks ≡ 0
count-keys_above k [] h = refl
count-keys_above k (i ∷ ks) h =
    ground (arith, count-keys_above k ks h.1, same_iff i k, before_irrefl k)

abbrev pub is_some {ℓ} : {A : Type ℓ} → Option A → Bool
is_some none = false
is_some (some a) = true

abbrev pub unwrap_or {ℓ} : {A : Type ℓ} → A → Option A → A
unwrap_or d none = d
unwrap_or d (some a) = a

module _ {ℓ} {V : Type ℓ} where
  unfoldable pub get : BTreeMap V → Text → Option V
  get [] k = none
  get ((j, v) ∷ m) k = let rest = get m k in if same j k then some v else rest

  unfoldable pub insert : Text → V → BTreeMap V → BTreeMap V
  insert k v [] = (k, v) ∷ []
  insert k v ((j, w) ∷ m) =
      let rest = insert k v m in
      if same k j then (k, v) ∷ m else if before k j then (k, v) ∷ (j, w) ∷ m else (j, w) ∷ rest

  abbrev pub keys : BTreeMap V → List Text
  keys [] = []
  keys ((j, v) ∷ m) = j ∷ keys m

  abbrev pub values : BTreeMap V → List V
  values [] = []
  values ((j, v) ∷ m) = v ∷ values m

  abbrev pub contains_key : BTreeMap V → Text → Bool
  contains_key m k = contains (keys m) k

  -- The keys ascend, so no key stands twice.
  abbrev pub IsMap : BTreeMap V → Type 0
  IsMap [] = Unit
  IsMap ((j, v) ∷ m) = All (λ k. before j k ≡ true) (keys m) × IsMap m

  pub get-insert :
      (m : BTreeMap V) (k j : Text) (v : V)
      → get (insert k v m) j ≡ (if same k j then some v else get m j)
  unfolding get insert
  get-insert [] k j v = ground arith
  get-insert ((i, w) ∷ m) k j v =
      ground (arith, get-insert m k j v, same_iff k i, same_iff k j, same_iff i j)

  All-keys-insert {κ} :
      (P : Text → Type κ) (k : Text) (v : V) (m : BTreeMap V)
      → P k
      → All P (keys m)
      → All P (keys (insert k v m))
  unfolding insert
  All-keys-insert P k v [] p h = (p, tt)
  All-keys-insert P k v ((j, w) ∷ m) p h =
      if_ind (λ (l : BTreeMap V). All P (keys l)) (same k j) (λ _. (p, h.1))
        λ _.
          if_ind (λ (l : BTreeMap V). All P (keys l)) (before k j) (λ _. (p, h))
            λ _. (h.0, All-keys-insert P k v m p h.1)

  pub insert-IsMap : (k : Text) (v : V) (m : BTreeMap V) → IsMap m → IsMap (insert k v m)
  unfolding insert
  insert-IsMap k v [] h = (tt, tt)
  insert-IsMap k v ((j, w) ∷ m) h =
      if_ind IsMap (same k j) (λ e. (rw ((same_iff k j).0 e) h.0, h.1))
        λ e.
          if_ind IsMap (before k j)
            (λ b. ((b, All-map (λ i. before_trans k j i b) (keys m) h.0), h))
            λ b. (
              All-keys-insert (λ i. before j i ≡ true) k v m (before_total k j e b) h.0,
              insert-IsMap k v m h.1,
            )

  -- `m.iter().filter(|(_, v)| p(v)).map(|(k, _)| k)`
  abbrev pub keys_where : (V → Bool) → BTreeMap V → List Text
  keys_where p [] = []
  keys_where p ((k, v) ∷ m) = let rest = keys_where p m in if p v then k ∷ rest else rest

  abbrev pub hits : (V → Bool) → Option V → ℕ
  hits p none = 0
  hits p (some v) = if p v then 1 else 0

  count-keys_where-le :
      (p : V → Bool) (k : Text) (m : BTreeMap V) → count k (keys_where p m) ≤ count k (keys m)
  count-keys_where-le p k [] = omega arith
  count-keys_where-le p k ((j, v) ∷ m) = ground (arith, count-keys_where-le p k m)

  -- A key stands among those of the filtered entries exactly when its own entry passes, and once.
  pub count-keys_where :
      (p : V → Bool) (k : Text) (m : BTreeMap V)
      → IsMap m
      → count k (keys_where p m) ≡ hits p (get m k)
  unfolding get
  count-keys_where p k [] h = refl
  count-keys_where p k ((j, v) ∷ m) h = elim (Bool-cases (same j k)) [
    | inl e ↦
        let absent : count j (keys_where p m) ≡ 0 =
          omega (arith, count-keys_where-le p j m, count-keys_above j (keys m) h.0) in
        rw (← (same_iff j k).0 e, same_refl j) (ground (arith, absent, same_refl j))
    | inr e ↦ ground (arith, count-keys_where p k m h.1)
  ]

  pub contains_key_lem : (m : BTreeMap V) (k : Text) → contains_key m k ≡ is_some (get m k)
  unfolding get
  contains_key_lem [] k = refl
  contains_key_lem ((j, v) ∷ m) k = ground (arith, contains_key_lem m k)

  pub count-keys :
      (m : BTreeMap V) (k : Text) → IsMap m → count k (keys m) ≡ (if contains_key m k then 1 else 0)
  count-keys [] k h = refl
  count-keys ((j, v) ∷ m) k h = ground (
    arith,
    count-keys m k h.1,
    same_iff j k,
    count-keys_above j (keys m) h.0,
    contains_iff (keys m) k,
  )

  -- `m.entry(k).or_insert(d)`
  unfoldable pub or_insert : Text → V → BTreeMap V → BTreeMap V
  or_insert k d m = if contains_key m k then m else insert k d m

  -- `f(m.entry(k).or_insert(d))`
  unfoldable pub update_or : Text → V → (V → V) → BTreeMap V → BTreeMap V
  update_or k d f m = insert k (f (unwrap_or d (get m k))) m

  pub or_insert-IsMap : (k : Text) (d : V) (m : BTreeMap V) → IsMap m → IsMap (or_insert k d m)
  unfolding or_insert
  or_insert-IsMap k d m h = if_ind IsMap (contains_key m k) (λ _. h) (λ _. insert-IsMap k d m h)

  pub update_or-IsMap :
      (k : Text) (d : V) (f : V → V) (m : BTreeMap V) → IsMap m → IsMap (update_or k d f m)
  unfolding update_or
  update_or-IsMap k d f m h = insert-IsMap k _ m h

  pub get-or_insert :
      (m : BTreeMap V) (k j : Text) (d : V)
      → get (or_insert k d m) j ≡ (if same k j then some (unwrap_or d (get m k)) else get m j)
  unfolding or_insert
  get-or_insert m k j d = ground (arith, get-insert m k j d, contains_key_lem m k, same_iff k j)

  pub get-update_or :
      (m : BTreeMap V) (k j : Text) (d : V) (f : V → V)
      → get (update_or k d f m) j ≡ (if same k j then some (f (unwrap_or d (get m k))) else get m j)
  unfolding update_or
  get-update_or m k j d f = get-insert m k j (f (unwrap_or d (get m k)))

  -- A key below all others has no entry.
  pub get_above :
      (k : Text) (m : BTreeMap V) → All (λ i. before k i ≡ true) (keys m) → get m k ≡ none
  unfolding get
  get_above k [] h = refl
  get_above k ((j, v) ∷ m) h = ground (arith, get_above k m h.1, same_iff j k, before_irrefl k)

  -- A property of every value.
  abbrev pub Each {κ} : (V → Type κ) → BTreeMap V → Type (ℓ ⊔ κ)
  Each P m = (k : Text) (v : V) → get m k ≡ some v → P v

  pub Each-insert {κ} :
      (P : V → Type κ) (k : Text) (v : V) (m : BTreeMap V) → Each P m → P v → Each P (insert k v m)
  Each-insert P k v m h p j w e = elim (Bool-cases (same k j)) [
    | inl at ↦
        let same_value : v ≡ w = ground (arith, e, at, get-insert m k j v) in subst P same_value p
    | inr other ↦ h j w (ground (arith, e, other, get-insert m k j v))
  ]
