-- ===== src/Base/Alter.antt =====
-- A `BTreeMap` that changes entry by entry.
use Prim.Native.Nat.{◌≤◌}
use mathlib.Core.Path.{◌≡◌, refl}
use mathlib.Core.Bool.{Bool}
use mathlib.Core.Logic.{inl, inr}
use mathlib.Core.Option.{Option, none, some}
use mathlib.Core.List.{List, [], ◌∷◌}
use native.Mathlib.Omega.{arith}
use servicrab.Base.Count.{count, contains, contains_iff}
use servicrab.Base.Tests.{if◌then◌else◌, Bool-cases}
use servicrab.Base.Texts.{Text, same, same_iff}
use servicrab.Base.Map
use servicrab.Base.Map.{BTreeMap}
use servicrab.Base.Entries.{remove, get-remove, remove-IsMap}

module _ {ℓ} {V : Type ℓ} where
  -- An entry that is replaced, or taken out.
  abbrev pub put_back : Text → Option V → BTreeMap V → BTreeMap V
  put_back k none m = remove k m
  put_back k (some v) m = Map.insert k v m

  get-put_back :
      (m : BTreeMap V) (k j : Text) (o : Option V)
      → Map.get (put_back k o m) j ≡ (if same k j then o else Map.get m j)
  get-put_back m k j none = get-remove m k j
  get-put_back m k j (some v) = Map.get-insert m k j v

  put_back-IsMap :
      (k : Text) (o : Option V) (m : BTreeMap V) → Map.IsMap m → Map.IsMap (put_back k o m)
  put_back-IsMap k none m h = remove-IsMap k m h
  put_back-IsMap k (some v) m h = Map.insert-IsMap k v m h

  -- One entry looked up, and kept, replaced or taken out.
  unfoldable pub alter : Text → (Option V → Option V) → BTreeMap V → BTreeMap V
  alter k g m = put_back k (g (Map.get m k)) m

  pub get-alter :
      (m : BTreeMap V) (k j : Text) (g : Option V → Option V)
      → Map.get (alter k g m) j ≡ (if same k j then g (Map.get m k) else Map.get m j)
  unfolding alter
  get-alter m k j g = get-put_back m k j (g (Map.get m k))

  pub alter-IsMap :
      (k : Text) (g : Option V → Option V) (m : BTreeMap V) → Map.IsMap m → Map.IsMap (alter k g m)
  unfolding alter
  alter-IsMap k g m h = put_back-IsMap k (g (Map.get m k)) m h

  -- `for name in names`, each turn for its own entry.
  unfoldable pub alter_all : (Text → Option V → Option V) → List Text → BTreeMap V → BTreeMap V
  alter_all g [] m = m
  alter_all g (k ∷ ks) m = alter_all g ks (alter k (g k) m)

  pub alter_all-IsMap :
      (g : Text → Option V → Option V) (ks : List Text) (m : BTreeMap V)
      → Map.IsMap m
      → Map.IsMap (alter_all g ks m)
  unfolding alter_all
  alter_all-IsMap g [] m h = h
  alter_all-IsMap g (k ∷ ks) m h = alter_all-IsMap g ks (alter k (g k) m) (alter-IsMap k (g k) m h)

  -- A key that stands once among the names has its turn, and the others are left alone.
  pub get-alter_all :
      (g : Text → Option V → Option V) (ks : List Text) (m : BTreeMap V) (j : Text)
      → count j ks ≤ 1
      → Map.get (alter_all g ks m) j ≡ (if contains ks j then g j (Map.get m j) else Map.get m j)
  unfolding alter_all
  get-alter_all g [] m j h = refl
  get-alter_all g (k ∷ ks) m j h = ground (
    arith,
    get-alter_all g ks (alter k (g k) m) j,
    get-alter m k j (g k),
    same_iff k j,
    contains_iff ks j,
    h,
  )

  alter-keeps {κ} :
      (P : Text → Option V → Type κ) (k : Text) (g : Option V → Option V) (m : BTreeMap V)
      → ((o : Option V) → P k o → P k (g o))
      → ((j : Text) → P j (Map.get m j))
      → (j : Text) → P j (Map.get (alter k g m) j)
  alter-keeps P k g m keeps h j = elim (Bool-cases (same k j)) [
    | inl at ↦ rw (get-alter m k j g, at, ← (same_iff k j).0 at) (keeps (Map.get m k) (h k))
    | inr other ↦ rw (get-alter m k j g, other) (h j)
  ]

  -- What every turn keeps of the entry of its own name holds of every entry behind the loop.
  pub alter_all-keeps {κ} :
      (P : Text → Option V → Type κ) (g : Text → Option V → Option V) (ks : List Text)
      (m : BTreeMap V)
      → ((k : Text) (o : Option V) → P k o → P k (g k o))
      → ((j : Text) → P j (Map.get m j))
      → (j : Text) → P j (Map.get (alter_all g ks m) j)
  unfolding alter_all
  alter_all-keeps P g [] m keeps h = h
  alter_all-keeps P g (k ∷ ks) m keeps h =
      alter_all-keeps P g ks (alter k (g k) m) keeps (alter-keeps P k (g k) m (keeps k) h)

  -- `m.retain(|k, _| p(k))`
  unfoldable pub retain : (Text → Bool) → BTreeMap V → BTreeMap V
  retain p [] = []
  retain p ((k, v) ∷ m) = let rest = retain p m in if p k then (k, v) ∷ rest else rest

  pub get-retain :
      (p : Text → Bool) (m : BTreeMap V) (k : Text)
      → Map.get (retain p m) k ≡ (if p k then Map.get m k else none)
  unfolding retain Map.get
  get-retain p [] k = ground arith
  get-retain p ((j, v) ∷ m) k = ground (arith, get-retain p m k, same_iff j k)
