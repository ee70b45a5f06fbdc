-- ===== src/Plan/Grown.antt =====
-- What a call of `collect_with_dependencies` makes of the selection.
use servicrab.Base.{
  true, none, some, List, [], ◌∷◌, Text, same, same_iff, same_refl, ◌≡◌, subst, ◌⊎◌, inl, inr,
  arith, Bool-cases,
}
use servicrab.Base.Count.{contains}
use servicrab.Base.Map
use servicrab.Base.Map.{BTreeMap}
use servicrab.Base.Set
use servicrab.Base.Set.{BTreeSet}
use servicrab.Config.{Config, Service}
use servicrab.Plan.{names_of}

-- A service needs itself, and all that its dependencies need.
pub data Needs (config : Config) : Text → Text → Type 0 where
  itself : {k : Text} → Needs config k k
  through :
      {k d j : Text} {service : Service}
      → Map.get config.services k ≡ some service
      → contains (names_of service.depends_on) d ≡ true
      → Needs config d j
      → Needs config k j

-- What a call for the names makes of the selection: it keeps it, takes the names in, takes in only
-- what they need, and with every service that it takes in the dependencies of it.
pub record Grown (config : Config) (names : List Text) (old new : BTreeSet) : Type 0 where
  pub keeps : (k : Text) → contains old k ≡ true → contains new k ≡ true
  pub takes : (k : Text) → contains names k ≡ true → contains new k ≡ true
  pub needed :
      (k : Text)
      → contains new k ≡ true
      → (contains old k ≡ true) ⊎ ((r : Text) × (contains names r ≡ true) × Needs config r k)
  pub closed :
      (k d : Text) (service : Service)
      → contains new k ≡ true
      → Map.get config.services k ≡ some service
      → contains (names_of service.depends_on) d ≡ true
      → (contains old k ≡ true) ⊎ (contains new d ≡ true)

pub Grown-none : (config : Config) (old : BTreeSet) → Grown config [] old old
Grown-none config old = record {
  keeps = λ k h. h;
  takes = λ k h. cc;
  needed = λ k h. inl h;
  closed = λ k d service h _ _. inl h;
}

pub Grown-more :
    {config : Config} {name : Text} {names : List Text} {old mid new : BTreeSet}
    → Grown config (name ∷ []) old mid
    → Grown config names mid new
    → Grown config (name ∷ names) old new
Grown-more {config} {name} {names} {old} {mid} {new} g h = record {
  keeps = λ k in_old. h.keeps k (g.keeps k in_old);
  takes = λ k in_names. elim (Bool-cases (same name k)) [
    | inl at ↦ h.keeps k (g.takes k (ground (arith, at)))
    | inr other ↦ h.takes k (ground (arith, other, in_names))
  ];
  needed = λ k in_new. elim (h.needed k in_new) [
    | inl in_mid ↦ elim (g.needed k in_mid) [
      | inl in_old ↦ inl in_old
      | inr (r, is_name, needs) ↦ inr (r, ground (arith, is_name), needs)
    ]
    | inr (r, in_names, needs) ↦ inr (r, ground (arith, in_names), needs)
  ];
  closed = λ k d service in_new found in_deps. elim (h.closed k d service in_new found in_deps) [
    | inl in_mid ↦ elim (g.closed k d service in_mid found in_deps) [
      | inl in_old ↦ inl in_old
      | inr d_mid ↦ inr (h.keeps d d_mid)
    ]
    | inr d_new ↦ inr d_new
  ];
}

pub Grown-known :
    (config : Config) (name : Text) (old : BTreeSet)
    → contains old name ≡ true
    → Grown config (name ∷ []) old old
Grown-known config name old known = record {
  keeps = λ k h. h;
  takes = λ k h. ground (arith, same_iff name k, h, known);
  needed = λ k h. inl h;
  closed = λ k d service h _ _. inl h;
}

pub Grown-leaf :
    (config : Config) (name : Text) (old : BTreeSet)
    → Map.get config.services name ≡ none
    → Grown config (name ∷ []) old (Set.insert name old)
Grown-leaf config name old absent = record {
  keeps = λ k h. ground (arith, h, Set.contains-insert old name k);
  takes = λ k h. ground (arith, h, Set.contains-insert old name k);
  needed = λ k h. elim (Bool-cases (same name k)) [
    | inl at ↦ inr (
      name,
      ground (arith, same_refl name),
      subst (Needs config name) ((same_iff name k).0 at) itself,
    )
    | inr other ↦ inl (ground (arith, other, h, Set.contains-insert old name k))
  ];
  closed = λ k d service h found _. elim (Bool-cases (same name k)) [
    | inl at ↦ absurd (ground (arith, same_iff name k, at, found, absent))
    | inr other ↦ inl (ground (arith, other, h, Set.contains-insert old name k))
  ];
}

pub Grown-node :
    (config : Config) (name : Text) (old new : BTreeSet) (service : Service)
    → Map.get config.services name ≡ some service
    → Grown config (names_of service.depends_on) (Set.insert name old) new
    → Grown config (name ∷ []) old new
Grown-node config name old new service configured g = record {
  keeps = λ k h. g.keeps k (ground (arith, h, Set.contains-insert old name k));
  takes = λ k h. g.keeps k (ground (arith, h, Set.contains-insert old name k));
  needed = λ k h. elim (g.needed k h) [
    | inl inserted ↦ elim (Bool-cases (same name k)) [
      | inl at ↦ inr (
        name,
        ground (arith, same_refl name),
        subst (Needs config name) ((same_iff name k).0 at) itself,
      )
      | inr other ↦ inl (ground (arith, other, inserted, Set.contains-insert old name k))
    ]
    | inr (r, in_deps, needs) ↦
        inr (name, ground (arith, same_refl name), through configured in_deps needs)
  ];
  closed = λ k d service' h found in_deps. elim (g.closed k d service' h found in_deps) [
    | inl inserted ↦ elim (Bool-cases (same name k)) [
      | inl at ↦
          let same_service : service ≡ service' =
            ground (arith, same_iff name k, at, found, configured) in
          inr (g.takes d (rw same_service in_deps))
      | inr other ↦ inl (ground (arith, other, inserted, Set.contains-insert old name k))
    ]
    | inr d_new ↦ inr d_new
  ];
}
