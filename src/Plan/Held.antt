-- ===== src/Plan/Held.antt =====
-- Which services of a plan are held back with others.
use servicrab.Base.{
  match_option_ind, true, ◌||◌, any, if_ind, some, List, [], ◌∷◌, Text, same, same_iff, same_refl,
  filter, for_each, ◌≡◌, ◌↔◌, sym, subst, ◌⊎◌, inl, inr, arith, Bool-cases,
}
use servicrab.Base.Count.{contains, contains-filter}
use servicrab.Base.Map
use servicrab.Base.Set
use servicrab.Base.Set.{BTreeSet}
use servicrab.Config.{Config, Service}
use servicrab.Plan.{names_of, hold_turn, with_dependents}
use servicrab.Plan.Grown.{Needs, itself, through}

-- Each service of the plan behind all of its dependencies, those seen before included.
abbrev pub IsInOrder : Config → List Text → List Text → Type 0
IsInOrder config seen [] = Unit
IsInOrder config seen (k ∷ plan) =
    ((service : Service) (d : Text)
      → Map.get config.services k ≡ some service
      → contains (names_of service.depends_on) d ≡ true
      → contains seen d ≡ true)
    × IsInOrder config (k ∷ seen) plan

-- A service that needs one of the seeds in the plan.
abbrev pub NeedsSeed : Config → List Text → BTreeSet → Text → Type 0
NeedsSeed config plan seeds k =
    (seed : Text) × (contains seeds seed ≡ true) × (contains plan seed ≡ true) × Needs config k seed

any-contains :
    (held names : List Text)
    → any (λ dep. contains held dep) names ≡ true
    → (d : Text) × (contains names d ≡ true) × (contains held d ≡ true)
any-contains held [] h = cc
any-contains held (x ∷ names) h = elim (Bool-cases (contains held x)) [
  | inl inside ↦ (x, ground (arith, same_refl x), inside)
  | inr outside ↦
      let (d, named, inside) = any-contains held names (ground (arith, h, outside)) in
      (d, ground (arith, named), inside)
]

contains-any :
    (held names : List Text) (d : Text)
    → contains names d ≡ true
    → contains held d ≡ true
    → any (λ dep. contains held dep) names ≡ true
contains-any held [] d named inside = cc
contains-any held (x ∷ names) d named inside =
    ground (arith, named, inside, same_iff x d, contains-any held names d)

-- The state of the pass: what is held, against the names that it has seen.
record Pass (config : Config) (plan : List Text) (seeds : BTreeSet) (seen : List Text)
    (held : BTreeSet) : Type 0 where
  pub planned : (k : Text) → contains held k ≡ true → contains plan k ≡ true
  pub needs : (k : Text) → contains held k ≡ true → NeedsSeed config plan seeds k
  pub seeded :
      (k : Text) → contains seeds k ≡ true → contains plan k ≡ true → contains held k ≡ true
  pub complete :
      (k : Text) → contains seen k ≡ true → NeedsSeed config plan seeds k → contains held k ≡ true

module _ (config : Config) (plan : List Text) (seeds : BTreeSet) where
  -- The next name of the plan stays out: it needs no seed.
  Pass-over :
      (seen : List Text) (held : BTreeSet) (k : Text)
      → (NeedsSeed config plan seeds k → contains held k ≡ true)
      → Pass config plan seeds seen held
      → Pass config plan seeds (k ∷ seen) held
  Pass-over seen held k out p = record {
    planned = p.planned;
    needs = p.needs;
    seeded = p.seeded;
    complete = λ j inside needs. elim (Bool-cases (same k j)) [
      | inl at ↦
          subst (λ i. contains held i ≡ true) ((same_iff k j).0 at)
            (out (subst (NeedsSeed config plan seeds) (sym ((same_iff k j).0 at)) needs))
      | inr other ↦ p.complete j (ground (arith, other, inside)) needs
    ];
  }

  -- The next name of the plan is held.
  hold :
      (seen : List Text) (held : BTreeSet) (k : Text)
      → contains plan k ≡ true
      → NeedsSeed config plan seeds k
      → Pass config plan seeds seen held
      → Pass config plan seeds (k ∷ seen) (Set.insert k held)
  hold seen held k inside needs p = record {
    planned =
        λ j h. ground (arith, inside, h, p.planned j, same_iff k j, Set.contains-insert held k j);
    needs = λ j h. elim (Bool-cases (same k j)) [
      | inl at ↦ subst (NeedsSeed config plan seeds) ((same_iff k j).0 at) needs
      | inr other ↦ p.needs j (ground (arith, other, h, Set.contains-insert held k j))
    ];
    seeded = λ j a b. ground (arith, p.seeded j a b, Set.contains-insert held k j);
    complete = λ j h n. elim (Bool-cases (same k j)) [
      | inl at ↦ ground (arith, at, Set.contains-insert held k j)
      | inr other ↦
          ground (arith, p.complete j (ground (arith, other, h)) n, Set.contains-insert held k j)
    ];
  }

  -- A service that needs a seed is one, or has a dependency that needs one.
  NeedsSeed-cases :
      (seen : List Text) (held : BTreeSet) (k : Text)
      → Pass config plan seeds seen held
      → ((service : Service) (d : Text)
          → Map.get config.services k ≡ some service
          → contains (names_of service.depends_on) d ≡ true
          → contains seen d ≡ true)
      → NeedsSeed config plan seeds k
      → (contains held k ≡ true)
        ⊎ ((service : Service) × (Map.get config.services k ≡ some service)
            × (any (λ dep. contains held dep) (names_of service.depends_on) ≡ true))
  NeedsSeed-cases seen held k p ordered (seed, is_seed, inside, itself) =
      inl (p.seeded k is_seed inside)
  NeedsSeed-cases seen held k p ordered
        (seed, is_seed, inside, through {d} {service} found in_deps rest) =
      inr (
        service,
        found,
        contains-any held (names_of service.depends_on) d in_deps
            (p.complete d (ordered service d found in_deps) (seed, is_seed, inside, rest)),
      )

  turn :
      (seen : List Text) (held : BTreeSet) (k : Text)
      → contains plan k ≡ true
      → ((service : Service) (d : Text)
          → Map.get config.services k ≡ some service
          → contains (names_of service.depends_on) d ≡ true
          → contains seen d ≡ true)
      → Pass config plan seeds seen held
      → Pass config plan seeds (k ∷ seen) (hold_turn config held k)
  turn seen held k inside ordered p =
      match_option_ind (Pass config plan seeds (k ∷ seen)) (Map.get config.services k)
        (λ absent.
          Pass-over seen held k
            (λ n. elim (NeedsSeed-cases seen held k p ordered n) [
              | inl h ↦ h
              | inr (service, found, _) ↦ cc
            ])
            p)
        λ service found.
          if_ind (Pass config plan seeds (k ∷ seen))
            (any (λ dep. contains held dep) (names_of service.depends_on))
            (λ some_held.
              let (d, in_deps, d_held) =
                any-contains held (names_of service.depends_on) some_held in
              let (seed, is_seed, planned, rest) = p.needs d d_held in
              hold seen held k inside (seed, is_seed, planned, through found in_deps rest) p)
            λ none_held.
              Pass-over seen held k
                (λ n. elim (NeedsSeed-cases seen held k p ordered n) [
                  | inl h ↦ h
                  | inr (service', found', some_held) ↦
                      let same_service : service ≡ service' = ground (arith, found, found') in
                      absurd (ground (arith, none_held, some_held, same_service))
                ])
                p

  pass :
      (names seen : List Text) (held : BTreeSet)
      → ((k : Text) → contains names k ≡ true → contains plan k ≡ true)
      → IsInOrder config seen names
      → Pass config plan seeds seen held
      → (seen' : List Text) × Pass config plan seeds seen' (for_each (hold_turn config) held names)
        × ((k : Text) → contains names k || contains seen k ≡ true → contains seen' k ≡ true)
  pass [] seen held inside ordered p = (seen, p, λ k h. h)
  pass (x ∷ names) seen held inside ordered p =
      let (seen', p', covers) =
        pass names (x ∷ seen) (hold_turn config held x) (λ j e. inside j (ground (arith, e)))
          ordered.1 (turn seen held x (inside x (ground (arith, same_refl x))) ordered.0 p) in
      (seen', p', λ k h. covers k (ground (arith, h)))

  first : Pass config plan seeds [] (filter (λ name. contains plan name) seeds)
  first = record {
    planned = λ k h. ground (arith, h, contains-filter (λ name. contains plan name) k seeds);
    needs = λ k h. (
      k,
      ground (arith, h, contains-filter (λ name. contains plan name) k seeds),
      ground (arith, h, contains-filter (λ name. contains plan name) k seeds),
      itself,
    );
    seeded = λ k a b. ground (arith, a, b, contains-filter (λ name. contains plan name) k seeds);
    complete = λ k h n. cc;
  }

-- For a plan in which each service stands behind all of its dependencies, held back are exactly the
-- services of the plan that need, by however many dependencies, a seed that is in the plan.
pub with_dependents_iff :
    (config : Config) (plan : List Text) (seeds : BTreeSet) (k : Text)
    → IsInOrder config [] plan
    → (contains (with_dependents config plan seeds) k ≡ true)
      ↔ (contains plan k ≡ true) × NeedsSeed config plan seeds k
unfolding with_dependents
with_dependents_iff config plan seeds k ordered =
    let (seen, p, covers) =
      pass config plan seeds plan [] (filter (λ name. contains plan name) seeds) (λ j e. e) ordered
        (first config plan seeds) in
    (
      (λ h. (p.planned k h, p.needs k h)),
      (λ (inside, n). p.complete k (covers k (ground (arith, inside))) n),
    )
