-- ===== src/Plan/Roots.antt =====
-- What `plan_stack` makes of a selection.
use servicrab.Base.{
  match_option_ind, Bool, true, false, any, if◌then◌else◌, if_ind, none, some, List, [], ◌∷◌, Text,
  same_iff, same_refl, filter, Result, ok, err, returned, Returns, Returns-bind, Returns-map, ◌≡◌,
  ◌↔◌, refl, inl, inr, arith, Bool-cases,
}
use servicrab.Base.Count.{contains, contains-filter}
use servicrab.Base.Map
use servicrab.Base.Map.{BTreeMap}
use servicrab.Base.Set.{BTreeSet}
use servicrab.Config.{Config, Service}
use servicrab.Plan.{
  PlanError, unknown_service, unknown_profile, nothing_to_start, Selection, is_empty, collect_one,
  lookup_service, collect_named, collect_roots, collect_with_dependencies, depth, select,
  autostarted, order_selected, unknown, plan_stack,
}
use servicrab.Plan.Grown.{Needs, itself, through, Grown, Grown-none, Grown-more}
use servicrab.Plan.Closure.{collect-Returns, collect_roots-Returns}

-- Each service is filed under its own name.
abbrev pub IsNamed : Config → Type 0
IsNamed config =
    (k : Text) (service : Service) → Map.get config.services k ≡ some service → service.name ≡ k

-- What a selection asks for.
abbrev pub roots : Config → Selection → List Text
roots config selection =
    if is_empty selection.services then autostarted config selection else selection.services

-- The services that the roots need, where there are any, and else what an error means.
abbrev pub Planned : Config → Selection → Result PlanError (List Text) → Type 0
Planned config selection (ok plan) =
    (plan ≡ filter (λ name. contains plan name) config.start_order)
    × ((k : Text)
        → (contains plan k ≡ true)
          ↔ (contains config.start_order k ≡ true)
            × ((r : Text) × (contains (roots config selection) r ≡ true) × Needs config r k))
Planned config selection (err (unknown_service service _)) =
    (contains selection.services service ≡ true) × (Map.get config.services service ≡ none)
Planned config selection (err (unknown_profile profile _)) =
    (contains selection.profiles profile ≡ true)
    × (any (λ (service : Service). contains service.profiles profile) (Map.values config.services)
        ≡ false)
Planned config selection (err (nothing_to_start _)) =
    (selection.services ≡ []) × (autostarted config selection ≡ [])

-- The outcome of the loop over the names that are given.
abbrev Named : Config → List Text → BTreeSet → Result PlanError BTreeSet → Type 0
Named config names old (ok new) = Grown config names old new
Named config names old (err (unknown_service service _)) =
    (contains names service ≡ true) × (Map.get config.services service ≡ none)
Named config names old (err (unknown_profile _ _)) = ⊥
Named config names old (err (nothing_to_start _)) = ⊥

Named-more :
    (config : Config) (name : Text) (names : List Text) (old mid : BTreeSet)
    (r : Result PlanError BTreeSet)
    → Grown config (name ∷ []) old mid
    → Named config names mid r
    → Named config (name ∷ names) old r
Named-more config name names old mid (ok new) g h = Grown-more g h
Named-more config name names old mid (err (unknown_service service _)) g h =
    (ground (arith, h.0), h.1)
Named-more config name names old mid (err (unknown_profile _ _)) g h = h
Named-more config name names old mid (err (nothing_to_start _)) g h = h

collect_named-Returns :
    (config : Config) (names : List Text) (old : BTreeSet)
    → IsNamed config
    → Returns (Named config names old) (collect_named config names old)
unfolding collect_named lookup_service
collect_named-Returns config [] old named = Grown-none config old
collect_named-Returns config (name ∷ names) old named =
    match_option_ind
      (λ (found : Result PlanError Service). Returns (Named config (name ∷ names) old) (
        collect_one (collect_with_dependencies (depth config) config) (collect_named config names)
          found old))
      (Map.get config.services name) (λ absent. (ground (arith, same_refl name), absent))
      λ service found. rw (named name service found) (
        Returns-bind (Grown config (name ∷ []) old) (Named config (name ∷ names) old)
          (collect_with_dependencies (depth config) config name old) (collect_named config names)
          (collect-Returns config name old)
          (λ mid g.
            Returns-map (Named config names mid) (Named config (name ∷ names) old)
              (collect_named config names mid) (λ r h. Named-more config name names old mid r g h)
              (collect_named-Returns config names mid named)))

-- What a selected service needs is selected.
Needs-Grown :
    {config : Config} {names : List Text} {new : BTreeSet} {r k : Text}
    → Grown config names [] new
    → Needs config r k
    → contains new r ≡ true
    → contains new k ≡ true
Needs-Grown g itself h = h
Needs-Grown {r} g (through {d} {service} found in_deps needs) h =
    elim (g.closed r d service h found in_deps) [
      | inl never ↦ cc
      | inr selected ↦ Needs-Grown g needs selected
    ]

is_empty_lem : (names : List Text) → is_empty names ≡ true → names ≡ []
is_empty_lem [] e = refl
is_empty_lem (x ∷ names) e = cc

no_names :
    (names : List Text) → ((k : Text) → contains names k ≡ true → contains [] k ≡ true) → names ≡ []
no_names [] h = refl
no_names (name ∷ names) h = absurd (ground (arith, h name, same_refl name))

filter_same :
    (p q : Text → Bool) (xs : List Text)
    → ((k : Text) → contains xs k ≡ true → p k ≡ q k)
    → filter p xs ≡ filter q xs
filter_same p q [] h = refl
filter_same p q (x ∷ xs) h = ground (
  arith,
  h x (ground (arith, same_refl x)),
  filter_same p q xs (λ k inside. h k (ground (arith, inside))),
)

filter_again :
    (p : Text → Bool) (xs : List Text) → filter p xs ≡ filter (λ k. contains (filter p xs) k) xs
filter_again p xs =
    filter_same p (λ k. contains (filter p xs) k) xs
      (λ k inside. ground (arith, inside, contains-filter p k xs))

order_selected-Planned :
    (config : Config) (selection : Selection) (new : BTreeSet)
    → Grown config (roots config selection) [] new
    → Planned config selection (order_selected config selection (ok new))
unfolding order_selected
order_selected-Planned config selection [] g =
    let no_roots = no_names (roots config selection) g.takes in
    elim (Bool-cases (is_empty selection.services)) [
      | inl unnamed ↦ (is_empty_lem selection.services unnamed, ground (arith, unnamed, no_roots))
      | inr named ↦ absurd (ground (arith, named, no_roots))
    ]
order_selected-Planned config selection (name ∷ names) g = (
  filter_again (λ j. contains (name ∷ names) j) config.start_order,
  λ k. (
    (λ h.
        let selected : contains (name ∷ names) k ≡ true =
          ground
            (arith, h, contains-filter (λ j. contains (name ∷ names) j) k config.start_order) in
        let ordered : contains config.start_order k ≡ true =
          ground
            (arith, h, contains-filter (λ j. contains (name ∷ names) j) k config.start_order) in
        elim (g.needed k selected) [ inl never ↦ cc | inr root ↦ (ordered, root) ]),
    (λ (ordered, (r, is_root, needs)).
        let selected = Needs-Grown g needs (g.takes r is_root) in
        ground (
          arith,
          ordered,
          selected,
          contains-filter (λ j. contains (name ∷ names) j) k config.start_order,
        )),
  ),
)

order_selected-Named :
    (config : Config) (selection : Selection) (r : Result PlanError BTreeSet)
    → is_empty selection.services ≡ false
    → Named config selection.services [] r
    → Planned config selection (order_selected config selection r)
unfolding order_selected
order_selected-Named config selection (ok new) named g =
    order_selected-Planned config selection new (rw named g)
order_selected-Named config selection (err (unknown_service service _)) named h = h
order_selected-Named config selection (err (unknown_profile _ _)) named h = absurd h
order_selected-Named config selection (err (nothing_to_start _)) named h = absurd h

unknown_lem :
    (config : Config) (profiles : List Text) (profile : Text)
    → unknown config profiles ≡ some profile
    → (contains profiles profile ≡ true)
      × (any (λ (service : Service). contains service.profiles profile) (Map.values config.services)
          ≡ false)
unknown_lem config [] profile e = cc
unknown_lem config (p ∷ profiles) profile e =
    elim (Bool-cases
      (any (λ (service : Service). contains service.profiles p) (Map.values config.services))) [
        | inl declared ↦
            let (among, undeclared) =
              unknown_lem config profiles profile (ground (arith, e, declared)) in
            (ground (arith, among), undeclared)
        | inr undeclared ↦
            let same_profile : p ≡ profile = ground (arith, e, undeclared) in
            (ground (arith, same_iff p profile, same_profile), rw (← same_profile) undeclared)
      ]

select-Returns :
    (config : Config) (selection : Selection)
    → IsNamed config
    → Returns
        (λ r. Planned config selection (order_selected config selection r))
        (select config selection)
unfolding select
select-Returns config selection named =
    if_ind (Returns (λ r. Planned config selection (order_selected config selection r)))
      (is_empty selection.services)
      (λ unnamed.
        Returns-bind (Grown config (autostarted config selection) [])
          (λ r. Planned config selection (order_selected config selection r))
          (collect_roots config (autostarted config selection) []) (λ new. returned (ok new))
          (collect_roots-Returns config (autostarted config selection) [])
          (λ new g. order_selected-Planned config selection new (rw unnamed g)))
      λ by_name.
        Returns-map (Named config selection.services [])
          (λ r. Planned config selection (order_selected config selection r))
          (collect_named config selection.services [])
          (λ r h. order_selected-Named config selection r by_name h)
          (collect_named-Returns config selection.services [] named)

-- From every configuration that files its services under their names, and every selection, the
-- search for dependencies ends. A plan is the start order without the services that are not in it,
-- and holds exactly those that a root
-- needs, where the roots are the services named, or with none named those of autostart that the
-- profiles enable. An error names a service of the selection that is not configured or a profile of
-- it that no service declares, or says that no service is named and none starts by itself.
pub plan_stack_iff :
    (config : Config) (selection : Selection)
    → IsNamed config
    → Returns (Planned config selection) (plan_stack config selection)
unfolding plan_stack
plan_stack_iff config selection named =
    match_option_ind (Returns (Planned config selection)) (unknown config selection.profiles)
      (λ _.
        Returns-bind (λ r. Planned config selection (order_selected config selection r))
          (Planned config selection) (select config selection)
          (λ r. returned (order_selected config selection r))
          (select-Returns config selection named) (λ r h. h))
      (λ profile undeclared. unknown_lem config selection.profiles profile undeclared)
