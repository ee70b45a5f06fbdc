-- ===== src/Stack/Wiring.antt =====
-- The edges of the slots behind a reload.
use servicrab.Base.{
  Bool, true, false, ◌&&◌, map, filter, All, All-map, ◌⊎◌, inl, inr, Option-cases, Bool-cases, ap,
  sym, subst, if◌then◌else◌, Option, none, some, List, [], ◌∷◌, Text, ◌≡◌, refl, ◌∙◌, arith,
}
use servicrab.Base.Count.{contains}
use servicrab.Base.Map
use servicrab.Base.Map.{BTreeMap}
use servicrab.Config.{
  Config, Service, Dependency, DependencyCondition, condition_for, service_started, service_healthy,
}
use servicrab.Plan.{names_of}
use servicrab.Readiness.{DependencyEdge}
use servicrab.Stack.{
  Slot, RunState, edges, rewire_dependencies, apply_diff, reload_stack, diff, ConfigDiff,
  first_busy,
}
use servicrab.Stack.Turns.{
  rewired, started_slot, turned_slots, get-start_added, get-rewire_dependencies,
}

-- Edges depend on which services have a slot alone.
edges_same :
    (config : Config) (a b : BTreeMap Slot) (deps : List Dependency)
    → ((k : Text) → Map.contains_key a k ≡ Map.contains_key b k)
    → edges config a deps ≡ edges config b deps
edges_same config a b [] h = refl
edges_same config a b (dep ∷ deps) h = rw (h dep.service, edges_same config a b deps h) refl

is_some-started : (o : Option Slot) → Map.is_some (started_slot o) ≡ Map.is_some o
is_some-started none = refl
is_some-started (some slot) = ground arith

is_some-rewired :
    (config : Config) (slots : BTreeMap Slot) (k : Text) (o : Option Slot)
    → Map.is_some (rewired config slots k o) ≡ Map.is_some o
is_some-rewired config slots k none = refl
is_some-rewired config slots k (some slot) = refl

-- What a slot has for edges, where it is there.
abbrev pub deps_of : Option Slot → Option (List DependencyEdge)
deps_of none = none
deps_of (some slot) = some slot.deps

deps_of-started : (o : Option Slot) → deps_of (started_slot o) ≡ deps_of o
deps_of-started none = refl
deps_of-started (some slot) = ground arith

module _ (config : Config) (plan : List Text) (d : ConfigDiff) (st : RunState) where
  slots_before : BTreeMap Slot
  slots_before = turned_slots config d st.slots

  get-after :
      (k : Text)
      → Map.get (apply_diff config plan d st).slots k ≡ (
          if contains d.added k
          then started_slot (rewired config slots_before k (Map.get slots_before k))
          else rewired config slots_before k (Map.get slots_before k))
  unfolding apply_diff slots_before
  get-after k =
      let st' = record st {
        config = config;
        plan = plan;
        slots = turned_slots config d st.slots;
      } in
      rw (get-start_added d.added (rewire_dependencies st') k, get-rewire_dependencies st' k) refl

  keys_after :
      (k : Text)
      → Map.contains_key slots_before k ≡ Map.contains_key (apply_diff config plan d st).slots k
  keys_after k = ground (
    arith,
    Map.contains_key_lem slots_before k,
    Map.contains_key_lem (apply_diff config plan d st).slots k,
    get-after k,
    is_some-started (rewired config slots_before k (Map.get slots_before k)),
    is_some-rewired config slots_before k (Map.get slots_before k),
  )

  deps_after :
      (k : Text) (slot : Slot) (service : Service)
      → Map.get (apply_diff config plan d st).slots k ≡ some slot
      → Map.get config.services k ≡ some service
      → slot.deps ≡ edges config (apply_diff config plan d st).slots service.depends_on
  deps_after k slot service found configured =
      let before = Map.get slots_before k in
      let same_deps : some slot.deps ≡ deps_of (rewired config slots_before k before) =
        ground
          (arith, found, get-after k, deps_of-started (rewired config slots_before k before)) in
      deps_cases before slot service same_deps configured
      ∙ edges_same config slots_before (apply_diff config plan d st).slots service.depends_on
          keys_after
    where
      deps_cases :
          (o : Option Slot) (slot : Slot) (service : Service)
          → some slot.deps ≡ deps_of (rewired config slots_before k o)
          → Map.get config.services k ≡ some service
          → slot.deps ≡ edges config slots_before service.depends_on
      deps_cases none slot service e configured = cc
      deps_cases (some old) slot service e configured = ground (arith, e, configured)

-- The dependencies that an edge can be made for.
unfoldable pub is_wired : Config → BTreeMap Slot → Text → Bool
is_wired config slots name = Map.contains_key config.services name && Map.contains_key slots name

is_wired_lem :
    (config : Config) (slots : BTreeMap Slot) (name : Text)
    → is_wired config slots name
      ≡ (Map.contains_key config.services name && Map.contains_key slots name)
unfolding is_wired
is_wired_lem config slots name = refl

-- The condition of a dependency: the one that is written, or else `service_healthy` where the service
-- that it names has a health check, and `service_started` where it has none.
abbrev pub IsConditionOf : Config → Dependency → DependencyCondition → Type 0
IsConditionOf config dep condition =
    (dep.condition ≡ some condition)
    ⊎ (dep.condition ≡ none)
      × ((target : Service) × (Map.get config.services dep.service ≡ some target)
          × ((condition ≡ service_healthy) × (Map.is_some target.health ≡ true)
              ⊎ (condition ≡ service_started) × (Map.is_some target.health ≡ false)))

-- The edge is that of one of the dependencies.
abbrev pub IsEdgeOf : Config → List Dependency → DependencyEdge → Type 0
IsEdgeOf config [] edge = ⊥
IsEdgeOf config (dep ∷ deps) edge =
    (dep.service ≡ edge.name) × IsConditionOf config dep edge.condition ⊎ IsEdgeOf config deps edge

-- The names of the edges are those of the dependencies that can be wired, in their order, and each
-- edge has the condition of its dependency.
abbrev pub AreEdgesOf : Config → BTreeMap Slot → List Dependency → List DependencyEdge → Type 0
AreEdgesOf config slots deps found =
    (map (λ (e : DependencyEdge). e.name) found ≡ filter (is_wired config slots) (names_of deps))
    × All (IsEdgeOf config deps) found

condition_for-IsConditionOf :
    (config : Config) (dep : Dependency) (target : Service)
    → Map.get config.services dep.service ≡ some target
    → IsConditionOf config dep (condition_for dep target)
unfolding condition_for
condition_for-IsConditionOf config dep target found = elim (Option-cases dep.condition) [
  | inr (written, at) ↦ inl (rw at refl)
  | inl absent ↦ elim (Option-cases target.health) [
    | inr (check, health) ↦
        inr (absent, (target, found, inl (rw (absent, health) refl, rw health refl)))
    | inl health ↦ inr (absent, (target, found, inr (rw (absent, health) refl, rw health refl)))
  ]
]

edges-AreEdgesOf :
    (config : Config) (slots : BTreeMap Slot) (deps : List Dependency)
    → AreEdgesOf config slots deps (edges config slots deps)
edges-AreEdgesOf config slots [] = (refl, tt)
edges-AreEdgesOf config slots (dep ∷ deps) =
    let (names, each) = edges-AreEdgesOf config slots deps in
    let rest : All (IsEdgeOf config (dep ∷ deps)) (edges config slots deps) =
      All-map (λ (e : DependencyEdge) h. inr h) (edges config slots deps) each in
    let known = Map.contains_key_lem config.services dep.service in
    let wired = is_wired_lem config slots dep.service in
    elim (Option-cases (Map.get config.services dep.service)) [
      | inl absent ↦
          let out : is_wired config slots dep.service ≡ false =
            ground (arith, wired, known, absent) in
          rw (absent, out) (names, rest)
      | inr (target, found) ↦ elim (Bool-cases (Map.contains_key slots dep.service)) [
        | inl there ↦
            let inside : is_wired config slots dep.service ≡ true =
              ground (arith, wired, known, found, there) in
            rw (found, there, inside)
              (
                ap (λ (l : List Text). dep.service ∷ l) names,
                (inl (refl, condition_for-IsConditionOf config dep target found), rest),
              )
        | inr missing ↦
            let out : is_wired config slots dep.service ≡ false = ground (arith, wired, missing) in
            rw (found, missing, out) (names, rest)
      ]
    ]

-- Behind a reload that no waiting command stops, every slot of a configured service has one edge for
-- each of its dependencies that is configured and has a slot, in their order. The condition of an
-- edge is the one that its dependency has in the new configuration, and where it has none
-- `service_healthy` if the dependency has a health check there and `service_started` if not.
pub reload_stack-edges :
    (config : Config) (plan : List Text) (st : RunState) (k : Text) (slot : Slot)
    (service : Service)
    → first_busy st.slots ≡ none
    → Map.get (reload_stack config plan st).1.slots k ≡ some slot
    → Map.get config.services k ≡ some service
    → AreEdgesOf config (reload_stack config plan st).1.slots service.depends_on slot.deps
unfolding reload_stack
reload_stack-edges config plan st k slot service quiet found configured =
    let same_state : (reload_stack config plan st).1
        ≡ apply_diff config plan (diff st config plan) st =
      ground (arith, quiet) in
    let after = apply_diff config plan (diff st config plan) st in
    let same_edges =
      deps_after config plan (diff st config plan) st k slot service (rw same_state at found)
        configured in
    subst (λ (r : RunState). AreEdgesOf config r.slots service.depends_on slot.deps)
      (sym same_state)
      (subst (λ l. AreEdgesOf config after.slots service.depends_on l) (sym same_edges)
        (edges-AreEdgesOf config after.slots service.depends_on))
