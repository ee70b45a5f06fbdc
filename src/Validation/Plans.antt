-- ===== src/Validation/Plans.antt =====
-- The plans of a configuration that crates/servicrab-core/src/validation.rs accepts.
use servicrab.Base.{
  Bool, true, some, List, [], ◌∷◌, ◌++◌, ◌⊎◌, Text, same, same_iff, filter, if_ind, ◌≡◌, ◌↔◌, ap,
  inl, inr, Bool-cases, Result, ok, err, Returns, Returns-map, arith,
}
use servicrab.Base.Count.{count, contains, count-filter, contains_iff, All-contains}
use servicrab.Base.Map
use servicrab.Base.Map.{BTreeMap, is_some}
use servicrab.Base.Set
use servicrab.Config.{Dependency, Service, Config}
use servicrab.Graph.Build.{deps_of}
use servicrab.Graph.Order.{IsStartOrder}
use servicrab.Plan.{Selection, PlanError, names_of, plan_stack}
use servicrab.Plan.Grown.{Needs, itself, through}
use servicrab.Plan.Roots.{roots, Planned, plan_stack_iff}
use servicrab.Plan.Held.{IsInOrder}
use servicrab.Stack.Reloads.{IsPlanOf}
use servicrab.Validation.Pipeline.{dep_graph}
use servicrab.Validation.Whole.{get-dep_graph}
use servicrab.Validation.Accepted.{IsDependencies, IsValid}

contains-append :
    (xs ys : List Text) (k : Text)
    → contains (xs ++ ys) k ≡ true
    → (contains xs k ≡ true) ⊎ (contains ys k ≡ true)
contains-append [] ys k h = inr h
contains-append (x ∷ xs) ys k h = elim (Bool-cases (same x k)) [
  | inl at ↦ inl (ground (arith, at))
  | inr other ↦ elim (contains-append xs ys k (ground (arith, h, other))) [
    | inl before ↦ inl (ground (arith, before))
    | inr behind ↦ inr behind
  ]
]

-- What the need of a root leads to, one step further.
Needs-step :
    {config : Config} {r k d : Text} {service : Service}
    → Needs config r k
    → Map.get config.services k ≡ some service
    → contains (names_of service.depends_on) d ≡ true
    → Needs config r d
Needs-step itself found in_deps = through found in_deps itself
Needs-step (through f i needs) found in_deps = through f i (Needs-step needs found in_deps)

module _ (config : Config) (keeps : Text → Bool)
    (closed : (k d : Text) (s : Service)
      → keeps k ≡ true
      → Map.get config.services k ≡ some s
      → contains (names_of s.depends_on) d ≡ true
      → keeps d ≡ true) where
  -- An order stays one for the services that are kept, with what they need.
  IsInOrder-filter :
      (seen kept order : List Text)
      → ((d : Text) → contains seen d ≡ true → keeps d ≡ true → contains kept d ≡ true)
      → IsStartOrder (dep_graph config.services) seen order
      → IsInOrder config kept (filter keeps order)
  IsInOrder-filter seen kept [] covered h = tt
  IsInOrder-filter seen kept (k ∷ order) covered h =
      if_ind (IsInOrder config kept) (keeps k)
        (λ kept_too. (
          (λ service d found in_deps.
              let graph = get-dep_graph config.services k in
              covered d
                (All-contains (λ j. contains seen j ≡ true) (deps_of (dep_graph config.services) k)
                  d h.0 (ground (arith, in_deps, found, graph)))
                (closed k d service kept_too found in_deps)),
          IsInOrder-filter (seen ++ k ∷ []) (k ∷ kept) order
              (λ d inside kept_d. elim (contains-append seen (k ∷ []) d inside) [
                | inl before ↦ ground (arith, covered d before kept_d)
                | inr last ↦ ground (arith, last)
              ])
              h.1,
        ))
        λ dropped.
          IsInOrder-filter (seen ++ k ∷ []) kept order
            (λ d inside kept_d. elim (contains-append seen (k ∷ []) d inside) [
              | inl before ↦ covered d before kept_d
              | inr last ↦
                  let named : k ≡ d = (same_iff k d).0 (ground (arith, last)) in
                  absurd (ground (arith, rw named at dropped, kept_d))
            ])
            h.1

-- The plan has each service once, they are services of the configuration, and each of them stands
-- behind its dependencies.
abbrev pub IsStartable : Config → Result PlanError (List Text) → Type 0
IsStartable config (ok plan) = IsPlanOf config plan × IsInOrder config [] plan
IsStartable config (err e) = Unit

-- A dependency is a service.
dependency_known :
    (services : BTreeMap Service) (k : Text) (seen : List Text) (deps : List Dependency) (d : Text)
    → IsDependencies services k seen deps
    → contains (names_of deps) d ≡ true
    → is_some (Map.get services d) ≡ true
dependency_known services k seen [] d h inside = cc
dependency_known services k seen (e ∷ deps) d (_, _, (target, known, _), more) inside =
    elim (Bool-cases (same e.service d)) [
      | inl at ↦ rw (← (same_iff e.service d).0 at, known)
      | inr other ↦
          dependency_known services k (Set.insert e.service seen) deps d more
            (ground (arith, inside, other))
    ]

module _ (config : Config) (valid : IsValid config) where
  -- The order holds the services, and nothing else.
  ordered_iff :
      (k : Text)
      → (contains config.start_order k ≡ true) ↔ (is_some (Map.get config.services k) ≡ true)
  ordered_iff k = ground (
    arith,
    contains_iff config.start_order k,
    valid.once k,
    Map.contains_key_lem (dep_graph config.services) k,
    get-dep_graph config.services k,
  )

  plan-IsStartable :
      (roots plan : List Text)
      → plan ≡ filter (λ name. contains plan name) config.start_order
      → ((k : Text)
          → (contains plan k ≡ true)
            ↔ (contains config.start_order k ≡ true)
              × ((r : Text) × (contains roots r ≡ true) × Needs config r k))
      → IsStartable config (ok plan)
  plan-IsStartable roots plan same_plan needed =
      let closed : (k d : Text) (s : Service)
          → contains plan k ≡ true
          → Map.get config.services k ≡ some s
          → contains (names_of s.depends_on) d ≡ true
          → contains plan d ≡ true =
        λ k d s inside found in_deps.
          let (_, (r, is_root, needs)) = (needed k).0 inside in
          let known =
            dependency_known config.services k [] s.depends_on d (valid.links k s found) in_deps in
          (needed d).1 ((ordered_iff d).1 known, (r, is_root, Needs-step needs found in_deps)) in
      (
        (
          (λ k. ground (
            arith,
            ap (count k) same_plan,
            count-filter (λ name. contains plan name) k config.start_order,
            valid.once k,
          )),
          λ k inside. (ordered_iff k).0 ((needed k).0 inside).0,
        ),
        rw same_plan (
            IsInOrder-filter config (λ name. contains plan name) closed [] [] config.start_order
              (λ d impossible _. impossible) valid.order),
      )

-- What `plan_stack` plans of a valid configuration can be started: the plan has each of its
-- services once, all of them are configured, and each one stands behind all of its dependencies,
-- which are in the plan too. These are what the supervisor's theorems ask of a plan.
pub plan_stack-IsStartable :
    (config : Config) (selection : Selection)
    → IsValid config
    → Returns (IsStartable config) (plan_stack config selection)
plan_stack-IsStartable config selection valid =
    Returns-map (Planned config selection) (IsStartable config) (plan_stack config selection)
      startable (plan_stack_iff config selection valid.named)
  where
    startable :
        (r : Result PlanError (List Text)) → Planned config selection r → IsStartable config r
    startable (err e) h = tt
    startable (ok plan) (same_plan, needed) =
        plan-IsStartable config valid (roots config selection) plan same_plan needed
