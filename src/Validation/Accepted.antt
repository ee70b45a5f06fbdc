-- ===== src/Validation/Accepted.antt =====
-- crates/servicrab-core/src/validation.rs: what a configuration is that `validate_raw` accepts.
use servicrab.Base.{
  Bool, true, false, Option, none, some, List, [], ◌∷◌, Text, same, ◌≡◌, refl, sym, subst, ap, ◌∙◌,
  inl, inr, match_option, Option-cases, arith,
}
use servicrab.Base.Count.{contains}
use servicrab.Base.Map
use servicrab.Base.Map.{BTreeMap, is_some}
use servicrab.Base.Set
use servicrab.Base.Set.{BTreeSet}
use servicrab.Lifecycle.{RestartPolicy}
use servicrab.Config.{DependencyCondition, Dependency, Service, Config}
use servicrab.Raw.{RawRestartPolicy, RawService}
use servicrab.Graph.Order.{IsStartOrder}
use servicrab.Graph.StartOrder.{IsEachOnce}
use servicrab.Errors.Checked.{Passes}
use servicrab.Validation.{Host}
use servicrab.Validation.Services.{
  Shared, restart_policy, dependencies, dependency_entries, parse_dependency_condition,
  validate_services,
}
use servicrab.Validation.Pipeline.{never_completes, check_services, dep_graph}
use servicrab.Validation.Settings.{
  IsService, build_service-IsService, name-build_service, depends_on-build_service,
  health-build_service, restart-build_service, health_passes,
}
use servicrab.Validation.Health.{optional_health_lem}
use servicrab.Validation.Loop.{Built, others_kept, validate_services-Built}
use servicrab.Validation.Links.{CanHold, IsSatisfiable, IsLinked, check_services-IsLinked}
use servicrab.Plan.Roots.{IsNamed}

-- The service does not restart whenever it has exited.
abbrev pub stays_exited : RestartPolicy → Bool
stays_exited RestartPolicy.never = true
stays_exited RestartPolicy.on_failure = true
stays_exited RestartPolicy.always = false
stays_exited RestartPolicy.unless_stopped = false

-- What a dependent waits for can come to hold.
abbrev pub Holds : Service → Option DependencyCondition → Type 0
Holds target none = Unit
Holds target (some DependencyCondition.service_started) = Unit
Holds target (some DependencyCondition.service_healthy) = is_some target.health ≡ true
Holds target (some DependencyCondition.service_completed_successfully) =
    stays_exited target.restart ≡ true

-- The dependencies are other services, each of them once, on conditions that can hold.
abbrev pub IsDependencies : BTreeMap Service → Text → BTreeSet → List Dependency → Type 0
IsDependencies services name seen [] = Unit
IsDependencies services name seen (d ∷ ds) =
    (same d.service name ≡ false)
    × (contains seen d.service ≡ false)
    × ((target : Service) × (Map.get services d.service ≡ some target) × Holds target d.condition)
    × IsDependencies services name (Set.insert d.service seen) ds

pub record IsValid (config : Config) : Type 0 where
  pub keys : Map.IsMap config.services
  pub named : IsNamed config
  pub settings : (k : Text) (s : Service) → Map.get config.services k ≡ some s → IsService s
  pub links :
      (k : Text) (s : Service)
      → Map.get config.services k ≡ some s
      → IsDependencies config.services k [] s.depends_on
  pub order : IsStartOrder (dep_graph config.services) [] config.start_order
  pub once : IsEachOnce (dep_graph config.services) config.start_order

stays_exited_lem :
    (policy : RawRestartPolicy)
    → never_completes policy ≡ false
    → stays_exited (restart_policy policy) ≡ true
stays_exited_lem RawRestartPolicy.never h = refl
stays_exited_lem RawRestartPolicy.on_failure h = refl
stays_exited_lem RawRestartPolicy.always h = cc
stays_exited_lem RawRestartPolicy.unless_stopped h = cc

module _ (host : Host) (shared : Shared) (raws : BTreeMap RawService) (sorted : Map.IsMap raws)
    (passes : Passes (validate_services host shared [] raws)) where
  abbrev services : BTreeMap Service
  services = (validate_services host shared [] raws).value

  -- Each service was built from an entry.
  pub entry_of :
      (k : Text) (s : Service)
      → Map.get services k ≡ some s
      → (raw : RawService) × (Map.get raws k ≡ some raw) × Built host shared k raw s
  unfolding Map.get
  entry_of k s found = elim (Option-cases (Map.get raws k)) [
    | inl absent ↦ absurd (ground (arith, found, others_kept host shared [] raws k passes absent))
    | inr (raw, entered) ↦
        let (t, got, built) =
          validate_services-Built host shared [] raws k raw sorted passes entered in
        let same_service : t ≡ s = ground (arith, found, got) in
        (raw, entered, subst (λ (x : Service). Built host shared k raw x) same_service built)
  ]

  CanHold-Holds :
      (k : Text) (raw : RawService) (s : Service) (c : DependencyCondition)
      → Built host shared k raw s
      → CanHold raw c
      → Holds s (some c)
  CanHold-Holds k raw s DependencyCondition.service_started built h = tt
  CanHold-Holds k raw s DependencyCondition.service_healthy (executable, args, ok_service, e) h =
      rw (e, health-build_service host shared k raw executable args)
        (optional_health_lem host raw.health k
            (health_passes host shared k raw executable args ok_service)
          ∙ h)
  CanHold-Holds k raw s DependencyCondition.service_completed_successfully (executable, args, _, e)
        h =
      rw (e, restart-build_service host shared k raw executable args)
        (stays_exited_lem raw.restart h)

  IsSatisfiable-Holds :
      (k : Text) (raw : RawService) (s : Service) (condition : Option Text)
      → Built host shared k raw s
      → IsSatisfiable raw condition
      → Holds s (match_option condition none parse_dependency_condition)
  IsSatisfiable-Holds k raw s none built h = tt
  IsSatisfiable-Holds k raw s (some value) built (c, parsed, h) =
      rw parsed (CanHold-Holds k raw s c built h)

  IsLinked-IsDependencies :
      (name : Text) (seen : BTreeSet) (entries : List (Text × Option Text))
      → IsLinked raws name seen entries
      → IsDependencies services name seen (dependencies entries)
  unfolding dependencies
  IsLinked-IsDependencies name seen [] h = tt
  IsLinked-IsDependencies name seen ((dep, condition) ∷ rest)
        (other, new, (target, known, h), more) =
      let (s, got, built) =
        validate_services-Built host shared [] raws dep target sorted passes known in
      (
        other,
        new,
        (s, got, IsSatisfiable-Holds dep target s condition built h),
        IsLinked-IsDependencies name (Set.insert dep seen) rest more,
      )

  pub Built-IsService :
      (k : Text) (raw : RawService) (s : Service) → Built host shared k raw s → IsService s
  Built-IsService k raw s (executable, args, ok_service, e) =
      subst IsService (sym e) (build_service-IsService host shared k raw executable args ok_service)

  pub name-Built :
      (k : Text) (raw : RawService) (s : Service) → Built host shared k raw s → s.name ≡ k
  name-Built k raw s (executable, args, _, e) =
      ap (λ (t : Service). t.name) e ∙ name-build_service host shared k raw executable args

  pub services-IsDependencies :
      (k : Text) (s : Service)
      → Passes (check_services raws raws)
      → Map.get services k ≡ some s
      → IsDependencies services k [] s.depends_on
  services-IsDependencies k s checked found =
      let (raw, entered, (executable, args, _, e)) = entry_of k s found in
      rw (e, depends_on-build_service host shared k raw executable args)
        (IsLinked-IsDependencies k [] (dependency_entries raw)
          (check_services-IsLinked raws raws k raw checked entered))
