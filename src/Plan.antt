-- ===== src/Plan.antt =====
-- crates/servicrab-core/src/runtime/plan.rs: which services a stack command starts.
pub mod Samples
pub mod Grown
pub mod Closure
pub mod Roots
pub mod Held
use servicrab.Base.{
  match_option, ℕ, zero, suc, ◌+◌, Bool, true, false, ◌&&◌, ◌||◌, not, if◌then◌else◌, Option, none,
  some, List, [], ◌∷◌, ◌++◌, map, Text, codes, join, same, length, filter, any, for_each, Result,
  ok, err, Run, returned, panicked, out_of_fuel, ◌>>=◌,
}
use servicrab.Base.Count.{contains}
use servicrab.Base.Map
use servicrab.Base.Map.{BTreeMap}
use servicrab.Base.Set
use servicrab.Base.Set.{BTreeSet}
use servicrab.Config.{Config, Service, Dependency}

-- Why there is nothing to start: the three sentences of `nothing_to_start`.
pub data EmptyReason : Type 0 where
  none_in_profiles : (profiles : List Text) → EmptyReason
  all_behind_profiles : (declared : Text) → EmptyReason
  no_autostart : EmptyReason

-- The errors of the module.
pub data PlanError : Type 0 where
  unknown_service : (service known : Text) → PlanError
  unknown_profile : (profile known : Text) → PlanError
  nothing_to_start : EmptyReason → PlanError

abbrev pub known_services : Config → Text
known_services config = match_list (Map.keys config.services)
  where
    match_list : List Text → Text
    match_list [] = codes "(none)"
    match_list (name ∷ names) = join (codes ", ") (name ∷ names)

unfoldable pub lookup_service : Config → Text → Result PlanError Service
lookup_service config requested =
    match_option (Map.get config.services requested)
      (err (unknown_service requested (known_services config))) ok

abbrev all_profiles : List Service → BTreeSet → BTreeSet
all_profiles services profiles =
    for_each (λ found service. for_each (λ s p. Set.insert p s) found service.profiles) profiles
      services

unfoldable pub known_profiles : Config → Text
known_profiles config = match_list (all_profiles (Map.values config.services) [])
  where
    match_list : List Text → Text
    match_list [] = codes "(none)"
    match_list (profile ∷ profiles) = join (codes ", ") (profile ∷ profiles)

pub record Selection : Type 0 where
  pub services : List Text
  pub profiles : List Text

abbrev pub is_empty : List Text → Bool
is_empty [] = true
is_empty (x ∷ xs) = false

abbrev pub enabled : Selection → Service → Bool
enabled selection service =
    is_empty service.profiles
    || any (λ profile. contains selection.profiles profile) service.profiles

abbrev pub names_of : List Dependency → List Text
names_of deps = map (λ (dep : Dependency). dep.service) deps

-- `for dep in &service.depends_on`, with the call for one of them.
abbrev pub collect_all : (Text → BTreeSet → Run BTreeSet) → List Text → BTreeSet → Run BTreeSet
collect_all collect [] selected = returned selected
collect_all collect (dep ∷ deps) selected = collect dep selected >>= collect_all collect deps

-- `collect_with_dependencies`
unfoldable pub collect_with_dependencies : ℕ → Config → Text → BTreeSet → Run BTreeSet
collect_with_dependencies zero config name selected = out_of_fuel
collect_with_dependencies (suc fuel) config name selected =
    let collect = λ (dep : Text). collect_with_dependencies fuel config dep in
    if contains selected name
    then returned selected
    else match_option (Map.get config.services name) (returned (Set.insert name selected))
        (λ service. collect_all collect (names_of service.depends_on) (Set.insert name selected))

-- Each call but the last ones selects one more configured service.
abbrev pub depth : Config → ℕ
depth config = length (Map.keys config.services) + 1

unfoldable pub collect_roots : Config → List Text → BTreeSet → Run BTreeSet
collect_roots config names selected =
    collect_all (λ name. collect_with_dependencies (depth config) config name) names selected

-- The first profile that no service declares.
abbrev pub unknown : Config → List Text → Option Text
unknown config [] = none
unknown config (profile ∷ profiles) =
    let rest = unknown config profiles in
    if not
      (any (λ (service : Service). contains service.profiles profile) (Map.values config.services))
    then some profile
    else rest

-- The services that are started without being named, and those that are named.
abbrev pub autostarted : Config → Selection → List Text
autostarted config selection =
    Map.keys_where (λ service. service.autostart && enabled selection service) config.services

-- One name of `for name in selection.services`, which leaves with the first that is unknown.
abbrev pub collect_one :
    (Text → BTreeSet → Run BTreeSet)
    → (BTreeSet → Run (Result PlanError BTreeSet))
    → Result PlanError Service
    → BTreeSet
    → Run (Result PlanError BTreeSet)
collect_one collect later (err e) selected = returned (err e)
collect_one collect later (ok service) selected = collect service.name selected >>= later

unfoldable pub collect_named : Config → List Text → BTreeSet → Run (Result PlanError BTreeSet)
unfolding lookup_service collect_with_dependencies
collect_named config [] selected = returned (ok selected)
collect_named config (name ∷ names) selected =
    collect_one (collect_with_dependencies (depth config) config) (collect_named config names)
      (lookup_service config name) selected

unfoldable pub select : Config → Selection → Run (Result PlanError BTreeSet)
unfolding collect_roots collect_named
select config selection =
    if is_empty selection.services
    then (do
      selected ← collect_roots config (autostarted config selection) []
      returned (ok selected))
    else collect_named config selection.services []

abbrev empty_reason : Config → Selection → EmptyReason
unfolding known_profiles
empty_reason config selection =
    if not (is_empty selection.profiles)
    then none_in_profiles selection.profiles
    else if any (λ (service : Service). not (is_empty service.profiles))
        (Map.values config.services)
    then all_behind_profiles (known_profiles config)
    else no_autostart

unfoldable pub order_selected :
    Config → Selection → Result PlanError BTreeSet → Result PlanError (List Text)
unfolding empty_reason
order_selected config selection (err e) = err e
order_selected config selection (ok selected) =
    if is_empty selected
    then err (nothing_to_start (empty_reason config selection))
    else ok (filter (λ name. contains selected name) config.start_order)

unfoldable pub plan_stack : Config → Selection → Run (Result PlanError (List Text))
unfolding select order_selected
plan_stack config selection =
    match_option (unknown config selection.profiles)
      (do selected ← select config selection; returned (order_selected config selection selected))
      λ profile. returned (err (unknown_profile profile (known_profiles config)))

-- One name of the pass over the plan in `with_dependents`.
abbrev pub hold_turn : Config → BTreeSet → Text → BTreeSet
hold_turn config held name = match_option (Map.get config.services name) held (λ service.
    if any (λ dep. contains held dep) (names_of service.depends_on)
    then Set.insert name held
    else held)

unfoldable pub with_dependents : Config → List Text → BTreeSet → BTreeSet
with_dependents config plan seeds =
    for_each (hold_turn config) (filter (λ name. contains plan name) seeds) plan
