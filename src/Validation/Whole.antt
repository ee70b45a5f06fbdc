-- ===== src/Validation/Whole.antt =====
-- crates/servicrab-core/src/validation.rs: what `validate_raw` returns, step by step.
use servicrab.Base.{
  true, none, some, List, [], ◌∷◌, Text, ◌≡◌, refl, sym, subst, ap, inl, inr, ◌≢◌, Returns,
  match_option, match_option_ind, Result, ok, err, Result-cases, Run, returned, All, before, arith,
}
use servicrab.Base.Map
use servicrab.Base.Map.{BTreeMap, is_some}
use servicrab.Config.{Service, Config}
use servicrab.Raw.{RawService, RawConfig}
use servicrab.Graph.{DependencyCycle, topological_sort}
use servicrab.Graph.StartOrder.{topological_sort_total}
use servicrab.Plan.{names_of}
use servicrab.Errors.{ConfigError, project_scope}
use servicrab.Errors.Checked.{Checked, Passes, first_passes, rest_passes, ◌>>=◌}
use servicrab.Subst.{Vars}
use servicrab.Subst.Values.{expand_services, expand_raw}
use servicrab.Validation.{Host}
use servicrab.Validation.Names.{validate_project_name, validate_project_env}
use servicrab.Validation.Files.{load_env_files, resolve_source_dir}
use servicrab.Validation.Services.{Shared, validate_services}
use servicrab.Validation.Loop.{validate_services-IsMap}
use servicrab.Validation.Pipeline.{
  Validated, project_name_of, dep_graph, validate_parts, check_services, Outcome, unless_errors,
  finish_config, sort_services, validate_raw,
}

unless_errors_ind :
    (P : Run Outcome → Type 0) (errors : List ConfigError) (run : Run Outcome)
    → (errors ≡ [] → P run)
    → (errors ≢ [] → P (returned (err errors)))
    → P (unless_errors errors run)
unless_errors_ind P [] run passes fails = passes refl
unless_errors_ind P (e ∷ errors) run passes fails = fails (λ empty. cc)

keys-expand_services :
    (vars : Vars) (m : BTreeMap RawService) → Map.keys (expand_services vars m).value ≡ Map.keys m
unfolding expand_services ◌>>=◌
keys-expand_services vars [] = refl
keys-expand_services vars ((name, service) ∷ m) =
    ap (λ (ks : List Text). name ∷ ks) (keys-expand_services vars m)

abbrev Ascends : List Text → Type 0
Ascends [] = Unit
Ascends (k ∷ ks) = All (λ j. before k j ≡ true) ks × Ascends ks

Ascends-keys {ℓ} : {V : Type ℓ} (m : BTreeMap V) → Map.IsMap m → Ascends (Map.keys m)
Ascends-keys [] h = tt
Ascends-keys ((k, v) ∷ m) h = (h.0, Ascends-keys m h.1)

IsMap_of_Ascends {ℓ} : {V : Type ℓ} (m : BTreeMap V) → Ascends (Map.keys m) → Map.IsMap m
IsMap_of_Ascends [] h = tt
IsMap_of_Ascends ((k, v) ∷ m) h = (h.0, IsMap_of_Ascends m h.1)

IsMap_of_keys {ℓ κ} :
    {V : Type ℓ} {W : Type κ} (m : BTreeMap V) (n : BTreeMap W)
    → Map.keys m ≡ Map.keys n
    → Map.IsMap n
    → Map.IsMap m
IsMap_of_keys m n e h = IsMap_of_Ascends m (subst Ascends (sym e) (Ascends-keys n h))

pub expand_raw-IsMap :
    (vars : Vars) (raw : RawConfig)
    → Map.IsMap raw.services
    → Map.IsMap (expand_raw vars raw).value.services
unfolding expand_raw ◌>>=◌
expand_raw-IsMap vars raw h =
    IsMap_of_keys _ raw.services (keys-expand_services vars raw.services) h

keys-dep_graph : (m : BTreeMap Service) → Map.keys (dep_graph m) ≡ Map.keys m
unfolding dep_graph
keys-dep_graph [] = refl
keys-dep_graph ((name, service) ∷ m) = ap (λ (ks : List Text). name ∷ ks) (keys-dep_graph m)

pub dep_graph-IsMap : (m : BTreeMap Service) → Map.IsMap m → Map.IsMap (dep_graph m)
dep_graph-IsMap m h = IsMap_of_keys (dep_graph m) m (keys-dep_graph m) h

pub get-dep_graph :
    (m : BTreeMap Service) (k : Text)
    → Map.get (dep_graph m) k
      ≡ match_option (Map.get m k) none (λ (s : Service). some (names_of s.depends_on))
unfolding dep_graph Map.get
get-dep_graph [] k = refl
get-dep_graph ((name, service) ∷ m) k = ground (arith, get-dep_graph m k)

project_name_lem :
    (name : Text) → Passes (project_name_of name) → is_some (project_name_of name).value ≡ true
unfolding project_name_of
project_name_lem name h = elim (Result-cases (validate_project_name name)) [
  | inl (n, valid) ↦ ground (arith, h, valid)
  | inr (e, invalid) ↦ ground (arith, h, invalid)
]

module _ (host : Host) (raw : RawConfig) (source_path : Text) where
  abbrev pub shared_of : Shared
  shared_of = record {
    source_dir = resolve_source_dir host source_path;
    has_logs = is_some raw.project.logs;
    file_env =
        (load_env_files host raw.project.env_file (resolve_source_dir host source_path)
          project_scope).value.1;
    env = (validate_project_env raw.project.env).value;
  }

  pub services_pass :
      Passes (validate_parts host raw source_path)
      → Passes (validate_services host shared_of [] raw.services)
        × Passes (check_services raw.services raw.services)
  unfolding validate_parts
  services_pass h =
      let third = rest_passes _ _ (rest_passes _ _ (rest_passes _ _ h)) in
      let sixth = rest_passes _ _ (rest_passes _ _ (rest_passes _ _ third)) in
      (first_passes _ _ sixth, first_passes _ _ (rest_passes _ _ sixth))

  pub services-validate_parts :
      (validate_parts host raw source_path).value.services
      ≡ (validate_services host shared_of [] raw.services).value
  unfolding validate_parts ◌>>=◌
  services-validate_parts = refl

  project_name_passes :
      Passes (validate_parts host raw source_path) → Passes (project_name_of raw.project.name)
  unfolding validate_parts
  project_name_passes h = first_passes _ _ (rest_passes _ _ h)

  project_name-validate_parts :
      (validate_parts host raw source_path).value.project_name
      ≡ (project_name_of raw.project.name).value
  unfolding validate_parts ◌>>=◌
  project_name-validate_parts = refl

  pub parts-IsMap :
      Passes (validate_parts host raw source_path)
      → Map.IsMap (validate_parts host raw source_path).value.services
  parts-IsMap h =
      rw services-validate_parts
        (validate_services-IsMap host shared_of [] raw.services tt (services_pass h).0)

-- What the sort makes of a configuration that passes.
module _ (host : Host) (raw : RawConfig) (source_path : Text) where
  abbrev parts : RawConfig → Checked Validated
  parts expanded = validate_parts host expanded source_path

  -- The configuration has the services of the checks, in the order of the sort.
  pub record Accepts (config : Config) : Type 0 where
    pub substituted : Passes (expand_raw host.vars raw)
    pub checked : Passes (parts (expand_raw host.vars raw).value)
    pub services : config.services ≡ (parts (expand_raw host.vars raw).value).value.services
    pub sorted : topological_sort (dep_graph config.services) ≡ returned (ok config.start_order)

  has_name :
      (expanded : RawConfig)
      → Passes (parts expanded)
      → is_some (parts expanded).value.project_name ≡ true
  has_name expanded h =
      rw (project_name-validate_parts host expanded source_path)
        (project_name_lem expanded.project.name (project_name_passes host expanded source_path h))

  -- What `validate_raw` returns: errors, or a configuration that is accepted.
  abbrev pub Ended : Outcome → Type 0
  Ended (err errors) = errors ≢ []
  Ended (ok (config, warnings)) = Accepts config

  finish-Ended :
      (v : Checked Validated) (r : Result DependencyCycle (List Text))
      → v ≡ parts (expand_raw host.vars raw).value
      → Passes (expand_raw host.vars raw)
      → Passes v
      → topological_sort (dep_graph v.value.services) ≡ returned r
      → Returns Ended (finish_config source_path v.value v.warnings r)
  unfolding finish_config
  finish-Ended v (err e) same_parts substituted checked sorted = λ empty. cc
  finish-Ended v (ok order) same_parts substituted checked sorted =
      match_option_ind (Returns Ended) v.value.project_name
        (λ absent.
          let named = has_name _ (subst Passes same_parts checked) in
          absurd (ground (arith, rw (← same_parts, absent) at named)))
        λ name found. record {
          substituted = substituted;
          checked = rw (← same_parts) checked;
          services = rw same_parts;
          sorted = sorted;
        }

  sort_services-Ended :
      (v : Checked Validated)
      → v ≡ parts (expand_raw host.vars raw).value
      → Passes (expand_raw host.vars raw)
      → Map.IsMap raw.services
      → Returns Ended (sort_services source_path v)
  unfolding sort_services
  sort_services-Ended v same_parts substituted h =
      unless_errors_ind (Returns Ended) v.errors _
        (λ checked.
          let passes = subst Passes same_parts checked in
          let sorted_keys : Map.IsMap v.value.services =
            rw same_parts (parts-IsMap host (expand_raw host.vars raw).value source_path passes) in
          let (r, e) =
            topological_sort_total (dep_graph v.value.services)
              (dep_graph-IsMap v.value.services sorted_keys) in
          rw e (finish-Ended v r same_parts substituted checked e))
        λ reported. reported

  -- From a map of services the run returns: errors, of which there is one, or a configuration.
  pub validate_raw-Ended :
      Map.IsMap raw.services → Returns Ended (validate_raw host raw source_path)
  unfolding validate_raw
  validate_raw-Ended h =
      unless_errors_ind (Returns Ended) (expand_raw host.vars raw).errors _
        (λ substituted. sort_services-Ended _ refl substituted h) λ reported. reported
