-- ===== src/Validation/Pipeline.antt =====
-- crates/servicrab-core/src/validation.rs: the checks across services, and `validate_raw`.
use servicrab.Base
use servicrab.Base.{
  ℕ, Bool, true, false, ◌&&◌, ◌||◌, not, Option, none, some, List, [], ◌∷◌, Text, codes, same, ◌==◌,
  if◌then◌else◌, match_option, Result, ok, err, Run, returned, panicked,
}
use servicrab.Base.Count.{contains}
use servicrab.Base.Map
use servicrab.Base.Map.{BTreeMap, is_some}
use servicrab.Base.Set
use servicrab.Base.Set.{BTreeSet}
use servicrab.Config.{DependencyCondition, LogSettings, Service, Config}
use servicrab.Raw.{RawLogs, RawRestartPolicy, RawService, RawConfig}
use servicrab.Graph.{Deps, DependencyCycle, topological_sort}
use servicrab.Plan.{names_of}
use servicrab.Errors.{
  ConfigError, ConfigWarning, project_scope, unsupported_version, no_services, self_dependency,
  unknown_dependency, duplicate_dependency, invalid_dependency_condition,
  dependency_not_health_checked, dependency_never_completes, dependency_cycle,
}
use servicrab.Errors.Checked.{Checked, pure, report, refuse, ◌>>=◌, ◌>>◌}
use servicrab.Subst.Values.{expand_raw}
use servicrab.Validation.{Host}
use servicrab.Validation.Names.{validate_project_name, validate_project_env}
use servicrab.Validation.Files.{load_env_files, resolve_source_dir, validate_logs}
use servicrab.Validation.Services.{
  report_if, dependency_entries, parse_dependency_condition, validate_services,
}

abbrev pub never_completes : RawRestartPolicy → Bool
never_completes RawRestartPolicy.always = true
never_completes RawRestartPolicy.unless_stopped = true
never_completes _ = false

-- The checks of a condition that is known.
unfoldable pub check_known : Text → Text → RawService → DependencyCondition → Checked (Unit {0})
check_known name dep target DependencyCondition.service_started = pure tt
check_known name dep target DependencyCondition.service_healthy =
    report_if (not (is_some target.health)) (dependency_not_health_checked name dep)
check_known name dep target DependencyCondition.service_completed_successfully =
    report_if (never_completes target.restart) (dependency_never_completes name dep)

unfoldable pub check_condition : Text → Text → RawService → Option Text → Checked (Unit {0})
check_condition name dep target none = pure tt
check_condition name dep target (some value) =
    match_option (parse_dependency_condition value)
      (report (invalid_dependency_condition name dep value)) (check_known name dep target)

-- One turn of the loop over the dependencies of a service: what is seen behind it.
unfoldable pub check_dependency :
    BTreeMap RawService → Text → BTreeSet → Text → Option Text → Checked BTreeSet
check_dependency services name seen dep condition =
    if same dep name
    then refuse (self_dependency name) seen
    else match_option (Map.get services dep) (refuse (unknown_dependency name dep) seen) λ target.
      if contains seen dep
      then refuse (duplicate_dependency name dep) seen
      else do check_condition name dep target condition; pure (Set.insert dep seen)

unfoldable pub check_dependencies :
    BTreeMap RawService → Text → BTreeSet → List (Text × Option Text) → Checked (Unit {0})
check_dependencies services name seen [] = pure tt
check_dependencies services name seen ((dep, condition) ∷ rest) = do
  new ← check_dependency services name seen dep condition
  check_dependencies services name new rest

-- The loop of step 7, over the services that are left.
unfoldable pub check_services : BTreeMap RawService → BTreeMap RawService → Checked (Unit {0})
check_services services [] = pure tt
check_services services ((name, raw) ∷ rest) = do
  check_dependencies services name [] (dependency_entries raw)
  check_services services rest

abbrev pub supported_version : ℕ
supported_version = 1

-- What the steps in front of the sort come to.
pub record Validated : Type 0 where
  pub source_dir : Text
  pub project_name : Option Text
  pub env : BTreeMap Text
  pub env_files : List Text
  pub logs : Option LogSettings
  pub services : BTreeMap Service

unfoldable pub project_name_of : Text → Checked (Option Text)
project_name_of name = elim (validate_project_name name) [
  | ok n ↦ pure (some n)
  | err e ↦ refuse e none
]

unfoldable pub optional_logs : Host → Option RawLogs → Text → Checked (Option LogSettings)
optional_logs host none source_dir = pure none
optional_logs host (some logs) source_dir = validate_logs host logs source_dir

abbrev pub is_unset {ℓ} : {V : Type ℓ} → BTreeMap V → Bool
is_unset [] = true
is_unset (entry ∷ m) = false

-- Steps 1 to 7, on the expanded configuration.
unfoldable pub validate_parts : Host → RawConfig → Text → Checked Validated
validate_parts host raw source_path = do
  report_if (not (raw.version == supported_version)) (unsupported_version raw.version)
  let source_dir = resolve_source_dir host source_path
  project_name ← project_name_of raw.project.name
  env ← validate_project_env raw.project.env
  files ← load_env_files host raw.project.env_file source_dir project_scope
  logs ← optional_logs host raw.project.logs source_dir
  report_if (is_unset raw.services) no_services
  services ←
      validate_services host
        (record {
          source_dir = source_dir;
          has_logs = is_some raw.project.logs;
          file_env = files.1;
          env = env;
        })
        [] raw.services
  check_services raw.services raw.services
  pure (record {
    source_dir = source_dir;
    project_name = project_name;
    env = env;
    env_files = files.0;
    logs = logs;
    services = services;
  })

-- `dep_graph`
unfoldable pub dep_graph : BTreeMap Service → Deps
dep_graph [] = []
dep_graph ((name, service) ∷ m) = (name, names_of service.depends_on) ∷ dep_graph m

abbrev pub Outcome : Type 0
Outcome = Result (List ConfigError) (Config × List ConfigWarning)

-- The configuration, with its start order.
unfoldable pub finish_config :
    Text → Validated → List ConfigWarning → Result DependencyCycle (List Text) → Run Outcome
finish_config source_path v warnings (err e) = returned (err (dependency_cycle e.cycle ∷ []))
finish_config source_path v warnings (ok order) = match_option v.project_name panicked λ name.
    returned (
      ok (
        record {
          source_path = source_path;
          source_dir = v.source_dir;
          project = record { name = name; env = v.env; env_files = v.env_files; logs = v.logs };
          services = v.services;
          start_order = order;
        },
        warnings,
      ))

-- `if !errors.is_empty() { return Err(errors); }`
abbrev pub unless_errors : List ConfigError → Run Outcome → Run Outcome
unless_errors [] run = run
unless_errors (e ∷ errors) run = returned (err (e ∷ errors))

-- Steps 8 and 9.
unfoldable pub sort_services : Text → Checked Validated → Run Outcome
sort_services source_path m = unless_errors m.errors (
    Base.◌>>=◌ (topological_sort (dep_graph m.value.services))
      (finish_config source_path m.value m.warnings))

unfoldable pub validate_raw : Host → RawConfig → Text → Run Outcome
validate_raw host raw source_path =
    let expanded = expand_raw host.vars raw in
    unless_errors expanded.errors
      (sort_services source_path (validate_parts host expanded.value source_path))
