-- ===== src/Validation/Services.antt =====
-- crates/servicrab-core/src/validation.rs: the services, their dependencies, and `validate_raw`.
use servicrab.Base.{
  Bool, true, false, ◌&&◌, ◌||◌, not, any, Option, none, some, List, [], ◌∷◌, Text, codes, same,
  ltb, if◌then◌else◌, match_option, Result, ok, err,
}
use servicrab.Base.Map
use servicrab.Base.Map.{BTreeMap, unwrap_or, is_some}
use servicrab.Base.Chars.{is_empty, contains_char}
use servicrab.Lifecycle.{RestartPolicy}
use servicrab.Config.{Dependency, DependencyCondition, HealthCheck, WatchSettings, Service}
use servicrab.Raw.{RawServiceLogs, entries, RawRestartPolicy, RawHealthCheck, RawWatch, RawService}
use servicrab.Errors.{
  ConfigError, ConfigWarning, service_scope, empty_command, invalid_executable, nul_in_command_arg,
  restart_max_delay_too_small, restart_settings_ignored, unhealthy_restart_without_policy,
  logs_without_project_logs,
}
use servicrab.Errors.Checked.{Checked, pure, report, warn, refuse, ◌>>=◌, ◌>>◌}
use servicrab.Validation.{Host, secs, dur_100ms, dur_1s, dur_1h, dur_24h}
use servicrab.Validation.Names.{validate_service_name, validate_profiles, validate_service_env}
use servicrab.Validation.Fields.{parse_duration_field, parse_shutdown_signal, validate_watch}
use servicrab.Validation.Files.{
  load_env_files, resolve_source_dir, resolve_cwd, check_executable_in_path,
}
use servicrab.Validation.Probes.{validate_health}

unfoldable pub report_if : Bool → ConfigError → Checked (Unit {0})
report_if test error = if test then report error else pure tt

abbrev pub warn_if : Bool → ConfigWarning → Checked (Unit {0})
warn_if test warning = if test then warn warning else pure tt

-- The checks of the command, which end the service's turn.
unfoldable pub command_of : Text → List Text → Result ConfigError (Text × List Text)
command_of name [] = err (empty_command name)
command_of name (executable ∷ args) =
    if is_empty executable || contains_char 0 executable
    then err (invalid_executable name)
    else if any (contains_char 0) args
    then err (nul_in_command_arg name)
    else ok (executable, args)

abbrev pub restart_policy : RawRestartPolicy → RestartPolicy
restart_policy RawRestartPolicy.never = RestartPolicy.never
restart_policy RawRestartPolicy.on_failure = RestartPolicy.on_failure
restart_policy RawRestartPolicy.always = RestartPolicy.always
restart_policy RawRestartPolicy.unless_stopped = RestartPolicy.unless_stopped

abbrev pub is_never : RestartPolicy → Bool
is_never RestartPolicy.never = true
is_never _ = false

abbrev pub is_enabled : Option RawServiceLogs → Bool
is_enabled none = false
is_enabled (some logs) = logs.enabled

-- `on_unhealthy = "restart"` is written.
abbrev pub asks_for_restart : Option RawHealthCheck → Bool
asks_for_restart none = false
asks_for_restart (some health) =
    match_option health.on_unhealthy false λ value. same value (codes "restart")

-- The warnings about settings that have no effect.
unfoldable pub warn_inert : Bool → Text → RawService → RestartPolicy → Checked (Unit {0})
warn_inert has_logs name raw restart = do
  let never = is_never restart
  let ignored = λ (is_explicit : Bool) (field : Text).
      warn_if (never && is_explicit) (restart_settings_ignored name field)
  ignored (is_some raw.restart_delay) (codes "restart_delay")
  ignored (is_some raw.restart_max_delay) (codes "restart_max_delay")
  ignored (is_some raw.max_restarts) (codes "max_restarts")
  ignored (is_some raw.stable_after) (codes "stable_after")
  warn_if (never && asks_for_restart raw.health) (unhealthy_restart_without_policy name)
  warn_if (not has_logs && is_enabled raw.logs) (logs_without_project_logs name)

-- `m.extend(n)`
unfoldable pub extend : BTreeMap Text → BTreeMap Text → BTreeMap Text
extend m [] = m
extend m ((k, v) ∷ n) = extend (Map.insert k v m) n

unfoldable pub dependency_entries : RawService → List (Text × Option Text)
dependency_entries raw = match_option raw.depends_on [] entries

unfoldable pub parse_dependency_condition : Text → Option DependencyCondition
parse_dependency_condition value =
    if same value (codes "service_started")
    then some DependencyCondition.service_started
    else if same value (codes "service_healthy")
    then some DependencyCondition.service_healthy
    else if same value (codes "service_completed_successfully")
    then some DependencyCondition.service_completed_successfully
    else none

-- The dependencies as they are kept.
unfoldable pub dependencies : List (Text × Option Text) → List Dependency
dependencies [] = []
dependencies ((dep, condition) ∷ rest) =
    record { service = dep; condition = match_option condition none parse_dependency_condition }
    ∷ dependencies rest

-- What the services share: the directory of the configuration, and the project's environment, from
-- files and from the table.
pub record Shared : Type 0 where
  pub source_dir : Text
  pub has_logs : Bool
  pub file_env : BTreeMap Text
  pub env : BTreeMap Text

unfoldable pub optional_health : Host → Option RawHealthCheck → Text → Checked (Option HealthCheck)
optional_health host none name = pure none
optional_health host (some health) name = validate_health host health name

unfoldable pub optional_watch :
    Host → Option RawWatch → Text → Text → Checked (Option WatchSettings)
optional_watch host none cwd name = pure none
optional_watch host (some watch) cwd name = validate_watch host watch cwd name

-- The part of a service's turn behind the checks of its name and its command.
unfoldable pub build_service :
    Host → Shared → Text → RawService → Text → List Text → Checked Service
build_service host shared name raw executable args = do
  let dir = match_option raw.origin shared.source_dir (resolve_source_dir host)
  cwd ← resolve_cwd host raw.cwd dir name
  env ← validate_service_env name raw.env
  files ← load_env_files host raw.env_file dir (service_scope name)
  let restart = restart_policy raw.restart
  restart_delay ←
      parse_duration_field host raw.restart_delay (codes "restart_delay") (secs 1) name dur_100ms
        dur_1h
  restart_max_delay ←
      parse_duration_field host raw.restart_max_delay (codes "restart_max_delay") (secs 30) name
        dur_100ms dur_24h
  stable_after ←
      parse_duration_field host raw.stable_after (codes "stable_after") (secs 60) name dur_1s
        dur_24h
  shutdown_signal ← parse_shutdown_signal raw.shutdown_signal name
  shutdown_timeout ←
      parse_duration_field host raw.shutdown_timeout (codes "shutdown_timeout") (secs 10) name
        dur_100ms dur_1h
  health ← optional_health host raw.health name
  watch ← optional_watch host raw.watch cwd name
  report_if (ltb restart_max_delay restart_delay)
      (restart_max_delay_too_small name restart_delay restart_max_delay)
  warn_inert shared.has_logs name raw restart
  check_executable_in_path host executable name
  profiles ← validate_profiles name [] raw.profiles
  pure (record {
    name = name;
    executable = executable;
    args = args;
    cwd = cwd;
    env = extend (extend (extend (extend host.vars shared.file_env) shared.env) files.1) env;
    env_files = files.0;
    depends_on = dependencies (dependency_entries raw);
    profiles = profiles;
    autostart = raw.autostart;
    restart = restart;
    restart_delay = restart_delay;
    restart_max_delay = restart_max_delay;
    max_restarts = unwrap_or 10 raw.max_restarts;
    stable_after = stable_after;
    shutdown_signal = shutdown_signal;
    shutdown_timeout = shutdown_timeout;
    health = health;
    log_to_file = match_option raw.logs true λ (logs : RawServiceLogs). logs.enabled;
    watch = watch;
  })

-- One turn of the loop over the services: the service, unless it is skipped.
unfoldable pub validate_service : Host → Shared → Text → RawService → Checked (Option Service)
validate_service host shared raw_name raw = elim (validate_service_name raw_name) [
  | err e ↦ refuse e none
  | ok name ↦ elim (command_of raw_name raw.command) [
    | err e ↦ refuse e none
    | ok (executable, args) ↦ do
      service ← build_service host shared name raw executable args
      pure (some service)
  ]
]

unfoldable pub validate_services :
    Host → Shared → BTreeMap Service → BTreeMap RawService → Checked (BTreeMap Service)
validate_services host shared services [] = pure services
validate_services host shared services ((raw_name, raw) ∷ rest) = do
  service ← validate_service host shared raw_name raw
  validate_services host shared
      (match_option service services λ (s : Service). Map.insert s.name s services) rest
