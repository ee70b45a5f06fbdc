-- ===== src/Subst/Values.antt =====
-- crates/servicrab-core/src/subst.rs: `expand`, and `expand_raw` over the values of a configuration.
use servicrab.Base.{
  ℕ, suc, ◌+◌, Option, none, some, List, [], ◌∷◌, Text, codes, ◌≡◌, refl, length, Result, ok, err,
  outcome, outcome_lem, returned, arith,
}
use servicrab.Base.Map.{BTreeMap}
use servicrab.Raw.{RawConfig, RawService, RawEnvFile, one, many, RawLogs, RawHealthCheck, RawWatch}
use servicrab.Errors.{
  Scope, project_scope, project_logs_scope, service_scope, Field, plain, indexed, keyed,
  ConfigError, undefined_variable, invalid_substitution,
}
use servicrab.Errors.Checked.{Checked, pure, refuse, ◌>>=◌}
use servicrab.Subst.{Vars, SubstError, undefined, malformed, expand_rest}
use servicrab.Subst.Ends.{expand_rest-Ends}
use servicrab.Subst.Templates.{Template, written, meaning, behind, IsTemplate}
use servicrab.Subst.Reading.{expand_rest-written}

-- What the loop returns on fuel that is enough.
unfoldable pub expand : Text → Vars → Result SubstError Text
expand input vars =
    outcome (expand_rest (suc (length input)) vars [] input)
      (expand_rest-Ends (suc (length input)) vars [] input (omega arith))

pub expand_lem :
    (input : Text) (vars : Vars)
    → expand_rest (suc (length input)) vars [] input ≡ returned (expand input vars)
unfolding expand
expand_lem input vars =
    outcome_lem (expand_rest (suc (length input)) vars [] input)
      (expand_rest-Ends (suc (length input)) vars [] input (omega arith))

abbrev pub to_config_error : SubstError → Scope → Field → ConfigError
to_config_error (undefined variable) scope field = undefined_variable scope field variable
to_config_error (malformed reason) scope field = invalid_substitution scope field reason

-- `Expander::one`: a value that cannot be expanded is left as it is.
unfoldable pub expand_one : Vars → Text → Scope → Field → Checked Text
expand_one vars value scope field = elim (expand value vars) [
  | ok expanded ↦ pure expanded
  | err e ↦ refuse (to_config_error e scope field) value
]

-- `Expander::maybe`
unfoldable pub expand_maybe : Vars → Option Text → Scope → Text → Checked (Option Text)
expand_maybe vars none scope field = pure none
expand_maybe vars (some value) scope field = do
  v ← expand_one vars value scope (plain field)
  pure (some v)

-- `Expander::list`, from an index on.
unfoldable pub expand_list : ℕ → Vars → List Text → Scope → Text → Checked (List Text)
expand_list index vars [] scope field = pure []
expand_list index vars (value ∷ values) scope field = do
  v ← expand_one vars value scope (indexed field index)
  vs ← expand_list (index + 1) vars values scope field
  pure (v ∷ vs)

-- `Expander::map_values`
unfoldable pub expand_map : Vars → BTreeMap Text → Scope → Text → Checked (BTreeMap Text)
expand_map vars [] scope field = pure []
expand_map vars ((key, value) ∷ m) scope field = do
  v ← expand_one vars value scope (keyed field key)
  rest ← expand_map vars m scope field
  pure ((key, v) ∷ rest)

-- `Expander::env_file`
unfoldable pub expand_env_file : Vars → Option RawEnvFile → Scope → Checked (Option RawEnvFile)
expand_env_file vars (some (one path)) scope = do
  p ← expand_one vars path scope (plain (codes "env_file"))
  pure (some (one p))
expand_env_file vars (some (many paths)) scope = do
  ps ← expand_list 0 vars paths scope (codes "env_file")
  pure (some (many ps))
expand_env_file vars none scope = pure none

-- `Expander::logs`, where there are any.
unfoldable pub expand_logs : Vars → Option RawLogs → Checked (Option RawLogs)
expand_logs vars none = pure none
expand_logs vars (some logs) = do
  dir ← expand_maybe vars logs.dir project_logs_scope (codes "dir")
  max_size ← expand_maybe vars logs.max_size project_logs_scope (codes "max_size")
  pure (some (record logs { dir = dir; max_size = max_size }))

unfoldable pub expand_command : Vars → Option (List Text) → Scope → Checked (Option (List Text))
expand_command vars none scope = pure none
expand_command vars (some command) scope = do
  c ← expand_list 0 vars command scope (codes "health.command")
  pure (some c)

-- `Expander::health`, where there is one.
unfoldable pub expand_health :
    Vars → Option RawHealthCheck → Scope → Checked (Option RawHealthCheck)
expand_health vars none scope = pure none
expand_health vars (some health) scope = do
  command ← expand_command vars health.command scope
  http ← expand_maybe vars health.http scope (codes "health.http")
  tcp ← expand_maybe vars health.tcp scope (codes "health.tcp")
  interval ← expand_maybe vars health.interval scope (codes "health.interval")
  timeout ← expand_maybe vars health.timeout scope (codes "health.timeout")
  start_period ← expand_maybe vars health.start_period scope (codes "health.start_period")
  on_unhealthy ← expand_maybe vars health.on_unhealthy scope (codes "health.on_unhealthy")
  pure (
      some (record {
        command = command;
        http = http;
        tcp = tcp;
        interval = interval;
        timeout = timeout;
        retries = health.retries;
        start_period = start_period;
        on_unhealthy = on_unhealthy;
      }))

-- `Expander::watch`, where there is one.
unfoldable pub expand_watch : Vars → Option RawWatch → Scope → Checked (Option RawWatch)
expand_watch vars none scope = pure none
expand_watch vars (some watch) scope = do
  paths ← expand_list 0 vars watch.paths scope (codes "watch.paths")
  ignore ← expand_list 0 vars watch.ignore scope (codes "watch.ignore")
  interval ← expand_maybe vars watch.interval scope (codes "watch.interval")
  debounce ← expand_maybe vars watch.debounce scope (codes "watch.debounce")
  pure (some (record { paths = paths; ignore = ignore; interval = interval; debounce = debounce }))

-- `Expander::service`
unfoldable pub expand_service : Vars → RawService → Scope → Checked RawService
expand_service vars service scope = do
  command ← expand_list 0 vars service.command scope (codes "command")
  cwd ← expand_maybe vars service.cwd scope (codes "cwd")
  env ← expand_map vars service.env scope (codes "env")
  env_file ← expand_env_file vars service.env_file scope
  restart_delay ← expand_maybe vars service.restart_delay scope (codes "restart_delay")
  restart_max_delay ← expand_maybe vars service.restart_max_delay scope (codes "restart_max_delay")
  stable_after ← expand_maybe vars service.stable_after scope (codes "stable_after")
  shutdown_signal ← expand_maybe vars service.shutdown_signal scope (codes "shutdown_signal")
  shutdown_timeout ← expand_maybe vars service.shutdown_timeout scope (codes "shutdown_timeout")
  health ← expand_health vars service.health scope
  watch ← expand_watch vars service.watch scope
  pure (record service {
    command = command;
    cwd = cwd;
    env = env;
    env_file = env_file;
    restart_delay = restart_delay;
    restart_max_delay = restart_max_delay;
    stable_after = stable_after;
    shutdown_signal = shutdown_signal;
    shutdown_timeout = shutdown_timeout;
    health = health;
    watch = watch;
  })

-- The loop of `expand_raw` over the services.
unfoldable pub expand_services : Vars → BTreeMap RawService → Checked (BTreeMap RawService)
expand_services vars [] = pure []
expand_services vars ((name, service) ∷ m) = do
  s ← expand_service vars service (service_scope name)
  rest ← expand_services vars m
  pure ((name, s) ∷ rest)

unfoldable pub expand_raw : Vars → RawConfig → Checked RawConfig
expand_raw vars raw = do
  env ← expand_map vars raw.project.env project_scope (codes "env")
  env_file ← expand_env_file vars raw.project.env_file project_scope
  logs ← expand_logs vars raw.project.logs
  services ← expand_services vars raw.services
  pure (record raw {
    project = record raw.project { env = env; env_file = env_file; logs = logs };
    services = services;
  })

behind_nil : (r : Result SubstError Text) → behind [] r ≡ r
behind_nil (ok v) = refl
behind_nil (err e) = refl

-- A text that is written from literals and references is expanded to what they mean: the escaped
-- literals come back as they were, each reference gives the variable's value or its default, and
-- the first variable that is missing without a default is the error. Literals in front of a
-- reference do not end in `$`, and defaults have no braces.
pub expand-written :
    (t : Template) (vars : Vars) → IsTemplate t → expand (written t) vars ≡ meaning vars t
expand-written t vars h =
    let loop = expand_rest-written (suc (length (written t))) vars [] t h (omega arith) in
    ground (arith, expand_lem (written t) vars, loop, behind_nil (meaning vars t))
