-- ===== src/Validation/Samples.antt =====
-- Runs of the validation.
use servicrab.Base.{
  true, false, Option, none, some, List, [], ◌∷◌, Text, codes, ◌≡◌, refl, subst, same, before, ◌↔◌,
  ◌≤◌, length, all, arith, ok, returned, Returns,
}
use servicrab.Base.Map
use servicrab.Base.Map.{BTreeMap}
use servicrab.Base.Set
use servicrab.Errors.Checked.{◌>>=◌}
use servicrab.Graph.{topological_sort}
use servicrab.Base.Chars.{strip_suffix, split_once, rsplit_once, trim_start, trim_end}
use servicrab.Lifecycle.{RestartPolicy}
use servicrab.Subst.{
  expand_rest, split_braced, closing_brace, scan, in_body, resolve, split_name, split_rest_of_name,
  lookup, value_or, and_then,
}
use servicrab.Config.{
  DependencyCondition, Dependency, HealthProbe, UnhealthyAction, HealthCheck, ShutdownSignal,
  Service, Config,
}
use servicrab.Plan.{plan_stack}
use servicrab.Validation.{Host, secs, join_path, resolved_path}
use servicrab.Validation.Names.{
  check_characters, check_first, validate_name, validate_project_name, validate_service_name,
  validate_profile, validate_profiles, is_valid_env_key, validate_env,
}
use servicrab.Validation.Fields.{
  check_range, parse_duration_field, parse_shutdown_signal, watch_path, watch_paths, ignore_entry,
  ignore_entries, validate_watch, split_number, unit_power, size_of, parse_size,
}
use servicrab.Validation.Files.{
  load_env_file, merge_entries, load_paths, load_env_files, resolve_source_dir, resolve_cwd,
  validate_max_size, validate_logs, which_in_dirs, which_in_path, check_executable_in_path,
}
use servicrab.Validation.Probes.{
  decimal, parse_u16, split_address, check_address, parse_host_port, split_path, host_of,
  parse_http_url, command_probe, http_probe, tcp_probe, build_probe, the_probe, parse_on_unhealthy,
  check_retries, validate_health,
}
use servicrab.Validation.Services.{
  report_if, command_of, warn_inert, extend, dependency_entries, parse_dependency_condition,
  dependencies, optional_health, optional_watch, build_service, validate_service, validate_services,
}
use servicrab.Validation.Pipeline.{
  check_known, check_condition, check_dependency, check_dependencies, check_services,
  project_name_of, optional_logs, validate_parts, dep_graph, finish_config, sort_services,
  validate_raw,
}
use servicrab.Subst.Values.{
  expand, expand_one, expand_maybe, expand_list, expand_map, expand_env_file, expand_logs,
  expand_command, expand_health, expand_watch, expand_service, expand_services, expand_raw,
}
use servicrab.Raw.{
  RawService, RawConfig, RawDependsOn, RawHealthCheck, RawRestartPolicy, paths_of, entries,
}
use servicrab.Validation.Accepted.{IsValid}
use servicrab.Validation.Outcomes.{IsOutcome, validate_raw-IsOutcome}
use servicrab.Validation.Plans.{IsStartable, plan_stack-IsStartable}
use servicrab.Validation.Names.{is_name_char}
use servicrab.Validation.Grammar.{begins_name, validate_name_iff}
use servicrab.Validation.Addresses.{IsHost, written_url, parse_http_url-written}

abbrev pub db : Text
db = codes "db"

abbrev pub web : Text
web = codes "web"

-- A host on which every path is a directory and every duration is five seconds.
abbrev pub host : Host
host = record {
  vars = [];
  search_path = some (codes "/bin" ∷ []);
  parent = λ path. some [];
  canonicalize = λ path. ok path;
  exists = λ path. true;
  is_dir = λ path. true;
  is_file = λ path. true;
  read_to_string = λ path. ok [];
  parse_duration = λ s. ok (secs 5);
  parse_f64 = λ s. none;
  is_negative = λ n. false;
  times = λ n m. n;
  is_finite = λ n. true;
  exceeds_u64 = λ n. false;
  to_u64 = λ n. n;
}

abbrev pub service_of : Option RawDependsOn → Option RawHealthCheck → RawService
service_of depends_on health = record {
  origin = none;
  command = codes "serve" ∷ [];
  cwd = none;
  env = [];
  env_file = none;
  depends_on = depends_on;
  profiles = [];
  autostart = true;
  restart = RawRestartPolicy.on_failure;
  restart_delay = some (codes "5s");
  restart_max_delay = none;
  max_restarts = none;
  stable_after = none;
  shutdown_signal = none;
  shutdown_timeout = none;
  health = health;
  logs = none;
  watch = none;
}

abbrev probe : RawHealthCheck
probe = record {
  command = none;
  http = none;
  tcp = some (codes "db:5432");
  interval = none;
  timeout = none;
  retries = none;
  start_period = none;
  on_unhealthy = none;
}

-- `web` waits for a healthy `db`.
abbrev pub raw : RawConfig
raw = record {
  version = 1;
  include = none;
  project = record { name = codes "shop"; env = []; env_file = none; logs = none };
  services =
      (db, service_of none (some probe))
      ∷ (
        web,
        service_of
            (some (
              RawDependsOn.detailed
                ((db, record { condition = some (codes "service_healthy") }) ∷ [])))
            none,
      )
      ∷ [];
}

program : Unit {0}
unfolding join_path resolved_path check_characters check_first validate_name validate_project_name
    validate_service_name validate_profile validate_profiles is_valid_env_key validate_env
    check_range parse_duration_field parse_shutdown_signal watch_path watch_paths ignore_entry
    ignore_entries validate_watch split_number unit_power size_of parse_size load_env_file
    merge_entries load_paths load_env_files resolve_source_dir resolve_cwd validate_max_size
    validate_logs which_in_dirs which_in_path check_executable_in_path decimal parse_u16
    split_address check_address parse_host_port split_path host_of parse_http_url command_probe
    http_probe tcp_probe build_probe the_probe parse_on_unhealthy check_retries validate_health
    report_if command_of warn_inert extend dependency_entries parse_dependency_condition
    dependencies optional_health optional_watch build_service validate_service validate_services
    check_known check_condition check_dependency check_dependencies check_services project_name_of
    optional_logs validate_parts dep_graph finish_config sort_services validate_raw expand
    expand_one expand_maybe expand_list expand_map expand_env_file expand_logs expand_command
    expand_health expand_watch expand_service expand_services expand_raw paths_of entries ◌>>=◌
    topological_sort strip_suffix split_once rsplit_once trim_start trim_end expand_rest
    split_braced closing_brace scan in_body resolve split_name split_rest_of_name lookup value_or
    and_then same before Map.get Map.insert Map.or_insert Map.update_or Set.insert Set.remove
    Set.sort
program = tt

pub raw-IsMap : Map.IsMap raw.services
unfolding before
raw-IsMap = ((refl, tt), (tt, tt))

validate_raw-IsOutcome_example : Returns IsOutcome (validate_raw host raw (codes "servicrab.toml"))
validate_raw-IsOutcome_example = validate_raw-IsOutcome host raw (codes "servicrab.toml") raw-IsMap

abbrev built : Option HealthCheck → List Dependency → Text → Service
built health depends_on name = record {
  name = name;
  executable = codes "serve";
  args = [];
  cwd = codes ".";
  env = [];
  env_files = [];
  depends_on = depends_on;
  profiles = [];
  autostart = true;
  restart = RestartPolicy.on_failure;
  restart_delay = secs 5;
  restart_max_delay = secs 30;
  max_restarts = 10;
  stable_after = secs 60;
  shutdown_signal = ShutdownSignal.term;
  shutdown_timeout = secs 10;
  health = health;
  log_to_file = true;
  watch = none;
}

-- What the run makes of it.
abbrev shop : Config
shop = record {
  source_path = codes "servicrab.toml";
  source_dir = codes ".";
  project = record { name = codes "shop"; env = []; env_files = []; logs = none };
  services =
      (
        db,
        built
            (some (record {
              probe = HealthProbe.tcp (codes "db") 5432;
              interval = secs 2;
              timeout = secs 5;
              retries = 3;
              start_period = 0;
              on_unhealthy = UnhealthyAction.restart;
            }))
            [] db,
      )
      ∷ (
        web,
        built none
            (record { service = db; condition = some DependencyCondition.service_healthy } ∷ [])
            web,
      )
      ∷ [];
  start_order = db ∷ web ∷ [];
}

shop_accepted : validate_raw host raw (codes "servicrab.toml") ≡ returned (ok (shop, []))
unfolding program
shop_accepted = refl

shop-IsValid : IsValid shop
shop-IsValid = subst (Returns IsOutcome) shop_accepted validate_raw-IsOutcome_example

plan_stack-IsStartable_example :
    Returns (IsStartable shop) (plan_stack shop (record { services = web ∷ []; profiles = [] }))
plan_stack-IsStartable_example =
    plan_stack-IsStartable shop (record { services = web ∷ []; profiles = [] }) shop-IsValid

validate_name_iff_example :
    (validate_name (codes "web-1") 48 ≡ ok tt)
    ↔ (begins_name (codes "web-1") ≡ true)
      × (length (codes "web-1") ≤ 48)
      × (all is_name_char (codes "web-1") ≡ true)
validate_name_iff_example = validate_name_iff (codes "web-1") 48

ipv6-IsHost : IsHost (codes "::1")
ipv6-IsHost = record { present = refl; no_open = refl; no_close = refl }

parse_http_url-written_example :
    parse_http_url (written_url (codes "::1") 8080 (codes "health"))
    ≡ ok (
        HealthProbe.http
          (written_url (codes "::1") 8080 (codes "health"))
          (codes "::1")
          8080
          (codes "/health"))
parse_http_url-written_example =
    parse_http_url-written (codes "::1") 8080 (codes "health") ipv6-IsHost refl refl (omega arith)
      (omega arith)
