-- ===== src/Errors.antt =====
-- crates/servicrab-core/src/error.rs: the errors and warnings of substitution and validation. A text
-- that `format!` makes is the constructor of its form, with the values that stand in it.
pub mod Checked
use servicrab.Base.{ℕ, Text}
use servicrab.Lifecycle.{Duration}
use servicrab.Subst.{Malformation}
use servicrab.Envfile.{EnvFileError}

-- The `scope` of an error: "project", "project.logs" and "service \"name\"".
pub data Scope : Type 0 where
  project_scope project_logs_scope : Scope
  service_scope : (name : Text) → Scope

-- The `field` of a substitution error: a name, `{field}[{index}]` and `{field}.{key}`.
pub data Field : Type 0 where
  plain : Text → Field
  indexed : Text → ℕ → Field
  keyed : Text → Text → Field

-- The reasons of `validate_name`.
pub data NameReason : Type 0 where
  name_empty name_not_ascii : NameReason
  name_too_long : (max_len len : ℕ) → NameReason
  bad_first : (first : ℕ) → NameReason
  bad_character : (ch : ℕ) → NameReason

-- The reasons of `parse_host_port` and `parse_http_url`.
pub data AddressReason : Type 0 where
  unterminated_literal expected_literal_port expected_port empty_host zero_port : AddressReason
  bad_port : Text → AddressReason
  https_unsupported not_http credentials no_host : AddressReason

pub data ProbeReason : Type 0 where
  command_empty command_unusable : ProbeReason
  address : AddressReason → ProbeReason

pub data RangeReason : Type 0 where
  at_least : (min got : Duration) → RangeReason
  at_most : (max got : Duration) → RangeReason

pub data WatchReason : Type 0 where
  no_paths empty_path empty_ignore : WatchReason
  unwatchable : (resolved reason : Text) → WatchReason

-- The reasons of `parse_size` and of the range behind it.
pub data SizeReason : Type 0 where
  size_empty size_negative size_too_large : SizeReason
  not_a_number : Text → SizeReason
  unknown_unit : Text → SizeReason
  outside_range : ℕ → SizeReason

pub data EnvFileReason : Type 0 where
  not_loaded : EnvFileError → EnvFileReason
  bad_entry : (key : Text) → EnvFileReason

pub data ConfigError : Type 0 where
  config_not_found : (dir : Text) → ConfigError
  unreadable unparsed : (path source : Text) → ConfigError
  include_read : (included_by path source : Text) → ConfigError
  include_not_a_fragment : (path included_by field : Text) → ConfigError
  include_cycle : (cycle : Text) → ConfigError
  include_twice : (path first second : Text) → ConfigError
  duplicate_service : (service first second : Text) → ConfigError
  unsupported_version : (version : ℕ) → ConfigError
  invalid_project_name : (name : Text) → NameReason → ConfigError
  invalid_service_name : (name : Text) → NameReason → ConfigError
  invalid_profile_name : (service profile : Text) → NameReason → ConfigError
  duplicate_profile : (service profile : Text) → ConfigError
  no_services : ConfigError
  empty_command invalid_executable nul_in_command_arg : (service : Text) → ConfigError
  invalid_cwd : (service cwd : Text) → ConfigError
  invalid_env_key nul_in_env_value : (service key : Text) → ConfigError
  invalid_project_env_key nul_in_project_env_value : (key : Text) → ConfigError
  unknown_dependency : (service dep : Text) → ConfigError
  self_dependency : (service : Text) → ConfigError
  duplicate_dependency : (service dep : Text) → ConfigError
  dependency_cycle : (cycle : Text) → ConfigError
  invalid_dependency_condition : (service dep value : Text) → ConfigError
  dependency_not_health_checked dependency_never_completes : (service dep : Text) → ConfigError
  invalid_duration : (service field value reason : Text) → ConfigError
  duration_out_of_range : (service field : Text) → RangeReason → ConfigError
  restart_max_delay_too_small : (service : Text) (delay max_delay : Duration) → ConfigError
  invalid_shutdown_signal : (service value : Text) → ConfigError
  missing_health_probe : (service : Text) → ConfigError
  conflicting_health_probes : (service probes : Text) → ConfigError
  invalid_health_probe : (service field value : Text) → ProbeReason → ConfigError
  invalid_health_retries : (service : Text) → ConfigError
  invalid_size : (field value : Text) → SizeReason → ConfigError
  invalid_max_files : (value : ℕ) → ConfigError
  invalid_log_dir : (dir : Text) → ConfigError
  invalid_unhealthy_action : (service value : Text) → ConfigError
  invalid_env_file : Scope → (path : Text) → EnvFileReason → ConfigError
  undefined_variable : Scope → Field → (variable : Text) → ConfigError
  invalid_substitution : Scope → Field → Malformation → ConfigError
  invalid_watch : (service : Text) → WatchReason → ConfigError

pub data ConfigWarning : Type 0 where
  executable_not_in_path : (service executable : Text) → ConfigWarning
  restart_settings_ignored : (service field : Text) → ConfigWarning
  logs_without_project_logs unhealthy_restart_without_policy : (service : Text) → ConfigWarning
