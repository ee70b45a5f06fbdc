-- ===== src/Config.antt =====
-- crates/servicrab-core/src/config.rs: the validated configuration. Paths are texts, durations are
-- nanoseconds, and a service name is its text.
use native.Mathlib.Decide.{ℕ_discrete}
use mathlib.Core.Bool.{decide, decide_iff}
use servicrab.Base.{
  ℕ, Bool, true, ◌&&◌, ◌||◌, not, Option, none, some, List, [], ◌∷◌, ◌++◌, Text, codes, join, map,
  filter, same, ◌==◌, if◌then◌else◌, match_option, ◌≡◌, ◌↔◌,
}
use servicrab.Base.Chars.{is_empty, starts_with, in_line}
use servicrab.Base.Map
use servicrab.Base.Map.{BTreeMap}
use servicrab.Lifecycle.{Duration, RestartPolicy}

pub data ShutdownSignal : Type 0 where
  term int quit hup : ShutdownSignal

pub data DependencyCondition : Type 0 where
  service_started service_healthy service_completed_successfully : DependencyCondition

pub record Dependency : Type 0 where
  pub service : Text
  pub condition : Option DependencyCondition

pub data HealthProbe : Type 0 where
  command : (executable : Text) (args : List Text) → HealthProbe
  http : (url host : Text) (port : ℕ) (path : Text) → HealthProbe
  tcp : (host : Text) (port : ℕ) → HealthProbe

pub data UnhealthyAction : Type 0 where
  restart ignore : UnhealthyAction

pub record HealthCheck : Type 0 where
  pub probe : HealthProbe
  pub interval : Duration
  pub timeout : Duration
  pub retries : ℕ
  pub start_period : Duration
  pub on_unhealthy : UnhealthyAction

pub record WatchSettings : Type 0 where
  pub paths : List Text
  pub ignore : List Text
  pub interval : Duration
  pub debounce : Duration

pub record Service : Type 0 where
  pub name : Text
  pub executable : Text
  pub args : List Text
  pub cwd : Text
  pub env : BTreeMap Text
  pub env_files : List Text
  pub depends_on : List Dependency
  pub profiles : List Text
  pub autostart : Bool
  pub restart : RestartPolicy
  pub restart_delay : Duration
  pub restart_max_delay : Duration
  pub max_restarts : ℕ
  pub stable_after : Duration
  pub shutdown_signal : ShutdownSignal
  pub shutdown_timeout : Duration
  pub health : Option HealthCheck
  pub log_to_file : Bool
  pub watch : Option WatchSettings

pub record LogSettings : Type 0 where
  pub dir : Text
  pub max_size : ℕ
  pub max_files : ℕ

pub record Project : Type 0 where
  pub name : Text
  pub env : BTreeMap Text
  pub env_files : List Text
  pub logs : Option LogSettings

pub record Config : Type 0 where
  pub source_path : Text
  pub source_dir : Text
  pub project : Project
  pub services : BTreeMap Service
  pub start_order : List Text

-- `Dependency::condition_for`
unfoldable pub condition_for : Dependency → Service → DependencyCondition
condition_for d dependency =
    Map.unwrap_or (elim dependency.health [ some _ ↦ service_healthy | none ↦ service_started ])
      d.condition

-- The components of a path, which `/` separates; a `.` is none.
unfoldable segments : Text → List Text
segments [] = [] ∷ []
segments (c ∷ s) = let rest = segments s in if c == b'/' then [] ∷ rest else in_line c rest

abbrev is_component : Text → Bool
is_component segment = not (is_empty segment) && not (same segment (codes "."))

abbrev components : Text → Text
components path = join (codes "/") (filter is_component (segments path))

-- A path with its components alone. A path that is not absolute keeps a `.` in front.
unfoldable pub normal_path : Text → Text
unfolding segments
normal_path path =
    if starts_with (codes "/") path
    then b'/' ∷ components path
    else if same path (codes ".") || starts_with (codes "./") path
    then codes "./" ++ components path
    else components path

-- `PartialEq` of a path is that of its components.
unfoldable pub by_components : Service → Service
unfolding normal_path
by_components service = record service {
  cwd = normal_path service.cwd;
  env_files = map normal_path service.env_files;
  watch =
      match_option service.watch none
        λ settings. some (record settings { paths = map normal_path settings.paths });
}

Service-discrete : Discrete Service
Service-discrete = hlevel ℕ_discrete

-- The derived `PartialEq`.
unfoldable pub service_eq : Service → Service → Bool
unfolding Service-discrete
service_eq a b = decide (Service-discrete (by_components a) (by_components b))

pub service_eq_iff : (a b : Service) → (service_eq a b ≡ true) ↔ (by_components a ≡ by_components b)
unfolding service_eq
service_eq_iff a b = decide_iff (Service-discrete (by_components a) (by_components b))
