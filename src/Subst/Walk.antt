-- ===== src/Subst/Walk.antt =====
-- Which values of a configuration `expand_raw` expands, and what it reports.
use servicrab.Base.{
  ℕ, ◌+◌, Option, none, some, List, [], ◌∷◌, ◌++◌, map, Text, ◌≡◌, length, ok, err,
}
use servicrab.Base.Map
use servicrab.Base.Map.{BTreeMap}
use servicrab.Raw.{RawConfig, RawService, RawEnvFile, one, many, RawLogs, RawHealthCheck, RawWatch}
use servicrab.Errors.{ConfigError}
use servicrab.Subst.{Vars}
use servicrab.Subst.Values.{expand}

-- The expansion of a value, or the value itself where there is none.
abbrev pub expanded : Vars → Text → Text
expanded vars t = elim (expand t vars) [ ok v ↦ v | err e ↦ t ]

-- How many of the values have no expansion.
abbrev pub failures : Vars → List Text → ℕ
failures vars [] = 0
failures vars (t ∷ ts) = (elim (expand t vars) [ ok v ↦ 0 | err e ↦ 1 ]) + failures vars ts

-- Each value is expanded where it can be, in its place, and there is an error for each other one.
pub record Covers (vars : Vars) (new : List Text) (errors : List ConfigError) (old : List Text)
    : Type 0 where
  pub values : new ≡ map (expanded vars) old
  pub count : length errors ≡ failures vars old

abbrev pub optional : Option Text → List Text
optional none = []
optional (some t) = t ∷ []

abbrev pub concat : List (List Text) → List Text
concat [] = []
concat (ts ∷ tss) = ts ++ concat tss

abbrev pub env_file_values : Option RawEnvFile → List Text
env_file_values none = []
env_file_values (some (one path)) = concat ((path ∷ []) ∷ [])
env_file_values (some (many paths)) = concat (paths ∷ [])

abbrev pub command_values : Option (List Text) → List Text
command_values none = []
command_values (some command) = concat (command ∷ [])

abbrev pub logs_values : Option RawLogs → List Text
logs_values none = []
logs_values (some logs) = concat (optional logs.dir ∷ optional logs.max_size ∷ [])

abbrev pub health_values : Option RawHealthCheck → List Text
health_values none = []
health_values (some health) = concat (
    command_values health.command
    ∷ optional health.http
    ∷ optional health.tcp
    ∷ optional health.interval
    ∷ optional health.timeout
    ∷ optional health.start_period
    ∷ optional health.on_unhealthy
    ∷ [])

abbrev pub watch_values : Option RawWatch → List Text
watch_values none = []
watch_values (some watch) =
    concat (watch.paths ∷ watch.ignore ∷ optional watch.interval ∷ optional watch.debounce ∷ [])

abbrev pub service_values : RawService → List Text
service_values service = concat (
    service.command
    ∷ optional service.cwd
    ∷ Map.values service.env
    ∷ env_file_values service.env_file
    ∷ optional service.restart_delay
    ∷ optional service.restart_max_delay
    ∷ optional service.stable_after
    ∷ optional service.shutdown_signal
    ∷ optional service.shutdown_timeout
    ∷ health_values service.health
    ∷ watch_values service.watch
    ∷ [])

abbrev pub services_values : BTreeMap RawService → List Text
services_values [] = []
services_values ((name, service) ∷ m) = concat (service_values service ∷ services_values m ∷ [])

-- The values of a configuration that may refer to variables.
abbrev pub values_of : RawConfig → List Text
values_of raw = concat (
    Map.values raw.project.env
    ∷ env_file_values raw.project.env_file
    ∷ logs_values raw.project.logs
    ∷ services_values raw.services
    ∷ [])
