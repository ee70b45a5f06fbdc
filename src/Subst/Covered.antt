-- ===== src/Subst/Covered.antt =====
-- What crates/servicrab-core/src/subst.rs does with each value of a configuration.
use servicrab.Base.{
  ℕ, ◌+◌, Option, none, some, List, [], ◌∷◌, ◌++◌, map, Text, ◌≡◌, refl, length-append, arith,
}
use mathlib.Core.List.{append-nil}
use servicrab.Base.Map
use servicrab.Base.Map.{BTreeMap}
use servicrab.Raw.{RawConfig, RawService, RawEnvFile, one, many, RawLogs, RawHealthCheck, RawWatch}
use servicrab.Errors.{
  ConfigError, Scope, Field, plain, indexed, keyed, project_scope, service_scope,
}
use servicrab.Subst.{Vars}
use servicrab.Errors.Checked.{◌>>=◌}
use servicrab.Subst.Values.{
  expand_one, expand_maybe, expand_list, expand_map, expand_env_file, expand_logs, expand_command,
  expand_health, expand_watch, expand_service, expand_services, expand_raw,
}
use servicrab.Subst.Walk.{
  Covers, expanded, failures, optional, env_file_values, command_values, logs_values, health_values,
  watch_values, service_values, services_values, values_of,
}

module _ (vars : Vars) where
  map-append :
      (xs ys : List Text)
      → map (expanded vars) (xs ++ ys) ≡ map (expanded vars) xs ++ map (expanded vars) ys
  map-append [] ys = refl
  map-append (x ∷ xs) ys = rw (map-append xs ys)

  failures-append :
      (xs ys : List Text) → failures vars (xs ++ ys) ≡ failures vars xs + failures vars ys
  failures-append [] ys = omega arith
  failures-append (x ∷ xs) ys = omega (arith, failures-append xs ys)

  nothing : Covers vars [] [] []
  nothing = record { values = refl; count = refl }

  both :
      {new new2 old old2 : List Text} {errors errors2 : List ConfigError}
      → Covers vars new errors old
      → Covers vars new2 errors2 old2
      → Covers vars (new ++ new2) (errors ++ errors2) (old ++ old2)
  both {new} {new2} {old} {old2} {errors} {errors2} c d = record {
    values = rw (c.values, d.values, map-append old old2);
    count = omega (arith, c.count, d.count, length-append errors errors2, failures-append old old2);
  }

  -- The errors of `pure` behind those of the last part.
  padded :
      {new old : List Text} {errors : List ConfigError}
      → Covers vars new errors old
      → Covers vars new (errors ++ []) old
  padded {new} {old} {errors} c = rw (append-nil errors) c

  -- Each combinator puts together what its parts give, and the last part is `pure`.
  expand_one-Covers :
      (t : Text) (scope : Scope) (field : Field)
      → Covers vars
          ((expand_one vars t scope field).value ∷ [])
          (expand_one vars t scope field).errors
          (t ∷ [])
  unfolding expand_one
  expand_one-Covers t scope field = record { values = ground arith; count = ground arith }

  expand_maybe-Covers :
      (o : Option Text) (scope : Scope) (field : Text)
      → Covers vars
          (optional (expand_maybe vars o scope field).value)
          (expand_maybe vars o scope field).errors
          (optional o)
  unfolding expand_maybe ◌>>=◌
  expand_maybe-Covers none scope field = nothing
  expand_maybe-Covers (some t) scope field = both (expand_one-Covers t scope (plain field)) nothing

  expand_list-Covers :
      (index : ℕ) (ts : List Text) (scope : Scope) (field : Text)
      → Covers vars
          (expand_list index vars ts scope field).value
          (expand_list index vars ts scope field).errors
          ts
  unfolding expand_list ◌>>=◌
  expand_list-Covers index [] scope field = nothing
  expand_list-Covers index (t ∷ ts) scope field =
      both (expand_one-Covers t scope (indexed field index))
        (padded (expand_list-Covers (index + 1) ts scope field))

  expand_map-Covers :
      (m : BTreeMap Text) (scope : Scope) (field : Text)
      → Covers vars
          (Map.values (expand_map vars m scope field).value)
          (expand_map vars m scope field).errors
          (Map.values m)
  unfolding expand_map ◌>>=◌
  expand_map-Covers [] scope field = nothing
  expand_map-Covers ((key, t) ∷ m) scope field =
      both (expand_one-Covers t scope (keyed field key)) (padded (expand_map-Covers m scope field))

  expand_env_file-Covers :
      (o : Option RawEnvFile) (scope : Scope)
      → Covers vars
          (env_file_values (expand_env_file vars o scope).value)
          (expand_env_file vars o scope).errors
          (env_file_values o)
  unfolding expand_env_file ◌>>=◌
  expand_env_file-Covers none scope = nothing
  expand_env_file-Covers (some (one path)) scope = both (expand_one-Covers path scope _) nothing
  expand_env_file-Covers (some (many paths)) scope =
      both (expand_list-Covers 0 paths scope _) nothing

  expand_logs-Covers :
      (o : Option RawLogs)
      → Covers vars
          (logs_values (expand_logs vars o).value)
          (expand_logs vars o).errors
          (logs_values o)
  unfolding expand_logs ◌>>=◌
  expand_logs-Covers none = nothing
  expand_logs-Covers (some logs) =
      both (expand_maybe-Covers logs.dir _ _) (both (expand_maybe-Covers logs.max_size _ _) nothing)

  expand_command-Covers :
      (o : Option (List Text)) (scope : Scope)
      → Covers vars
          (command_values (expand_command vars o scope).value)
          (expand_command vars o scope).errors
          (command_values o)
  unfolding expand_command ◌>>=◌
  expand_command-Covers none scope = nothing
  expand_command-Covers (some command) scope = both (expand_list-Covers 0 command scope _) nothing

  expand_health-Covers :
      (o : Option RawHealthCheck) (scope : Scope)
      → Covers vars
          (health_values (expand_health vars o scope).value)
          (expand_health vars o scope).errors
          (health_values o)
  unfolding expand_health ◌>>=◌
  expand_health-Covers none scope = nothing
  expand_health-Covers (some health) scope = both (expand_command-Covers health.command scope) (
      both (expand_maybe-Covers health.http scope _) (
        both (expand_maybe-Covers health.tcp scope _) (
          both (expand_maybe-Covers health.interval scope _) (
            both (expand_maybe-Covers health.timeout scope _) (
              both (expand_maybe-Covers health.start_period scope _)
                (both (expand_maybe-Covers health.on_unhealthy scope _) nothing))))))

  expand_watch-Covers :
      (o : Option RawWatch) (scope : Scope)
      → Covers vars
          (watch_values (expand_watch vars o scope).value)
          (expand_watch vars o scope).errors
          (watch_values o)
  unfolding expand_watch ◌>>=◌
  expand_watch-Covers none scope = nothing
  expand_watch-Covers (some watch) scope = both (expand_list-Covers 0 watch.paths scope _) (
      both (expand_list-Covers 0 watch.ignore scope _) (
        both (expand_maybe-Covers watch.interval scope _)
          (both (expand_maybe-Covers watch.debounce scope _) nothing)))

  expand_service-Covers :
      (s : RawService) (scope : Scope)
      → Covers vars
          (service_values (expand_service vars s scope).value)
          (expand_service vars s scope).errors
          (service_values s)
  unfolding expand_service ◌>>=◌
  expand_service-Covers s scope = both (expand_list-Covers 0 s.command scope _) (
      both (expand_maybe-Covers s.cwd scope _) (
        both (expand_map-Covers s.env scope _) (
          both (expand_env_file-Covers s.env_file scope) (
            both (expand_maybe-Covers s.restart_delay scope _) (
              both (expand_maybe-Covers s.restart_max_delay scope _) (
                both (expand_maybe-Covers s.stable_after scope _) (
                  both (expand_maybe-Covers s.shutdown_signal scope _) (
                    both (expand_maybe-Covers s.shutdown_timeout scope _) (
                      both (expand_health-Covers s.health scope)
                        (both (expand_watch-Covers s.watch scope) nothing))))))))))

  expand_services-Covers :
      (m : BTreeMap RawService)
      → Covers vars
          (services_values (expand_services vars m).value)
          (expand_services vars m).errors
          (services_values m)
  unfolding expand_services ◌>>=◌
  expand_services-Covers [] = nothing
  expand_services-Covers ((name, s) ∷ m) =
      both (expand_service-Covers s (service_scope name)) (both (expand_services-Covers m) nothing)

-- Every value of the project and of each service is expanded in its place, or left as it is where
-- it has no expansion, and for each one that is left there is one error.
pub expand_raw-Covers :
    (vars : Vars) (raw : RawConfig)
    → Covers vars
        (values_of (expand_raw vars raw).value)
        (expand_raw vars raw).errors
        (values_of raw)
unfolding expand_raw ◌>>=◌
expand_raw-Covers vars raw = both vars (expand_map-Covers vars raw.project.env project_scope _) (
    both vars (expand_env_file-Covers vars raw.project.env_file project_scope) (
      both vars (expand_logs-Covers vars raw.project.logs)
        (both vars (expand_services-Covers vars raw.services) (nothing vars))))
