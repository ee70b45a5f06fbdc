-- ===== src/Validation/Settings.antt =====
-- crates/servicrab-core/src/validation.rs: what a service is that is built, and passes.
use servicrab.Base.{
  ◌≤◌, Bool, true, false, Option, none, some, List, Text, codes, ltb, ◌≡◌, refl, arith,
}
use servicrab.Lifecycle.{Duration}
use servicrab.Config.{HealthCheck, WatchSettings, Service}
use servicrab.Raw.{RawHealthCheck, RawWatch, RawService}
use servicrab.Errors.{ConfigError}
use servicrab.Errors.Checked.{Passes, first_passes, rest_passes, ◌>>=◌}
use servicrab.Validation.{Host, secs, dur_100ms, dur_1s, dur_1h, dur_24h}
use servicrab.Validation.Fields.{parse_duration_field}
use servicrab.Validation.Bounds.{
  parse_duration_field-IsWithin, IsHealthCheck, validate_health-IsHealthCheck, IsWatch,
  validate_watch-IsWatch,
}
use servicrab.Validation.Services.{
  Shared, report_if, optional_health, optional_watch, build_service, dependencies,
  dependency_entries, restart_policy,
}

-- The limits of a service.
pub record IsService (s : Service) : Type 0 where
  pub restart_delay_low : dur_100ms ≤ s.restart_delay
  pub restart_delay_high : s.restart_delay ≤ dur_1h
  pub restart_max_delay_high : s.restart_max_delay ≤ dur_24h
  pub delays : s.restart_delay ≤ s.restart_max_delay
  pub stable_after_low : dur_1s ≤ s.stable_after
  pub stable_after_high : s.stable_after ≤ dur_24h
  pub shutdown_timeout_low : dur_100ms ≤ s.shutdown_timeout
  pub shutdown_timeout_high : s.shutdown_timeout ≤ dur_1h
  pub health : (c : HealthCheck) → s.health ≡ some c → IsHealthCheck c
  pub watch : (w : WatchSettings) → s.watch ≡ some w → IsWatch w

optional_health-IsHealthCheck :
    (host : Host) (raw : Option RawHealthCheck) (name : Text) (c : HealthCheck)
    → (optional_health host raw name).value ≡ some c
    → IsHealthCheck c
unfolding optional_health
optional_health-IsHealthCheck host none name c h = cc
optional_health-IsHealthCheck host (some raw) name c h =
    validate_health-IsHealthCheck host raw name c h

optional_watch-IsWatch :
    (host : Host) (raw : Option RawWatch) (cwd name : Text) (w : WatchSettings)
    → (optional_watch host raw cwd name).value ≡ some w
    → IsWatch w
unfolding optional_watch
optional_watch-IsWatch host none cwd name w h = cc
optional_watch-IsWatch host (some raw) cwd name w h = validate_watch-IsWatch host raw cwd name w h

pub report_if_lem :
    (test : Bool) (error : ConfigError) → Passes (report_if test error) → test ≡ false
unfolding report_if
report_if_lem true error h = cc
report_if_lem false error h = refl

module _ (host : Host) (shared : Shared) (name : Text) (raw : RawService) (executable : Text)
    (args : List Text) where
  -- A service that is built without an error.
  delays_in_order :
      Passes (build_service host shared name raw executable args)
      → ltb
          (parse_duration_field host raw.restart_max_delay
            (codes "restart_max_delay")
            (secs 30)
            name
            dur_100ms
            dur_24h).value
          (parse_duration_field host raw.restart_delay
            (codes "restart_delay")
            (secs 1)
            name
            dur_100ms
            dur_1h).value
        ≡ false
  unfolding build_service
  delays_in_order h =
      -- The check stands behind ten others.
      let fifth =
        rest_passes _ _ (rest_passes _ _ (rest_passes _ _ (rest_passes _ _ (rest_passes _ _ h)))) in
      let tenth =
        rest_passes _ _
          (rest_passes _ _ (rest_passes _ _ (rest_passes _ _ (rest_passes _ _ fifth)))) in
      report_if_lem (ltb _ _) _ (first_passes _ _ tenth)

  pub health_passes :
      Passes (build_service host shared name raw executable args)
      → Passes (optional_health host raw.health name)
  unfolding build_service
  health_passes h =
      -- The health table stands behind eight others.
      let fourth = rest_passes _ _ (rest_passes _ _ (rest_passes _ _ (rest_passes _ _ h))) in
      let eighth = rest_passes _ _ (rest_passes _ _ (rest_passes _ _ (rest_passes _ _ fourth))) in
      first_passes _ _ eighth

  pub health-build_service :
      (build_service host shared name raw executable args).value.health
      ≡ (optional_health host raw.health name).value
  unfolding build_service ◌>>=◌
  health-build_service = refl

  pub restart-build_service :
      (build_service host shared name raw executable args).value.restart
      ≡ restart_policy raw.restart
  unfolding build_service ◌>>=◌
  restart-build_service = refl

  pub build_service-IsService :
      Passes (build_service host shared name raw executable args)
      → IsService (build_service host shared name raw executable args).value
  unfolding build_service ◌>>=◌
  build_service-IsService h =
      let within =
        λ (o : Option Text) (field : Text) (default min max : Duration) (low : min ≤ default)
            (high : default ≤ max).
          parse_duration_field-IsWithin host o field default name min max low high in
      let delay =
        within raw.restart_delay (codes "restart_delay") (secs 1) dur_100ms dur_1h (omega arith)
          (omega arith) in
      let max_delay =
        within raw.restart_max_delay (codes "restart_max_delay") (secs 30) dur_100ms dur_24h
          (omega arith) (omega arith) in
      let stable =
        within raw.stable_after (codes "stable_after") (secs 60) dur_1s dur_24h (omega arith)
          (omega arith) in
      let shutdown =
        within raw.shutdown_timeout (codes "shutdown_timeout") (secs 10) dur_100ms dur_1h
          (omega arith) (omega arith) in
      record {
        restart_delay_low = delay.0;
        restart_delay_high = delay.1;
        restart_max_delay_high = max_delay.1;
        delays = ground (arith, delays_in_order h);
        stable_after_low = stable.0;
        stable_after_high = stable.1;
        shutdown_timeout_low = shutdown.0;
        shutdown_timeout_high = shutdown.1;
        health = λ c e. optional_health-IsHealthCheck host raw.health name c e;
        watch = λ w e. optional_watch-IsWatch host raw.watch _ name w e;
      }

  pub name-build_service : (build_service host shared name raw executable args).value.name ≡ name
  unfolding build_service ◌>>=◌
  name-build_service = refl

  pub depends_on-build_service :
      (build_service host shared name raw executable args).value.depends_on
      ≡ dependencies (dependency_entries raw)
  unfolding build_service ◌>>=◌
  depends_on-build_service = refl
