-- ===== src/Validation/Bounds.antt =====
-- crates/servicrab-core/src/validation.rs: the bounds on what is read, whether it is reported or not.
use servicrab.Base.{
  ℕ, zero, suc, ◌≤◌, false, Option, none, some, Text, ◌≡◌, inl, inr, Bool-cases, Option-cases,
  arith, ap, subst, codes,
}
use servicrab.Base.Map.{unwrap_or}
use servicrab.Lifecycle.{Duration}
use servicrab.Config.{HealthCheck, WatchSettings}
use servicrab.Raw.{RawHealthCheck, RawWatch}
use servicrab.Errors.Checked.{◌>>=◌}
use servicrab.Validation.{Host, millis, secs, dur_100ms, dur_1h, dur_24h}
use servicrab.Validation.Fields.{
  check_range, parse_duration_field, is_none_left, watch_paths, validate_watch,
}
use servicrab.Validation.Probes.{check_retries, declared, the_probe, validate_health}

-- A duration of the field is within its limits, and is the default where an error is reported.
pub parse_duration_field-IsWithin :
    (host : Host) (raw : Option Text) (field : Text) (default : Duration) (service : Text)
    (min max : Duration)
    → min ≤ default
    → default ≤ max
    → (min ≤ (parse_duration_field host raw field default service min max).value)
      × ((parse_duration_field host raw field default service min max).value ≤ max)
unfolding parse_duration_field check_range
parse_duration_field-IsWithin host none field default service min max low high = (low, high)
parse_duration_field-IsWithin host (some s) field default service min max low high =
    ground (arith, low, high)

pub check_retries-le : (raw : Option ℕ) (service : Text) → 1 ≤ (check_retries raw service).value
unfolding check_retries
check_retries-le none service = omega arith
check_retries-le (some zero) service = omega arith
check_retries-le (some (suc n)) service = omega arith

-- The limits of a health check.
pub record IsHealthCheck (c : HealthCheck) : Type 0 where
  pub interval_low : dur_100ms ≤ c.interval
  pub interval_high : c.interval ≤ dur_1h
  pub timeout_low : dur_100ms ≤ c.timeout
  pub timeout_high : c.timeout ≤ dur_1h
  pub start_period_high : c.start_period ≤ dur_24h
  pub retries_low : 1 ≤ c.retries

pub validate_health-IsHealthCheck :
    (host : Host) (raw : RawHealthCheck) (service : Text) (c : HealthCheck)
    → (validate_health host raw service).value ≡ some c
    → IsHealthCheck c
unfolding validate_health ◌>>=◌
validate_health-IsHealthCheck host raw service c h =
    elim (Option-cases (the_probe (declared raw) raw service).value) [
      | inl unusable ↦ ground (arith, h, unusable)
      | inr (probe, found) ↦
          let within =
            λ (o : Option Text) (field : Text) (default min max : Duration) (low : min ≤ default)
                (high : default ≤ max).
              parse_duration_field-IsWithin host o field default service min max low high in
          let interval =
            within raw.interval (codes "health.interval") (secs 2) dur_100ms dur_1h (omega arith)
              (omega arith) in
          let timeout =
            within raw.timeout (codes "health.timeout") (secs 5) dur_100ms dur_1h (omega arith)
              (omega arith) in
          let start_period =
            within raw.start_period (codes "health.start_period") 0 0 dur_24h (omega arith)
              (omega arith) in
          subst IsHealthCheck (ap (λ (o : Option HealthCheck). unwrap_or c o) (rw found at h))
            (record {
              interval_low = interval.0;
              interval_high = interval.1;
              timeout_low = timeout.0;
              timeout_high = timeout.1;
              start_period_high = start_period.1;
              retries_low = check_retries-le raw.retries service;
            })
    ]

-- The limits of a watch table, which has something to watch.
pub record IsWatch (w : WatchSettings) : Type 0 where
  pub interval_low : dur_100ms ≤ w.interval
  pub interval_high : w.interval ≤ dur_1h
  pub debounce_low : millis 50 ≤ w.debounce
  pub debounce_high : w.debounce ≤ dur_1h
  pub watched : is_none_left w.paths ≡ false

pub validate_watch-IsWatch :
    (host : Host) (raw : RawWatch) (cwd service : Text) (w : WatchSettings)
    → (validate_watch host raw cwd service).value ≡ some w
    → IsWatch w
unfolding validate_watch ◌>>=◌
validate_watch-IsWatch host raw cwd service w h =
    elim (Bool-cases (is_none_left (watch_paths host cwd service raw.paths).value)) [
      | inl unusable ↦ ground (arith, h, unusable)
      | inr found ↦
          let interval =
            parse_duration_field-IsWithin host raw.interval (codes "watch.interval") (secs 1)
              service dur_100ms dur_1h (omega arith) (omega arith) in
          let debounce =
            parse_duration_field-IsWithin host raw.debounce (codes "watch.debounce") (millis 300)
              service (millis 50) dur_1h (omega arith) (omega arith) in
          subst IsWatch (ap (λ (o : Option WatchSettings). unwrap_or w o) (rw found at h)) (record {
            interval_low = interval.0;
            interval_high = interval.1;
            debounce_low = debounce.0;
            debounce_high = debounce.1;
            watched = found;
          })
    ]
