-- ===== src/Health/Samples.antt =====
-- The theorems at concrete inputs.
use servicrab.Base.{
  ◌+◌, ◌-◌, ◌*◌, ◌≤◌, ◌<◌, true, false, List, [], ◌∷◌, if◌then◌else◌, leb, ltb, ◌≡◌, refl, arith,
  codes, Text,
}
use servicrab.Health.{HealthSignal, new_monitor, Probe, passed, failed, monitor}
use servicrab.Health.Outage.{unhealthies, fail_for, reports, unhealthies-fail_for, reports-fail_for}
use servicrab.Health.Signals.{alternate, last_ready, monitor_alternates}

abbrev refused : Text
refused = codes "connection refused"

unhealthies-fail_for_example :
    unhealthies (fail_for 3 250 refused new_monitor).signals
    ≡ unhealthies new_monitor.signals
      + (if ltb 3 100000 then (if leb 3 250 then 1 else 0) else 250 + 1 - 3)
unhealthies-fail_for_example =
    unhealthies-fail_for 3 250 refused new_monitor (omega arith) (omega arith) refl

reports-fail_for_example :
    (100 * reports (fail_for 3 250 refused new_monitor).events
      ≤ 100 * (reports new_monitor.events + 2) + 250)
    × ((fail_for 3 250 refused new_monitor).consecutive
        < (fail_for 3 250 refused new_monitor).reported_at + 100)
reports-fail_for_example =
    reports-fail_for 3 250 refused new_monitor (omega arith) (omega arith) (refl, refl)

-- Two failures exhaust the budget, and a pass brings the service back.
abbrev probes : List Probe
probes =
    failed refused true
    ∷ passed
    ∷ failed refused false
    ∷ failed refused false
    ∷ failed refused false
    ∷ passed
    ∷ []

three_signals :
    (monitor 2 probes).signals
    ≡ HealthSignal.ready ∷ HealthSignal.unhealthy refused ∷ HealthSignal.ready ∷ []
unfolding monitor
three_signals = refl

monitor_alternates_example :
    (alternate (monitor 2 probes).signals ≡ true)
    × ((monitor 2 probes).is_ready ≡ last_ready (monitor 2 probes).signals)
monitor_alternates_example = monitor_alternates 2 probes (omega arith) (omega arith)
