-- ===== src/Health.antt =====
-- crates/servicrab-core/src/runtime/health.rs: the monitor of a service's health, from the outcomes
-- of its probes on, for as long as its receiver is there. The probes themselves are inputs.
mod Samples
pub mod Outage
pub mod Signals
use servicrab.Base.{
  ℕ, ◌+◌, ◌-◌, ◌^◌, min, max, Bool, true, false, ◌||◌, not, List, [], ◌∷◌, ltb, leb, ◌==◌,
  if◌then◌else◌, Text, for_each,
}
use servicrab.Event.{EventKind, health_probe_failed}

abbrev pub max_consecutive_failures : ℕ
max_consecutive_failures = 100000

abbrev pub report_failure_every : ℕ
report_failure_every = 100

-- `u32::saturating_add`
abbrev saturating_add : ℕ → ℕ → ℕ
saturating_add a b = min (a + b) (2 ^ 32 - 1)

abbrev pub should_report_failure : ℕ → ℕ → ℕ → Bool
should_report_failure consecutive retries reported_at =
    consecutive == 1
    || consecutive == retries
    || leb (saturating_add reported_at report_failure_every) consecutive

pub data HealthSignal : Type 0 where
  ready : HealthSignal
  unhealthy : Text → HealthSignal

-- What `probe_once` returns, a failure with whether the start period still lasts.
pub data Probe : Type 0 where
  passed : Probe
  failed : (message : Text) (starting : Bool) → Probe

-- The locals of `HealthMonitor::run`, and what it has emitted and sent, the last one first.
pub record Monitor : Type 0 where
  pub consecutive : ℕ
  pub is_ready : Bool
  pub reported_at : ℕ
  pub events : List EventKind
  pub signals : List HealthSignal

abbrev pub new_monitor : Monitor
new_monitor = record {
  consecutive = 0;
  is_ready = false;
  reported_at = 0;
  events = [];
  signals = [];
}

abbrev pub ceiling : ℕ → ℕ
ceiling retries = max max_consecutive_failures retries

abbrev pub on_pass : Monitor → Monitor
on_pass m =
    let m' = record m { consecutive = 0; reported_at = 0 } in
    if not m.is_ready
    then record m' {
      is_ready = true;
      events = EventKind.healthy ∷ m.events;
      signals = ready ∷ m.signals;
    }
    else m'

abbrev pub report_failure : ℕ → Text → Monitor → Monitor
report_failure retries message m =
    if should_report_failure m.consecutive retries m.reported_at
    then record m {
      reported_at = m.consecutive;
      events = health_probe_failed message m.consecutive retries ∷ m.events;
    }
    else m

abbrev pub report_exhaustion : ℕ → Text → Monitor → Monitor
report_exhaustion retries message m =
    if m.consecutive == retries
    then record m {
      is_ready = false;
      events = EventKind.unhealthy message ∷ m.events;
      signals = HealthSignal.unhealthy message ∷ m.signals;
    }
    else m

-- A failure that counts.
abbrev pub on_failure : ℕ → Text → Monitor → Monitor
on_failure retries message m = report_exhaustion retries message (
    report_failure retries message
      (record m { consecutive = min (saturating_add m.consecutive 1) (ceiling retries) }))

unfoldable pub on_probe : ℕ → Monitor → Probe → Monitor
on_probe retries m passed = on_pass m
on_probe retries m (failed message starting) = if starting then m else on_failure retries message m

unfoldable pub monitor : ℕ → List Probe → Monitor
unfolding on_probe
monitor retries probes = for_each (on_probe retries) new_monitor probes
