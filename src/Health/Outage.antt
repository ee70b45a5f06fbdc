-- ===== src/Health/Outage.antt =====
-- A long outage: what the monitor tells of it.
use servicrab.Base.{
  ℕ, zero, suc, ◌+◌, ◌-◌, ◌*◌, ◌≤◌, ◌<◌, ◌^◌, min, max, false, List, [], ◌∷◌, if◌then◌else◌, leb,
  ltb, ◌==◌, ◌||◌, Text, ◌≡◌, arith,
}
use servicrab.Event.{EventKind, health_probe_failed}
use servicrab.Health.{HealthSignal, Monitor, on_failure, on_probe, failed}

abbrev pub unhealthies : List HealthSignal → ℕ
unhealthies [] = 0
unhealthies (HealthSignal.ready ∷ signals) = unhealthies signals
unhealthies (HealthSignal.unhealthy _ ∷ signals) = unhealthies signals + 1

-- `n` failures on end, behind the start period.
unfoldable pub fail_for : ℕ → ℕ → Text → Monitor → Monitor
unfolding on_probe
fail_for retries zero message m = m
fail_for retries (suc n) message m =
    on_probe retries (fail_for retries n message m) (failed message false)

-- A monitor that has just seen a probe pass, or has not started yet.
abbrev pub IsFresh : Monitor → Type 0
IsFresh m = (m.consecutive ≡ 0) × (m.reported_at ≡ 0)

consecutive-fail_for :
    (retries n : ℕ) (message : Text) (m : Monitor)
    → retries < 2 ^ 32
    → m.consecutive ≡ 0
    → (fail_for retries n message m).consecutive ≡ min n (max 100000 retries)
unfolding fail_for
consecutive-fail_for retries zero message m small fresh = ground arith
consecutive-fail_for retries (suc n) message m small fresh =
    ground (arith, consecutive-fail_for retries n message m small fresh)

unhealthies-on_failure :
    (retries : ℕ) (message : Text) (m : Monitor)
    → unhealthies (on_failure retries message m).signals
      ≡ unhealthies m.signals
        + (if (on_failure retries message m).consecutive == retries then 1 else 0)
unhealthies-on_failure retries message m = ground arith

-- With a budget of fewer than 100000 failures, an outage is reported as unhealthy once, with the
-- failure that exhausts the budget. With a larger one it is reported so with that failure and with
-- every one after it.
pub unhealthies-fail_for :
    (retries n : ℕ) (message : Text) (m : Monitor)
    → 0 < retries
    → retries < 2 ^ 32
    → m.consecutive ≡ 0
    → unhealthies (fail_for retries n message m).signals
      ≡ unhealthies m.signals
        + (if ltb retries 100000 then (if leb retries n then 1 else 0) else n + 1 - retries)
unfolding fail_for
unhealthies-fail_for retries zero message m positive small fresh = ground arith
unhealthies-fail_for retries (suc n) message m positive small fresh = ground (
  arith,
  unhealthies-fail_for retries n message m positive small fresh,
  consecutive-fail_for retries (suc n) message m small fresh,
  unhealthies-on_failure retries message (fail_for retries n message m),
)

abbrev pub reports : List EventKind → ℕ
reports [] = 0
reports (health_probe_failed _ _ _ ∷ events) = reports events + 1
reports (_ ∷ events) = reports events

reported_fields :
    (retries : ℕ) (message : Text) (m : Monitor)
    → let c = min (min (m.consecutive + 1) (2 ^ 32 - 1)) (max 100000 retries) in
      let told = c == 1 || c == retries || leb (min (m.reported_at + 100) (2 ^ 32 - 1)) c in
      ((on_failure retries message m).reported_at ≡ (if told then c else m.reported_at))
      × (reports (on_failure retries message m).events ≡ reports m.events + (if told then 1 else 0))
reported_fields retries message m = ground arith

throttled :
    (retries n : ℕ) (message : Text) (m : Monitor)
    → 0 < retries
    → retries < 100000
    → IsFresh m
    → let m' = fail_for retries n message m in
      (m'.reported_at ≤ min n 100000)
      × (min n 100000 < m'.reported_at + 100)
      × (100 * reports m'.events
          ≤ 100 * reports m.events
            + m'.reported_at
            + (if leb 1 n then 99 else 0)
            + (if leb retries n then 100 else 0))
unfolding fail_for
throttled retries zero message m positive small fresh = ground (arith, fresh)
throttled retries (suc n) message m positive small fresh = ground (
  arith,
  throttled retries n message m positive small fresh,
  consecutive-fail_for retries n message m (omega (arith, small)) fresh.0,
  reported_fields retries message (fail_for retries n message m),
)

-- In an outage of n failures behind a passed probe or the start, with a budget of fewer than 100000
-- failures, at most two reports of a failed probe and one for every 100 failures are published, and
-- the last one published is never 100 counted failures old.
pub reports-fail_for :
    (retries n : ℕ) (message : Text) (m : Monitor)
    → 0 < retries
    → retries < 100000
    → IsFresh m
    → (100 * reports (fail_for retries n message m).events ≤ 100 * (reports m.events + 2) + n)
      × ((fail_for retries n message m).consecutive
          < (fail_for retries n message m).reported_at + 100)
reports-fail_for retries n message m positive small fresh = ground (
  arith,
  throttled retries n message m positive small fresh,
  consecutive-fail_for retries n message m (omega (arith, small)) fresh.0,
)
