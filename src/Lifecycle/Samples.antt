-- ===== src/Lifecycle/Samples.antt =====
-- The theorems at concrete inputs, after the tests of lifecycle.rs.
use servicrab.Base.{
  ℕ, ◌≤◌, ◌<◌, ◌*◌, ◌^◌, ◌+◌, min, [], ◌∷◌, ◌≡◌, refl, some, err, arith, length, pos,
}
use servicrab.Lifecycle.{
  pending, starting, running, stopped, new_machine, try_transition, code, signal, ProcessOutcome,
  hang_up, restart_limit, on_failure, restart, stop, fail, RestartTracker, backoff_factor,
  backoff_for_attempt, should_restart, is_user_requested, decide,
}
use servicrab.Lifecycle.States.{Reaches, request_all, request_all-Reaches}
use servicrab.Lifecycle.Backoff.{backoff_as_documented, backoff_below_documented}
use servicrab.Lifecycle.Restarts.{
  decide_all, restarts, decide-is_user_requested, restarts-le-max_restarts, restarts_of_crashes,
}

abbrev second : ℕ
second = 1_000_000_000

abbrev tracker : RestartTracker
tracker = record {
  policy = on_failure;
  restart_delay = second;
  restart_max_delay = 30 * second;
  max_restarts = 3;
  stable_after = 60 * second;
  attempts = 0;
}

abbrev crash : ProcessOutcome
crash = record { reason = code (pos 1); uptime = second }

abbrev long_run : ProcessOutcome
long_run = record { reason = signal (pos 9); uptime = 61 * second }

decide_all-crashes :
    (decide_all tracker (crash ∷ crash ∷ crash ∷ crash ∷ [])).0
    ≡ restart second 1 ∷ restart (2 * second) 2 ∷ restart (4 * second) 3 ∷ fail restart_limit ∷ []
unfolding decide_all decide backoff_for_attempt backoff_factor
decide_all-crashes = refl

try_transition-new :
    (try_transition new_machine running).0 ≡ err (record { from = pending; to = running })
unfolding try_transition
try_transition-new = refl

request_all-Reaches_example :
    Reaches pending (request_all new_machine (starting ∷ stopped ∷ running ∷ [])).state
request_all-Reaches_example = request_all-Reaches new_machine (starting ∷ stopped ∷ running ∷ [])

backoff_as_documented_example : backoff_for_attempt tracker 40 ≡ min (second * 2 ^ 40) (30 * second)
backoff_as_documented_example = backoff_as_documented tracker 40 (omega arith)

backoff_below_documented_example :
    backoff_for_attempt (record tracker { restart_delay = 1 }) 40 < min (1 * 2 ^ 40) (30 * second)
backoff_below_documented_example =
    backoff_below_documented (record tracker { restart_delay = 1 }) 40 (omega arith) (omega arith)
      (omega arith) (omega arith)

decide-is_user_requested_example : decide tracker crash (some hang_up) ≡ (stop, tracker)
unfolding is_user_requested
decide-is_user_requested_example = decide-is_user_requested tracker crash hang_up refl

restarts-le-max_restarts_example : restarts (decide_all tracker (crash ∷ crash ∷ [])).0 + 0 ≤ 3
restarts-le-max_restarts_example =
    restarts-le-max_restarts tracker (crash ∷ crash ∷ []) (omega arith) (omega arith)

restarts_of_crashes_example :
    restarts (decide_all tracker (crash ∷ crash ∷ [])).0 + 0
    ≡ min (length (crash ∷ crash ∷ []) + 0) 3
unfolding should_restart
restarts_of_crashes_example =
    restarts_of_crashes tracker (crash ∷ crash ∷ []) (omega arith)
      ((omega arith, refl), ((omega arith, refl), tt))
