-- ===== src/Lifecycle/Restarts.antt =====
-- How the restart decisions of a service add up.
use servicrab.Base.{
  ℕ, zero, suc, ◌+◌, ◌≤◌, ◌<◌, min, ◌≡◌, ◌≢◌, ◌↔◌, refl, true, false, ◌||◌, none, some, List, [],
  ◌∷◌, length, ltb, ◌==◌, le→leb, arith, All, All-map, pos,
}
use mathlib.Core.Bool.{true≢false}
use servicrab.Lifecycle.{
  ExitReason, code, spawn_failure, is_success, ShutdownReason, restart_limit, is_user_requested,
  RestartPolicy, never, on_failure, ProcessOutcome, RestartDecision, restart, stop, fail,
  RestartTracker, u32_max, backoff_for_attempt, should_restart, decide,
}

restarts_of :
    (policy : RestartPolicy) (reason : ExitReason)
    → (policy ≢ never)
      × (reason ≢ spawn_failure false)
      × (policy ≡ on_failure → is_success reason ≡ false)
    → should_restart policy reason ≡ true
unfolding should_restart is_success
restarts_of never reason h = absurd (h.0 refl)
restarts_of policy (spawn_failure false) h = absurd (h.1 refl)
restarts_of on_failure (code (pos zero)) h = absurd (true≢false (h.2 refl))
restarts_of policy reason h = refl

-- A policy restarts a service exactly when it is not `never`, the outcome is not a spawn failure
-- beyond retrying, and under `on-failure` the run was not a success.
pub should_restart_iff :
    (policy : RestartPolicy) (reason : ExitReason)
    → (should_restart policy reason ≡ true) ↔ (
        (policy ≢ never)
        × (reason ≢ spawn_failure false)
        × (policy ≡ on_failure → is_success reason ≡ false))
unfolding should_restart is_success
should_restart_iff policy reason = (
  (λ e. ((λ p. ground arith), (λ r. ground arith), (λ p. ground arith))),
  restarts_of policy reason,
)

-- A shutdown that the user asked for is never answered by a restart, and changes nothing.
pub decide-is_user_requested :
    (t : RestartTracker) (outcome : ProcessOutcome) (reason : ShutdownReason)
    → is_user_requested reason ≡ true
    → decide t outcome (some reason) ≡ (stop, t)
unfolding decide
decide-is_user_requested t outcome reason h = rw h

-- The decisions on one run after another.
unfoldable pub decide_all :
    RestartTracker → List ProcessOutcome → List RestartDecision × RestartTracker
decide_all t [] = ([], t)
decide_all t (o ∷ os) =
    let (d, t') = decide t o none in let (ds, t'') = decide_all t' os in (d ∷ ds, t'')

pub restarts : List RestartDecision → ℕ
restarts [] = 0
restarts (restart _ _ ∷ ds) = suc (restarts ds)
restarts (_ ∷ ds) = restarts ds

-- A run that was too short to count as stable.
abbrev pub IsUnstable : RestartTracker → ProcessOutcome → Type 0
IsUnstable t o = o.uptime < t.stable_after

-- A run that the policy answers by a restart.
abbrev pub IsCrash : RestartTracker → ProcessOutcome → Type 0
IsCrash t o = (o.uptime < t.stable_after) × (should_restart t.policy o.reason ≡ true)

-- A finite budget of restarts, not yet overdrawn.
pub record HasBudget (t : RestartTracker) : Type 0 where
  pub finite : 0 < t.max_restarts
  pub in_range : t.max_restarts ≤ u32_max
  pub kept : t.attempts ≤ t.max_restarts

module _ (t : RestartTracker) (o : ProcessOutcome) where
  abbrev next : RestartTracker
  next = (decide t o none).1

  decide_keeps :
      (next.policy ≡ t.policy)
      × (next.max_restarts ≡ t.max_restarts)
      × (next.stable_after ≡ t.stable_after)
  unfolding decide
  decide_keeps = (ground arith, ground arith, ground arith)

  decide-HasBudget : HasBudget t → IsUnstable t o → HasBudget next
  unfolding decide
  decide-HasBudget h short = ground arith

  restarts-decide :
      HasBudget t
      → IsUnstable t o
      → restarts ((decide t o none).0 ∷ []) + t.attempts ≡ next.attempts
  unfolding decide restarts
  restarts-decide h short = ground arith

  restarts-decide_crash :
      HasBudget t
      → IsCrash t o
      → restarts ((decide t o none).0 ∷ []) + t.attempts ≡ min (1 + t.attempts) t.max_restarts
  unfolding decide restarts
  restarts-decide_crash h crash = ground arith

restarts-cons :
    (d : RestartDecision) (ds : List RestartDecision)
    → restarts (d ∷ ds) ≡ restarts (d ∷ []) + restarts ds
unfolding restarts
restarts-cons d ds = ground arith

module _ (t : RestartTracker) (o : ProcessOutcome) where
  still-IsUnstable :
      (os : List ProcessOutcome) → All (IsUnstable t) os → All (IsUnstable (next t o)) os
  still-IsUnstable os = All-map (λ o' u. rw ((decide_keeps t o).2) u) os

  still-IsCrash : (os : List ProcessOutcome) → All (IsCrash t) os → All (IsCrash (next t o)) os
  still-IsCrash os =
      All-map (λ o' u. (rw ((decide_keeps t o).2) u.0, rw ((decide_keeps t o).0) u.1)) os

-- While no run is stable, the restarts never overdraw a finite budget, whatever the policy and the
-- outcomes are.
pub restarts-le-max_restarts :
    (t : RestartTracker) (os : List ProcessOutcome)
    → HasBudget t
    → All (IsUnstable t) os
    → restarts (decide_all t os).0 + t.attempts ≤ t.max_restarts
unfolding decide_all restarts
restarts-le-max_restarts t [] h short = omega (arith, h.kept)
restarts-le-max_restarts t (o ∷ os) h short = omega (
  arith,
  restarts-cons (decide t o none).0 (decide_all (next t o) os).0,
  restarts-decide t o h short.0,
  (decide_keeps t o).1,
  restarts-le-max_restarts (next t o) os (decide-HasBudget t o h short.0)
      (still-IsUnstable t o os short.1),
)

-- A service that crashes again and again is restarted each time until the budget is used up, and
-- not once more.
pub restarts_of_crashes :
    (t : RestartTracker) (os : List ProcessOutcome)
    → HasBudget t
    → All (IsCrash t) os
    → restarts (decide_all t os).0 + t.attempts ≡ min (length os + t.attempts) t.max_restarts
unfolding decide_all restarts
restarts_of_crashes t [] h crash = omega (arith, h.kept)
restarts_of_crashes t (o ∷ os) h crash = omega (
  arith,
  restarts-cons (decide t o none).0 (decide_all (next t o) os).0,
  restarts-decide t o h crash.0.0,
  restarts-decide_crash t o h crash.0,
  (decide_keeps t o).1,
  restarts_of_crashes (next t o) os (decide-HasBudget t o h crash.0.0)
      (still-IsCrash t o os crash.1),
)

-- With `max_restarts = 0` the supervisor never gives up; otherwise, with no shutdown, it gives up
-- exactly on a run that the policy would restart, that was not stable, with the budget used up.
decide-fail_iff :
    (t : RestartTracker) (o : ProcessOutcome)
    → ((decide t o none).0 ≡ fail restart_limit)
      ↔ ((0 < t.max_restarts) × IsCrash t o × (t.max_restarts ≤ t.attempts))
unfolding decide
decide-fail_iff t o = ((λ e. ground arith), (λ h. ground arith))

backoff_reset :
    (t : RestartTracker) (n attempt : ℕ)
    → backoff_for_attempt (record t { attempts = n }) attempt ≡ backoff_for_attempt t attempt
unfolding backoff_for_attempt
backoff_reset t n attempt = refl

fresh_budget : (m : ℕ) → (m == 0 || ltb 0 m) ≡ true
fresh_budget m = ground arith

-- After a stable run the service has its whole budget again: the next restart is the first one,
-- with the first delay.
pub decide_stable :
    (t : RestartTracker) (o : ProcessOutcome)
    → t.stable_after ≤ o.uptime
    → should_restart t.policy o.reason ≡ true
    → decide t o none ≡ (restart (backoff_for_attempt t 0) 1, record t { attempts = 1 })
unfolding decide
decide_stable t o h wants =
    rw (le→leb _ _ h, wants, fresh_budget t.max_restarts, backoff_reset t 0 0)
