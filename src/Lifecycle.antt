-- ===== src/Lifecycle.antt =====
-- crates/servicrab-core/src/lifecycle.rs: the states of a service, and the decision to restart it.
mod Samples
pub mod States
pub mod Backoff
pub mod Restarts
use servicrab.Base.{
  ℕ, zero, suc, ◌+◌, ◌*◌, ◌^◌, ◌-◌, ◌≤◌, ◌<◌, min, Bool, true, false, ◌||◌, not, Option, none, some,
  Text, codes, ltb, leb, ◌==◌, if◌then◌else◌, Result, ok, err, ℤ, pos, negsuc,
}

pub data ServiceState : Type 0 where
  pending starting running backoff stopping stopped exited failed : ServiceState

unfoldable pub can_transition_to : ServiceState → ServiceState → Bool
can_transition_to pending starting = true
can_transition_to pending stopped = true
can_transition_to starting running = true
can_transition_to starting backoff = true
can_transition_to starting exited = true
can_transition_to starting failed = true
can_transition_to starting stopping = true
can_transition_to running stopping = true
can_transition_to running backoff = true
can_transition_to running exited = true
can_transition_to running failed = true
can_transition_to backoff starting = true
can_transition_to backoff stopped = true
can_transition_to backoff failed = true
can_transition_to stopping backoff = true
can_transition_to stopping stopped = true
can_transition_to stopping exited = true
can_transition_to stopping failed = true
can_transition_to _ _ = false

unfoldable pub is_terminal : ServiceState → Bool
is_terminal stopped = true
is_terminal exited = true
is_terminal failed = true
is_terminal _ = false

-- `Display for ServiceState`
unfoldable pub state_name : ServiceState → Text
state_name pending = codes "pending"
state_name starting = codes "starting"
state_name running = codes "running"
state_name backoff = codes "backoff"
state_name stopping = codes "stopping"
state_name stopped = codes "stopped"
state_name exited = codes "exited"
state_name failed = codes "failed"

pub record InvalidTransition : Type 0 where
  pub from : ServiceState
  pub to : ServiceState

pub record StateMachine : Type 0 where
  pub state : ServiceState

-- `StateMachine::new`
abbrev pub new_machine : StateMachine
new_machine = record { state = pending }

unfoldable pub try_transition :
    StateMachine → ServiceState → Result InvalidTransition (Unit {0}) × StateMachine
unfolding can_transition_to
try_transition m next =
    if can_transition_to m.state next
    then (ok tt, record { state = next })
    else (err (record { from = m.state; to = next }), m)

pub data ExitReason : Type 0 where
  code : ℤ → ExitReason
  signal : ℤ → ExitReason
  spawn_failure : (retryable : Bool) → ExitReason
  unhealthy : ExitReason

unfoldable pub is_success : ExitReason → Bool
is_success (code (pos zero)) = true
is_success _ = false

pub data ShutdownReason : Type 0 where
  user_interrupt terminated hang_up restart_limit stack_failure unhealthy requested : ShutdownReason

unfoldable pub is_user_requested : ShutdownReason → Bool
is_user_requested user_interrupt = true
is_user_requested terminated = true
is_user_requested hang_up = true
is_user_requested requested = true
is_user_requested _ = false

-- config.rs
pub data RestartPolicy : Type 0 where
  never on_failure always unless_stopped : RestartPolicy

-- `std::time::Duration`, in nanoseconds: the seconds are a `u64`.
abbrev pub Duration : Type 0
Duration = ℕ

abbrev pub duration_limit : ℕ
duration_limit = 2 ^ 64 * 1_000_000_000

-- `Duration::checked_mul`
abbrev pub checked_mul : Duration → ℕ → Option Duration
checked_mul d k = if ltb (d * k) duration_limit then some (d * k) else none

pub record ProcessOutcome : Type 0 where
  pub reason : ExitReason
  pub uptime : Duration

pub data RestartDecision : Type 0 where
  restart : (delay : Duration) (attempt : ℕ) → RestartDecision
  stop : RestartDecision
  fail : (reason : ShutdownReason) → RestartDecision

pub record RestartTracker : Type 0 where
  pub policy : RestartPolicy
  pub restart_delay : Duration
  pub restart_max_delay : Duration
  pub max_restarts : ℕ
  pub stable_after : Duration
  pub attempts : ℕ

abbrev pub u32_max : ℕ
u32_max = 2 ^ 32 - 1

abbrev pub u64_max : ℕ
u64_max = 2 ^ 64 - 1

-- `1u64.checked_shl(attempt).unwrap_or(u64::MAX)`, then `u32::try_from(..).unwrap_or(u32::MAX)`
unfoldable pub backoff_factor : ℕ → ℕ
backoff_factor attempt =
    let shifted = if ltb attempt 64 then 2 ^ attempt else u64_max in
    if leb shifted u32_max then shifted else u32_max

unfoldable pub backoff_for_attempt : RestartTracker → ℕ → Duration
backoff_for_attempt t attempt =
    let delay : Duration = elim (checked_mul t.restart_delay (backoff_factor attempt)) [
      | none ↦ t.restart_max_delay
      | some d ↦ d
    ] in
    min delay t.restart_max_delay

unfoldable pub budget_left : RestartTracker → Bool
budget_left t = t.max_restarts == 0 || ltb t.attempts t.max_restarts

abbrev pub unless_spawn_failed : ExitReason → Bool
unless_spawn_failed (spawn_failure retryable) = retryable
unless_spawn_failed _ = true

abbrev pub if_failed : ExitReason → Bool
if_failed (code (pos zero)) = false
if_failed (spawn_failure retryable) = retryable
if_failed _ = true

unfoldable pub should_restart : RestartPolicy → ExitReason → Bool
should_restart never reason = false
should_restart always reason = unless_spawn_failed reason
should_restart unless_stopped reason = unless_spawn_failed reason
should_restart on_failure reason = if_failed reason

-- The `if let Some(reason) = shutdown` of `decide`.
abbrev pub short_circuits : Option ShutdownReason → Bool
short_circuits none = false
short_circuits (some reason) = is_user_requested reason

-- `u32::saturating_add(1)`
abbrev pub saturating_suc : ℕ → ℕ
saturating_suc n = min (n + 1) u32_max

-- `decide` behind the test of `shutdown` and the reset of the counter.
unfoldable pub decide_policy : RestartTracker → ExitReason → RestartDecision × RestartTracker
unfolding should_restart budget_left
decide_policy t reason =
    if not (should_restart t.policy reason)
    then (stop, t)
    else if not (budget_left t)
    then (fail restart_limit, t)
    else (
      restart (backoff_for_attempt t t.attempts) (saturating_suc t.attempts),
      record t { attempts = saturating_suc t.attempts },
    )

unfoldable pub decide :
    RestartTracker → ProcessOutcome → Option ShutdownReason → RestartDecision × RestartTracker
unfolding decide_policy is_user_requested
decide t outcome shutdown =
    if short_circuits shutdown
    then (stop, t)
    else if leb t.stable_after outcome.uptime
    then decide_policy (record t { attempts = 0 }) outcome.reason
    else decide_policy t outcome.reason
