-- ===== src/Lifecycle/Backoff.antt =====
-- The delay before a restart.
use servicrab.Base.{ap, ℕ, ◌*◌, ◌^◌, ◌≤◌, ◌<◌, min, ◌≡◌, arith}
use native.Mathlib.Decide.{dec_lt}
use native.Mathlib.Nat.{pow-le-pow_right}
use servicrab.Lifecycle.{
  RestartTracker, duration_limit, u32_max, backoff_factor, backoff_for_attempt,
}

pow_large : (k n : ℕ) → k ≤ n → 2 ^ k ≤ 2 ^ n
pow_large k n h = pow-le-pow_right (omega arith) h

-- The factor is the power of two, cut off at the largest `u32`.
backoff_factor_lem : (attempt : ℕ) → backoff_factor attempt ≡ min (2 ^ attempt) u32_max
unfolding backoff_factor
backoff_factor_lem attempt = elim (dec_lt attempt 64) [
  | yes h ↦ ground arith
  | no h ↦ ground (arith, pow_large 64 attempt (omega arith))
]

-- The delay is the first delay times that factor, cut off at the largest delay.
backoff_closed :
    (t : RestartTracker) (attempt : ℕ)
    → t.restart_max_delay < duration_limit
    → backoff_for_attempt t attempt
      ≡ min (t.restart_delay * min (2 ^ attempt) u32_max) t.restart_max_delay
unfolding backoff_for_attempt
backoff_closed t attempt h = rw backoff_factor_lem (ground arith)

-- The delay never passes the largest delay, never falls from one attempt to the next, and is the
-- first delay at the first attempt.
backoff_bounds :
    (t : RestartTracker) (attempt later : ℕ)
    → t.restart_max_delay < duration_limit
    → attempt ≤ later
    → (backoff_for_attempt t attempt ≤ t.restart_max_delay)
      × (backoff_for_attempt t attempt ≤ backoff_for_attempt t later)
      × (backoff_for_attempt t 0 ≡ min t.restart_delay t.restart_max_delay)
backoff_bounds t attempt later h le =
    rw (backoff_closed t attempt h, backoff_closed t later h, backoff_closed t 0 h)
      (omega arith, grind (arith, pow_large attempt later le), omega arith)

-- The limits that validation.rs sets for the two delays: 100 ms, an hour and 24 hours.
pub record IsValidated (t : RestartTracker) : Type 0 where
  pub at_least : 100_000_000 ≤ t.restart_delay
  pub ordered : t.restart_delay ≤ t.restart_max_delay
  pub at_most : t.restart_max_delay ≤ 86_400 * 1_000_000_000

-- For validated settings the delay is the documented `min(restart_delay * 2^attempt,
-- restart_max_delay)` at every attempt: saturation and overflow never show.
pub backoff_as_documented :
    (t : RestartTracker) (attempt : ℕ)
    → IsValidated t
    → backoff_for_attempt t attempt ≡ min (t.restart_delay * 2 ^ attempt) t.restart_max_delay
backoff_as_documented t attempt v = elim (dec_lt attempt 32) [
  | yes h ↦ rw (backoff_closed t attempt (omega arith)) (
      ap (λ (n : ℕ). min (t.restart_delay * n) t.restart_max_delay)
        (omega (arith, pow_large attempt 31 (omega arith))))
  | no h ↦
      rw (backoff_closed t attempt (omega arith))
        (grind (arith, pow_large 32 attempt (omega arith)))
]

-- Without those limits it is less, from the 32nd attempt on, where the cut-off factor keeps the
-- delay below its largest value.
pub backoff_below_documented :
    (t : RestartTracker) (attempt : ℕ)
    → t.restart_max_delay < duration_limit
    → 32 ≤ attempt
    → 0 < t.restart_delay
    → t.restart_delay * u32_max < t.restart_max_delay
    → backoff_for_attempt t attempt < min (t.restart_delay * 2 ^ attempt) t.restart_max_delay
backoff_below_documented t attempt h late some_delay below =
    rw (backoff_closed t attempt h) (grind (arith, pow_large 32 attempt late))
