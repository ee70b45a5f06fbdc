-- ===== src/Health/Signals.antt =====
-- The order of the signals to the runner.
use servicrab.Base.{
  ℕ, ◌≤◌, ◌<◌, Bool, true, false, List, [], ◌∷◌, Text, ◌≡◌, refl, arith, ◌⊎◌, inl, inr, for_each,
}
use servicrab.Health.{
  HealthSignal, Monitor, new_monitor, Probe, passed, failed, on_pass, on_failure, on_probe, monitor,
}

-- No signal comes twice in a row.
abbrev pub alternate : List HealthSignal → Bool
alternate [] = true
alternate (s ∷ []) = true
alternate (HealthSignal.ready ∷ HealthSignal.ready ∷ signals) = false
alternate (HealthSignal.unhealthy _ ∷ HealthSignal.unhealthy _ ∷ signals) = false
alternate (HealthSignal.ready ∷ HealthSignal.unhealthy m ∷ signals) =
    alternate (HealthSignal.unhealthy m ∷ signals)
alternate (HealthSignal.unhealthy _ ∷ HealthSignal.ready ∷ signals) =
    alternate (HealthSignal.ready ∷ signals)

abbrev pub last_ready : List HealthSignal → Bool
last_ready [] = false
last_ready (HealthSignal.ready ∷ _) = true
last_ready (HealthSignal.unhealthy _ ∷ _) = false

-- The last signal against the flag and the count.
abbrev Agrees : ℕ → Monitor → List HealthSignal → Type 0
Agrees retries m [] = m.is_ready ≡ false
Agrees retries m (HealthSignal.ready ∷ _) = (m.is_ready ≡ true) × (m.consecutive < retries)
Agrees retries m (HealthSignal.unhealthy _ ∷ _) = (m.is_ready ≡ false) × (retries ≤ m.consecutive)

IsOrdered : ℕ → Monitor → Type 0
IsOrdered retries m =
    (alternate m.signals ≡ true) × Agrees retries m m.signals × (m.consecutive ≤ 100000)

-- The three shapes of what has been sent.
sent :
    (signals : List HealthSignal)
    → (signals ≡ [])
      ⊎ ((rest : List HealthSignal) × (signals ≡ HealthSignal.ready ∷ rest))
      ⊎ ((message : Text) × (rest : List HealthSignal) × (signals
            ≡ HealthSignal.unhealthy message ∷ rest))
sent [] = inl refl
sent (HealthSignal.ready ∷ rest) = inr (inl (rest, refl))
sent (HealthSignal.unhealthy message ∷ rest) = inr (inr (message, rest, refl))

on_pass-IsOrdered :
    (retries : ℕ) (m : Monitor) → 0 < retries → IsOrdered retries m → IsOrdered retries (on_pass m)
unfolding IsOrdered
on_pass-IsOrdered retries m positive h = elim (sent m.signals) [
  | inl e ↦ ground (arith, e, h, positive)
  | inr (inl (rest, e)) ↦ ground (arith, e, h, positive)
  | inr (inr (message, rest, e)) ↦ ground (arith, e, h, positive)
]

on_failure-IsOrdered :
    (retries : ℕ) (message : Text) (m : Monitor)
    → retries < 100000
    → IsOrdered retries m
    → IsOrdered retries (on_failure retries message m)
unfolding IsOrdered
on_failure-IsOrdered retries message m small h = elim (sent m.signals) [
  | inl e ↦ ground (arith, e, h, small)
  | inr (inl (rest, e)) ↦ ground (arith, e, h, small)
  | inr (inr (old, rest, e)) ↦ ground (arith, e, h, small)
]

on_probe-IsOrdered :
    (retries : ℕ) (m : Monitor) (p : Probe)
    → 0 < retries
    → retries < 100000
    → IsOrdered retries m
    → IsOrdered retries (on_probe retries m p)
unfolding on_probe
on_probe-IsOrdered retries m passed positive small h = on_pass-IsOrdered retries m positive h
on_probe-IsOrdered retries m (failed message true) positive small h = h
on_probe-IsOrdered retries m (failed message false) positive small h =
    on_failure-IsOrdered retries message m small h

probes-IsOrdered :
    (retries : ℕ) (probes : List Probe) (m : Monitor)
    → 0 < retries
    → retries < 100000
    → IsOrdered retries m
    → IsOrdered retries (for_each (on_probe retries) m probes)
probes-IsOrdered retries [] m positive small h = h
probes-IsOrdered retries (p ∷ probes) m positive small h =
    probes-IsOrdered retries probes (on_probe retries m p) positive small
      (on_probe-IsOrdered retries m p positive small h)

-- With a budget of fewer than 100000 failures, whatever the probes bring, the runner is told of
-- readiness and of ill health in turns, never of one of them twice in a row, and the monitor takes
-- the service for ready exactly while readiness is what it told last.
pub monitor_alternates :
    (retries : ℕ) (probes : List Probe)
    → 0 < retries
    → retries < 100000
    → (alternate (monitor retries probes).signals ≡ true)
      × ((monitor retries probes).is_ready ≡ last_ready (monitor retries probes).signals)
unfolding monitor IsOrdered
monitor_alternates retries probes positive small =
    let h = probes-IsOrdered retries probes new_monitor positive small (refl, refl, omega arith) in
    let m = for_each (on_probe retries) new_monitor probes in
    (
      h.0,
      elim (sent m.signals) [
        | inl e ↦ ground (arith, e, h)
        | inr (inl (rest, e)) ↦ ground (arith, e, h)
        | inr (inr (old, rest, e)) ↦ ground (arith, e, h)
      ],
    )
