-- ===== src/Readiness/Probes.antt =====
-- What the events of a dependency say of its health.
use servicrab.Base.{
  Bool, ◌&&◌, ◌||◌, not, any, true, false, List, [], ◌∷◌, ◌++◌, All, ◌≡◌, refl, ap, ◌⊎◌, inl, inr,
  arith,
}
use servicrab.Config.{service_started, service_healthy}
use servicrab.Event.{EventKind}
use servicrab.Lifecycle.{ServiceState, ExitReason}
use servicrab.Readiness.{Readiness, DependencyStatus, new_status, readiness, observe}
use servicrab.Readiness.Conditions.{readiness-Meets}

unfoldable pub observe_all : DependencyStatus → List EventKind → DependencyStatus
observe_all s [] = s
observe_all s (e ∷ es) = observe_all (observe s e) es

-- An event that leaves a passed probe standing.
abbrev pub KeepsHealthy : EventKind → Type 0
KeepsHealthy (EventKind.unhealthy _) = ⊥
KeepsHealthy (EventKind.state ServiceState.starting) = ⊥
KeepsHealthy _ = Unit

observe-healthy :
    (s : DependencyStatus) (e : EventKind)
    → (observe s e).healthy ≡ true
    → (e ≡ EventKind.healthy) ⊎ (s.healthy ≡ true) × KeepsHealthy e
unfolding observe
observe-healthy s EventKind.healthy h = inl refl
observe-healthy s (EventKind.unhealthy m) h = cc
observe-healthy s (EventKind.state ServiceState.starting) h = cc
observe-healthy s (EventKind.state _) h = inr (h, tt)
observe-healthy s _ h = inr (h, tt)

observe_all-healthy_from :
    (s : DependencyStatus) (es : List EventKind)
    → (observe_all s es).healthy ≡ true
    → (s.healthy ≡ true) × All KeepsHealthy es
      ⊎ ((earlier rest : List EventKind) × (es ≡ earlier ++ EventKind.healthy ∷ rest)
          × All KeepsHealthy rest)
unfolding observe_all
observe_all-healthy_from s [] h = inl (h, tt)
observe_all-healthy_from s (e ∷ es) h = elim (observe_all-healthy_from (observe s e) es h) [
  | inr (earlier, rest, split, keeps) ↦
      inr (e ∷ earlier, rest, ap (λ (l : List EventKind). e ∷ l) split, keeps)
  | inl (now_healthy, keeps) ↦ elim (observe-healthy s e now_healthy) [
    | inl is_probe ↦ inr ([], es, ap (λ (x : EventKind). x ∷ es) is_probe, keeps)
    | inr (was, keep) ↦ inl (was, (keep, keeps))
  ]
]

-- Events that mark a dependency as unhealthy, and those that take the mark away.
abbrev pub marks : EventKind → Bool
marks (EventKind.unhealthy _) = true
marks (EventKind.exited ExitReason.unhealthy _) = true
marks _ = false

abbrev pub clears : EventKind → Bool
clears EventKind.healthy = true
clears (EventKind.state ServiceState.starting) = true
clears _ = false

-- Behind every event that marks there is one that clears.
abbrev pub cleared : List EventKind → Bool
cleared [] = true
cleared (e ∷ es) = (not (marks e) || any clears es) && cleared es

observe-unhealthy :
    (s : DependencyStatus) (e : EventKind)
    → (observe s e).unhealthy ≡ ((s.unhealthy && not (clears e)) || marks e)
unfolding observe
observe-unhealthy s EventKind.healthy = ground arith
observe-unhealthy s (EventKind.unhealthy m) = ground arith
observe-unhealthy s (EventKind.exited ExitReason.unhealthy _) = ground arith
observe-unhealthy s (EventKind.exited _ _) = ground arith
observe-unhealthy s (EventKind.state ServiceState.starting) = ground arith
observe-unhealthy s (EventKind.state _) = ground arith
observe-unhealthy s _ = ground arith

observe_all-unhealthy :
    (s : DependencyStatus) (es : List EventKind)
    → (observe_all s es).unhealthy ≡ false
    → ((not s.unhealthy || any clears es) ≡ true) × (cleared es ≡ true)
unfolding observe_all
observe_all-unhealthy s [] h = ground (arith, h)
observe_all-unhealthy s (e ∷ es) h =
    ground (arith, observe_all-unhealthy (observe s e) es h, observe-unhealthy s e)

-- A dependency counts as healthy in two cases only. It runs, a probe passed, and since then no probe
-- has exhausted the retries and no new process was started. Or it has exited, and every event that
-- marked it as unhealthy, which an exit for ill health does too, has behind it a probe that passed or
-- a new process.
pub observe_all-healthy :
    (es : List EventKind)
    → readiness (observe_all new_status es) service_healthy ≡ Readiness.ready
    → ((observe_all new_status es).state ≡ ServiceState.running)
        × ((earlier rest : List EventKind) × (es ≡ earlier ++ EventKind.healthy ∷ rest)
            × All KeepsHealthy rest)
      ⊎ ((observe_all new_status es).state ≡ ServiceState.exited) × (cleared es ≡ true)
observe_all-healthy es r =
    elim ((readiness-Meets (observe_all new_status es) service_healthy).0 r).1 [
      | inl (running, healthy) ↦ elim (observe_all-healthy_from new_status es healthy) [
        | inl (h, _) ↦ cc
        | inr found ↦ inl (running, found)
      ]
      | inr (exited, unmarked) ↦ inr (exited, (observe_all-unhealthy new_status es unmarked).1)
    ]

-- A service that is ready under the default condition for a health check is ready under the one for
-- a service that has none.
pub readiness_healthy-started :
    (s : DependencyStatus)
    → readiness s service_healthy ≡ Readiness.ready
    → readiness s service_started ≡ Readiness.ready
unfolding readiness
readiness_healthy-started s h = ground arith
