-- ===== src/Readiness/Conditions.antt =====
-- What the conditions of dependencies ask for.
use servicrab.Base.{true, false, ◌≡◌, ◌↔◌, ◌⊎◌, arith}
use servicrab.Config.{
  DependencyCondition, service_started, service_healthy, service_completed_successfully,
}
use servicrab.Lifecycle.{ServiceState}
use servicrab.Readiness.{Readiness, DependencyStatus, readiness}

-- What each condition asks of a dependency that is not gone: for `service_started` and
-- `service_healthy` it may also have exited, unless it was unhealthy.
abbrev pub IsMetBy : DependencyCondition → DependencyStatus → Type 0
IsMetBy service_started s =
    (s.state ≡ ServiceState.running) ⊎ (s.state ≡ ServiceState.exited) × (s.unhealthy ≡ false)
IsMetBy service_healthy s =
    (s.state ≡ ServiceState.running) × (s.healthy ≡ true)
    ⊎ (s.state ≡ ServiceState.exited) × (s.unhealthy ≡ false)
IsMetBy service_completed_successfully s = (s.state ≡ ServiceState.exited) × (s.exited_ok ≡ true)

-- What an exit leaves behind that the condition cannot be met with.
abbrev pub SpoiltBy : DependencyCondition → DependencyStatus → Type 0
SpoiltBy service_completed_successfully s = s.exited_ok ≡ false
SpoiltBy service_started s = s.unhealthy ≡ true
SpoiltBy service_healthy s = s.unhealthy ≡ true

abbrev pub RulesOut : DependencyCondition → DependencyStatus → Type 0
RulesOut condition s =
    (s.gone ≡ true)
    ⊎ (s.state ≡ ServiceState.failed)
    ⊎ (s.state ≡ ServiceState.stopped)
    ⊎ (s.state ≡ ServiceState.exited) × SpoiltBy condition s

abbrev pub Meets : DependencyCondition → DependencyStatus → Type 0
Meets condition s = (s.gone ≡ false) × IsMetBy condition s

pub readiness-Meets :
    (s : DependencyStatus) (condition : DependencyCondition)
    → (readiness s condition ≡ Readiness.ready) ↔ Meets condition s
unfolding readiness
readiness-Meets s service_started = ground arith
readiness-Meets s service_healthy = ground arith
readiness-Meets s service_completed_successfully = ground arith

pub readiness-RulesOut :
    (s : DependencyStatus) (condition : DependencyCondition)
    → (readiness s condition ≡ Readiness.gone) ↔ RulesOut condition s
unfolding readiness
readiness-RulesOut s service_started = ground arith
readiness-RulesOut s service_healthy = ground arith
readiness-RulesOut s service_completed_successfully = ground arith
