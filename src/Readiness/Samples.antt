-- ===== src/Readiness/Samples.antt =====
-- The theorems at concrete inputs.
use servicrab.Base.{List, [], ◌∷◌, ◌++◌, All, ◌≡◌, ◌↔◌, ◌⊎◌, refl, codes, true, false, pos}
use servicrab.Config.{service_healthy, service_completed_successfully}
use servicrab.Event.{EventKind}
use servicrab.Lifecycle.{ServiceState, ExitReason}
use servicrab.Readiness.{
  Readiness, DependencyStatus, new_status, readiness, observe, changed, sender_gone, DependencyWait,
  Wait, wait_for_dependencies,
}
use servicrab.Readiness.Edges.{MeetsCondition, wait_for_dependencies_iff}
use servicrab.Readiness.Probes.{observe_all, KeepsHealthy, cleared, observe_all-healthy}

abbrev probed : List EventKind
probed =
    EventKind.state ServiceState.starting
    ∷ EventKind.state ServiceState.running
    ∷ EventKind.healthy
    ∷ EventKind.started (pos 7)
    ∷ []

abbrev up : DependencyStatus
up = record {
  state = ServiceState.running;
  healthy = true;
  unhealthy = false;
  exited_ok = false;
  gone = false;
}

-- A database that is waited for until its probe passes, and a migration that has run.
abbrev waits : List Wait
waits =
    record {
      edge = record { name = codes "db"; condition = service_healthy };
      first = new_status;
      seen = changed up sender_gone;
    }
    ∷ record {
      edge = record { name = codes "migrate"; condition = service_completed_successfully };
      first = record new_status { state = ServiceState.exited; exited_ok = true };
      seen = sender_gone;
    }
    ∷ []

waits-ready : wait_for_dependencies waits ≡ DependencyWait.ready
unfolding wait_for_dependencies
waits-ready = refl

-- A failed migration blocks its dependents.
failed_migration :
    readiness (record new_status { state = ServiceState.exited }) service_completed_successfully
    ≡ Readiness.gone
unfolding readiness
failed_migration = refl

wait_for_dependencies_iff_example :
    (wait_for_dependencies waits ≡ DependencyWait.ready) ↔ All MeetsCondition waits
wait_for_dependencies_iff_example = wait_for_dependencies_iff waits

probed-ready : readiness (observe_all new_status probed) service_healthy ≡ Readiness.ready
unfolding readiness observe observe_all
probed-ready = refl

observe_all-healthy_example :
    ((observe_all new_status probed).state ≡ ServiceState.running)
      × ((earlier rest : List EventKind) × (probed ≡ earlier ++ EventKind.healthy ∷ rest)
          × All KeepsHealthy rest)
    ⊎ ((observe_all new_status probed).state ≡ ServiceState.exited) × (cleared probed ≡ true)
observe_all-healthy_example = observe_all-healthy probed probed-ready

-- No probe ever passed, and a dependent with `service_healthy` starts all the same.
never_probed :
    readiness
      (observe_all new_status (
        EventKind.state ServiceState.running
        ∷ EventKind.exited (ExitReason.code (pos 0)) 1
        ∷ EventKind.state ServiceState.exited
        ∷ []))
      service_healthy
    ≡ Readiness.ready
unfolding readiness observe observe_all
never_probed = refl

up-healthy : readiness up service_healthy ≡ Readiness.ready
unfolding readiness
up-healthy = refl
