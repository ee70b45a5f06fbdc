-- ===== src/Readiness.antt =====
-- crates/servicrab-core/src/runtime/stack.rs: what a service's events say to the services that
-- depend on it, and the wait for the dependencies.
mod Samples
pub mod Conditions
pub mod Edges
pub mod Probes
use servicrab.Base.{ℕ, Bool, true, false, if◌then◌else◌, Option, none, some, List, [], ◌∷◌, Text}
use servicrab.Config.{
  DependencyCondition, service_started, service_healthy, service_completed_successfully,
}
use servicrab.Event.{EventKind}
use servicrab.Lifecycle.{ServiceState, ExitReason, ShutdownReason, is_success}

pub data Readiness : Type 0 where
  pending ready gone : Readiness

pub record DependencyStatus : Type 0 where
  pub state : ServiceState
  pub healthy : Bool
  pub unhealthy : Bool
  pub exited_ok : Bool
  pub gone : Bool

-- `DependencyStatus::new`
abbrev pub new_status : DependencyStatus
new_status = record {
  state = ServiceState.pending;
  healthy = false;
  unhealthy = false;
  exited_ok = false;
  gone = false;
}

-- The match on `self.state`.
abbrev readiness_of : ServiceState → DependencyStatus → DependencyCondition → Readiness
readiness_of ServiceState.exited s service_completed_successfully =
    if s.exited_ok then ready else Readiness.gone
readiness_of ServiceState.exited s service_started = if s.unhealthy then Readiness.gone else ready
readiness_of ServiceState.exited s service_healthy = if s.unhealthy then Readiness.gone else ready
readiness_of ServiceState.failed s condition = Readiness.gone
readiness_of ServiceState.stopped s condition = Readiness.gone
readiness_of ServiceState.running s service_started = ready
readiness_of ServiceState.running s service_healthy = if s.healthy then ready else pending
readiness_of ServiceState.running s service_completed_successfully = pending
readiness_of ServiceState.pending s condition = pending
readiness_of ServiceState.starting s condition = pending
readiness_of ServiceState.backoff s condition = pending
readiness_of ServiceState.stopping s condition = pending

unfoldable pub readiness : DependencyStatus → DependencyCondition → Readiness
readiness s condition = if s.gone then Readiness.gone else readiness_of s.state s condition

abbrev was_unhealthy : ExitReason → Bool → Bool
was_unhealthy ExitReason.unhealthy before = true
was_unhealthy (ExitReason.code _) before = before
was_unhealthy (ExitReason.signal _) before = before
was_unhealthy (ExitReason.spawn_failure _) before = before

abbrev clean_slate : ServiceState → DependencyStatus → DependencyStatus
clean_slate ServiceState.starting s = record s { healthy = false; unhealthy = false }
clean_slate _ s = s

-- `ReadinessTracker::observe`, which also says whether the status changed: that is left out.
unfoldable pub observe : DependencyStatus → EventKind → DependencyStatus
unfolding is_success
observe s EventKind.healthy = record s { healthy = true; unhealthy = false }
observe s (EventKind.unhealthy _) = record s { healthy = false; unhealthy = true }
observe s (EventKind.exited reason _) = record s {
  exited_ok = is_success reason;
  unhealthy = was_unhealthy reason s.unhealthy;
}
observe s (EventKind.state next) = clean_slate next (record s { state = next })
observe s _ = s

-- `DependencyEdge`, whose status channel stands apart.
pub record DependencyEdge : Type 0 where
  pub name : Text
  pub condition : DependencyCondition

-- What comes to a waiting service: a new status of the dependency, the end of its status channel, or
-- a shutdown.
pub data Seen : Type 0 where
  changed : DependencyStatus → Seen → Seen
  sender_gone : Seen
  shutdown : ShutdownReason → Seen

pub data DependencyWait : Type 0 where
  ready : DependencyWait
  blocked : Text → DependencyWait
  shutdown : ShutdownReason → DependencyWait

abbrev pub on_verdict :
    Readiness → DependencyWait → DependencyWait → DependencyWait → DependencyWait
on_verdict Readiness.ready go stop wait = go
on_verdict Readiness.gone go stop wait = stop
on_verdict Readiness.pending go stop wait = wait

-- The `loop` over one edge, from the current status `s` on; `go` is what follows its `break`.
unfoldable pub wait_for_edge :
    DependencyEdge → DependencyStatus → Seen → DependencyWait → DependencyWait
unfolding readiness
wait_for_edge edge s sender_gone go =
    on_verdict (readiness s edge.condition) go (blocked edge.name) (blocked edge.name)
wait_for_edge edge s (Seen.shutdown reason) go =
    on_verdict (readiness s edge.condition) go (blocked edge.name) (DependencyWait.shutdown reason)
wait_for_edge edge s (changed s' later) go =
    let wait = wait_for_edge edge s' later go in
    on_verdict (readiness s edge.condition) go (blocked edge.name) wait

-- One edge, with the status that its wait begins with and what the wait sees then.
pub record Wait : Type 0 where
  pub edge : DependencyEdge
  pub first : DependencyStatus
  pub seen : Seen

unfoldable pub wait_for_dependencies : List Wait → DependencyWait
unfolding wait_for_edge
wait_for_dependencies [] = DependencyWait.ready
wait_for_dependencies (w ∷ deps) = wait_for_edge w.edge w.first w.seen (wait_for_dependencies deps)
