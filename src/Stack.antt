-- ===== src/Stack.antt =====
-- crates/servicrab-core/src/runtime/stack.rs: the supervisor of a stack, between two of its inputs:
-- slots, control commands, reloads and reports. The tokio runtime is the list of the supervision
-- tasks that live; an acknowledgement channel is a number, and what is sent on it is a list.
mod Samples
pub mod Tasks
pub mod Kept
pub mod Reached
pub mod Commands
pub mod Quiet
pub mod Dues
pub mod Answers
pub mod Orders
pub mod Shutdown
pub mod Waits
pub mod Descent
pub mod Turns
pub mod Reloads
pub mod Wiring
use servicrab.Base.{
  match_option, ℕ, ◌+◌, ◌-◌, ◌==◌, Bool, true, false, ◌&&◌, ◌||◌, not, if◌then◌else◌, Option, none,
  some, List, [], ◌∷◌, ◌++◌, Text, same, length, filter, Result, ok, err, ℤ, pos,
}
use servicrab.Base.Count.{contains}
use servicrab.Base.Map
use servicrab.Base.Map.{BTreeMap}
use servicrab.Base.Entries.{map_values}
use servicrab.Base.Alter.{alter_all}
use servicrab.Base.Set.{BTreeSet}
use servicrab.Config.{Config, Service, Dependency, condition_for, service_eq}
use servicrab.Event.{EventKind, Channel, send}
use servicrab.Lifecycle.{ServiceState, ExitReason, ShutdownReason, requested, stack_failure}
use servicrab.Readiness.{DependencyStatus, new_status, DependencyEdge}

pub data RunOutcome : Type 0 where
  exited : (reason : ExitReason) (restarts : ℕ) → RunOutcome
  stopped : (reason : ShutdownReason) → RunOutcome

-- A `RuntimeError` is its message.
pub data ServiceResult : Type 0 where
  finished : RunOutcome → ServiceResult
  failed : Text → ServiceResult
  skipped : (dependency : Text) → ServiceResult

abbrev pub is_failure : ServiceResult → Bool
is_failure (finished _) = false
is_failure (failed _) = true
is_failure (skipped _) = true

pub record ServiceReport : Type 0 where
  pub service : Text
  pub result : ServiceResult

pub data ControlOutcome : Type 0 where
  started restarted stopped already_stopped : ControlOutcome
  reloaded : (added changed removed : ℕ) → ControlOutcome

pub data ControlRefusal : Type 0 where
  unknown_service busy already_running : Text → ControlRefusal

pub data Control : Type 0 where
  start stop restart : (service : Text) (ack : ℕ) → Control
  reload : (config : Config) (plan : List Text) (ack : ℕ) → Control

-- The stop channel of a task holds the reason last sent on it.
pub record Slot : Type 0 where
  pub service : Service
  pub deps : List DependencyEdge
  pub readiness : DependencyStatus
  pub pgid : ℤ
  pub stop : Option (Option ShutdownReason)
  pub handle : Bool
  pub restart_when_stopped : Bool
  pub retired : Bool
  pub pending : Option ℕ

-- `Slot::spawn`, less the new task itself.
abbrev pub spawn : Slot → Slot
spawn slot = record slot { readiness = new_status; stop = some none; pgid = pos 0; handle = true }

pub record StackOptions : Type 0 where
  pub no_restart : Bool
  pub abort_on_failure : Bool
  pub keep_running : Bool

pub record Answer : Type 0 where
  pub ack : ℕ
  pub result : Result ControlRefusal ControlOutcome

-- `RunState` and the locals of `StackSupervisor::run`. `tasks` has the service of every supervision
-- task that has been spawned and has not reported.
pub record RunState : Type 0 where
  pub config : Config
  pub plan : List Text
  pub slots : BTreeMap Slot
  pub running : ℕ
  pub tasks : List Text
  pub answers : List Answer
  pub reports : List ServiceReport
  pub shutdown : Option ShutdownReason
  pub events : Channel

abbrev pub put_slot : Text → Slot → RunState → RunState
put_slot name slot st = record st { slots = Map.insert name slot st.slots }

abbrev pub reply : ℕ → Result ControlRefusal ControlOutcome → RunState → RunState
reply ack result st = record st {
  answers = st.answers ++ record { ack = ack; result = result } ∷ [];
}

-- A slot that is spawned, with the count of it.
abbrev pub spawn_slot : Text → Slot → RunState → RunState
spawn_slot name slot st = record st {
  slots = Map.insert name (spawn slot) st.slots;
  running = st.running + 1;
  tasks = name ∷ st.tasks;
}

-- `RunState::insert_slot`: the slot that it inserts.
abbrev pub new_slot : Service → Slot
new_slot service = record {
  service = service;
  deps = [];
  readiness = new_status;
  pgid = pos 0;
  stop = none;
  handle = false;
  restart_when_stopped = false;
  retired = false;
  pending = none;
}

abbrev pub insert_slot : Text → Service → RunState → RunState
insert_slot name service st = put_slot name (new_slot service) st

-- The edges of a service to what it depends on.
abbrev pub edges : Config → BTreeMap Slot → List Dependency → List DependencyEdge
edges config slots [] = []
edges config slots (dep ∷ deps) =
    let rest = edges config slots deps in
    match_option (Map.get config.services dep.service) rest (λ target.
      if Map.contains_key slots dep.service
      then record { name = dep.service; condition = condition_for dep target } ∷ rest
      else rest)

abbrev pub rewire : Config → BTreeMap Slot → Text → Slot → Slot
rewire config slots name slot =
    match_option (Map.get config.services name) slot
      (λ service. record slot { deps = edges config slots service.depends_on })

unfoldable pub rewire_dependencies : RunState → RunState
rewire_dependencies st = record st { slots = map_values (rewire st.config st.slots) st.slots }

pub record ConfigDiff : Type 0 where
  pub added : List Text
  pub changed : List Text
  pub removed : List Text

abbrev pub is_added : Option Slot → Bool
is_added none = true
is_added (some slot) = slot.retired

abbrev pub matches : Option Service → Service → Bool
matches none old = false
matches (some new) old = service_eq new old

abbrev pub is_changed : Option Service → Option Slot → Bool
is_changed new none = false
is_changed new (some slot) = not slot.retired && not (matches new slot.service)

unfoldable pub diff : RunState → Config → List Text → ConfigDiff
diff st config plan = record {
  added = filter (λ name. is_added (Map.get st.slots name)) plan;
  changed = filter (λ name. is_changed (Map.get config.services name) (Map.get st.slots name)) plan;
  removed = filter (λ name. not (contains plan name)) (Map.keys st.slots);
}

-- The turn of a removed name.
abbrev pub remove_turn : Text → Option Slot → Option Slot
remove_turn name none = none
remove_turn name (some slot) = match_option slot.stop none (λ _.
    some
      (record slot { retired = true; restart_when_stopped = false; stop = some (some requested) }))

-- The turn of an added name.
abbrev pub add_turn : Config → Text → Option Slot → Option Slot
add_turn config name found = match_option (Map.get config.services name) found (λ service.
    match_option found (some (new_slot service)) (λ slot. some (record slot {
      retired = false;
      service = service;
      restart_when_stopped = Map.is_some slot.stop;
    })))

-- The turn of a changed name.
abbrev pub stop_for_change : Slot → Slot
stop_for_change slot =
    match_option slot.stop slot
      (λ _. record slot { restart_when_stopped = true; stop = some (some requested) })

abbrev pub change_turn : Config → Text → Option Slot → Option Slot
change_turn config name none = none
change_turn config name (some slot) =
    match_option (Map.get config.services name) (some slot)
      (λ service. some (stop_for_change (record slot { service = service })))

-- The last loop, over the added names.
abbrev pub start_turn : RunState → Text → RunState
start_turn st name =
    match_option (Map.get st.slots name) st
      (λ slot. if slot.restart_when_stopped || slot.handle then st else spawn_slot name slot st)

unfoldable pub start_added : List Text → RunState → RunState
start_added [] st = st
start_added (name ∷ names) st = start_added names (start_turn st name)

-- The first slot that waits for an answer.
abbrev pub first_busy : BTreeMap Slot → Option Text
first_busy [] = none
first_busy ((name, slot) ∷ rest) =
    let later = first_busy rest in if Map.is_some slot.pending then some name else later

-- `reload` behind its first check.
unfoldable pub apply_diff : Config → List Text → ConfigDiff → RunState → RunState
unfolding rewire_dependencies start_added
apply_diff config plan d st =
    let removed = alter_all remove_turn d.removed st.slots in
    let added = alter_all (add_turn config) d.added removed in
    let changed = alter_all (change_turn config) d.changed added in
    start_added d.added
      (rewire_dependencies (record st { config = config; plan = plan; slots = changed }))

unfoldable pub reload_stack :
    Config → List Text → RunState → Result ControlRefusal ControlOutcome × RunState
unfolding apply_diff diff
reload_stack config plan st =
    let d = diff st config plan in
    match_option (first_busy st.slots)
      (
        ok (reloaded (length d.added) (length d.changed) (length d.removed)),
        apply_diff config plan d st,
      )
      (λ name. (err (busy name), st))
