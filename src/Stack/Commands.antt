-- ===== src/Stack/Commands.antt =====
-- `StackSupervisor::run` and `handle_control`.
use servicrab.Base.{
  match_option, ℕ, ◌-◌, ◌==◌, Bool, true, false, ◌&&◌, not, if◌then◌else◌, ◌||◌, Option, none, some,
  List, [], ◌∷◌, ◌++◌, Text, same, Result, ok, err,
}
use servicrab.Base.Map
use servicrab.Base.Map.{BTreeMap}
use servicrab.Base.Entries.{remove}
use servicrab.Base.Count.{contains}
use servicrab.Config.{Config}
use servicrab.Event.{EventKind, event_channel, send}
use servicrab.Lifecycle.{ServiceState, ShutdownReason, requested, stack_failure}
use servicrab.Readiness.{new_status}
use servicrab.Stack.{
  Slot, RunState, Control, start, stop, restart, reload, ControlOutcome, started, restarted,
  stopped, already_stopped, ControlRefusal, unknown_service, busy, already_running, put_slot, reply,
  spawn_slot, insert_slot, reload_stack, rewire_dependencies, ServiceReport, is_failure,
  StackOptions,
}

-- The arms of the command, for the slot that it is about.
abbrev pub on_start : Text → ℕ → Slot → RunState → RunState
on_start service ack slot st =
    if slot.handle
    then reply ack (err (already_running service)) st
    else reply ack (ok started) (spawn_slot service slot st)

abbrev pub on_stop : Text → ℕ → Slot → RunState → RunState
on_stop service ack slot st =
    match_option slot.stop (reply ack (ok already_stopped) st)
      (λ _. put_slot service (record slot { pending = some ack; stop = some (some requested) }) st)

abbrev pub on_restart : Text → ℕ → Slot → RunState → RunState
on_restart service ack slot st =
    match_option slot.stop (reply ack (ok started) (spawn_slot service slot st)) (λ _.
      put_slot service
        (record slot {
          restart_when_stopped = true;
          pending = some ack;
          stop = some (some requested);
        })
        st)

-- The two checks in front of the arms.
abbrev pub on_slot : Text → ℕ → (Slot → RunState → RunState) → Option Slot → RunState → RunState
on_slot service ack arm none st = reply ack (err (unknown_service service)) st
on_slot service ack arm (some slot) st =
    if Map.is_some slot.pending then reply ack (err (busy service)) st else arm slot st

unfoldable pub handle_control : Control → RunState → RunState
unfolding reload_stack
handle_control (reload config plan ack) st =
    let (result, st') = reload_stack config plan st in reply ack result st'
handle_control (start service ack) st =
    on_slot service ack (on_start service ack) (Map.get st.slots service) st
handle_control (stop service ack) st =
    on_slot service ack (on_stop service ack) (Map.get st.slots service) st
handle_control (restart service ack) st =
    on_slot service ack (on_restart service ack) (Map.get st.slots service) st

-- `Slot::answer`, less the slot.
abbrev pub answer_to : Option ℕ → Result ControlRefusal ControlOutcome → RunState → RunState
answer_to none result st = st
answer_to (some ack) result st = reply ack result st

-- A report that counts for the verdict of the run.
abbrev pub keep_report : StackOptions → ServiceReport → RunState → RunState
keep_report options report st = record st {
  reports = st.reports ++ report ∷ [];
  shutdown =
      if is_failure report.result && options.abort_on_failure
      then some stack_failure
      else st.shutdown;
}

-- The slot of the report, whose task is gone.
abbrev pub on_slot_report : StackOptions → ServiceReport → Option Slot → RunState → RunState
on_slot_report options report none st = keep_report options report st
on_slot_report options report (some slot) st =
    let name = report.service in
    let idle = record slot { stop = none; handle = false } in
    let answered = record idle { pending = none } in
    if slot.retired
    then answer_to slot.pending (ok stopped) (record st { slots = remove name st.slots })
    else if slot.restart_when_stopped
    then keep_report options report (
        answer_to slot.pending (ok restarted)
          (spawn_slot name (record answered { restart_when_stopped = false }) st))
    else keep_report options report
        (answer_to slot.pending (ok stopped) (put_slot name answered st))

-- One task of the reporting service has ended.
abbrev pub end_task : Text → List Text → List Text
end_task name [] = []
end_task name (t ∷ tasks) =
    let rest = end_task name tasks in if same t name then tasks else t ∷ rest

unfoldable pub on_report : StackOptions → ServiceReport → RunState → RunState
on_report options report st =
    on_slot_report options report (Map.get st.slots report.service)
      (record st { running = st.running - 1; tasks = end_task report.service st.tasks })

-- The setup of `run`: the slots of the plan, and the services that are not left stopped.
unfoldable pub insert_planned : Config → List Text → RunState → RunState
insert_planned config [] st = st
insert_planned config (name ∷ names) st =
    insert_planned config names
      (match_option (Map.get config.services name) st (λ service. insert_slot name service st))

abbrev pub publish_stopped : Slot → Slot
publish_stopped slot = record slot {
  readiness = record new_status { state = ServiceState.stopped };
}

abbrev pub start_planned_one : Bool → Text → Option Slot → RunState → RunState
start_planned_one is_left name none st = st
start_planned_one true name (some slot) st = put_slot name (publish_stopped slot) (record st {
  events =
      (send st.events (record { service = name; kind = EventKind.state ServiceState.stopped })).1;
})
start_planned_one false name (some slot) st = spawn_slot name slot st

unfoldable pub start_planned : List Text → List Text → RunState → RunState
start_planned left [] st = st
start_planned left (name ∷ names) st =
    start_planned left names
      (start_planned_one (contains left name) name (Map.get st.slots name) st)

abbrev pub empty_state : Config → List Text → RunState
empty_state config plan = record {
  config = config;
  plan = plan;
  slots = [];
  running = 0;
  tasks = [];
  answers = [];
  reports = [];
  shutdown = none;
  events = event_channel;
}

unfoldable pub set_up : Config → List Text → List Text → RunState
unfolding insert_planned rewire_dependencies start_planned
set_up config plan left =
    start_planned left plan
      (rewire_dependencies (insert_planned config plan (empty_state config plan)))

-- What `select!` takes up.
pub data Input : Type 0 where
  shutdown : ShutdownReason → Input
  report : ServiceReport → Input
  command : Control → Input

abbrev pub take_input : StackOptions → Input → RunState → RunState
take_input options (shutdown reason) st = record st { shutdown = some reason }
take_input options (report r) st = on_report options r st
take_input options (command c) st = handle_control c st

-- The `loop` leaves by `break`.
abbrev pub is_over : StackOptions → RunState → Bool
is_over options st = (st.running == 0 && not options.keep_running) || Map.is_some st.shutdown

-- The `loop` over the inputs that come.
unfoldable pub run_loop : StackOptions → List Input → RunState → RunState
run_loop options [] st = st
run_loop options (i ∷ inputs) st =
    let st' = run_loop options inputs (take_input options i st) in
    if is_over options st then st else st'
