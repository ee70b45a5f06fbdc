-- ===== src/Stack/Kept.antt =====
-- What a command and a report leave of the account of the tasks.
use servicrab.Base.{
  ℕ, ◌+◌, ◌-◌, ◌<◌, true, false, if◌then◌else◌, if_ind, match_option_ind, Option, none, some, List,
  [], ◌∷◌, Text, same, same_iff, same_refl, length, ◌≡◌, refl, inl, inr, arith, Bool-cases, Result,
}
use servicrab.Base.Count.{count}
use servicrab.Base.Map
use servicrab.Base.Map.{BTreeMap}
use servicrab.Base.Entries.{remove, get-remove, remove-IsMap}
use servicrab.Config.{Config}
use servicrab.Stack.{
  ControlRefusal, ControlOutcome, Slot, RunState, Control, start, stop, restart, reload, spawn,
  put_slot, spawn_slot, ServiceReport, StackOptions, reload_stack, diff, first_busy,
}
use servicrab.Stack.Tasks.{fits, IsTracked, IsTracked-put, IsTracked-spawn, IsTracked-apply_diff}
use servicrab.Stack.Commands.{
  on_start, on_stop, on_restart, on_slot, handle_control, answer_to, on_slot_report, end_task,
  on_report,
}

pub IsTracked-reload_stack :
    (config : Config) (plan : List Text) (st : RunState)
    → IsTracked st
    → IsTracked (reload_stack config plan st).1
unfolding reload_stack
IsTracked-reload_stack config plan st h =
    match_option_ind (λ (r : Result ControlRefusal ControlOutcome × RunState). IsTracked r.1)
      (first_busy st.slots) (λ _. IsTracked-apply_diff config plan (diff st config plan) st h)
      (λ _ _. h)

IsTracked-on_slot :
    (service : Text) (ack : ℕ) (arm : Slot → RunState → RunState) (o : Option Slot) (st : RunState)
    → ((slot : Slot) → o ≡ some slot → IsTracked (arm slot st))
    → IsTracked st
    → IsTracked (on_slot service ack arm o st)
IsTracked-on_slot service ack arm none st by_arm h = h
IsTracked-on_slot service ack arm (some slot) st by_arm h =
    if_ind IsTracked (Map.is_some slot.pending) (λ _. h) (λ _. by_arm slot refl)

IsTracked-on_start :
    (service : Text) (ack : ℕ) (slot : Slot) (st : RunState)
    → IsTracked st
    → Map.get st.slots service ≡ some slot
    → IsTracked (on_start service ack slot st)
IsTracked-on_start service ack slot st h found =
    if_ind IsTracked slot.handle (λ _. h)
      (λ idle. IsTracked-spawn st service slot h (ground (arith, h.2 service, found, idle)))

IsTracked-on_stop :
    (service : Text) (ack : ℕ) (slot : Slot) (st : RunState)
    → IsTracked st
    → Map.get st.slots service ≡ some slot
    → IsTracked (on_stop service ack slot st)
IsTracked-on_stop service ack slot st h found =
    match_option_ind IsTracked slot.stop (λ _. h)
      λ channel live. IsTracked-put st service _ h (ground (arith, h.2 service, found, live))

IsTracked-on_restart :
    (service : Text) (ack : ℕ) (slot : Slot) (st : RunState)
    → IsTracked st
    → Map.get st.slots service ≡ some slot
    → IsTracked (on_restart service ack slot st)
IsTracked-on_restart service ack slot st h found =
    match_option_ind IsTracked slot.stop
      (λ idle. IsTracked-spawn st service slot h (ground (arith, h.2 service, found, idle)))
      λ channel live. IsTracked-put st service _ h (ground (arith, h.2 service, found, live))

pub IsTracked-handle_control :
    (c : Control) (st : RunState) → IsTracked st → IsTracked (handle_control c st)
unfolding handle_control
IsTracked-handle_control (reload config plan ack) st h = IsTracked-reload_stack config plan st h
IsTracked-handle_control (start service ack) st h =
    IsTracked-on_slot service ack (on_start service ack) (Map.get st.slots service) st
      (λ slot found. IsTracked-on_start service ack slot st h found) h
IsTracked-handle_control (stop service ack) st h =
    IsTracked-on_slot service ack (on_stop service ack) (Map.get st.slots service) st
      (λ slot found. IsTracked-on_stop service ack slot st h found) h
IsTracked-handle_control (restart service ack) st h =
    IsTracked-on_slot service ack (on_restart service ack) (Map.get st.slots service) st
      (λ slot found. IsTracked-on_restart service ack slot st h found) h

count-end_task :
    (name k : Text) (tasks : List Text)
    → count k (end_task name tasks) ≡ count k tasks - (if same name k then 1 else 0)
count-end_task name k [] = ground arith
count-end_task name k (t ∷ tasks) =
    ground (arith, count-end_task name k tasks, same_iff t name, same_iff name k, same_iff t k)

pub length-end_task :
    (name : Text) (tasks : List Text)
    → 0 < count name tasks
    → length (end_task name tasks) + 1 ≡ length tasks
length-end_task name [] h = omega (arith, h)
length-end_task name (t ∷ tasks) h = ground (arith, length-end_task name tasks, h)

IsTracked-answer_to :
    (o : Option ℕ) (result : Result ControlRefusal ControlOutcome) (st : RunState)
    → IsTracked st
    → IsTracked (answer_to o result st)
IsTracked-answer_to none result st h = h
IsTracked-answer_to (some ack) result st h = h

-- One name's slot changes, and with it the tasks of that name.
IsTracked-change :
    (st st' : RunState) (name : Text) (o : Option Slot)
    → IsTracked st
    → Map.IsMap st'.slots
    → st'.running ≡ length st'.tasks
    → ((k : Text) → Map.get st'.slots k ≡ (if same name k then o else Map.get st.slots k))
    → ((k : Text) → same name k ≡ false → count k st'.tasks ≡ count k st.tasks)
    → fits (count name st'.tasks) o ≡ true
    → IsTracked st'
IsTracked-change st st' name o (m, r, f) m' r' slots tasks h = (
  m',
  r',
  λ k. elim (Bool-cases (same name k)) [
    | inl at ↦ rw (slots k, at, ← (same_iff name k).0 at) h
    | inr other ↦ rw (slots k, other, tasks k other) (f k)
  ],
)

IsTracked-on_slot_report :
    (options : StackOptions) (r : ServiceReport) (o : Option Slot) (st : RunState)
    → Map.get st.slots r.service ≡ o
    → 0 < count r.service st.tasks
    → IsTracked st
    → IsTracked (
        on_slot_report options r o
          (record st { running = st.running - 1; tasks = end_task r.service st.tasks }))
IsTracked-on_slot_report options r none st found live h =
    absurd (ground (arith, h.2 r.service, found, live))
IsTracked-on_slot_report options r (some slot) st found live h =
    let name = r.service in
    let st1 = record st { running = st.running - 1; tasks = end_task name st.tasks } in
    let idle = record slot { stop = none; handle = false; pending = none } in
    let length_end = length-end_task name st.tasks live in
    let ended : count name (end_task name st.tasks) ≡ 0 =
      ground (arith, h.2 name, found, live, count-end_task name name st.tasks, same_refl name) in
    let others : (k : Text)
        → same name k ≡ false
        → count k (end_task name st.tasks) ≡ count k st.tasks =
      λ k other. ground (arith, other, count-end_task name k st.tasks) in
    if_ind IsTracked slot.retired
      (λ retired.
        IsTracked-answer_to slot.pending _ (record st1 { slots = remove name st.slots })
          (IsTracked-change st (record st1 { slots = remove name st.slots }) name none h
            (remove-IsMap name st.slots h.0) (omega (arith, length_end, h.1))
            (λ k. get-remove st.slots name k) others (ground (arith, ended))))
      λ stays.
        if_ind IsTracked slot.restart_when_stopped
          (λ again.
            let st2 = spawn_slot name (record idle { restart_when_stopped = false }) st1 in
            IsTracked-answer_to slot.pending _ st2 (
              IsTracked-change st st2 name
                (some (spawn (record idle { restart_when_stopped = false }))) h
                (Map.insert-IsMap name _ st.slots h.0) (omega (arith, length_end, h.1))
                (λ k. Map.get-insert st.slots name k _) (λ k other. ground (arith, other, others k))
                (ground (arith, ended, stays, same_refl name))))
          λ rests. IsTracked-answer_to slot.pending _ (put_slot name idle st1) (
            IsTracked-change st (put_slot name idle st1) name (some idle) h
              (Map.insert-IsMap name _ st.slots h.0) (omega (arith, length_end, h.1))
              (λ k. Map.get-insert st.slots name k _) others (ground (arith, ended, stays, rests)))

pub IsTracked-on_report :
    (options : StackOptions) (r : ServiceReport) (st : RunState)
    → 0 < count r.service st.tasks
    → IsTracked st
    → IsTracked (on_report options r st)
unfolding on_report
IsTracked-on_report options r st live h =
    IsTracked-on_slot_report options r (Map.get st.slots r.service) st refl live h
