-- ===== src/Stack/Dues.antt =====
-- What each input does to the commands that wait and the answers that have been sent.
use servicrab.Base.{
  ℕ, ◌+◌, ◌-◌, ◌==◌, false, if◌then◌else◌, if_ind, match_option_ind, Option, none, some, List, Text,
  ◌≡◌, refl, subst, inl, inr, arith, Option-cases, ok,
}
use servicrab.Base.Map
use servicrab.Base.Map.{BTreeMap}
use servicrab.Base.Entries.{remove, part, total-insert, total-remove}
use servicrab.Config.{Config}
use servicrab.Stack.{
  ControlOutcome, Slot, RunState, Control, start, stop, restart, reload, spawn, put_slot,
  spawn_slot, reply, ServiceReport, StackOptions, apply_diff, reload_stack, diff, first_busy,
}
use servicrab.Stack.Tasks.{IsTracked}
use servicrab.Stack.Commands.{
  on_start, on_stop, on_restart, on_slot, handle_control, on_slot_report, end_task, on_report,
  Input, command, report, take_input,
}
use servicrab.Stack.Kept.{IsTracked-reload_stack}
use servicrab.Stack.Quiet.{
  is_ack, due, asks, due-reply, due-answer_to, due-insert, waiting-quiet, first_busy-IsQuiet,
  apply_diff-IsSilent,
}

due-reload_stack :
    (a : ℕ) (config : Config) (plan : List Text) (st : RunState)
    → IsTracked st
    → IsTracked (reload_stack config plan st).1
    → due a (reload_stack config plan st).1 ≡ due a st
unfolding reload_stack due
due-reload_stack a config plan st h h' = elim (Option-cases (first_busy st.slots)) [
  | inr (name, found) ↦ ground (arith, found)
  | inl none_busy ↦
      let after = apply_diff config plan (diff st config plan) st in
      let q = first_busy-IsQuiet st.slots none_busy in
      let (q', same_answers) = apply_diff-IsSilent config plan (diff st config plan) st q in
      let same_state : (reload_stack config plan st).1 ≡ after = ground (arith, none_busy) in
      rw same_state (
        ground (
          arith,
          same_answers,
          waiting-quiet a st.slots h.0 q,
          waiting-quiet a after.slots (subst IsTracked same_state h').0 q',
        ))
]

-- The part of the slot that a command or a report is about.
abbrev part_of : ℕ → Option Slot → ℕ
part_of a o = part (λ slot. is_ack a slot.pending) o

due-on_slot :
    (a ack : ℕ) (service : Text) (arm : Slot → RunState → RunState) (o : Option Slot)
    (st : RunState)
    → ((slot : Slot)
        → o ≡ some slot
        → slot.pending ≡ none
        → due a (arm slot st) ≡ due a st + (if ack == a then 1 else 0))
    → due a (on_slot service ack arm o st) ≡ due a st + (if ack == a then 1 else 0)
due-on_slot a ack service arm none st by_arm = due-reply a ack _ st
due-on_slot a ack service arm (some slot) st by_arm =
    if_ind (λ (s : RunState). due a s ≡ due a st + (if ack == a then 1 else 0))
      (Map.is_some slot.pending) (λ _. due-reply a ack _ st)
      (λ idle. by_arm slot refl (ground arith))

due-spawn_slot :
    (a : ℕ) (name : Text) (slot : Slot) (st : RunState)
    → Map.IsMap st.slots
    → part_of a (Map.get st.slots name) ≡ is_ack a slot.pending
    → due a (spawn_slot name slot st) ≡ due a st
unfolding due
due-spawn_slot a name slot st m e =
    omega (arith, e, total-insert (λ (s : Slot). is_ack a s.pending) name (spawn slot) st.slots m)

module _ (a : ℕ) (service : Text) (ack : ℕ) (slot : Slot) (st : RunState) (m : Map.IsMap st.slots)
    (found : Map.get st.slots service ≡ some slot) (idle : slot.pending ≡ none) where
  due-put_asked :
      (new : Slot)
      → new.pending ≡ some ack
      → due a (put_slot service new st) ≡ due a st + (if ack == a then 1 else 0)
  due-put_asked new e =
      ground (arith, due-insert a service new st 0 m (ground (arith, found, idle)), e)

  due-spawn_asked :
      due a (reply ack (ok ControlOutcome.started) (spawn_slot service slot st))
      ≡ due a st + (if ack == a then 1 else 0)
  due-spawn_asked = ground (
    arith,
    due-reply a ack (ok ControlOutcome.started) (spawn_slot service slot st),
    due-spawn_slot a service slot st m (ground (arith, found, idle)),
  )

  due-on_start : due a (on_start service ack slot st) ≡ due a st + (if ack == a then 1 else 0)
  due-on_start =
      if_ind (λ (s : RunState). due a s ≡ due a st + (if ack == a then 1 else 0)) slot.handle
        (λ _. due-reply a ack _ st) (λ _. due-spawn_asked)

  due-on_stop : due a (on_stop service ack slot st) ≡ due a st + (if ack == a then 1 else 0)
  due-on_stop =
      match_option_ind (λ (s : RunState). due a s ≡ due a st + (if ack == a then 1 else 0))
        slot.stop (λ _. due-reply a ack _ st) (λ _ _. due-put_asked _ refl)

  due-on_restart : due a (on_restart service ack slot st) ≡ due a st + (if ack == a then 1 else 0)
  due-on_restart =
      match_option_ind (λ (s : RunState). due a s ≡ due a st + (if ack == a then 1 else 0))
        slot.stop (λ _. due-spawn_asked) (λ _ _. due-put_asked _ refl)

due-handle_control :
    (a : ℕ) (c : Control) (st : RunState)
    → IsTracked st
    → due a (handle_control c st) ≡ due a st + asks a (command c)
unfolding handle_control
due-handle_control a (reload config plan ack) st h = ground (
  arith,
  due-reply a ack (reload_stack config plan st).0 (reload_stack config plan st).1,
  due-reload_stack a config plan st h (IsTracked-reload_stack config plan st h),
)
due-handle_control a (start service ack) st h =
    due-on_slot a ack service (on_start service ack) (Map.get st.slots service) st
      (λ slot found idle. due-on_start a service ack slot st h.0 found idle)
due-handle_control a (stop service ack) st h =
    due-on_slot a ack service (on_stop service ack) (Map.get st.slots service) st
      (λ slot found idle. due-on_stop a service ack slot st h.0 found idle)
due-handle_control a (restart service ack) st h =
    due-on_slot a ack service (on_restart service ack) (Map.get st.slots service) st
      (λ slot found idle. due-on_restart a service ack slot st h.0 found idle)

due-on_slot_report :
    (a : ℕ) (options : StackOptions) (r : ServiceReport) (o : Option Slot) (st : RunState)
    → Map.IsMap st.slots
    → Map.get st.slots r.service ≡ o
    → due a (on_slot_report options r o st) ≡ due a st
unfolding due
due-on_slot_report a options r none st m found = refl
due-on_slot_report a options r (some slot) st m found =
    let name = r.service in
    let idle = record slot { stop = none; handle = false; pending = none } in
    let again = record idle { restart_when_stopped = false } in
    if_ind (λ (s : RunState). due a s ≡ due a st) slot.retired
      (λ _. ground (
        arith,
        due-answer_to a slot.pending (ok ControlOutcome.stopped)
            (record st { slots = remove name st.slots }),
        total-remove (λ (s : Slot). is_ack a s.pending) name st.slots m,
        found,
      ))
      λ _.
        if_ind (λ (s : RunState). due a s ≡ due a st) slot.restart_when_stopped
          (λ _. ground (
            arith,
            due-answer_to a slot.pending (ok ControlOutcome.restarted) (spawn_slot name again st),
            total-insert (λ (s : Slot). is_ack a s.pending) name (spawn again) st.slots m,
            found,
          ))
          (λ _. ground (
            arith,
            due-answer_to a slot.pending (ok ControlOutcome.stopped) (put_slot name idle st),
            total-insert (λ (s : Slot). is_ack a s.pending) name idle st.slots m,
            found,
          ))

due-on_report :
    (a : ℕ) (options : StackOptions) (r : ServiceReport) (st : RunState)
    → Map.IsMap st.slots
    → due a (on_report options r st) ≡ due a st
unfolding on_report due
due-on_report a options r st m =
    due-on_slot_report a options r (Map.get st.slots r.service)
      (record st { running = st.running - 1; tasks = end_task r.service st.tasks }) m refl

pub due-take_input :
    (a : ℕ) (options : StackOptions) (i : Input) (st : RunState)
    → IsTracked st
    → due a (take_input options i st) ≡ due a st + asks a i
unfolding due
due-take_input a options (report r) st h = omega (arith, due-on_report a options r st h.0)
due-take_input a options (command c) st h = due-handle_control a c st h
due-take_input a options (Input.shutdown reason) st h = omega arith
