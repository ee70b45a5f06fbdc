-- ===== src/Stack/Orders.antt =====
-- What a stop or a restart comes to with the report of the task.
use servicrab.Base.{
  ℕ, Bool, true, false, if◌then◌else◌, if_ind, match_option_ind, ◌-◌, Option, none, some, [], ◌∷◌,
  ◌++◌, same_refl, ◌≡◌, refl, ap, arith, ok, Bool-cases, inl, inr,
}
use servicrab.Base.Map
use servicrab.Base.Map.{BTreeMap}
use servicrab.Base.Entries.{remove, get-remove}
use servicrab.Lifecycle.{ShutdownReason, requested}
use servicrab.Stack.{
  put_slot, Answer, ControlOutcome, stopped, restarted, Slot, RunState, Control, restart,
  ServiceReport, StackOptions,
}
use servicrab.Stack.Commands.{on_slot_report, end_task, handle_control, on_report}

-- Whether a slot has a task, where there is one.
abbrev pub is_live : Option Slot → Option Bool
is_live none = none
is_live (some slot) = some slot.handle

abbrev pub told : ℕ → ControlOutcome → Answer
told ack outcome = record { ack = ack; result = ok outcome }

module _ (options : StackOptions) (result : ServiceReport) (ack : ℕ) (st : RunState) (slot : Slot)
    (channel : Option ShutdownReason) (found : Map.get st.slots result.service ≡ some slot)
    (live : slot.stop ≡ some channel) (idle : slot.pending ≡ none) where
  after_stop : Slot
  after_stop = record slot { pending = some ack; stop = some (some requested) }

  handle_stop :
      handle_control (Control.stop result.service ack) st ≡ put_slot result.service after_stop st
  unfolding handle_control after_stop
  handle_stop = rw found (
      if_ind (λ (s : RunState). s ≡ put_slot result.service after_stop st)
        (Map.is_some slot.pending) (λ busy. absurd (ground (arith, busy, idle)))
        (λ _.
          match_option_ind (λ (s : RunState). s ≡ put_slot result.service after_stop st) slot.stop
            (λ none_live. absurd (ground (arith, none_live, live))) (λ _ _. refl)))

  report_of :
      (new : Slot)
      → on_report options result (put_slot result.service new st)
        ≡ on_slot_report options result (some new) (record st {
          slots = Map.insert result.service new st.slots;
          running = st.running - 1;
          tasks = end_task result.service st.tasks;
        })
  unfolding on_report
  report_of new =
      rw (Map.get-insert st.slots result.service result.service new, same_refl result.service) refl

  after_restart : Slot
  after_restart = record slot {
    restart_when_stopped = true;
    pending = some ack;
    stop = some (some requested);
  }

  handle_restart :
      handle_control (restart result.service ack) st ≡ put_slot result.service after_restart st
  unfolding handle_control after_restart
  handle_restart = rw found (
      if_ind (λ (s : RunState). s ≡ put_slot result.service after_restart st)
        (Map.is_some slot.pending) (λ busy. absurd (ground (arith, busy, idle)))
        (λ _.
          match_option_ind (λ (s : RunState). s ≡ put_slot result.service after_restart st)
            slot.stop (λ none_live. absurd (ground (arith, none_live, live))) (λ _ _. refl)))

  inserted :
      (new : Slot) (slots : BTreeMap Slot)
      → Map.get (Map.insert result.service new slots) result.service ≡ some new
  inserted new slots =
      rw (Map.get-insert slots result.service result.service new, same_refl result.service) refl

  removed : (slots : BTreeMap Slot) → Map.get (remove result.service slots) result.service ≡ none
  removed slots = rw (get-remove slots result.service result.service, same_refl result.service) refl

  -- A stop of a service that runs, with no other command on it, is answered by the report of its
  -- task. The service is then down and the answer is that it stopped, but where a restart was to
  -- come from a reload: there the stop does not call it off, the service is spawned anew, and the
  -- answer is that it restarted.
  pub stop_then_report :
      slot.retired ≡ false
      → (is_live (
            Map.get
              (on_report options result (handle_control (Control.stop result.service ack) st)).slots
              result.service)
          ≡ some slot.restart_when_stopped)
        × ((on_report options result (handle_control (Control.stop result.service ack) st)).answers
            ≡ st.answers
              ++ told ack (if slot.restart_when_stopped then restarted else stopped) ∷ [])
  unfolding after_stop
  stop_then_report stays = elim (Bool-cases slot.restart_when_stopped) [
    | inl again ↦ (
      rw (handle_stop, report_of after_stop, stays, again) (ap is_live (inserted _ _)),
      rw (handle_stop, report_of after_stop, stays, again) refl,
    )
    | inr rests ↦ (
      rw (handle_stop, report_of after_stop, stays, rests) (ap is_live (inserted _ _)),
      rw (handle_stop, report_of after_stop, stays, rests) refl,
    )
  ]

  -- A restart of a service that runs, with no other command on it, is answered by the report of its
  -- task, with the service spawned anew, or, where a reload has dropped the service, with its slot
  -- gone and the answer that it stopped.
  pub restart_then_report :
      (is_live (
          Map.get
            (on_report options result (handle_control (restart result.service ack) st)).slots
            result.service)
        ≡ (if slot.retired then none else some true))
      × ((on_report options result (handle_control (restart result.service ack) st)).answers
          ≡ st.answers ++ told ack (if slot.retired then stopped else restarted) ∷ [])
  unfolding after_restart
  restart_then_report = elim (Bool-cases slot.retired) [
    | inl leaves ↦ (
      rw (handle_restart, report_of after_restart, leaves) (ap is_live (removed _)),
      rw (handle_restart, report_of after_restart, leaves) refl,
    )
    | inr stays ↦ (
      rw (handle_restart, report_of after_restart, stays) (ap is_live (inserted _ _)),
      rw (handle_restart, report_of after_restart, stays) refl,
    )
  ]
