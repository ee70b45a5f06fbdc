-- ===== src/Stack/Reached.antt =====
-- The states of a run, and what holds in every one of them.
use servicrab.Base.{
  ◌≤◌, ◌<◌, Bool, true, false, match_option_ind, Option, none, some, List, [], ◌∷◌, Text, same,
  same_iff, same_refl, ◌≡◌, refl, inl, inr, arith, Option-cases,
}
use servicrab.Base.Count.{count, contains, contains_iff}
use servicrab.Base.Map
use servicrab.Base.Map.{BTreeMap}
use servicrab.Config.{Config}
use servicrab.Stack.{
  Slot, RunState, insert_slot, ServiceReport, StackOptions, rewire_dependencies, new_slot,
}
use servicrab.Stack.Tasks.{IsTracked, IsTracked-put, IsTracked-spawn, IsTracked-rewire_dependencies}
use servicrab.Stack.Commands.{
  insert_planned, publish_stopped, start_planned_one, start_planned, empty_state, set_up, Input,
  command, report, take_input, is_over,
}
use servicrab.Stack.Kept.{IsTracked-handle_control, IsTracked-on_report, length-end_task}

IsTracked-insert_planned :
    (config : Config) (names : List Text) (st : RunState)
    → st.tasks ≡ []
    → IsTracked st
    → IsTracked (insert_planned config names st) × ((insert_planned config names st).tasks ≡ [])
unfolding insert_planned
IsTracked-insert_planned config [] st idle h = (h, idle)
IsTracked-insert_planned config (name ∷ names) st idle h =
    match_option_ind
      (λ (s : RunState).
        IsTracked (insert_planned config names s) × ((insert_planned config names s).tasks ≡ []))
      (Map.get config.services name) (λ _. IsTracked-insert_planned config names st idle h)
      λ service _.
        IsTracked-insert_planned config names (insert_slot name service st) idle
          (IsTracked-put st name (new_slot service) h (rw idle refl))

abbrev pub NoDuplicates : List Text → Type 0
NoDuplicates names = (k : Text) → count k names ≤ 1

IsTracked-start_planned_one :
    (left : Bool) (name : Text) (o : Option Slot) (st : RunState)
    → Map.get st.slots name ≡ o
    → count name st.tasks ≡ 0
    → IsTracked st
    → IsTracked (start_planned_one left name o st)
IsTracked-start_planned_one left name none st found idle h = h
IsTracked-start_planned_one true name (some slot) st found idle h =
    IsTracked-put st name (publish_stopped slot) h (ground (arith, found, h.2 name))
IsTracked-start_planned_one false name (some slot) st found idle h =
    IsTracked-spawn st name slot h idle

count-start_planned_one :
    (left : Bool) (name k : Text) (o : Option Slot) (st : RunState)
    → same name k ≡ false
    → count k (start_planned_one left name o st).tasks ≡ count k st.tasks
count-start_planned_one left name k none st other = refl
count-start_planned_one true name k (some slot) st other = refl
count-start_planned_one false name k (some slot) st other = ground (arith, other)

IsTracked-start_planned :
    (left names : List Text) (st : RunState)
    → NoDuplicates names
    → ((k : Text) → 0 < count k names → count k st.tasks ≡ 0)
    → IsTracked st
    → IsTracked (start_planned left names st)
unfolding start_planned
IsTracked-start_planned left [] st once idle h = h
IsTracked-start_planned left (name ∷ names) st once idle h =
    let o = Map.get st.slots name in
    IsTracked-start_planned left names (start_planned_one (contains left name) name o st)
      (λ k. ground (arith, once k))
      (λ k later. ground (
        arith,
        once k,
        idle k,
        later,
        count-start_planned_one (contains left name) name k o st,
        same_iff name k,
      ))
      (IsTracked-start_planned_one (contains left name) name o st refl
        (idle name (ground (arith, same_refl name))) h)

rewired_idle :
    (st : RunState) → st.tasks ≡ [] → (k : Text) → count k (rewire_dependencies st).tasks ≡ 0
unfolding rewire_dependencies
rewired_idle st idle k = rw idle refl

pub IsTracked-set_up :
    (config : Config) (plan left : List Text)
    → NoDuplicates plan
    → IsTracked (set_up config plan left)
unfolding set_up Map.get
IsTracked-set_up config plan left once =
    let (h, idle) =
      IsTracked-insert_planned config plan (empty_state config plan) refl (tt, refl, λ k. refl) in
    let st = insert_planned config plan (empty_state config plan) in
    IsTracked-start_planned left plan (rewire_dependencies st) once (λ k _. rewired_idle st idle k)
      (IsTracked-rewire_dependencies st h)

-- A report comes from a task that lives.
abbrev pub Arrives : Input → RunState → Type 0
Arrives (report r) st = contains st.tasks r.service ≡ true
Arrives (command _) st = Unit
Arrives (Input.shutdown _) st = Unit

-- The states at the head of the loop, with the inputs taken so far, the last one first.
pub data Reached (options : StackOptions) (config : Config) (plan left : List Text)
    : List Input → RunState → Type 0 where
  begun : Reached options config plan left [] (set_up config plan left)
  step :
      {inputs : List Input} {st : RunState} (i : Input)
      → Reached options config plan left inputs st
      → is_over options st ≡ false
      → Arrives i st
      → Reached options config plan left (i ∷ inputs) (take_input options i st)

IsTracked-take_input :
    (options : StackOptions) (i : Input) (st : RunState)
    → Arrives i st
    → IsTracked st
    → IsTracked (take_input options i st)
IsTracked-take_input options (report r) st live h =
    IsTracked-on_report options r st ((contains_iff st.tasks r.service).0 live) h
IsTracked-take_input options (command c) st _ h = IsTracked-handle_control c st h
IsTracked-take_input options (Input.shutdown reason) st _ h = h

-- At every turn of the loop the counter is the number of supervision tasks that live, and a slot has
-- its handle and its stop channel exactly while one task of its service lives, of which there are
-- never two. A plan names no service twice.
pub Reached-IsTracked :
    {options : StackOptions} {config : Config} {plan left : List Text} {inputs : List Input}
    {st : RunState}
    → NoDuplicates plan
    → Reached options config plan left inputs st
    → IsTracked st
Reached-IsTracked {config} {plan} {left} once begun = IsTracked-set_up config plan left once
Reached-IsTracked {options} once (step {st} i before going live) =
    IsTracked-take_input options i st live (Reached-IsTracked once before)

-- A report that arrives finds the counter above zero, as the assertion in the loop says, and its
-- service's slot with a handle.
report_has_spawn :
    {options : StackOptions} {config : Config} {plan left : List Text} {inputs : List Input}
    {st : RunState} (r : ServiceReport)
    → NoDuplicates plan
    → Reached options config plan left inputs st
    → Arrives (report r) st
    → (0 < st.running)
      × ((slot : Slot) × (Map.get st.slots r.service ≡ some slot) × (slot.handle ≡ true))
report_has_spawn {st} r once reached live =
    let h = Reached-IsTracked once reached in
    let counted = (contains_iff st.tasks r.service).0 live in
    elim (Option-cases (Map.get st.slots r.service)) [
      | inl absent ↦ absurd (ground (arith, h.2 r.service, absent, counted))
      | inr (slot, found) ↦ (
        omega (arith, h.1, length-end_task r.service st.tasks counted),
        (slot, found, ground (arith, h.2 r.service, found, counted)),
      )
    ]
