-- ===== src/Stack/Answers.antt =====
-- Every command is answered once.
use servicrab.Base.{
  ℕ, ◌+◌, length, Bool, true, false, match_option_ind, Option, none, some, List, [], ◌∷◌, Text, ◌≡◌,
  refl, ◌∙◌, arith,
}
use servicrab.Base.Count.{count, contains}
use servicrab.Stack.Tasks.{fits}
use servicrab.Base.Map
use servicrab.Base.Map.{BTreeMap}
use servicrab.Config.{Config}
use servicrab.Stack.{
  Answer, Slot, RunState, spawn, put_slot, insert_slot, StackOptions, rewire_dependencies, new_slot,
}
use servicrab.Stack.Commands.{
  insert_planned, publish_stopped, start_planned_one, start_planned, empty_state, set_up, Input,
  take_input,
}
use servicrab.Stack.Reached.{
  Reached, begun, step, NoDuplicates, Reached-IsTracked, IsTracked-set_up,
}
use servicrab.Stack.Quiet.{
  waiting, answered, due, asked, quiet, waiting-quiet, IsSilent, rewire_dependencies-IsSilent,
}
use servicrab.Stack.Dues.{due-take_input}

IsSilent-insert :
    (name : Text) (slot : Slot) (st : RunState) (answers : List Answer)
    → slot.pending ≡ none
    → IsSilent st answers
    → IsSilent (put_slot name slot st) answers
IsSilent-insert name slot st answers idle h =
    ((λ k. ground (arith, idle, h.0 k, Map.get-insert st.slots name k slot)), h.1)

IsSilent-insert_planned :
    (config : Config) (names : List Text) (st : RunState) (answers : List Answer)
    → IsSilent st answers
    → IsSilent (insert_planned config names st) answers
unfolding insert_planned
IsSilent-insert_planned config [] st answers h = h
IsSilent-insert_planned config (name ∷ names) st answers h =
    match_option_ind (λ (s : RunState). IsSilent (insert_planned config names s) answers)
      (Map.get config.services name) (λ _. IsSilent-insert_planned config names st answers h)
      λ service _.
        IsSilent-insert_planned config names (insert_slot name service st) answers
          (IsSilent-insert name (new_slot service) st answers refl h)

IsSilent-start_planned_one :
    (left : Bool) (name : Text) (o : Option Slot) (st : RunState) (answers : List Answer)
    → quiet o ≡ true
    → IsSilent st answers
    → IsSilent (start_planned_one left name o st) answers
IsSilent-start_planned_one left name none st answers idle h = h
IsSilent-start_planned_one true name (some slot) st answers idle h =
    IsSilent-insert name (publish_stopped slot) st answers (ground arith) h
IsSilent-start_planned_one false name (some slot) st answers idle h =
    IsSilent-insert name (spawn slot) st answers (ground arith) h

IsSilent-start_planned :
    (left names : List Text) (st : RunState) (answers : List Answer)
    → IsSilent st answers
    → IsSilent (start_planned left names st) answers
unfolding start_planned
IsSilent-start_planned left [] st answers h = h
IsSilent-start_planned left (name ∷ names) st answers h =
    let o = Map.get st.slots name in
    IsSilent-start_planned left names (start_planned_one (contains left name) name o st) answers
      (IsSilent-start_planned_one (contains left name) name o st answers (h.0 name) h)

IsSilent-set_up : (config : Config) (plan left : List Text) → IsSilent (set_up config plan left) []
unfolding set_up Map.get
IsSilent-set_up config plan left =
    let st = insert_planned config plan (empty_state config plan) in
    let h = IsSilent-insert_planned config plan (empty_state config plan) [] ((λ k. refl), refl) in
    let (q, same_answers) = rewire_dependencies-IsSilent st h.0 in
    IsSilent-start_planned left plan (rewire_dependencies st) [] (q, same_answers ∙ h.1)

due-set_up :
    (a : ℕ) (config : Config) (plan left : List Text)
    → Map.IsMap (set_up config plan left).slots
    → due a (set_up config plan left) ≡ 0
unfolding due
due-set_up a config plan left m =
    let (q, none_sent) = IsSilent-set_up config plan left in
    ground (arith, none_sent, waiting-quiet a (set_up config plan left).slots m q)

unfold_due :
    (a : ℕ) (st : RunState) {n : ℕ} → due a st ≡ n → waiting a st.slots + answered a st.answers ≡ n
unfolding due
unfold_due a st e = e

fold_due :
    (a : ℕ) (st : RunState) {n : ℕ} → waiting a st.slots + answered a st.answers ≡ n → due a st ≡ n
unfolding due
fold_due a st e = e

-- At every turn of the loop the commands with an acknowledgement channel that still wait, and the
-- answers sent on it, are together as many as the commands with it that were taken. A plan names no
-- service twice.
pub answered_once :
    {options : StackOptions} {config : Config} {plan left : List Text} {inputs : List Input}
    {st : RunState} (a : ℕ)
    → NoDuplicates plan
    → Reached options config plan left inputs st
    → waiting a st.slots + answered a st.answers ≡ asked a inputs
answered_once {config} {plan} {left} a once begun =
    unfold_due a (set_up config plan left)
      (due-set_up a config plan left (IsTracked-set_up config plan left once).0)
answered_once {options} a once (step {inputs} {st} i before going live) =
    unfold_due a (take_input options i st) (
      omega (
        arith,
        due-take_input a options i st (Reached-IsTracked once before),
        fold_due a st (answered_once a once before),
      ))

-- Where no task lives, no slot has a command that waits.
idle_quiet : (n : ℕ) (o : Option Slot) → n ≡ 0 → fits n o ≡ true → quiet o ≡ true
idle_quiet n none none_lives h = refl
idle_quiet n (some slot) none_lives h = ground (arith, none_lives, h)

no_tasks : (tasks : List Text) (k : Text) → length tasks ≡ 0 → count k tasks ≡ 0
no_tasks [] k h = refl
no_tasks (x ∷ tasks) k h = absurd (omega (arith, h))

-- When the loop ends since its counter is 0, each acknowledgement channel has been sent exactly one
-- answer for each command with it that was taken, whatever commands, reports and shutdowns came, in
-- any order. A plan names no service twice.
pub all_answered :
    {options : StackOptions} {config : Config} {plan left : List Text} {inputs : List Input}
    {st : RunState} (a : ℕ)
    → NoDuplicates plan
    → Reached options config plan left inputs st
    → st.running ≡ 0
    → answered a st.answers ≡ asked a inputs
all_answered {st} a once reached ended =
    let (m, counted, f) = Reached-IsTracked once reached in
    let none_live : length st.tasks ≡ 0 = omega (arith, counted, ended) in
    let none_wait : waiting a st.slots ≡ 0 = waiting-quiet a st.slots m (λ k.
      idle_quiet (count k st.tasks) (Map.get st.slots k) (no_tasks st.tasks k none_live) (f k)) in
    omega (arith, answered_once a once reached, none_wait)
