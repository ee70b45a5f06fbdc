-- ===== src/Stack/Quiet.antt =====
-- The commands that wait for an answer, and the answers that have been sent.
use servicrab.Base.{
  ℕ, ◌+◌, ◌==◌, Bool, true, false, not, ◌||◌, if◌then◌else◌, if_ind, match_option_ind, Option, none,
  some, List, [], ◌∷◌, ◌++◌, Text, same_iff, ◌≡◌, refl, arith, Result,
}
use servicrab.Base.Map
use servicrab.Base.Map.{BTreeMap}
use servicrab.Base.Entries.{total, part, total-insert, total_zero, get-map_values}
use servicrab.Base.Alter.{alter_all, alter_all-keeps}
use servicrab.Config.{Config}
use servicrab.Stack.{
  ControlRefusal, ControlOutcome, Answer, Slot, RunState, Control, start, stop, restart, reload,
  spawn, reply, rewire, rewire_dependencies, remove_turn, add_turn, change_turn, start_turn,
  start_added, apply_diff, ConfigDiff, first_busy,
}
use servicrab.Stack.Commands.{answer_to, Input, command, report}

abbrev pub is_ack : ℕ → Option ℕ → ℕ
is_ack a none = 0
is_ack a (some b) = if b == a then 1 else 0

-- The commands with an acknowledgement channel that wait for an answer, and the answers sent on it.
abbrev pub waiting : ℕ → BTreeMap Slot → ℕ
waiting a slots = total (λ slot. is_ack a slot.pending) slots

abbrev pub answered : ℕ → List Answer → ℕ
answered a [] = 0
answered a (x ∷ xs) = (if x.ack == a then 1 else 0) + answered a xs

pub answered-append :
    (a : ℕ) (xs ys : List Answer) → answered a (xs ++ ys) ≡ answered a xs + answered a ys
answered-append a [] ys = omega arith
answered-append a (x ∷ xs) ys = omega (arith, answered-append a xs ys)

unfoldable pub due : ℕ → RunState → ℕ
due a st = waiting a st.slots + answered a st.answers

abbrev pub ack_of : Control → ℕ
ack_of (start _ ack) = ack
ack_of (stop _ ack) = ack
ack_of (restart _ ack) = ack
ack_of (reload _ _ ack) = ack

abbrev pub asks : ℕ → Input → ℕ
asks a (command c) = if ack_of c == a then 1 else 0
asks a (report _) = 0
asks a (Input.shutdown _) = 0

abbrev pub asked : ℕ → List Input → ℕ
asked a [] = 0
asked a (i ∷ inputs) = asks a i + asked a inputs

pub due-reply :
    (a ack : ℕ) (result : Result ControlRefusal ControlOutcome) (st : RunState)
    → due a (reply ack result st) ≡ due a st + (if ack == a then 1 else 0)
unfolding due
due-reply a ack result st =
    ground (arith, answered-append a st.answers (record { ack = ack; result = result } ∷ []))

pub due-answer_to :
    (a : ℕ) (o : Option ℕ) (result : Result ControlRefusal ControlOutcome) (st : RunState)
    → due a (answer_to o result st) ≡ due a st + is_ack a o
due-answer_to a none result st = omega arith
due-answer_to a (some ack) result st = due-reply a ack result st

-- A slot that takes the place of another.
pub due-insert :
    (a : ℕ) (name : Text) (new : Slot) (st : RunState) (n : ℕ)
    → Map.IsMap st.slots
    → part (λ slot. is_ack a slot.pending) (Map.get st.slots name) ≡ n
    → due a (record st { slots = Map.insert name new st.slots }) + n
      ≡ due a st + is_ack a new.pending
unfolding due
due-insert a name new st n m e =
    omega (arith, e, total-insert (λ (slot : Slot). is_ack a slot.pending) name new st.slots m)

-- No slot has a command that waits.
abbrev pub quiet : Option Slot → Bool
quiet none = true
quiet (some slot) = not (Map.is_some slot.pending)

abbrev pub IsQuiet : BTreeMap Slot → Type 0
IsQuiet slots = (k : Text) → quiet (Map.get slots k) ≡ true

pub waiting-quiet :
    (a : ℕ) (slots : BTreeMap Slot) → Map.IsMap slots → IsQuiet slots → waiting a slots ≡ 0
waiting-quiet a slots m q =
    total_zero (λ (slot : Slot). is_ack a slot.pending) slots m
      (λ k slot found. ground (arith, q k, found))

pub first_busy-IsQuiet : (slots : BTreeMap Slot) → first_busy slots ≡ none → IsQuiet slots
unfolding Map.get
first_busy-IsQuiet [] e k = refl
first_busy-IsQuiet ((name, slot) ∷ rest) e k =
    let idle : Map.is_some slot.pending ≡ false = ground (arith, e) in
    let later : first_busy rest ≡ none = ground (arith, e, idle) in
    ground (arith, idle, first_busy-IsQuiet rest later k)

remove_turn-quiet : (k : Text) (o : Option Slot) → quiet o ≡ true → quiet (remove_turn k o) ≡ true
remove_turn-quiet k o h = ground arith

add_turn-quiet :
    (config : Config) (k : Text) (o : Option Slot)
    → quiet o ≡ true
    → quiet (add_turn config k o) ≡ true
add_turn-quiet config k o h = ground arith

change_turn-quiet :
    (config : Config) (k : Text) (o : Option Slot)
    → quiet o ≡ true
    → quiet (change_turn config k o) ≡ true
change_turn-quiet config k o h = ground arith

-- The ends of the reload: no slot waits, and nothing has been answered.
abbrev pub IsSilent : RunState → List Answer → Type 0
IsSilent st answers = IsQuiet st.slots × (st.answers ≡ answers)

start_turn-IsSilent :
    (st : RunState) (name : Text) (answers : List Answer)
    → IsSilent st answers
    → IsSilent (start_turn st name) answers
start_turn-IsSilent st name answers h =
    match_option_ind (λ (s : RunState). IsQuiet s.slots × (s.answers ≡ answers))
      (Map.get st.slots name) (λ _. h)
      λ slot found.
        if_ind (λ (s : RunState). IsQuiet s.slots × (s.answers ≡ answers))
          (slot.restart_when_stopped || slot.handle) (λ _. h)
          λ idle. (
            (λ k. ground (
              arith,
              Map.get-insert st.slots name k (spawn slot),
              h.0 k,
              h.0 name,
              found,
              same_iff name k,
            )),
            h.1,
          )

start_added-IsSilent :
    (names : List Text) (st : RunState) (answers : List Answer)
    → IsSilent st answers
    → IsSilent (start_added names st) answers
unfolding start_added
start_added-IsSilent [] st answers h = h
start_added-IsSilent (name ∷ names) st answers h =
    start_added-IsSilent names (start_turn st name) answers (start_turn-IsSilent st name answers h)

rewired-quiet :
    (config : Config) (slots : BTreeMap Slot) (k : Text) (o : Option Slot)
    → quiet o ≡ true
    → quiet (elim o [ none ↦ none | some slot ↦ some (rewire config slots k slot) ]) ≡ true
rewired-quiet config slots k none h = h
rewired-quiet config slots k (some slot) h = ground arith

pub rewire_dependencies-IsSilent :
    (st : RunState) → IsQuiet st.slots → IsSilent (rewire_dependencies st) st.answers
unfolding rewire_dependencies
rewire_dependencies-IsSilent st q = (
  (λ k.
      rw (get-map_values (rewire st.config st.slots) st.slots k)
        (rewired-quiet st.config st.slots k (Map.get st.slots k) (q k))),
  refl,
)

pub apply_diff-IsSilent :
    (config : Config) (plan : List Text) (d : ConfigDiff) (st : RunState)
    → IsQuiet st.slots
    → IsSilent (apply_diff config plan d st) st.answers
unfolding apply_diff
apply_diff-IsSilent config plan d st q =
    let keeps = λ (k : Text) (o : Option Slot). quiet o ≡ true in
    let removed = alter_all remove_turn d.removed st.slots in
    let added = alter_all (add_turn config) d.added removed in
    let changed = alter_all (change_turn config) d.changed added in
    let q_removed = alter_all-keeps keeps remove_turn d.removed st.slots remove_turn-quiet q in
    let q_added =
      alter_all-keeps keeps (add_turn config) d.added removed (add_turn-quiet config) q_removed in
    let q_changed =
      alter_all-keeps keeps (change_turn config) d.changed added (change_turn-quiet config)
        q_added in
    start_added-IsSilent d.added
      (rewire_dependencies (record st { config = config; plan = plan; slots = changed })) st.answers
      (rewire_dependencies-IsSilent (record st { config = config; plan = plan; slots = changed })
        q_changed)
