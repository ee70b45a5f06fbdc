-- ===== src/Stack/Shutdown.antt =====
-- `StackSupervisor::run` behind its loop: `stop_all` and the wait for what is left.
use servicrab.Base.{
  ℕ, zero, suc, ◌+◌, ◌≤◌, Bool, true, false, ◌&&◌, not, if◌then◌else◌, if_ind, match_option, Option,
  none, some, List, [], ◌∷◌, ◌++◌, filter, for_each, Text, same, same_iff, ◌≡◌, refl, arith, ℤ, pos,
  negsuc,
}
use servicrab.Base.Count.{count, contains, contains_iff, count-append, count-filter}
use servicrab.Base.Map
use servicrab.Base.Set
use servicrab.Base.Set.{BTreeSet}
use servicrab.Lifecycle.{ShutdownReason, Duration}
use servicrab.Stack.{RunState, Slot}
use servicrab.Stack.Tasks.{IsTracked, fits}
use servicrab.Stack.Reached.{NoDuplicates}

abbrev stop_grace : Duration
stop_grace = 5000000000

-- What `stop_all` does, in order.
pub data Action : Type 0 where
  send_stop : (service : Text) (reason : ShutdownReason) → Action
  wait : (service : Text) (grace : Duration) → Action
  sweep : (service : Text) (pgid : ℤ) → Action
  abort : (service : Text) → Action

abbrev pub reverse : List Text → List Text
reverse [] = []
reverse (x ∷ xs) = reverse xs ++ x ∷ []

-- The services with a stop channel, and those with a handle.
abbrev pub stops_of : RunState → BTreeSet
stops_of st = Map.keys_where (λ slot. Map.is_some slot.stop) st.slots

abbrev pub handles_of : RunState → BTreeSet
handles_of st = Map.keys_where (λ slot. slot.handle) st.slots

abbrev pub swept : Text → ℤ → List Action
swept name (pos zero) = []
swept name pgid = sweep name pgid ∷ []

-- `sweep_group`
abbrev pub sweep_group : Text → Option Slot → List Action
sweep_group name none = []
sweep_group name (some slot) = swept name slot.pgid

abbrev grace_of : RunState → Text → Duration
grace_of st name =
    match_option (Map.get st.config.services name) 0 (λ service. service.shutdown_timeout)
    + stop_grace

pub record Stopping : Type 0 where
  pub handles : BTreeSet
  pub actions : List Action

-- The wait for a task, which may end in time or not.
abbrev pub wait_actions : RunState → (Text → Bool) → Text → List Action
wait_actions st in_time name =
    wait name (grace_of st name)
    ∷ (if in_time name then [] else sweep_group name (Map.get st.slots name) ++ abort name ∷ [])

-- One service of the loop.
unfoldable pub stop_turn : RunState → ShutdownReason → (Text → Bool) → Stopping → Text → Stopping
stop_turn st reason in_time s name =
    if not (contains (stops_of st) name)
    then s
    else if contains s.handles name
    then record {
      handles = Set.remove name s.handles;
      actions = s.actions ++ send_stop name reason ∷ wait_actions st in_time name;
    }
    else record s { actions = s.actions ++ send_stop name reason ∷ [] }

-- Services dropped by a reload first, then the plan in reverse.
abbrev pub stop_order : RunState → List Text
stop_order st = filter (λ name. not (contains st.plan name)) (stops_of st) ++ reverse st.plan

unfoldable pub stop_all : RunState → ShutdownReason → (Text → Bool) → Stopping
unfolding stop_turn
stop_all st reason in_time =
    for_each (stop_turn st reason in_time) (record { handles = handles_of st; actions = [] })
      (stop_order st)

-- The services that a stop is sent to, in order.
abbrev pub sent_to : List Action → List Text
sent_to [] = []
sent_to (send_stop service _ ∷ actions) = service ∷ sent_to actions
sent_to (_ ∷ actions) = sent_to actions

count-sent_to :
    (k : Text) (xs ys : List Action)
    → count k (sent_to (xs ++ ys)) ≡ count k (sent_to xs) + count k (sent_to ys)
count-sent_to k [] ys = omega arith
count-sent_to k (send_stop service reason ∷ xs) ys = omega (arith, count-sent_to k xs ys)
count-sent_to k (wait service grace ∷ xs) ys = count-sent_to k xs ys
count-sent_to k (sweep service pgid ∷ xs) ys = count-sent_to k xs ys
count-sent_to k (abort service ∷ xs) ys = count-sent_to k xs ys

sent_to-swept : (k name : Text) (pgid : ℤ) → count k (sent_to (swept name pgid)) ≡ 0
sent_to-swept k name (pos zero) = refl
sent_to-swept k name (pos (suc n)) = refl
sent_to-swept k name (negsuc n) = refl

sent_to-sweep_group : (k name : Text) (o : Option Slot) → count k (sent_to (sweep_group name o)) ≡ 0
sent_to-sweep_group k name none = refl
sent_to-sweep_group k name (some slot) = sent_to-swept k name slot.pgid

pub sent_to-wait_actions :
    (st : RunState) (in_time : Text → Bool) (name k : Text)
    → count k (sent_to (wait_actions st in_time name)) ≡ 0
sent_to-wait_actions st in_time name k =
    if_ind (λ (l : List Action). count k (sent_to l) ≡ 0) (in_time name) (λ _. refl)
      λ _. ground (
        arith,
        count-sent_to k (sweep_group name (Map.get st.slots name)) (abort name ∷ []),
        sent_to-sweep_group k name (Map.get st.slots name),
      )

module _ (st : RunState) (reason : ShutdownReason) (in_time : Text → Bool) where
  count-stop_turn :
      (s : Stopping) (name k : Text)
      → count k (sent_to (stop_turn st reason in_time s name).actions)
        ≡ count k (sent_to s.actions)
          + (if same name k && contains (stops_of st) name then 1 else 0)
  unfolding stop_turn
  count-stop_turn s name k = ground (
    arith,
    count-sent_to k s.actions (send_stop name reason ∷ wait_actions st in_time name),
    count-sent_to k s.actions (send_stop name reason ∷ []),
    sent_to-wait_actions st in_time name k,
  )

  pub handles-stop_turn :
      (s : Stopping) (name k : Text)
      → contains (stop_turn st reason in_time s name).handles k
        ≡ (contains s.handles k && not (same name k && contains (stops_of st) name))
  unfolding stop_turn
  handles-stop_turn s name k = ground (arith, same_iff name k, Set.contains-remove s.handles name k)

  stop_turns :
      (names : List Text) (s : Stopping) (k : Text)
      → let s' = for_each (stop_turn st reason in_time) s names in
        (count k (sent_to s'.actions)
          ≡ count k (sent_to s.actions) + (if contains (stops_of st) k then count k names else 0))
        × (contains s'.handles k
            ≡ (contains s.handles k && not (contains names k && contains (stops_of st) k)))
  stop_turns [] s k = ground arith
  stop_turns (x ∷ names) s k = ground (
    arith,
    stop_turns names (stop_turn st reason in_time s x) k,
    count-stop_turn s x k,
    handles-stop_turn s x k,
    same_iff x k,
  )

count-reverse : (k : Text) (xs : List Text) → count k (reverse xs) ≡ count k xs
count-reverse k [] = refl
count-reverse k (x ∷ xs) = omega (arith, count-append k (reverse xs) (x ∷ []), count-reverse k xs)

pub hits-fits :
    (n : ℕ) (o : Option Slot)
    → fits n o ≡ true
    → (Map.hits (λ slot. Map.is_some slot.stop) o ≡ n) × (Map.hits (λ slot. slot.handle) o ≡ n)
hits-fits n none h = ground (arith, h)
hits-fits n (some slot) h = ground (arith, h)

hits-le : (p : Slot → Bool) (o : Option Slot) → Map.hits p o ≤ 1
hits-le p none = omega arith
hits-le p (some slot) = ground arith

-- A task that lives has its service once in the order, with a stop channel and a handle; where none
-- lives, there is neither.
pub order_lem :
    (st : RunState) (k : Text)
    → IsTracked st
    → NoDuplicates st.plan
    → (count k (stop_order st) ≤ 1)
      × (count k st.tasks ≤ count k (stop_order st))
      × (count k (stops_of st) ≡ count k st.tasks)
      × (count k (handles_of st) ≡ count k st.tasks)
order_lem st k (m, _, f) once =
    let in_stops : count k (stops_of st)
        ≡ Map.hits (λ slot. Map.is_some slot.stop) (Map.get st.slots k) =
      Map.count-keys_where (λ slot. Map.is_some slot.stop) k st.slots m in
    let in_handles : count k (handles_of st) ≡ Map.hits (λ slot. slot.handle) (Map.get st.slots k) =
      Map.count-keys_where (λ slot. slot.handle) k st.slots m in
    let in_order : count k (stop_order st)
        ≡ (if not (contains st.plan k) then count k (stops_of st) else 0) + count k st.plan =
      omega (
        arith,
        count-append k (filter (λ name. not (contains st.plan name)) (stops_of st))
            (reverse st.plan),
        count-filter (λ name. not (contains st.plan name)) k (stops_of st),
        count-reverse k st.plan,
      ) in
    let (stop_lives, handle_lives) = hits-fits (count k st.tasks) (Map.get st.slots k) (f k) in
    let one = hits-le (λ slot. Map.is_some slot.stop) (Map.get st.slots k) in
    let plan_k = contains_iff st.plan k in
    (
      ground (arith, in_order, in_stops, one, once k, plan_k),
      ground (arith, in_order, in_stops, stop_lives, one, once k, plan_k),
      omega (arith, in_stops, stop_lives),
      omega (arith, in_handles, handle_lives),
    )

-- The number of stops that a shutdown sends to a service, and what is left of the handles.
pub stop_all-counted :
    (st : RunState) (reason : ShutdownReason) (in_time : Text → Bool) (k : Text)
    → IsTracked st
    → NoDuplicates st.plan
    → (count k (sent_to (stop_all st reason in_time).actions) ≡ count k st.tasks)
      × (contains (stop_all st reason in_time).handles k ≡ false)
unfolding stop_all
stop_all-counted st reason in_time k tracked once =
    let first : Stopping = record { handles = handles_of st; actions = [] } in
    let (counted, left) = stop_turns st reason in_time (stop_order st) first k in
    let (most, at_least, stops, handles) = order_lem st k tracked once in
    let stops_k = contains_iff (stops_of st) k in
    let order_k = contains_iff (stop_order st) k in
    let handles_k = contains_iff (handles_of st) k in
    (
      ground (arith, counted, most, at_least, stops, stops_k),
      ground (arith, left, most, at_least, stops, handles, stops_k, order_k, handles_k),
    )
