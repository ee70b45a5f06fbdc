-- ===== src/Lifecycle/States.antt =====
-- The diagram of the service states.
use servicrab.Base.{List, [], ◌∷◌, ◌≡◌, ◌↔◌, refl, true, false, inl, inr, arith, err, Bool-cases}
use servicrab.Lifecycle.{
  ServiceState, pending, starting, running, backoff, stopping, stopped, exited, failed,
  can_transition_to, is_terminal, state_name, StateMachine, new_machine, try_transition,
}

-- A state is terminal exactly when the machine refuses every transition out of it.
pub is_terminal_iff :
    (s : ServiceState)
    → (is_terminal s ≡ true) ↔ ((next : ServiceState) → can_transition_to s next ≡ false)
unfolding is_terminal can_transition_to
is_terminal_iff pending = ((λ e. cc), (λ f. cc (f starting)))
is_terminal_iff starting = ((λ e. cc), (λ f. cc (f running)))
is_terminal_iff running = ((λ e. cc), (λ f. cc (f stopping)))
is_terminal_iff backoff = ((λ e. cc), (λ f. cc (f starting)))
is_terminal_iff stopping = ((λ e. cc), (λ f. cc (f stopped)))
is_terminal_iff stopped = ((λ e next. refl), (λ f. refl))
is_terminal_iff exited = ((λ e next. refl), (λ f. refl))
is_terminal_iff failed = ((λ e next. refl), (λ f. refl))

-- A machine that is asked for one state after another, whatever it answers.
pub request_all : StateMachine → List ServiceState → StateMachine
request_all m [] = m
request_all m (next ∷ rest) = request_all (try_transition m next).1 rest

-- A path of the diagram.
pub data Reaches (s : ServiceState) : ServiceState → Type 0 where
  here : Reaches s s
  step : {t u : ServiceState} → Reaches s t → can_transition_to t u ≡ true → Reaches s u

try_transition-Reaches :
    (s : ServiceState) (m : StateMachine) (next : ServiceState)
    → Reaches s m.state
    → Reaches s (try_transition m next).1.state
unfolding try_transition
try_transition-Reaches s m next r = elim (Bool-cases (can_transition_to m.state next)) [
  | inl e ↦ rw e (step r e)
  | inr e ↦ rw e r
]

request_all-Reaches_from :
    (s : ServiceState) (m : StateMachine) (requests : List ServiceState)
    → Reaches s m.state
    → Reaches s (request_all m requests).state
unfolding request_all
request_all-Reaches_from s m [] r = r
request_all-Reaches_from s m (next ∷ rest) r =
    request_all-Reaches_from s (try_transition m next).1 rest (try_transition-Reaches s m next r)

-- Whatever is requested, the machine only follows the edges of the diagram.
pub request_all-Reaches :
    (m : StateMachine) (requests : List ServiceState)
    → Reaches m.state (request_all m requests).state
request_all-Reaches m requests = request_all-Reaches_from m.state m requests here

terminal_refuses :
    (m : StateMachine) (next : ServiceState)
    → is_terminal m.state ≡ true
    → try_transition m next ≡ (err (record { from = m.state; to = next }), m)
unfolding try_transition
terminal_refuses m next h = rw ((is_terminal_iff m.state).0 h next)

-- In a terminal state the machine stays, whatever is requested, and it answers each request with
-- the refused edge.
request_all-is_terminal :
    (m : StateMachine) (requests : List ServiceState) (next : ServiceState)
    → is_terminal m.state ≡ true
    → (request_all m requests ≡ m)
      × ((try_transition (request_all m requests) next).0
          ≡ err (record { from = m.state; to = next }))
unfolding request_all
request_all-is_terminal m [] next h = (refl, rw (terminal_refuses m next h))
request_all-is_terminal m (first ∷ rest) next h =
    rw (terminal_refuses m first h) (request_all-is_terminal m rest next h)

-- Every state can be reached from a new machine, and from every state a terminal one can.
pub reachable :
    (s : ServiceState)
    → Reaches new_machine.state s × ((t : ServiceState) × Reaches s t × (is_terminal t ≡ true))
unfolding can_transition_to is_terminal
reachable pending = (here, (stopped, step here refl, refl))
reachable starting = (step here refl, (failed, step here refl, refl))
reachable running = (step {t = starting} (step here refl) refl, (failed, step here refl, refl))
reachable backoff = (step {t = starting} (step here refl) refl, (failed, step here refl, refl))
reachable stopping = (step {t = starting} (step here refl) refl, (failed, step here refl, refl))
reachable stopped = (step here refl, (stopped, here, refl))
reachable exited = (step {t = starting} (step here refl) refl, (exited, here, refl))
reachable failed = (step {t = starting} (step here refl) refl, (failed, here, refl))

-- Two states that are displayed alike are one.
pub state_name-injective : (s t : ServiceState) → state_name s ≡ state_name t → s ≡ t
unfolding state_name
state_name-injective s t h = ground arith
