-- ===== src/Stack/Waits.antt =====
-- `stop_all` by the service that its actions are about.
use servicrab.Base.{
  zero, suc, ◌+◌, Bool, true, false, if◌then◌else◌, Option, none, some, List, [], ◌∷◌, ◌++◌, Text,
  same, ℤ, pos, negsuc,
}
use servicrab.Base.Map
use servicrab.Config.{Service}
use servicrab.Lifecycle.{ShutdownReason, Duration}
use servicrab.Stack.{RunState, Slot}
use servicrab.Stack.Shutdown.{Action, send_stop, wait, sweep, abort}

abbrev service_of : Action → Text
service_of (send_stop service _) = service
service_of (wait service _) = service
service_of (sweep service _) = service
service_of (abort service) = service

-- The actions for one service, in order.
abbrev pub actions_for : Text → List Action → List Action
actions_for k [] = []
actions_for k (a ∷ actions) =
    let rest = actions_for k actions in if same (service_of a) k then a ∷ rest else rest

-- The process group that a service last reported, if it has one.
abbrev pub group_of : Option Slot → ℤ
group_of none = pos 0
group_of (some slot) = slot.pgid

abbrev pub timeout_of : Option Service → Duration
timeout_of none = 0
timeout_of (some service) = service.shutdown_timeout

-- The end of a process group, where there is one: `0` stands for none.
abbrev pub group_ended : Text → ℤ → List Action
group_ended k (pos zero) = []
group_ended k (pos (suc n)) = sweep k (pos (suc n)) ∷ []
group_ended k (negsuc n) = sweep k (negsuc n) ∷ []

-- A stop, a wait for the service's own timeout and five seconds more, and if that is not enough
-- the end of its process group and of its task.
abbrev pub stopped_in_full : RunState → ShutdownReason → Bool → Text → List Action
stopped_in_full st reason true k =
    send_stop k reason ∷ wait k (timeout_of (Map.get st.config.services k) + 5000000000) ∷ []
stopped_in_full st reason false k =
    send_stop k reason
    ∷ wait k (timeout_of (Map.get st.config.services k) + 5000000000)
    ∷ (group_ended k (group_of (Map.get st.slots k)) ++ abort k ∷ [])

module _ (st : RunState) (reason : ShutdownReason) (in_time : Text → Bool) (k : Text) where
  -- What one turn does for a service that has a stop channel.
  abbrev asked : Bool → List Action
  asked true = stopped_in_full st reason (in_time k) k
  asked false = send_stop k reason ∷ []
