-- ===== src/Stack/Reloads.antt =====
-- A reload acts on the difference to the running configuration alone.
use servicrab.Base.{
  ◌≤◌, true, false, not, ◌&&◌, none, some, List, Text, ◌≡◌, inl, inr, arith, Bool-cases,
  Option-cases,
}
use servicrab.Base.Count.{count, contains, contains-filter}
use servicrab.Base.Map
use servicrab.Base.Map.{BTreeMap}
use servicrab.Config.{Config}
use servicrab.Stack.{RunState, is_added, is_changed, apply_diff, reload_stack, diff, first_busy}
use servicrab.Stack.Tasks.{IsTracked}
use servicrab.Stack.Reached.{NoDuplicates}
use servicrab.Stack.Turns.{
  reload_of, planned, but_deps, turned_slots, get-apply_diff, filter_once, turns_planned,
  turns_dropped,
}

-- The plan of a reload: each service of it once, and all of them configured.
abbrev pub IsPlanOf : Config → List Text → Type 0
IsPlanOf config plan =
    NoDuplicates plan
    × ((k : Text) → contains plan k ≡ true → Map.is_some (Map.get config.services k) ≡ true)

-- The flags of a name in the difference.
contains-diff :
    (st : RunState) (config : Config) (plan : List Text) (k : Text)
    → (contains (diff st config plan).added k ≡ (is_added (Map.get st.slots k) && contains plan k))
      × (contains (diff st config plan).changed k
          ≡ (is_changed (Map.get config.services k) (Map.get st.slots k) && contains plan k))
      × (contains (diff st config plan).removed k
          ≡ (not (contains plan k) && Map.is_some (Map.get st.slots k)))
unfolding diff
contains-diff st config plan k = (
  contains-filter _ k plan,
  contains-filter _ k plan,
  rw (← Map.contains_key_lem st.slots k) (contains-filter _ k (Map.keys st.slots)),
)

diff_once :
    (st : RunState) (config : Config) (plan : List Text) (k : Text)
    → Map.IsMap st.slots
    → count k plan ≤ 1
    → (count k (diff st config plan).added ≤ 1)
      × (count k (diff st config plan).changed ≤ 1)
      × (count k (diff st config plan).removed ≤ 1)
unfolding diff
diff_once st config plan k m once = (
  filter_once _ k plan once,
  filter_once _ k plan once,
  filter_once _ k (Map.keys st.slots) (ground (arith, Map.count-keys st.slots k m)),
)

apply_diff-reload_of :
    (config : Config) (plan : List Text) (st : RunState) (k : Text)
    → IsTracked st
    → IsPlanOf config plan
    → but_deps (Map.get (apply_diff config plan (diff st config plan) st).slots k)
      ≡ but_deps (reload_of (planned config plan k) (Map.get st.slots k))
apply_diff-reload_of config plan st k h p =
    let d = diff st config plan in
    let o = Map.get st.slots k in
    let (a, c, r) = diff_once st config plan k h.0 (p.0 k) in
    let (is_a, is_c, is_r) = contains-diff st config plan k in
    elim (Bool-cases (contains plan k)) [
      | inl inside ↦ elim (Option-cases (Map.get config.services k)) [
        | inl missing ↦ absurd (ground (arith, p.1 k inside, missing))
        | inr (service, configured) ↦
            let fa : contains d.added k ≡ is_added o = ground (arith, is_a, inside) in
            let fc : contains d.changed k ≡ is_changed (some service) o =
              ground (arith, is_c, inside, configured) in
            let fr : contains d.removed k ≡ false = ground (arith, is_r, inside) in
            let new : planned config plan k ≡ some service = ground (arith, inside, configured) in
            rw (get-apply_diff config plan d st k a c r, fa, fc, fr, new)
              (turns_planned config (turned_slots config d st.slots) k (count k st.tasks) service o
                configured (h.2 k))
      ]
      | inr outside ↦
          let fa : contains d.added k ≡ false = ground (arith, is_a, outside) in
          let fc : contains d.changed k ≡ false = ground (arith, is_c, outside) in
          let fr : contains d.removed k ≡ Map.is_some o = ground (arith, is_r, outside) in
          let new : planned config plan k ≡ none = ground (arith, outside) in
          rw (get-apply_diff config plan d st k a c r, fa, fc, fr, new)
            (turns_dropped config (turned_slots config d st.slots) k (count k st.tasks) o (h.2 k))
    ]

-- A reload with a plan of configured services, none twice, where no command waits, makes of each
-- service what its old slot and its new definition call for, its edges apart: a service with the
-- same definition keeps its slot as it is, a changed one is asked to stop and to come back if it
-- runs, a new one is started, a dropped one is asked to stop or is taken out, and one on its way out
-- comes back behind its old process.
pub reload_stack-reload_of :
    (config : Config) (plan : List Text) (st : RunState) (k : Text)
    → IsTracked st
    → IsPlanOf config plan
    → first_busy st.slots ≡ none
    → but_deps (Map.get (reload_stack config plan st).1.slots k)
      ≡ but_deps (reload_of (planned config plan k) (Map.get st.slots k))
unfolding reload_stack
reload_stack-reload_of config plan st k h p quiet =
    let same_state : (reload_stack config plan st).1
        ≡ apply_diff config plan (diff st config plan) st =
      ground (arith, quiet) in
    rw same_state (apply_diff-reload_of config plan st k h p)
