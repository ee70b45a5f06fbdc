-- ===== src/Stack/Turns.antt =====
-- What a reload makes of each service, and what its loops do about it in their turns.
use servicrab.Base.{
  ℕ, ◌≤◌, Bool, true, false, ◌||◌, if◌then◌else◌, match_option_ind, Option, none, some, List, [],
  ◌∷◌, Text, same, same_iff, filter, ◌≡◌, refl, ◌∙◌, inl, inr, arith, Option-cases,
}
use servicrab.Base.Count.{count, contains, count-filter}
use servicrab.Base.Map
use servicrab.Base.Map.{BTreeMap}
use servicrab.Base.Entries.{get-map_values}
use servicrab.Base.Alter.{alter_all, get-alter_all}
use servicrab.Config.{Config, Service, service_eq}
use servicrab.Lifecycle.{requested}
use servicrab.Stack.{
  Slot, RunState, spawn, new_slot, rewire, rewire_dependencies, is_added, is_changed, remove_turn,
  add_turn, change_turn, start_turn, start_added, apply_diff, ConfigDiff,
}
use servicrab.Stack.Tasks.{fits}

abbrev stopping : Slot → Slot
stopping slot = record slot { stop = some (some requested) }

-- A service that the new configuration drops: its process is stopped, and the slot goes with it.
abbrev dropped : Slot → Option Slot
dropped slot =
    if slot.handle
    then some (stopping (record slot { retired = true; restart_when_stopped = false }))
    else none

-- A service that was on its way out comes back once its old process is gone.
abbrev revived : Service → Slot → Slot
revived service slot = record slot {
  retired = false;
  service = service;
  restart_when_stopped = true;
}

-- A service whose definition changed, running or not.
abbrev redefined : Service → Slot → Slot
redefined service slot =
    let slot' = record slot { service = service } in
    if slot.handle then stopping (record slot' { restart_when_stopped = true }) else slot'

abbrev kept : Service → Slot → Slot
kept service slot =
    if slot.retired
    then revived service slot
    else if service_eq service slot.service
    then slot
    else redefined service slot

-- What becomes of a service, given its new definition where the plan has it.
abbrev pub reload_of : Option Service → Option Slot → Option Slot
reload_of none none = none
reload_of none (some slot) = dropped slot
reload_of (some service) none = some (spawn (new_slot service))
reload_of (some service) (some slot) = some (kept service slot)

-- The new definition of a service of the plan.
abbrev pub planned : Config → List Text → Text → Option Service
planned config plan k = if contains plan k then Map.get config.services k else none

-- A slot but for its edges, which are wired anew.
abbrev pub but_deps : Option Slot → Option Slot
but_deps none = none
but_deps (some slot) = some (record slot { deps = [] })

abbrev pub started_slot : Option Slot → Option Slot
started_slot none = none
started_slot (some slot) =
    if slot.restart_when_stopped || slot.handle then some slot else some (spawn slot)

get-start_turn :
    (st : RunState) (name k : Text)
    → Map.get (start_turn st name).slots k
      ≡ (if same name k then started_slot (Map.get st.slots k) else Map.get st.slots k)
get-start_turn st name k = elim (Option-cases (Map.get st.slots name)) [
  | inl absent ↦ ground (arith, absent, same_iff name k)
  | inr (slot, found) ↦
      ground (arith, found, same_iff name k, Map.get-insert st.slots name k (spawn slot))
]

started_slot_twice : (o : Option Slot) → started_slot (started_slot o) ≡ started_slot o
started_slot_twice none = refl
started_slot_twice (some slot) = ground arith

pub get-start_added :
    (names : List Text) (st : RunState) (k : Text)
    → Map.get (start_added names st).slots k
      ≡ (if contains names k then started_slot (Map.get st.slots k) else Map.get st.slots k)
unfolding start_added
get-start_added [] st k = refl
get-start_added (name ∷ names) st k = ground (
  arith,
  get-start_added names (start_turn st name) k,
  get-start_turn st name k,
  started_slot_twice (Map.get st.slots k),
)

pub filter_once :
    (p : Text → Bool) (k : Text) (xs : List Text) → count k xs ≤ 1 → count k (filter p xs) ≤ 1
filter_once p k xs h = ground (arith, count-filter p k xs, h)

abbrev when : Bool → (Option Slot → Option Slot) → Option Slot → Option Slot
when b turn o = if b then turn o else o

abbrev pub rewired : Config → BTreeMap Slot → Text → Option Slot → Option Slot
rewired config slots k none = none
rewired config slots k (some slot) = some (rewire config slots k slot)

-- The turns of a name in the loops of a reload.
abbrev pub turns : Config → BTreeMap Slot → Text → Bool → Bool → Bool → Option Slot → Option Slot
turns config slots k added changed removed o = when added started_slot (
    rewired config slots k (
      when changed (change_turn config k)
        (when added (add_turn config k) (when removed (remove_turn k) o))))

pub get-rewire_dependencies :
    (st : RunState) (k : Text)
    → Map.get (rewire_dependencies st).slots k ≡ rewired st.config st.slots k (Map.get st.slots k)
unfolding rewire_dependencies
get-rewire_dependencies st k =
    get-map_values (rewire st.config st.slots) st.slots k
    ∙ as_clauses st.config st.slots (Map.get st.slots k)
  where
    as_clauses :
        (config : Config) (slots : BTreeMap Slot) (o : Option Slot)
        → elim o as (λ _. Option Slot) [
          | none ↦ none
          | some slot ↦ some (rewire config slots k slot)
        ]
          ≡ rewired config slots k o
    as_clauses config slots none = refl
    as_clauses config slots (some slot) = refl

-- The slots that the new ones are wired to.
abbrev pub turned_slots : Config → ConfigDiff → BTreeMap Slot → BTreeMap Slot
turned_slots config d slots =
    alter_all (change_turn config) d.changed
      (alter_all (add_turn config) d.added (alter_all remove_turn d.removed slots))

get-turned_slots :
    (config : Config) (d : ConfigDiff) (slots : BTreeMap Slot) (k : Text)
    → count k d.added ≤ 1
    → count k d.changed ≤ 1
    → count k d.removed ≤ 1
    → Map.get (turned_slots config d slots) k
      ≡ when (contains d.changed k) (change_turn config k) (
          when
            (contains d.added k)
            (add_turn config k)
            (when (contains d.removed k) (remove_turn k) (Map.get slots k)))
get-turned_slots config d slots k a c r =
    rw
      (
        get-alter_all (change_turn config) d.changed
            (alter_all (add_turn config) d.added (alter_all remove_turn d.removed slots)) k c,
        get-alter_all (add_turn config) d.added (alter_all remove_turn d.removed slots) k a,
        get-alter_all remove_turn d.removed slots k r,
      )
      refl

pub get-apply_diff :
    (config : Config) (plan : List Text) (d : ConfigDiff) (st : RunState) (k : Text)
    → count k d.added ≤ 1
    → count k d.changed ≤ 1
    → count k d.removed ≤ 1
    → Map.get (apply_diff config plan d st).slots k
      ≡ turns config
          (turned_slots config d st.slots)
          k
          (contains d.added k)
          (contains d.changed k)
          (contains d.removed k)
          (Map.get st.slots k)
unfolding apply_diff
get-apply_diff config plan d st k a c r =
    let st' = record st { config = config; plan = plan; slots = turned_slots config d st.slots } in
    rw
      (
        get-start_added d.added (rewire_dependencies st') k,
        get-rewire_dependencies st' k,
        get-turned_slots config d st.slots k a c r,
      )
      refl

rewire_fields :
    (config : Config) (slots : BTreeMap Slot) (k : Text) (slot : Slot)
    → rewire config slots k slot ≡ record slot { deps = (rewire config slots k slot).deps }
rewire_fields config slots k slot =
    match_option_ind (λ (s : Slot). s ≡ record slot { deps = s.deps }) (Map.get config.services k)
      (λ _. refl) (λ _ _. refl)

-- The edges of a slot change nothing else.
but_deps-start :
    (config : Config) (slots : BTreeMap Slot) (k : Text) (added : Bool) (o : Option Slot)
    → but_deps (when added started_slot (rewired config slots k o))
      ≡ but_deps (when added started_slot o)
but_deps-start config slots k added none = refl
but_deps-start config slots k false (some slot) = rw (rewire_fields config slots k slot) refl
but_deps-start config slots k true (some slot) = rw (rewire_fields config slots k slot) (
    started_fields slot (rewire config slots k slot).deps (slot.restart_when_stopped || slot.handle)
      refl)
  where
    started_fields :
        (slot : Slot) (deps : List _) (b : Bool)
        → slot.restart_when_stopped || slot.handle ≡ b
        → but_deps (started_slot (some (record slot { deps = deps })))
          ≡ but_deps (started_slot (some slot))
    started_fields slot deps true e = rw e refl
    started_fields slot deps false e = rw e refl

-- In the plan, with a definition.
pub turns_planned :
    (config : Config) (slots : BTreeMap Slot) (k : Text) (n : ℕ) (service : Service)
    (o : Option Slot)
    → Map.get config.services k ≡ some service
    → fits n o ≡ true
    → but_deps (turns config slots k (is_added o) (is_changed (some service) o) false o)
      ≡ but_deps (reload_of (some service) o)
turns_planned config slots k n service none e h =
    but_deps-start config slots k true (add_turn config k none) ∙ ground (arith, e)
turns_planned config slots k n service (some slot) e h =
    but_deps-start config slots k slot.retired _ ∙ ground (arith, e, h)

pub turns_dropped :
    (config : Config) (slots : BTreeMap Slot) (k : Text) (n : ℕ) (o : Option Slot)
    → fits n o ≡ true
    → but_deps (turns config slots k false false (Map.is_some o) o) ≡ but_deps (reload_of none o)
turns_dropped config slots k n none h = refl
turns_dropped config slots k n (some slot) h =
    but_deps-start config slots k false (remove_turn k (some slot)) ∙ ground (arith, h)
