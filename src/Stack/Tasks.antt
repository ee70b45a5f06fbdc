-- ===== src/Stack/Tasks.antt =====
-- The count of the running services, the stop channels and the handles of the slots, against the
-- supervision tasks that live.
use servicrab.Base.{
  ℕ, ◌==◌, Bool, true, false, ◌&&◌, ◌||◌, not, if◌then◌else◌, if_ind, match_option_ind, Option,
  none, some, List, [], ◌∷◌, Text, same_iff, length, ◌≡◌, arith,
}
use servicrab.Base.Count.{count}
use servicrab.Base.Map
use servicrab.Base.Map.{BTreeMap}
use servicrab.Base.Entries.{get-map_values, map_values-IsMap}
use servicrab.Base.Alter.{alter_all, alter_all-IsMap, alter_all-keeps}
use servicrab.Config.{Config}
use servicrab.Stack.{
  Slot, RunState, spawn, put_slot, spawn_slot, rewire, rewire_dependencies, remove_turn, add_turn,
  change_turn, start_turn, start_added, apply_diff, ConfigDiff,
}

abbrev same_flag : Bool → Bool → Bool
same_flag true b = b
same_flag false b = not b

abbrev flag : Bool → ℕ
flag b = if b then 1 else 0

-- A slot has a stop channel and a handle exactly while one task of it lives, and only then a command
-- that waits, a restart to come or a removal to come.
abbrev pub fits : ℕ → Option Slot → Bool
fits n none = n == 0
fits n (some slot) =
    (n == flag slot.handle)
    && same_flag (Map.is_some slot.stop) slot.handle
    && (slot.handle || not (Map.is_some slot.pending || slot.restart_when_stopped || slot.retired))

abbrev pub Fits : List Text → BTreeMap Slot → Type 0
Fits tasks slots = (k : Text) → fits (count k tasks) (Map.get slots k) ≡ true

abbrev pub IsTracked : RunState → Type 0
IsTracked st = Map.IsMap st.slots × (st.running ≡ length st.tasks) × Fits st.tasks st.slots

fits-alter_all :
    (tasks : List Text) (g : Text → Option Slot → Option Slot) (ks : List Text) (m : BTreeMap Slot)
    → ((k : Text) (n : ℕ) (o : Option Slot) → fits n o ≡ true → fits n (g k o) ≡ true)
    → Fits tasks m
    → Fits tasks (alter_all g ks m)
fits-alter_all tasks g ks m keeps h =
    alter_all-keeps (λ k o. fits (count k tasks) o ≡ true) g ks m (λ k o. keeps k (count k tasks) o)
      h

remove_turn-fits :
    (k : Text) (n : ℕ) (o : Option Slot) → fits n o ≡ true → fits n (remove_turn k o) ≡ true
remove_turn-fits k n o h = ground arith

add_turn-fits :
    (config : Config) (k : Text) (n : ℕ) (o : Option Slot)
    → fits n o ≡ true
    → fits n (add_turn config k o) ≡ true
add_turn-fits config k n o h = ground arith

change_turn-fits :
    (config : Config) (k : Text) (n : ℕ) (o : Option Slot)
    → fits n o ≡ true
    → fits n (change_turn config k o) ≡ true
change_turn-fits config k n o h = ground arith

rewire-fits :
    (config : Config) (slots : BTreeMap Slot) (k : Text) (n : ℕ) (slot : Slot)
    → fits n (some slot) ≡ true
    → fits n (some (rewire config slots k slot)) ≡ true
rewire-fits config slots k n slot h = ground arith

rewired-fits :
    (config : Config) (slots : BTreeMap Slot) (k : Text) (n : ℕ) (o : Option Slot)
    → fits n o ≡ true
    → fits n (elim o [ none ↦ none | some slot ↦ some (rewire config slots k slot) ]) ≡ true
rewired-fits config slots k n none h = h
rewired-fits config slots k n (some slot) h = rewire-fits config slots k n slot h

-- A slot of its own that changes, with the tasks of its name.
pub IsTracked-put :
    (st : RunState) (name : Text) (slot : Slot)
    → IsTracked st
    → fits (count name st.tasks) (some slot) ≡ true
    → IsTracked (put_slot name slot st)
IsTracked-put st name slot (m, r, f) h = (
  Map.insert-IsMap name slot st.slots m,
  r,
  λ k. ground (arith, Map.get-insert st.slots name k slot, same_iff name k, f k, h),
)

pub IsTracked-spawn :
    (st : RunState) (name : Text) (slot : Slot)
    → IsTracked st
    → count name st.tasks ≡ 0
    → IsTracked (spawn_slot name slot st)
IsTracked-spawn st name slot (m, r, f) h = (
  Map.insert-IsMap name (spawn slot) st.slots m,
  omega (arith, r),
  λ k. ground (arith, Map.get-insert st.slots name k (spawn slot), same_iff name k, f k, h),
)

IsTracked-start_turn : (st : RunState) (name : Text) → IsTracked st → IsTracked (start_turn st name)
IsTracked-start_turn st name h =
    match_option_ind IsTracked (Map.get st.slots name) (λ _. h)
      λ slot found.
        if_ind IsTracked (slot.restart_when_stopped || slot.handle) (λ _. h)
          λ idle. IsTracked-spawn st name slot h (ground (arith, h.2 name, found, idle))

IsTracked-start_added :
    (names : List Text) (st : RunState) → IsTracked st → IsTracked (start_added names st)
unfolding start_added
IsTracked-start_added [] st h = h
IsTracked-start_added (name ∷ names) st h =
    IsTracked-start_added names (start_turn st name) (IsTracked-start_turn st name h)

pub IsTracked-rewire_dependencies :
    (st : RunState) → IsTracked st → IsTracked (rewire_dependencies st)
unfolding rewire_dependencies
IsTracked-rewire_dependencies st (m, r, f) = (
  map_values-IsMap (rewire st.config st.slots) st.slots m,
  r,
  λ k.
      rw (get-map_values (rewire st.config st.slots) st.slots k)
        (rewired-fits st.config st.slots k (count k st.tasks) (Map.get st.slots k) (f k)),
)

pub IsTracked-apply_diff :
    (config : Config) (plan : List Text) (d : ConfigDiff) (st : RunState)
    → IsTracked st
    → IsTracked (apply_diff config plan d st)
unfolding apply_diff
IsTracked-apply_diff config plan d st (m, r, f) =
    let removed = alter_all remove_turn d.removed st.slots in
    let added = alter_all (add_turn config) d.added removed in
    let changed = alter_all (change_turn config) d.changed added in
    let f_removed = fits-alter_all st.tasks remove_turn d.removed st.slots remove_turn-fits f in
    let f_added =
      fits-alter_all st.tasks (add_turn config) d.added removed (add_turn-fits config) f_removed in
    let f_changed =
      fits-alter_all st.tasks (change_turn config) d.changed added (change_turn-fits config)
        f_added in
    let m_changed = alter_all-IsMap (change_turn config) d.changed added (
      alter_all-IsMap (add_turn config) d.added removed
        (alter_all-IsMap remove_turn d.removed st.slots m)) in
    IsTracked-start_added d.added
      (rewire_dependencies (record st { config = config; plan = plan; slots = changed }))
      (IsTracked-rewire_dependencies (record st { config = config; plan = plan; slots = changed })
        (m_changed, r, f_changed))
