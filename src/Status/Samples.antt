-- ===== src/Status/Samples.antt =====
-- The theorems at concrete inputs: an API with a health check and a database.
use servicrab.Base.{
  ℕ, Bool, true, false, if◌then◌else◌, none, some, List, [], ◌∷◌, Text, codes, pos, same, before,
  ◌≡◌, refl,
}
use servicrab.Base.Count.{contains}
use servicrab.Base.Map
use servicrab.Base.Alter.{retain}
use servicrab.Event.{EventKind, ServiceEvent}
use servicrab.Lifecycle.{ServiceState}
use servicrab.Status.{new_entry, StatusRegistry, names, new_registry, sync}
use servicrab.Status.Registry.{flag_of, get-sync}

abbrev api : Text
api = codes "api"

abbrev db : Text
db = codes "db"

abbrev checked : List (Text × Bool)
checked = (db, false) ∷ (api, true) ∷ []

abbrev r0 : StatusRegistry
r0 = new_registry ((api, false) ∷ [])

abbrev events : List (ℕ × ServiceEvent)
events =
    (5, record { service = api; kind = EventKind.state ServiceState.starting })
    ∷ (6, record { service = db; kind = EventKind.started (pos 42) })
    ∷ (9, record { service = api; kind = EventKind.healthy })
    ∷ []

-- A health check that a reload adds is not shown as starting.
added_check : (Map.get (sync r0 checked).services api) ≡ some (new_entry false)
unfolding new_registry sync Map.get Map.insert Map.or_insert retain same before
added_check = refl

get-sync_example : Map.get (sync r0 checked).services api ≡ (
    if contains (names checked) api
    then some (Map.unwrap_or (new_entry (flag_of api checked)) (Map.get r0.services api))
    else none)
get-sync_example = get-sync r0 checked api
