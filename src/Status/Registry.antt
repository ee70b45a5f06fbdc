-- ===== src/Status/Registry.antt =====
-- What the registry says of which service.
use servicrab.Base.{
  match_option_ind, ℕ, Bool, true, false, if◌then◌else◌, Option, none, some, List, [], ◌∷◌, Text,
  same, same_iff, same_refl, map, ◌≡◌, refl, ap, ◌∙◌, subst, inl, inr, arith, Option-cases,
}
use servicrab.Base.Count.{contains}
use servicrab.Base.Map
use servicrab.Base.Map.{BTreeMap}
use servicrab.Base.Alter.{get-retain}
use servicrab.Event.{ServiceEvent}
use servicrab.Status.{
  Entry, new_entry, ServiceStatus, StatusRegistry, names, or_insert_all, sync, apply_kind, apply,
  statuses, snapshot,
}

-- The first flag that the list has for a service.
unfoldable pub flag_of : Text → List (Text × Bool) → Bool
flag_of k [] = false
flag_of k ((name, has_health) ∷ services) =
    let rest = flag_of k services in if same name k then has_health else rest

get-or_insert_all :
    (m : BTreeMap Entry) (services : List (Text × Bool)) (k : Text)
    → Map.get (or_insert_all m services) k ≡ (
        if contains (names services) k
        then some (Map.unwrap_or (new_entry (flag_of k services)) (Map.get m k))
        else Map.get m k)
unfolding or_insert_all flag_of
get-or_insert_all m [] k = refl
get-or_insert_all m ((name, has_health) ∷ services) k = ground (
  arith,
  get-or_insert_all (Map.or_insert name (new_entry has_health) m) services k,
  Map.get-or_insert m name k (new_entry has_health),
  same_iff name k,
)

-- A reload leaves the entry of every service that stays as it is, whatever the new configuration
-- says of its health check, makes a new entry for every service that is new, and drops all others.
pub get-sync :
    (r : StatusRegistry) (services : List (Text × Bool)) (k : Text)
    → Map.get (sync r services).services k ≡ (
        if contains (names services) k
        then some (Map.unwrap_or (new_entry (flag_of k services)) (Map.get r.services k))
        else none)
unfolding sync
get-sync r services k = ground (
  arith,
  get-retain (λ name. contains (names services) name) (or_insert_all r.services services) k,
  get-or_insert_all r.services services k,
)

-- The events of a list in turn, each with its time.
unfoldable pub apply_all : StatusRegistry → List (ℕ × ServiceEvent) → StatusRegistry
apply_all r [] = r
apply_all r ((now, event) ∷ events) = apply_all (apply now r event) events

-- What the events of one service make of its entry.
unfoldable pub fold_entry : Text → Entry → List (ℕ × ServiceEvent) → Entry
fold_entry k e [] = e
fold_entry k e ((now, event) ∷ events) =
    fold_entry k (if same event.service k then apply_kind now event.kind e else e) events

unfoldable pub on_entry : Text → List (ℕ × ServiceEvent) → Option Entry → Option Entry
on_entry k events none = none
on_entry k events (some e) = some (fold_entry k e events)

on_entry_none : (k : Text) (o : Option Entry) → o ≡ on_entry k [] o
unfolding on_entry fold_entry
on_entry_none k none = refl
on_entry_none k (some e) = refl

order-apply :
    (now : ℕ) (r : StatusRegistry) (event : ServiceEvent) → (apply now r event).order ≡ r.order
unfolding apply
order-apply now r event =
    match_option_ind (λ (s : StatusRegistry). s.order ≡ r.order) (Map.get r.services event.service)
      (λ _. refl) (λ _ _. refl)

get-apply :
    (now : ℕ) (r : StatusRegistry) (event : ServiceEvent) (k : Text)
    → Map.get (apply now r event).services k ≡ on_entry k ((now, event) ∷ []) (Map.get r.services k)
unfolding apply on_entry fold_entry
get-apply now r event k = elim (Option-cases (Map.get r.services event.service)) [
  | inl absent ↦ elim (Option-cases (Map.get r.services k)) [
    | inl none_too ↦ ground (arith, absent, none_too)
    | inr (e, found) ↦ ground (arith, absent, found, same_iff event.service k)
  ]
  | inr (e, found) ↦ elim (Option-cases (Map.get r.services k)) [
    | inl absent ↦ ground (
      arith,
      absent,
      found,
      same_iff event.service k,
      Map.get-insert r.services event.service k (apply_kind now event.kind e),
    )
    | inr (e', found') ↦ ground (
      arith,
      found,
      found',
      same_iff event.service k,
      Map.get-insert r.services event.service k (apply_kind now event.kind e),
    )
  ]
]

on_entry_turn :
    (k : Text) (now : ℕ) (event : ServiceEvent) (events : List (ℕ × ServiceEvent))
    (o : Option Entry)
    → on_entry k events (on_entry k ((now, event) ∷ []) o) ≡ on_entry k ((now, event) ∷ events) o
unfolding on_entry fold_entry
on_entry_turn k now event events none = refl
on_entry_turn k now event events (some e) = refl

-- The events of the service alone count.
pub get-fold :
    (r : StatusRegistry) (events : List (ℕ × ServiceEvent)) (k : Text)
    → Map.get (apply_all r events).services k ≡ on_entry k events (Map.get r.services k)
unfolding apply_all
get-fold r [] k = on_entry_none k (Map.get r.services k)
get-fold r ((now, event) ∷ events) k =
    get-fold (apply now r event) events k
    ∙ ap (on_entry k events) (get-apply now r event k)
    ∙ on_entry_turn k now event events (Map.get r.services k)

statuses_names :
    (now : ℕ) (services : BTreeMap Entry) (order : List Text)
    → ((k : Text) → contains order k ≡ true → Map.is_some (Map.get services k) ≡ true)
    → map (λ (s : ServiceStatus). s.name) (statuses now services order) ≡ order
statuses_names now services [] h = refl
statuses_names now services (name ∷ order) h =
    match_option_ind
      (λ (l : List ServiceStatus). map (λ (s : ServiceStatus). s.name) l ≡ name ∷ order)
      (Map.get services name) (λ absent. absurd (ground (arith, absent, h name, same_refl name)))
      λ e found.
        ap (λ (l : List Text). name ∷ l)
          (statuses_names now services order (λ k inside. h k (ground (arith, inside))))

order-apply_all :
    (r : StatusRegistry) (events : List (ℕ × ServiceEvent)) → (apply_all r events).order ≡ r.order
unfolding apply_all
order-apply_all r [] = refl
order-apply_all r ((now, event) ∷ events) =
    order-apply_all (apply now r event) events ∙ order-apply now r event

order-sync :
    (r : StatusRegistry) (services : List (Text × Bool)) → (sync r services).order ≡ names services
unfolding sync
order-sync r services = refl

-- Whatever events came since the last reload, a snapshot has one status for each service of that
-- reload, in its order.
snapshot-sync :
    (r : StatusRegistry) (services : List (Text × Bool)) (events : List (ℕ × ServiceEvent))
    (now : ℕ)
    → map (λ (s : ServiceStatus). s.name) (snapshot now (apply_all (sync r services) events))
      ≡ names services
unfolding snapshot on_entry
snapshot-sync r services events now =
    let r' = apply_all (sync r services) events in
    let same_order : r'.order ≡ names services =
      order-apply_all (sync r services) events ∙ order-sync r services in
    statuses_names now r'.services r'.order (λ k inside.
      let among : contains (names services) k ≡ true =
        subst (λ l. contains l k ≡ true) same_order inside in
      rw (get-fold (sync r services) events k, get-sync r services k, among) refl)
    ∙ same_order
