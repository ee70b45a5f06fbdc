-- ===== src/Stopped/Changes.antt =====
-- crates/servicrab-cli/src/daemon/stopped.rs: `record`, `reconcile` and `held_back`, against what is read
-- of the file.
use servicrab.Base.{
  Bool, true, false, ◌&&◌, not, Option, some, List, [], ◌∷◌, Text, filter, if◌then◌else◌, if_ind,
  ◌≡◌, refl, ap, ◌↔◌, sym, inl, inr, Bool-cases, All, same, same_iff, before, arith, Result, ok,
  err,
}
use servicrab.Base.Count.{contains}
use servicrab.Base.Map
use servicrab.Base.Set
use servicrab.Base.Set.{BTreeSet, contains-insert, contains-remove}
use servicrab.Config.{Config}
use servicrab.Plan.Grown.{Needs}
use servicrab.Plan.Held.{IsInOrder, with_dependents_iff}
use servicrab.Stopped.{
  read, render, write_atomically, change, record_stop, is_none, replace, dropped_or, reconcile,
  is_unless_stopped, seeds, held_back,
}
use servicrab.Stopped.Names.{
  IsName, IsAscending, AreNames, insert-AreNames, remove-AreNames, read-AreNames,
}
use servicrab.Stopped.RoundTrip.{parse-render}

-- What is read of a file that has just been written.
read-render : (names : BTreeSet) → AreNames names → read (some (render names)) ≡ names
unfolding read
read-render names h = parse-render names h

-- For a service whose name can stand in the file, which is trimmed, not empty, on one line and no
-- comment: once the write succeeds, the file remembers the service exactly if it was stopped, and
-- every other name as before; if the write fails, the file stays as it was.
pub record_stop_lem :
    (file : Option Text) (service name problem : Text) (stopped : Bool)
    → IsName service
    → (contains (read (record_stop (ok tt) file service stopped).0) name
        ≡ (if same service name then stopped else contains (read file) name))
      × ((record_stop (err problem) file service stopped).0 ≡ file)
unfolding record_stop change write_atomically
record_stop_lem file service name problem true valid =
    let names = read file in
    let new = Set.insert service names in
    let back = read-render new (insert-AreNames service names valid (read-AreNames file)) in
    (
      if_ind
          (λ (r : Option Text × Result Text (Unit {0})).
            contains (read r.0) name ≡ (if same service name then true else contains names name))
          (not (contains names service))
          (λ _. ground (arith, ap (λ l. contains l name) back, contains-insert names service name))
          (λ known. ground (arith, known, same_iff service name)),
      if_ind (λ (r : Option Text × Result Text (Unit {0})). r.0 ≡ file)
          (not (contains names service)) (λ _. refl) (λ _. refl),
    )
record_stop_lem file service name problem false valid =
    let names = read file in
    let back =
      read-render (Set.remove service names) (remove-AreNames service names (read-AreNames file)) in
    (
      if_ind
          (λ (r : Option Text × Result Text (Unit {0})).
            contains (read r.0) name ≡ (if same service name then false else contains names name))
          (contains names service)
          (λ _. ground (arith, ap (λ l. contains l name) back, contains-remove names service name))
          (λ known. ground (arith, known, same_iff service name)),
      if_ind (λ (r : Option Text × Result Text (Unit {0})). r.0 ≡ file) (contains names service)
          (λ _. refl) (λ _. refl),
    )

filter-All : (P : Text → Type 0) (p : Text → Bool) (xs : List Text) → All P xs → All P (filter p xs)
filter-All P p [] h = tt
filter-All P p (x ∷ xs) h =
    if_ind (All P) (p x) (λ _. (h.0, filter-All P p xs h.1)) (λ _. filter-All P p xs h.1)

filter-IsAscending : (p : Text → Bool) (xs : BTreeSet) → IsAscending xs → IsAscending (filter p xs)
filter-IsAscending p [] h = tt
filter-IsAscending p (x ∷ xs) h =
    if_ind IsAscending (p x)
      (λ _. (filter-All (λ y. before x y ≡ true) p xs h.0, filter-IsAscending p xs h.1))
      (λ _. filter-IsAscending p xs h.1)

filter-AreNames : (p : Text → Bool) (xs : BTreeSet) → AreNames xs → AreNames (filter p xs)
filter-AreNames p xs h = record {
  ascending = filter-IsAscending p xs h.ascending;
  each = filter-All IsName p xs h.each;
}

-- Nothing is dropped: all is kept.
all_kept :
    (p : Text → Bool) (xs : List Text)
    → is_none (filter (λ x. not (p x)) xs) ≡ true
    → filter p xs ≡ xs
all_kept p [] h = refl
all_kept p (x ∷ xs) h = elim (Bool-cases (p x)) [
  | inl at ↦ rw at (ap (λ l. x ∷ l) (all_kept p xs (rw at at h)))
  | inr out ↦ absurd (ground (arith, rw out at h))
]

-- What is left once the write or the removal has succeeded.
dropped_or-replace :
    (dropped kept : BTreeSet) (file : Option Text)
    → AreNames kept
    → (read (dropped_or dropped (replace (ok tt) kept file)).0 ≡ kept)
      × ((dropped_or dropped (replace (ok tt) kept file)).1 ≡ ok dropped)
unfolding dropped_or replace write_atomically read
dropped_or-replace dropped [] file h = (refl, refl)
dropped_or-replace dropped (name ∷ kept) file h = (parse-render (name ∷ kept) h, refl)

-- Once the write or the removal of the file succeeds, the file remembers exactly those of its names
-- that the configuration has a service of, and the other ones are reported.
pub reconcile_lem :
    (file : Option Text) (config : Config)
    → (read (reconcile (ok tt) file config).0
        ≡ filter (λ name. Map.contains_key config.services name) (read file))
      × ((reconcile (ok tt) file config).1
          ≡ ok (filter (λ name. not (Map.contains_key config.services name)) (read file)))
unfolding reconcile
reconcile_lem file config =
    let known : Text → Bool = λ name. Map.contains_key config.services name in
    let names = read file in
    let kept = filter known names in
    let dropped = filter (λ name. not (known name)) names in
    let Fine : Option Text × Result Text BTreeSet → Type 0 =
      λ r. (read r.0 ≡ kept) × (r.1 ≡ ok dropped) in
    if_ind Fine (is_none names)
      (λ empty.
        let (kept_none, dropped_none) = nothing known names empty in
        (kept_none, ap ok dropped_none))
      λ some_names.
        if_ind Fine (is_none dropped)
          (λ none_dropped. (sym (all_kept known names none_dropped), refl))
          λ some_dropped.
            dropped_or-replace dropped kept file (filter-AreNames known names (read-AreNames file))
  where
    nothing :
        (p : Text → Bool) (names : BTreeSet)
        → is_none names ≡ true
        → (names ≡ filter p names) × ([] ≡ filter (λ name. not (p name)) names)
    nothing p [] h = (refl, refl)
    nothing p (name ∷ names) h = absurd (ground arith)

contains-seeds :
    (config : Config) (plan : List Text) (remembered : BTreeSet) (k : Text)
    → contains (seeds config plan remembered) k ≡ (
        (contains plan k && contains remembered k) && is_unless_stopped (Map.get config.services k))
unfolding seeds
contains-seeds config [] remembered k = ground arith
contains-seeds config (name ∷ plan) remembered k =
    let rest = contains-seeds config plan remembered k in
    let added = contains-insert (seeds config plan remembered) name k in
    elim (Bool-cases (same name k)) [
      | inl at ↦
          let here = (same_iff name k).0 at in
          let moved =
            ap (λ n. contains remembered n && is_unless_stopped (Map.get config.services n)) here in
          ground (arith, at, moved, rest, added)
      | inr other ↦ ground (arith, other, rest, added)
    ]

-- A service that needs one that is planned, was stopped by hand and asks to stay so.
abbrev pub IsHeldBy : Config → List Text → BTreeSet → Text → Text → Type 0
IsHeldBy config plan remembered k seed =
    (contains plan seed ≡ true)
    × (contains remembered seed ≡ true)
    × (is_unless_stopped (Map.get config.services seed) ≡ true)
    × Needs config k seed

contains-is_none : (names : BTreeSet) (k : Text) → is_none names ≡ true → contains names k ≡ false
contains-is_none [] k h = refl
contains-is_none (name ∷ names) k h = absurd (ground arith)

-- For a plan in which each service stands behind all of its dependencies, the services that are not
-- started are exactly those of the plan that need, by however many dependencies, a service of the
-- plan that was stopped by hand and restarts unless it was stopped.
pub held_back_iff :
    (config : Config) (plan : List Text) (remembered : BTreeSet) (k : Text)
    → IsInOrder config [] plan
    → (contains (held_back config plan remembered) k ≡ true)
      ↔ (contains plan k ≡ true) × ((seed : Text) × IsHeldBy config plan remembered k seed)
unfolding held_back
held_back_iff config plan remembered k ordered =
    let chosen = seeds config plan remembered in
    let member = contains-seeds config plan remembered in
    let whole = with_dependents_iff config plan chosen k ordered in
    let Holds : BTreeSet → Type 0 = λ held.
      (contains held k ≡ true)
      ↔ (contains plan k ≡ true) × ((seed : Text) × IsHeldBy config plan remembered k seed) in
    if_ind Holds (is_none chosen)
      (λ empty. (
        (λ h. absurd (ground arith)),
        (λ (inside, (seed, (planned, known, asks, needs))). absurd (
            ground (arith, planned, known, asks, member seed, contains-is_none chosen seed empty))),
      ))
      λ some_chosen. (
        (λ h.
            let (inside, (seed, picked, planned, needs)) = whole.0 h in
            (
              inside,
              (
                seed,
                (
                  planned,
                  ground (arith, picked, member seed),
                  ground (arith, picked, member seed),
                  needs,
                ),
              ),
            )),
        (λ (inside, (seed, (planned, known, asks, needs))).
            whole.1
              (inside, (seed, ground (arith, planned, known, asks, member seed), planned, needs))),
      )
