-- ===== src/Graph/StartOrder.antt =====
-- What `topological_sort` returns.
use servicrab.Base.{
  ℕ, suc, ◌<◌, ◌≤◌, List, [], ◌∷◌, ◌++◌, ◌≡◌, true, Text, length, ◌==◌, ltb, if◌then◌else◌, if_ind,
  arith, Returns, Returns-bind, Returns-value, returned, Result, ok, err, Bool-cases, inl, inr,
  subst,
}
use mathlib.Core.List.{append-nil}
use servicrab.Base.Count.{count, contains, contains_iff, All-contains}
use servicrab.Base.Map
use servicrab.Base.Map.{BTreeMap}
use servicrab.Base.Set.{BTreeSet}
use servicrab.Graph.{
  Deps, DependencyCycle, build, seed, drain, find_cycle, finish, topological_sort,
}
use servicrab.Graph.Build.{deps_of, count-adj-build}
use servicrab.Graph.Tally.{tally, All-counted, missing_one}
use servicrab.Graph.Rounds.{pending_one, Inv}
use servicrab.Graph.Order.{IsStartOrder, tally_placed, drain_total, Inv-start, length-keys, fits}
use servicrab.Graph.Visits.{IsWalk, ShowsCycle}
use servicrab.Graph.Cycle.{find_cycle_total, find_cycle-ShowsCycle}

-- Every dependency is itself a service.
abbrev pub IsClosed : Deps → Type 0
IsClosed deps = (n d : Text) → contains (deps_of deps n) d ≡ true → Map.contains_key deps d ≡ true

-- Each service is in the list once, and nothing else is.
abbrev pub IsEachOnce : Deps → List Text → Type 0
IsEachOnce deps order = (n : Text) → count n order ≡ (if Map.contains_key deps n then 1 else 0)

module _ (deps : Deps) (sorted : Map.IsMap deps) (D : BTreeMap ℕ) (order : List Text)
    (inv : Inv deps D [] order []) where
  once : (k : Text) → count k order ≤ 1
  once k = ground (arith, inv.place k)

  tally_order : tally order (Map.keys deps) ≡ length order
  tally_order = omega (arith, rw append-nil at (tally_placed deps sorted D [] order inv))

  full-IsEachOnce : length order ≡ length deps → IsEachOnce deps order
  full-IsEachOnce full n = elim (Bool-cases (Map.contains_key deps n)) [
    | inl e ↦ rw e (
        All-contains (λ k. count k order ≡ 1) (Map.keys deps) n
          (All-counted order (Map.keys deps) once
            (omega (arith, tally_order, length-keys deps, full)))
          e)
    | inr e ↦ rw e (ground (arith, inv.place n, inv.entry n))
  ]

  abbrev remaining : BTreeSet
  remaining = Map.keys_where (λ deg. ltb 0 deg) D

  count-remaining : (n : Text) → count n remaining ≡ Map.hits (λ deg. ltb 0 deg) (Map.get D n)
  count-remaining n = Map.count-keys_where (λ deg. ltb 0 deg) n D inv.ascending

  remaining_once : (n : Text) → count n remaining ≤ 1
  remaining_once n = ground (arith, count-remaining n)

  remaining_of_unstarted :
      (n : Text) → Map.contains_key deps n ≡ true → count n order ≡ 0 → contains remaining n ≡ true
  remaining_of_unstarted n known new =
      ground (arith, contains_iff remaining n, count-remaining n, inv.entry n, inv.place n)

  some_remain : length order < length deps → (n : Text) × (contains remaining n ≡ true)
  some_remain less =
      let (n, known, new) =
        missing_one order (Map.keys deps) once (omega (arith, tally_order, length-keys deps)) in
      (n, remaining_of_unstarted n known new)

  held :
      IsClosed deps
      → (n : Text) → contains remaining n ≡ true
      → (d : Text) × (contains (deps_of deps n) d ≡ true) × (contains remaining d ≡ true)
  held closed n c =
      let (d, dep, new) =
        pending_one order (deps_of deps n)
          (ground (arith, contains_iff remaining n, count-remaining n, inv.entry n)) in
      (d, dep, remaining_of_unstarted d (closed n d dep) (ground (arith, contains_iff order d)))

abbrev Outcome : (Text → Type 0) → Deps → Result DependencyCycle (List Text) → Type 0
Outcome Q deps (ok order) = IsStartOrder deps [] order × IsEachOnce deps order
Outcome Q deps (err e) = Q e.cycle

module _ (deps : Deps) (sorted : Map.IsMap deps) (Q : Text → Type 0)
    (found : (D : BTreeMap ℕ) (order : List Text)
      → Inv deps D [] order []
      → length order < length deps
      → Returns Q (find_cycle deps (Map.keys_where (λ deg. ltb 0 deg) D))) where
  finish-Outcome :
      (r : BTreeMap ℕ × List Text)
      → Inv deps r.0 [] r.1 [] × IsStartOrder deps [] r.1
      → Returns (Outcome Q deps) (finish deps r)
  unfolding finish
  finish-Outcome (D, order) (inv, h) =
      if_ind (Returns (Outcome Q deps)) (length order == length deps)
        (λ e. (h, full-IsEachOnce deps sorted D order inv (ground arith)))
        λ e.
          Returns-bind Q (Outcome Q deps) (find_cycle deps (Map.keys_where (λ deg. ltb 0 deg) D))
            (λ cycle. returned (err (record { cycle = cycle })))
            (found D order inv (ground (arith, fits deps sorted D [] order inv))) (λ cycle q. q)

  topological_sort-Outcome : Returns (Outcome Q deps) (topological_sort deps)
  unfolding topological_sort
  topological_sort-Outcome =
      let t = build deps in
      Returns-bind (λ r. Inv deps r.0 [] r.1 [] × IsStartOrder deps [] r.1) (Outcome Q deps)
        (drain (suc (length deps)) t.adj t.in_degree (seed t) []) (finish deps)
        (drain_total deps sorted t.adj (count-adj-build deps sorted) (suc (length deps)) t.in_degree
          (seed t) [] (Inv-start deps sorted) tt (omega arith))
        finish-Outcome

module _ (deps : Deps) (sorted : Map.IsMap deps) where
  topological_sort-Returns : Returns (Outcome (λ cycle. Unit {0}) deps) (topological_sort deps)
  topological_sort-Returns =
      topological_sort-Outcome deps sorted (λ cycle. Unit {0})
        λ D order inv less. find_cycle_total deps _ (remaining_once deps sorted D order inv)

  topological_sort_closed :
      IsClosed deps → Returns (Outcome (ShowsCycle deps) deps) (topological_sort deps)
  topological_sort_closed closed =
      topological_sort-Outcome deps sorted (ShowsCycle deps) λ D order inv less.
        let (n, c) = some_remain deps sorted D order inv less in
        find_cycle-ShowsCycle deps _ (remaining_once deps sorted D order inv)
          (held deps sorted D order inv closed) n c

-- From every map of dependencies the sort returns an order or an error: no `expect` and no
-- subtraction in it fails, and its loops end within the fuel.
pub topological_sort_total :
    (deps : Deps)
    → Map.IsMap deps
    → (r : Result DependencyCycle (List Text)) × (topological_sort deps ≡ returned r)
topological_sort_total deps sorted =
    Returns-value (Outcome (λ cycle. Unit {0}) deps) (topological_sort deps)
      (topological_sort-Returns deps sorted)

-- An order that the sort returns holds each service once and nothing else, and each service stands
-- in it behind all of its dependencies.
pub topological_sort-IsStartOrder :
    (deps : Deps) (order : List Text)
    → Map.IsMap deps
    → topological_sort deps ≡ returned (ok order)
    → IsStartOrder deps [] order × IsEachOnce deps order
topological_sort-IsStartOrder deps order sorted e =
    subst (Returns (Outcome (λ cycle. Unit {0}) deps)) e (topological_sort-Returns deps sorted)

-- Where every dependency is a service, an error shows a ring: services in which each depends on
-- the next one, and the last is the first.
pub topological_sort-ShowsCycle :
    (deps : Deps) (error : DependencyCycle)
    → Map.IsMap deps
    → IsClosed deps
    → topological_sort deps ≡ returned (err error)
    → ShowsCycle deps error.cycle
topological_sort-ShowsCycle deps error sorted closed e =
    subst (Returns (Outcome (ShowsCycle deps) deps)) e (topological_sort_closed deps sorted closed)

-- `rank` puts each dependency below what depends on it.
abbrev pub IsRanked : (Text → ℕ) → Deps → Type 0
IsRanked rank deps = (n d : Text) → contains (deps_of deps n) d ≡ true → rank d < rank n

walk_falls :
    (deps : Deps) (rank : Text → ℕ) (x : Text) (mid : List Text) (y : Text)
    → IsRanked rank deps
    → IsWalk deps ((x ∷ mid) ++ y ∷ [])
    → rank y < rank x
walk_falls deps rank x [] y ranked w = ranked x y w.0
walk_falls deps rank x (z ∷ mid) y ranked w =
    omega (arith, ranked x z w.0, walk_falls deps rank z mid y ranked w.1)

-- Where every dependency is a service and the dependencies have no ring (some rank falls along
-- them), the sort returns an order.
pub topological_sort-IsRanked :
    (deps : Deps) (rank : Text → ℕ)
    → Map.IsMap deps
    → IsClosed deps
    → IsRanked rank deps
    → (order : List Text) × (topological_sort deps ≡ returned (ok order))
topological_sort-IsRanked deps rank sorted closed ranked =
    let (r, e) = topological_sort_total deps sorted in only_ok r e
  where
    only_ok :
        (r : Result DependencyCycle (List Text))
        → topological_sort deps ≡ returned r
        → (order : List Text) × (topological_sort deps ≡ returned (ok order))
    only_ok (ok order) e = (order, e)
    only_ok (err error) e =
        let ring = topological_sort-ShowsCycle deps error sorted closed e in
        absurd (omega (arith, walk_falls deps rank ring.start ring.mid ring.start ranked ring.walk))
