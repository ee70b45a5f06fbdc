-- ===== src/Plan/Closure.antt =====
-- `collect_with_dependencies` ends.
use servicrab.Base.{
  match_option_ind, ℕ, zero, suc, ◌≤◌, ◌<◌, true, false, not, if_ind, List, [], ◌∷◌, Text, same,
  same_iff, same_refl, length, filter, Run, Returns, Returns-bind, Returns-map, ◌≡◌, inl, inr,
  arith, Bool-cases,
}
use servicrab.Base.Count.{contains}
use servicrab.Base.Map
use servicrab.Base.Map.{BTreeMap}
use servicrab.Base.Set
use servicrab.Base.Set.{BTreeSet}
use servicrab.Config.{Config}
use servicrab.Plan.{names_of, collect_all, collect_with_dependencies, depth, collect_roots}
use servicrab.Plan.Grown.{Grown, Grown-none, Grown-more, Grown-known, Grown-leaf, Grown-node}

-- How many of the names are not selected yet.
abbrev open_of : List Text → BTreeSet → ℕ
open_of names selected = length (filter (λ k. not (contains selected k)) names)

open_of-keeps :
    (names : List Text) (old new : BTreeSet)
    → ((k : Text) → contains old k ≡ true → contains new k ≡ true)
    → open_of names new ≤ open_of names old
open_of-keeps [] old new h = omega arith
open_of-keeps (k ∷ names) old new h = ground (arith, h k, open_of-keeps names old new h)

open_of-insert :
    (names : List Text) (name : Text) (old : BTreeSet)
    → contains names name ≡ true
    → contains old name ≡ false
    → open_of names (Set.insert name old) < open_of names old
open_of-insert [] name old h fresh = cc
open_of-insert (k ∷ names) name old h fresh = elim (Bool-cases (same k name)) [
  | inl at ↦ ground (
    arith,
    at,
    fresh,
    same_iff k name,
    same_refl name,
    Set.contains-insert old name k,
    open_of-keeps names old (Set.insert name old)
        (λ j e. ground (arith, e, Set.contains-insert old name j)),
  )
  | inr other ↦ ground (
    arith,
    other,
    h,
    same_iff k name,
    same_iff name k,
    Set.contains-insert old name k,
    open_of-insert names name old (ground (arith, h, other)) fresh,
  )
]

collect_all-Returns :
    (config : Config) (limit : ℕ) (collect : Text → BTreeSet → Run BTreeSet) (names : List Text)
    (old : BTreeSet)
    → ((name : Text) (old : BTreeSet)
        → open_of (Map.keys config.services) old < limit
        → Returns (Grown config (name ∷ []) old) (collect name old))
    → open_of (Map.keys config.services) old < limit
    → Returns (Grown config names old) (collect_all collect names old)
collect_all-Returns config limit collect [] old one small = Grown-none config old
collect_all-Returns config limit collect (name ∷ names) old one small =
    Returns-bind (Grown config (name ∷ []) old) (Grown config (name ∷ names) old) (collect name old)
      (collect_all collect names) (one name old small)
      λ mid g.
        Returns-map (Grown config names mid) (Grown config (name ∷ names) old)
          (collect_all collect names mid) (λ new h. Grown-more g h)
          (collect_all-Returns config limit collect names mid one
            (omega (arith, small, open_of-keeps (Map.keys config.services) old mid g.keeps)))

-- With more fuel than there are configured services to select, the search ends.
collect_with_dependencies-Returns :
    (fuel : ℕ) (config : Config) (name : Text) (old : BTreeSet)
    → open_of (Map.keys config.services) old < fuel
    → Returns (Grown config (name ∷ []) old) (collect_with_dependencies fuel config name old)
unfolding collect_with_dependencies
collect_with_dependencies-Returns zero config name old enough = absurd (ground (arith, enough))
collect_with_dependencies-Returns (suc fuel) config name old enough =
    if_ind (Returns (Grown config (name ∷ []) old)) (contains old name)
      (λ known. Grown-known config name old known)
      λ fresh.
        match_option_ind (Returns (Grown config (name ∷ []) old)) (Map.get config.services name)
          (λ absent. Grown-leaf config name old absent)
          λ service configured.
            let is_key : contains (Map.keys config.services) name ≡ true =
              ground (arith, configured, Map.contains_key_lem config.services name) in
            let fewer = open_of-insert (Map.keys config.services) name old is_key fresh in
            Returns-map (Grown config (names_of service.depends_on) (Set.insert name old))
              (Grown config (name ∷ []) old)
              (collect_all (λ dep. collect_with_dependencies fuel config dep)
                (names_of service.depends_on) (Set.insert name old))
              (λ new g. Grown-node config name old new service configured g)
              (collect_all-Returns config fuel (λ dep. collect_with_dependencies fuel config dep)
                (names_of service.depends_on) (Set.insert name old)
                (λ dep old' h. collect_with_dependencies-Returns fuel config dep old' h)
                (omega (arith, fewer, enough)))

open_of-depth : (names : List Text) (old : BTreeSet) → open_of names old ≤ length names
open_of-depth [] old = omega arith
open_of-depth (k ∷ names) old = ground (arith, open_of-depth names old)

-- The fuel of `plan_stack` is enough.
pub collect-Returns :
    (config : Config) (name : Text) (old : BTreeSet)
    → Returns
        (Grown config (name ∷ []) old)
        (collect_with_dependencies (depth config) config name old)
collect-Returns config name old =
    collect_with_dependencies-Returns (depth config) config name old
      (omega (arith, open_of-depth (Map.keys config.services) old))

pub collect_roots-Returns :
    (config : Config) (names : List Text) (old : BTreeSet)
    → Returns (Grown config names old) (collect_roots config names old)
unfolding collect_roots
collect_roots-Returns config names old =
    collect_all-Returns config (depth config)
      (λ name. collect_with_dependencies (depth config) config name) names old
      (λ name old' _. collect-Returns config name old')
      (omega (arith, open_of-depth (Map.keys config.services) old))
