-- ===== src/Validation/Links.antt =====
-- crates/servicrab-core/src/validation.rs: the dependencies that step 7 lets through.
use servicrab.Base.{
  true, false, not, Option, none, some, List, [], ◌∷◌, Text, same, same_iff, ◌≡◌, subst, ap, ◌∙◌,
  inl, inr, Bool-cases, Option-cases, arith,
}
use servicrab.Base.Count.{contains}
use servicrab.Base.Map
use servicrab.Base.Map.{BTreeMap, is_some}
use servicrab.Base.Set
use servicrab.Base.Set.{BTreeSet}
use servicrab.Config.{DependencyCondition}
use servicrab.Raw.{RawService}
use servicrab.Errors.Checked.{Checked, Passes, first_passes, rest_passes, pure, value-bind, ◌>>=◌}
use servicrab.Validation.Services.{dependency_entries, parse_dependency_condition}
use servicrab.Validation.Settings.{report_if_lem}
use servicrab.Validation.Pipeline.{
  never_completes, check_known, check_condition, check_dependency, check_dependencies,
  check_services,
}

-- The condition can come to hold.
abbrev pub CanHold : RawService → DependencyCondition → Type 0
CanHold target DependencyCondition.service_started = Unit
CanHold target DependencyCondition.service_healthy = is_some target.health ≡ true
CanHold target DependencyCondition.service_completed_successfully =
    never_completes target.restart ≡ false

abbrev pub IsSatisfiable : RawService → Option Text → Type 0
IsSatisfiable target none = Unit
IsSatisfiable target (some value) =
    (c : DependencyCondition) × (parse_dependency_condition value ≡ some c) × CanHold target c

-- The dependencies are other services, each of them once, on conditions that can hold.
abbrev pub IsLinked : BTreeMap RawService → Text → BTreeSet → List (Text × Option Text) → Type 0
IsLinked services name seen [] = Unit
IsLinked services name seen ((dep, condition) ∷ rest) =
    (same dep name ≡ false)
    × (contains seen dep ≡ false)
    × ((target : RawService) × (Map.get services dep ≡ some target)
        × IsSatisfiable target condition)
    × IsLinked services name (Set.insert dep seen) rest

check_known-CanHold :
    (name dep : Text) (target : RawService) (c : DependencyCondition)
    → Passes (check_known name dep target c)
    → CanHold target c
unfolding check_known
check_known-CanHold name dep target DependencyCondition.service_started h = tt
check_known-CanHold name dep target DependencyCondition.service_healthy h =
    ground (arith, report_if_lem (not (is_some target.health)) _ h)
check_known-CanHold name dep target DependencyCondition.service_completed_successfully h =
    report_if_lem (never_completes target.restart) _ h

check_condition-IsSatisfiable :
    (name dep : Text) (target : RawService) (condition : Option Text)
    → Passes (check_condition name dep target condition)
    → IsSatisfiable target condition
unfolding check_condition
check_condition-IsSatisfiable name dep target none h = tt
check_condition-IsSatisfiable name dep target (some value) h =
    elim (Option-cases (parse_dependency_condition value)) [
      | inl unknown ↦ ground (arith, h, unknown)
      | inr (c, known) ↦ (c, known, check_known-CanHold name dep target c (rw known at h))
    ]

module _ (services : BTreeMap RawService) (name : Text) (seen : BTreeSet) (dep : Text)
    (condition : Option Text) where
  check_dependency_lem :
      Passes (check_dependency services name seen dep condition)
      → (same dep name ≡ false)
        × (contains seen dep ≡ false)
        × ((target : RawService) × (Map.get services dep ≡ some target)
            × IsSatisfiable target condition)
        × ((check_dependency services name seen dep condition).value ≡ Set.insert dep seen)
  unfolding check_dependency
  check_dependency_lem h = elim (Bool-cases (same dep name)) [
    | inl itself ↦ ground (arith, h, itself)
    | inr other ↦ elim (Option-cases (Map.get services dep)) [
      | inl unknown ↦ ground (arith, h, other, unknown)
      | inr (target, known) ↦ elim (Bool-cases (contains seen dep)) [
        | inl again ↦ ground (arith, h, other, known, again)
        | inr new ↦
            let checks : Checked BTreeSet =
              check_condition name dep target condition >>= λ _. pure (Set.insert dep seen) in
            let same_turn : check_dependency services name seen dep condition ≡ checks =
              rw (other, known, new) in
            let passes : Passes checks = subst Passes same_turn h in
            (
              other,
              new,
              (
                target,
                known,
                check_condition-IsSatisfiable name dep target condition (first_passes _ _ passes),
              ),
              ap (λ (m : Checked BTreeSet). m.value) same_turn ∙ value-bind _ _,
            )
      ]
    ]
  ]

pub check_dependencies-IsLinked :
    (services : BTreeMap RawService) (name : Text) (seen : BTreeSet)
    (deps : List (Text × Option Text))
    → Passes (check_dependencies services name seen deps)
    → IsLinked services name seen deps
unfolding check_dependencies
check_dependencies-IsLinked services name seen [] h = tt
check_dependencies-IsLinked services name seen ((dep, condition) ∷ rest) h =
    let (other, new, target, e) =
      check_dependency_lem services name seen dep condition (first_passes _ _ h) in
    let later = rw e at (rest_passes _ _ h) in
    (other, new, target, check_dependencies-IsLinked services name (Set.insert dep seen) rest later)

pub check_services-IsLinked :
    (services rest : BTreeMap RawService) (name : Text) (raw : RawService)
    → Passes (check_services services rest)
    → Map.get rest name ≡ some raw
    → IsLinked services name [] (dependency_entries raw)
unfolding check_services Map.get
check_services-IsLinked services [] name raw h found = cc
check_services-IsLinked services ((k, entry) ∷ rest) name raw h found =
    elim (Bool-cases (same k name)) [
      | inl at ↦
          let named : k ≡ name = (same_iff k name).0 at in
          let entered : entry ≡ raw = ground (arith, found, at) in
          let linked =
            check_dependencies-IsLinked services k [] (dependency_entries entry)
              (first_passes _ _ h) in
          rw entered at
            (subst (λ (n : Text). IsLinked services n [] (dependency_entries entry)) named linked)
      | inr other ↦
          check_services-IsLinked services rest name raw (rest_passes _ _ h)
            (ground (arith, found, other))
    ]
