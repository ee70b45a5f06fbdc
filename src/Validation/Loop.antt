-- ===== src/Validation/Loop.antt =====
-- crates/servicrab-core/src/validation.rs: the services that the loop of step 6 collects.
use servicrab.Base.{
  false, none, some, List, [], ◌∷◌, Text, same, same_iff, ◌≡◌, refl, subst, ap, ◌∙◌, inl, inr,
  Bool-cases, ok, Result-cases, arith,
}
use servicrab.Base.Map
use servicrab.Base.Map.{BTreeMap}
use servicrab.Config.{Service}
use servicrab.Raw.{RawService}
use servicrab.Errors.Checked.{Passes, first_passes, rest_passes, pure, value-bind, ◌>>=◌}
use servicrab.Validation.{Host}
use servicrab.Validation.Names.{validate_name, validate_service_name}
use servicrab.Validation.Services.{
  Shared, command_of, build_service, validate_service, validate_services,
}
use servicrab.Validation.Settings.{name-build_service}

validate_service_name_lem :
    (raw_name name : Text) → validate_service_name raw_name ≡ ok name → name ≡ raw_name
unfolding validate_service_name
validate_service_name_lem raw_name name h = elim (Result-cases (validate_name raw_name 48)) [
  | inl (valid, e) ↦ ground (arith, h, e)
  | inr (reason, e) ↦ ground (arith, h, e)
]

module _ (host : Host) (shared : Shared) where
  -- A service is what its entry builds, without an error.
  abbrev pub Built : Text → RawService → Service → Type 0
  Built k raw s =
      (executable : Text) × (args : List Text) × Passes
        (build_service host shared k raw executable args)
      × (s ≡ (build_service host shared k raw executable args).value)

  name-Built : (k : Text) (raw : RawService) (s : Service) → Built k raw s → s.name ≡ k
  name-Built k raw s (executable, args, passes, e) =
      ap (λ (t : Service). t.name) e ∙ name-build_service host shared k raw executable args

  validate_service_lem :
      (k : Text) (raw : RawService) (executable : Text) (args : List Text)
      → validate_service_name k ≡ ok k
      → command_of k raw.command ≡ ok (executable, args)
      → validate_service host shared k raw
        ≡ (build_service host shared k raw executable args >>= λ service. pure (some service))
  unfolding validate_service
  validate_service_lem k raw executable args named command = ground (arith, named, command)

  validate_service-Built :
      (k : Text) (raw : RawService)
      → Passes (validate_service host shared k raw)
      → (s : Service) × ((validate_service host shared k raw).value ≡ some s) × Built k raw s
  unfolding validate_service
  validate_service-Built k raw h = elim (Result-cases (validate_service_name k)) [
    | inr (e, invalid) ↦ ground (arith, h, invalid)
    | inl (name, valid) ↦ elim (Result-cases (command_of k raw.command)) [
      | inr (e, invalid) ↦ ground (arith, h, valid, invalid)
      | inl ((executable, args), command) ↦
          let named : validate_service_name k ≡ ok k =
            rw (validate_service_name_lem k name valid) at valid in
          let built = build_service host shared k raw executable args in
          let passes : Passes (built >>= (λ service. pure (some service))) =
            subst Passes (validate_service_lem k raw executable args named command) h in
          (
            built.value,
            rw (validate_service_lem k raw executable args named command)
                (value-bind built (λ service. pure (some service))),
            (executable, args, first_passes _ _ passes, refl),
          )
    ]
  ]

  -- One turn of the loop, which goes on from the map with the service.
  first_turn :
      (services : BTreeMap Service) (k : Text) (raw : RawService) (rest : BTreeMap RawService)
      → Passes (validate_services host shared services ((k, raw) ∷ rest))
      → (s : Service) × Built k raw s
        × Passes (validate_services host shared (Map.insert k s services) rest)
        × ((validate_services host shared services ((k, raw) ∷ rest)).value
            ≡ (validate_services host shared (Map.insert k s services) rest).value)
  unfolding validate_services
  first_turn services k raw rest h =
      let (s, e, built) = validate_service-Built k raw (first_passes _ _ h) in
      let passes : Passes (validate_services host shared (Map.insert k s services) rest) =
        rw (e, name-Built k raw s built) at (rest_passes _ _ h) in
      (s, built, passes, value-bind _ _ ∙ rw (e, name-Built k raw s built))

  -- A name that is not among the entries keeps what it has.
  pub others_kept :
      (services : BTreeMap Service) (rest : BTreeMap RawService) (j : Text)
      → Passes (validate_services host shared services rest)
      → Map.get rest j ≡ none
      → Map.get (validate_services host shared services rest).value j ≡ Map.get services j
  unfolding Map.get validate_services
  others_kept services [] j h absent = refl
  others_kept services ((k, raw) ∷ rest) j h absent =
      let (s, built, passes, e) = first_turn services k raw rest h in
      let other : same k j ≡ false = ground (arith, absent) in
      let later : Map.get rest j ≡ none = ground (arith, absent, other) in
      ap (λ (m : BTreeMap Service). Map.get m j) e
      ∙ others_kept (Map.insert k s services) rest j passes later
      ∙ ground (arith, other, Map.get-insert services k j s)

  -- Each entry has its service in the end.
  pub validate_services-Built :
      (services : BTreeMap Service) (rest : BTreeMap RawService) (j : Text) (entry : RawService)
      → Map.IsMap rest
      → Passes (validate_services host shared services rest)
      → Map.get rest j ≡ some entry
      → (s : Service) × (Map.get (validate_services host shared services rest).value j ≡ some s)
        × Built j entry s
  unfolding Map.get
  validate_services-Built services [] j entry sorted h found = cc
  validate_services-Built services ((k, raw) ∷ rest) j entry sorted h found =
      let (s, built, passes, e) = first_turn services k raw rest h in
      let moved = ap (λ (m : BTreeMap Service). Map.get m j) e in
      elim (Bool-cases (same k j)) [
        | inl at ↦
            let named : k ≡ j = (same_iff k j).0 at in
            let entered : raw ≡ entry = ground (arith, found, at) in
            let absent : Map.get rest j ≡ none = rw named at (Map.get_above k rest sorted.0) in
            (
              s,
              moved
                  ∙ others_kept (Map.insert k s services) rest j passes absent
                  ∙ ground (arith, at, Map.get-insert services k j s),
              subst (λ (r : RawService). Built j r s) entered
                  (subst (λ (n : Text). Built n raw s) named built),
            )
        | inr other ↦
            let later : Map.get rest j ≡ some entry = ground (arith, found, other) in
            let (t, got, is_built) =
              validate_services-Built (Map.insert k s services) rest j entry sorted.1 passes
                later in
            (t, moved ∙ got, is_built)
      ]

  pub validate_services-IsMap :
      (services : BTreeMap Service) (rest : BTreeMap RawService)
      → Map.IsMap services
      → Passes (validate_services host shared services rest)
      → Map.IsMap (validate_services host shared services rest).value
  unfolding validate_services
  validate_services-IsMap services [] h passes = h
  validate_services-IsMap services ((k, raw) ∷ rest) h passes =
      let (s, built, later, e) = first_turn services k raw rest passes in
      rw e (
        validate_services-IsMap (Map.insert k s services) rest (Map.insert-IsMap k s services h)
          later)
