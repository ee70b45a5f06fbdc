-- ===== src/Include/Walk.antt =====
-- crates/servicrab-core/src/include.rs: what a loader keeps while it takes in a file.
use servicrab.Base.{
  Bool, some, [], ◌∷◌, Text, codes, same, if_ind, match_option_ind, Result, ok, ◌≡◌, refl, ◌⊎◌, inl,
  inr, Bool-cases, same_iff, same_refl, arith, subst,
}
use servicrab.Base.Map
use servicrab.Base.Map.{BTreeMap, get-insert, insert-IsMap}
use servicrab.Errors.{ConfigError}
use servicrab.Errors.Checked.{append-nil-inv}
use servicrab.Raw.{RawFragment, RawService, RawConfig}
use servicrab.Validation.{Host}
use servicrab.Include.{
  Loader, push_error, stamp, merge_service, merge_services, not_a_fragment, take_fragment,
}

-- The entry stands in the map as it is written.
abbrev pub Declares : BTreeMap RawService → Text → RawService → Type 0
Declares [] name service = ⊥
Declares ((j, v) ∷ m) name service = ((j ≡ name) × (v ≡ service)) ⊎ Declares m name service

module _ (host : Host) (parse_fragment : Text → Result Text RawFragment) where
  abbrev pub IsRead : Text → RawFragment → Type 0
  IsRead path fragment =
      (text : Text) × (host.read_to_string path ≡ ok text) × (parse_fragment text ≡ ok fragment)

  -- A service of the root's own, or of a file that can be read, with where it is from.
  abbrev pub IsDeclared : RawConfig → Text → Text → RawService → Type 0
  IsDeclared raw root name service =
      ((own : RawService) × (Map.get raw.services name ≡ some own) × (service ≡ stamp root own))
      ⊎ ((path : Text) × (fragment : RawFragment) × (written : RawService) × IsRead path fragment
          × Declares fragment.services name written
          × (service ≡ stamp path written))

  -- All services of a file are in the map.
  abbrev pub HasAll : BTreeMap RawService → Text → Type 0
  HasAll services path =
      (fragment : RawFragment) × IsRead path fragment
      × ((name : Text) (service : RawService)
          → Declares fragment.services name service
          → Map.get services name ≡ some (stamp path service))

-- What holds of each step of the loader, for a predicate of the services.
pub record Extends (P : Text → RawService → Type 0) (before after : Loader) : Type 0 where
  pub keeps :
      (name : Text) (service : RawService)
      → Map.get before.services name ≡ some service
      → Map.get after.services name ≡ some service
  pub clean : after.errors ≡ [] → before.errors ≡ []
  pub only :
      ((name : Text) (service : RawService)
        → Map.get before.services name ≡ some service
        → P name service)
      → (name : Text) (service : RawService) → Map.get after.services name ≡ some service
      → P name service
  pub ascends : Map.IsMap before.services → Map.IsMap after.services

module _ (P : Text → RawService → Type 0) where
  pub Extends-refl : (l : Loader) → Extends P l l
  Extends-refl l = record { keeps = λ n s e. e; clean = λ e. e; only = λ h. h; ascends = λ h. h }

  pub Extends-trans : (a b c : Loader) → Extends P a b → Extends P b c → Extends P a c
  Extends-trans a b c f g = record {
    keeps = λ n s e. g.keeps n s (f.keeps n s e);
    clean = λ e. f.clean (g.clean e);
    only = λ h. g.only (f.only h);
    ascends = λ h. g.ascends (f.ascends h);
  }

  pub push_error-Extends : (e : ConfigError) (l : Loader) → Extends P l (push_error e l)
  unfolding push_error
  push_error-Extends e l = record {
    keeps = λ n s h. h;
    clean = λ h. (append-nil-inv l.errors (e ∷ []) h).0;
    only = λ h. h;
    ascends = λ h. h;
  }

pub push_error-unclean : (e : ConfigError) (l : Loader) → (push_error e l).errors ≡ [] → ⊥
unfolding push_error
push_error-unclean e l h = let bad = (append-nil-inv l.errors (e ∷ []) h).1 in cc

module _ (P : Text → RawService → Type 0) (path : Text) where
  -- One service is added, or it is refused and all stays.
  merge_service-Extends :
      (l : Loader) (name : Text) (service : RawService)
      → P name (stamp path service)
      → Extends P l (merge_service path l name service)
        × ((merge_service path l name service).errors ≡ []
            → Map.get (merge_service path l name service).services name ≡ some (stamp path service))
  unfolding merge_service
  merge_service-Extends l name service p =
      match_option_ind
        (λ (after : Loader).
          Extends P l after
          × (after.errors ≡ [] → Map.get after.services name ≡ some (stamp path service)))
        (Map.get l.services name)
        (λ absent. (
          record {
            keeps = λ n s e. ground (
              arith,
              e,
              absent,
              get-insert l.services name n (stamp path service),
              same_iff name n,
            );
            clean = λ e. e;
            only = λ h n s e. elim (Bool-cases (same name n)) [
              | inl at ↦
                  let taken : stamp path service ≡ s =
                    ground (arith, e, at, get-insert l.services name n (stamp path service)) in
                  subst (λ t. P n t) taken
                    (subst (λ t. P t (stamp path service)) ((same_iff name n).0 at) p)
              | inr other ↦
                  h n s
                    (ground (arith, e, other, get-insert l.services name n (stamp path service)))
            ];
            ascends = λ h. insert-IsMap name (stamp path service) l.services h;
          },
          (λ _.
              ground (arith, get-insert l.services name name (stamp path service), same_refl name)),
        ))
        λ first found. (push_error-Extends P _ l, (λ h. absurd (push_error-unclean _ l h)))

  pub merge_services-Extends :
      (l : Loader) (m : BTreeMap RawService)
      → ((name : Text) (service : RawService)
          → Declares m name service
          → P name (stamp path service))
      → Extends P l (merge_services path l m)
        × ((merge_services path l m).errors ≡ []
            → (name : Text) (service : RawService) → Declares m name service
            → Map.get (merge_services path l m).services name ≡ some (stamp path service))
  unfolding merge_services
  merge_services-Extends l [] h = (Extends-refl P l, (λ e name service d. absurd d))
  merge_services-Extends l ((j, v) ∷ m) h =
      let next = merge_service path l j v in
      let (first, added) = merge_service-Extends l j v (h j v (inl (refl, refl))) in
      let (more, rest) = merge_services-Extends next m (λ name service d. h name service (inr d)) in
      (
        Extends-trans P l next (merge_services path next m) first more,
        (λ e name service d. elim d [
          | inl (at, same_service) ↦
              let here = more.keeps j (stamp path v) (added (more.clean e)) in
              rw (← at, ← same_service) here
          | inr later ↦ rest e name service later
        ]),
      )

not_a_fragment-Extends :
    (P : Text → RawService → Type 0) (b : Bool) (path by field : Text) (l : Loader)
    → Extends P l (not_a_fragment b path by field l)
unfolding not_a_fragment
not_a_fragment-Extends P b path by field l =
    if_ind (Extends P l) b (λ _. push_error-Extends P _ l) (λ _. Extends-refl P l)

pub take_fragment-Extends :
    (P : Text → RawService → Type 0) (path by id : Text) (fragment : RawFragment) (l : Loader)
    → ((name : Text) (service : RawService)
        → Declares fragment.services name service
        → P name (stamp path service))
    → Extends P l (take_fragment path by id fragment l)
      × ((take_fragment path by id fragment l).errors ≡ []
          → (name : Text) (service : RawService) → Declares fragment.services name service
          → Map.get (take_fragment path by id fragment l).services name ≡ some (stamp path service))
unfolding take_fragment
take_fragment-Extends P path by id fragment l h =
    let noted : Loader = record l { merged = Map.insert id by l.merged } in
    let versioned = not_a_fragment fragment.version path by (codes "version") noted in
    let checked = not_a_fragment fragment.project path by (codes "[project]") versioned in
    let first : Extends P l noted = record {
      keeps = λ n s e. e;
      clean = λ e. e;
      only = λ g. g;
      ascends = λ g. g;
    } in
    let second = not_a_fragment-Extends P fragment.version path by (codes "version") noted in
    let third = not_a_fragment-Extends P fragment.project path by (codes "[project]") versioned in
    let (last, all) = merge_services-Extends P path checked fragment.services h in
    let before =
      Extends-trans P l versioned checked (Extends-trans P l noted versioned first second) third in
    (Extends-trans P l checked (merge_services path checked fragment.services) before last, all)
