-- ===== src/Include/Visited.antt =====
-- crates/servicrab-core/src/include.rs: what a visit of an included file brings.
use servicrab.Base.{
  ℕ, zero, suc, ◌<◌, true, Option, some, List, [], ◌∷◌, ◌++◌, Text, same, if_ind, match_option_ind,
  Result, ok, match_result_ind, Run, Returns, Returns-bind, Returns-map, ◌≡◌, refl, inl, inr,
  Bool-cases, same_iff, arith, subst,
}
use servicrab.Base.Map
use servicrab.Base.Map.{BTreeMap}
use servicrab.Base.Count.{contains}
use servicrab.Errors.{ConfigError}
use servicrab.Raw.{RawInclude, RawFragment, RawService, RawConfig}
use servicrab.Validation.{Host}
use servicrab.Include.{
  Ancestor, Loader, push_error, stamp, in_chain, each_path, included, take_fragment, identity,
  beside, read, include_file,
}
use servicrab.Include.Chain.{remaining, remaining_less, read-IsRead, IsRead-unique}
use servicrab.Include.Walk.{
  Declares, IsRead, IsDeclared, HasAll, Extends, Extends-refl, Extends-trans, push_error-Extends,
  push_error-unclean, take_fragment-Extends,
}

module _ (host : Host) (parse_fragment : Text → Result Text RawFragment) where
  -- A file includes itself and what its own includes include.
  pub data Included : Text → Text → Type 0 where
    itself : (p : Text) → Included p p
    through :
        (p q relative : Text) (fragment : RawFragment)
        → IsRead host parse_fragment p fragment
        → contains (included fragment.include) relative ≡ true
        → Included (beside host parse_fragment p relative) q
        → Included p q

-- A visit of a path extends the loader, and without an error it has what the path asks for.
abbrev pub Visited :
    (Text → RawService → Type 0) → (BTreeMap RawService → Type 0) → Loader → Loader → Type 0
Visited P Wanted before after = Extends P before after × (after.errors ≡ [] → Wanted after.services)

pub each_path-Visited :
    (P : Text → RawService → Type 0) (Wanted : Text → BTreeMap RawService → Type 0)
    (visit : Text → Loader → Run Loader)
    → ((p : Text) (a b : Loader) → Extends P a b → Wanted p a.services → Wanted p b.services)
    → ((p : Text) (l : Loader) → Returns (Visited P (Wanted p) l) (visit p l))
    → (paths : List Text) (l : Loader)
    → Returns
        (Visited P (λ services. (p : Text) → contains paths p ≡ true → Wanted p services) l)
        (each_path visit paths l)
unfolding each_path
each_path-Visited P Wanted visit mono each [] l =
    (Extends-refl P l, (λ e p inside. absurd (ground arith)))
each_path-Visited P Wanted visit mono each (path ∷ paths) l =
    Returns-bind (Visited P (Wanted path) l) _ (visit path l) (each_path visit paths) (each path l)
      λ next (first, got).
        Returns-map _ _ (each_path visit paths next)
          (λ after (more, rest). (
            Extends-trans P l next after first more,
            (λ e p inside. elim (Bool-cases (same path p)) [
              | inl at ↦
                  subst (λ q. Wanted q after.services) ((same_iff path p).0 at)
                    (mono path next after more (got (more.clean e)))
              | inr other ↦ rest e p (ground (arith, other, inside))
            ]),
          ))
          (each_path-Visited P Wanted visit mono each paths next)

module _ (host : Host) (parse_fragment : Text → Result Text RawFragment) (raw : RawConfig)
    (root : Text) where
  abbrev pub Source : Text → RawService → Type 0
  Source = IsDeclared host parse_fragment raw root

  -- What a visit of a path is for: all files that it includes.
  abbrev pub HasIncluded : Text → BTreeMap RawService → Type 0
  HasIncluded path services =
      (q : Text) → Included host parse_fragment path q → HasAll host parse_fragment services q

  abbrev pub HasEach : Text → Option RawInclude → BTreeMap RawService → Type 0
  HasEach from include services =
      (p : Text)
      → contains (included include) p ≡ true
      → HasIncluded (beside host parse_fragment from p) services

  pub HasIncluded-later :
      (p : Text) (a b : Loader)
      → Extends Source a b
      → HasIncluded p a.services
      → HasIncluded p b.services
  HasIncluded-later p a b more h q way =
      let (fragment, (text, found, good), all) = h q way in
      (
        fragment,
        (text, found, good),
        (λ name service d. more.keeps name (stamp q service) (all name service d)),
      )

  -- A file that is refused.
  refused :
      (e : ConfigError) (l : Loader) (path : Text)
      → Visited Source (HasIncluded path) l (push_error e l)
  refused e l path = (push_error-Extends Source e l, (λ h. absurd (push_error-unclean e l h)))

  -- With a file that is read go those that it includes.
  with_own :
      (path : Text) (fragment : RawFragment) (services : BTreeMap RawService)
      → IsRead host parse_fragment path fragment
      → ((name : Text) (service : RawService)
          → Declares fragment.services name service
          → Map.get services name ≡ some (stamp path service))
      → HasEach path fragment.include services
      → HasIncluded path services
  with_own path fragment services is_read own inner _ (itself _) = (fragment, is_read, own)
  with_own path fragment services is_read own inner q
        (through _ _ relative other other_read inside way) =
      let same_fragment =
        IsRead-unique host parse_fragment path other fragment other_read is_read in
      inner relative (rw same_fragment at inside) q way

  pub include_file-Visited :
      (files : List Text)
      → ((p text : Text)
          → host.read_to_string p ≡ ok text
          → contains files (identity host parse_fragment p) ≡ true)
      → (fuel : ℕ) (by : Text) (chain : List Ancestor) (path : Text) (l : Loader)
      → remaining files chain < fuel
      → Returns
          (Visited Source (HasIncluded path) l)
          (include_file host parse_fragment fuel by chain path l)
  unfolding include_file
  include_file-Visited files known zero by chain path l enough = absurd (omega (arith, enough))
  include_file-Visited files known (suc fuel) by chain path l enough =
      let id = identity host parse_fragment path in
      let self : Ancestor = record { identity = id; path = path } in
      let Fine : Run Loader → Type 0 = Returns (Visited Source (HasIncluded path) l) in
      if_ind Fine (in_chain id chain) (λ _. refused _ l path)
        λ out.
          match_option_ind Fine (Map.get l.merged id)
            (λ _.
              match_result_ind Fine (read host parse_fragment path by) (λ e _. refused e l path)
                λ fragment found.
                  let is_read = read-IsRead host parse_fragment path by fragment found in
                  let less = remaining_less files chain self out (known path is_read.0 is_read.1) in
                  let next = take_fragment path by id fragment l in
                  let (taken, own) =
                    take_fragment-Extends Source path by id fragment l
                      (λ name service d. inr (path, fragment, service, is_read, d, refl)) in
                  let visit : Text → Loader → Run Loader = λ relative.
                    include_file host parse_fragment fuel path (chain ++ self ∷ [])
                      (beside host parse_fragment path relative) in
                  Returns-map (Visited Source (HasEach path fragment.include) next)
                    (Visited Source (HasIncluded path) l)
                    (each_path visit (included fragment.include) next)
                    (λ after (more, inner). (
                      Extends-trans Source l next after taken more,
                      (λ e.
                          with_own path fragment after.services is_read
                            (λ name service d.
                              more.keeps name (stamp path service)
                                (own (more.clean e) name service d))
                            (inner e)),
                    ))
                    (each_path-Visited Source (λ p. HasIncluded (beside host parse_fragment path p))
                      visit (λ p. HasIncluded-later (beside host parse_fragment path p))
                      (λ p inside.
                        include_file-Visited files known fuel path (chain ++ self ∷ [])
                          (beside host parse_fragment path p) inside (omega (arith, less, enough)))
                      (included fragment.include) next))
            λ first _. refused _ l path
