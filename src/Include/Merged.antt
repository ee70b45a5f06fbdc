-- ===== src/Include/Merged.antt =====
-- crates/servicrab-core/src/include.rs: `merge`, against the files that are included.
use servicrab.Base.{
  ℕ, ◌<◌, not, length, true, Option, none, some, List, [], ◌∷◌, Text, Result, ok, Returns,
  Returns-bind, ◌≡◌, refl, inl, arith, sym, ap, ◌∙◌,
}
use servicrab.Base.Map
use servicrab.Base.Map.{BTreeMap}
use servicrab.Base.Count.{contains}
use servicrab.Base.Entries.{map_values, get-map_values, map_values-IsMap}
use servicrab.Errors.{ConfigError}
use servicrab.Raw.{RawFragment, RawService, RawConfig}
use servicrab.Validation.{Host}
use servicrab.Include.{
  Ancestor, Loader, stamp, in_chain, included, identity, beside, include_file, merge,
}
use servicrab.Include.Chain.{remaining, length-filter-le}
use servicrab.Include.Walk.{IsDeclared}
use servicrab.Include.Visited.{
  Visited, each_path-Visited, HasIncluded, HasEach, HasIncluded-later, include_file-Visited,
}

module _ (host : Host) (parse_fragment : Text → Result Text RawFragment) (raw : RawConfig)
    (root : Text) where
  -- The root's own services are kept, and every service has where it is from; without an error, every
  -- service of every included file is there.
  pub record IsMerged (result : RawConfig) (errors : List ConfigError) : Type 0 where
    pub keeps_own :
        (name : Text) (service : RawService)
        → Map.get raw.services name ≡ some service
        → Map.get result.services name ≡ some (stamp root service)
    pub from_a_file :
        (name : Text) (service : RawService)
        → Map.get result.services name ≡ some service
        → IsDeclared host parse_fragment raw root name service
    pub ascends : Map.IsMap raw.services → Map.IsMap result.services
    pub complete :
        errors ≡ []
        → (relative : Text) → contains (included raw.include) relative ≡ true
        → HasIncluded host parse_fragment raw root
            (beside host parse_fragment root relative)
            result.services

abbrev stamp_option : Text → Option RawService → Option RawService
stamp_option root o = elim o [ none ↦ none | some service ↦ some (stamp root service) ]

-- What is stamped was there before.
stamped :
    (root : Text) (o : Option RawService) (service : RawService)
    → stamp_option root o ≡ some service
    → (own : RawService) × (o ≡ some own) × (service ≡ stamp root own)
stamped root none service h = absurd cc
stamped root (some own) service h = (own, refl, cc)

-- For a list that names every file that can be read, and more fuel than it is long, the merge ends.
-- No service of the root is replaced, each service comes from the root or from a file that could be
-- read, marked with that file; and if no error is reported, all services of all files that are
-- included, directly or through others, are there. A map with each key once stays one.
pub merge-IsMerged :
    (host : Host) (parse_fragment : Text → Result Text RawFragment) (raw : RawConfig) (root : Text)
    (files : List Text) (fuel : ℕ)
    → ((p text : Text)
        → host.read_to_string p ≡ ok text
        → contains files (identity host parse_fragment p) ≡ true)
    → length files < fuel
    → Returns
        (λ (result, errors). IsMerged host parse_fragment raw root result errors)
        (merge host parse_fragment fuel raw root)
unfolding merge
merge-IsMerged host parse_fragment raw root files fuel known enough =
    let chain : List Ancestor =
      record { identity = identity host parse_fragment root; path = root } ∷ [] in
    let start : Loader = record {
      services = map_values (λ name service. stamp root service) raw.services;
      merged = [];
      errors = [];
    } in
    let own = get-map_values (λ name service. stamp root service) raw.services in
    let fits : remaining files chain < fuel =
      omega (arith, enough, length-filter-le (λ u. not (in_chain u chain)) files) in
    Returns-bind
      (Visited (IsDeclared host parse_fragment raw root)
        (HasEach host parse_fragment raw root root raw.include) start)
      (λ (result, errors). IsMerged host parse_fragment raw root result errors) _ _
      (each_path-Visited (IsDeclared host parse_fragment raw root)
        (λ p. HasIncluded host parse_fragment raw root (beside host parse_fragment root p))
        (λ p. include_file host parse_fragment fuel root chain (beside host parse_fragment root p))
        (λ p. HasIncluded-later host parse_fragment raw root (beside host parse_fragment root p))
        (λ p l.
          include_file-Visited host parse_fragment raw root files known fuel root chain
            (beside host parse_fragment root p) l fits)
        (included raw.include) start)
      λ loader (grown, got). record {
        keeps_own = λ name service e.
            grown.keeps name (stamp root service) (own name ∙ ap (stamp_option root) e);
        from_a_file = grown.only λ name service e.
            inl (stamped root (Map.get raw.services name) service (sym (own name) ∙ e));
        ascends = λ h.
            grown.ascends (map_values-IsMap (λ name service. stamp root service) raw.services h);
        complete = got;
      }
