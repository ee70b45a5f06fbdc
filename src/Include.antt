-- ===== src/Include.antt =====
-- crates/servicrab-core/src/include.rs: the files that a configuration includes, merged into it. The
-- parser of TOML is an argument.
pub mod Walk
pub mod Chain
pub mod Visited
pub mod Merged
pub mod Samples
use servicrab.Base.{
  ℕ, zero, suc, Bool, any, map, Option, none, some, List, [], ◌∷◌, ◌++◌, Text, codes, join, same,
  if◌then◌else◌, match_option, Result, ok, err, match_result, Run, returned, out_of_fuel, ◌>>=◌,
}
use servicrab.Base.Map
use servicrab.Base.Map.{BTreeMap, unwrap_or}
use servicrab.Base.Entries.{map_values}
use servicrab.Errors.{
  ConfigError, ConfigWarning, unreadable, unparsed, unsupported_version, include_read,
  include_not_a_fragment, include_cycle, include_twice, duplicate_service,
}
use servicrab.Raw.{RawInclude, include_paths, RawFragment, RawService, RawConfig}
use servicrab.Config.{Config}
use servicrab.Validation.{Host, resolved_path}
use servicrab.Validation.Pipeline.{validate_raw}

pub record Ancestor : Type 0 where
  pub identity : Text
  pub path : Text

-- The chain of the files that are being read is an argument of `include_file`.
pub record Loader : Type 0 where
  pub services : BTreeMap RawService
  pub merged : BTreeMap Text
  pub errors : List ConfigError

-- `self.errors.push(error)`
unfoldable pub push_error : ConfigError → Loader → Loader
push_error error loader = record loader { errors = loader.errors ++ error ∷ [] }

unfoldable pub stamp : Text → RawService → RawService
stamp path service = record service { origin = some path }

unfoldable pub in_chain : Text → List Ancestor → Bool
in_chain identity chain = any (λ a. same a.identity identity) chain

-- The paths of the chain, from the file with the identity on.
unfoldable pub chain_from : Text → List Ancestor → List Text
chain_from identity [] = []
chain_from identity (a ∷ chain) =
    let rest = chain_from identity chain in
    if same a.identity identity then a.path ∷ map (λ (b : Ancestor). b.path) chain else rest

unfoldable pub merge_service : Text → Loader → Text → RawService → Loader
merge_service path loader name service =
    match_option (Map.get loader.services name)
      (record loader { services = Map.insert name (stamp path service) loader.services })
      λ first. push_error (duplicate_service name (unwrap_or [] first.origin) path) loader

unfoldable pub merge_services : Text → Loader → BTreeMap RawService → Loader
merge_services path loader [] = loader
merge_services path loader ((name, service) ∷ services) =
    merge_services path (merge_service path loader name service) services

unfoldable pub not_a_fragment : Bool → Text → Text → Text → Loader → Loader
not_a_fragment declared path included_by field loader =
    if declared then push_error (include_not_a_fragment path included_by field) loader else loader

-- The body of `include`: each path in turn.
unfoldable pub each_path : (Text → Loader → Run Loader) → List Text → Loader → Run Loader
each_path visit [] loader = returned loader
each_path visit (path ∷ paths) loader = visit path loader >>= each_path visit paths

unfoldable pub included : Option RawInclude → List Text
included include = match_option include [] include_paths

-- What is recorded of a fragment before its own includes.
unfoldable pub take_fragment : Text → Text → Text → RawFragment → Loader → Loader
take_fragment path included_by identity fragment loader =
    let noted = record loader { merged = Map.insert identity included_by loader.merged } in
    let versioned = not_a_fragment fragment.version path included_by (codes "version") noted in
    let checked = not_a_fragment fragment.project path included_by (codes "[project]") versioned in
    merge_services path checked fragment.services

module _ (host : Host) (parse_fragment : Text → Result Text RawFragment) where
  unfoldable pub identity : Text → Text
  identity path = elim (host.canonicalize path) [ ok resolved ↦ resolved | err e ↦ path ]

  -- `dir.join(relative)`, behind the directory of a file.
  unfoldable pub beside : Text → Text → Text
  beside from relative = resolved_path (unwrap_or (codes ".") (host.parent from)) relative

  unfoldable pub read : Text → Text → Result ConfigError RawFragment
  read path included_by =
      match_result (host.read_to_string path) (λ source. err (include_read included_by path source))
        λ text.
          match_result (parse_fragment text) (λ source. err (unparsed path source))
            λ fragment. ok fragment

  -- `Loader::one`
  unfoldable pub include_file : ℕ → Text → List Ancestor → Text → Loader → Run Loader
  include_file zero included_by chain path loader = out_of_fuel
  include_file (suc fuel) included_by chain path loader =
      let id = identity path in
      let inner = chain ++ record { identity = id; path = path } ∷ [] in
      if in_chain id chain
      then returned (
          push_error (include_cycle (join (codes " -> ") (chain_from id chain ++ path ∷ [])))
            loader)
      else match_option (Map.get loader.merged id)
          (match_result (read path included_by) (λ error. returned (push_error error loader))
            λ fragment.
              each_path (λ relative. include_file fuel path inner (beside path relative))
                (included fragment.include) (take_fragment path included_by id fragment loader))
          λ first. returned (push_error (include_twice path first included_by) loader)

  -- Fuel bounds the depth of the includes.
  unfoldable pub merge : ℕ → RawConfig → Text → Run (RawConfig × List ConfigError)
  merge fuel raw root =
      let start : Loader = record {
        services = map_values (λ name service. stamp root service) raw.services;
        merged = [];
        errors = [];
      } in
      let chain : List Ancestor = record { identity = identity root; path = root } ∷ [] in
      each_path (λ relative. include_file fuel root chain (beside root relative))
        (included raw.include) start
      >>= λ loader.
          returned (record raw { include = none; services = loader.services }, loader.errors)
