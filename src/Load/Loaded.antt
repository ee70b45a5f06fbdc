-- ===== src/Load/Loaded.antt =====
-- crates/servicrab-core/src/load.rs: what `load` comes to.
use servicrab.Base.{
  ℕ, ◌<◌, List, [], ◌∷◌, Text, length, match_option_ind, true, ok, match_result_ind, Returns,
  Returns-bind, ◌≡◌,
}
use servicrab.Base.Map
use servicrab.Base.Count.{contains}
use servicrab.Errors.{ConfigError}
use servicrab.Raw.{RawConfig}
use servicrab.Include.{identity, merge}
use servicrab.Include.Merged.{IsMerged, merge-IsMerged}
use servicrab.Validation.{Host}
use servicrab.Validation.Outcomes.{IsOutcome, validate_raw-IsOutcome}
use servicrab.Load.{Toml, other_version, if_merged, load}

if_merged-IsOutcome :
    (host : Host) (path : Text) (raw : RawConfig) (errors : List ConfigError)
    → Map.IsMap raw.services
    → Returns IsOutcome (if_merged host path (raw, errors))
unfolding if_merged
if_merged-IsOutcome host path raw [] sorted = validate_raw-IsOutcome host raw path sorted
if_merged-IsOutcome host path raw (error ∷ errors) sorted = λ h. cc

-- For a list that names every file that can be read, more fuel than it is long, and a parser whose maps
-- have each key once, `load` ends, and its `expect` does not fail: with errors, of which there is
-- one at least, or with a configuration that is valid.
pub load-IsOutcome :
    (host : Host) (toml : Toml) (files : List Text) (fuel : ℕ) (path : Text)
    → ((text : Text) (raw : RawConfig) → toml.parse_config text ≡ ok raw → Map.IsMap raw.services)
    → ((p text : Text)
        → host.read_to_string p ≡ ok text
        → contains files (identity host toml.parse_fragment p) ≡ true)
    → length files < fuel
    → Returns IsOutcome (load host toml fuel path)
unfolding load
load-IsOutcome host toml files fuel path maps known enough =
    match_result_ind (Returns IsOutcome) (host.read_to_string path) (λ source _ h. cc)
      λ text _.
        match_option_ind (Returns IsOutcome) (other_version (toml.declared_version text))
          (λ _.
            match_result_ind (Returns IsOutcome) (toml.parse_config text) (λ source _ h. cc)
              λ raw parsed.
                Returns-bind
                  (λ (result, errors). IsMerged host toml.parse_fragment raw path result errors)
                  IsOutcome (merge host toml.parse_fragment fuel raw path) (if_merged host path)
                  (merge-IsMerged host toml.parse_fragment raw path files fuel known enough)
                  λ (result, errors) merged.
                    if_merged-IsOutcome host path result errors
                      (merged.ascends (maps text raw parsed)))
          λ version _ h. cc
