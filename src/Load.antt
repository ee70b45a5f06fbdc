-- ===== src/Load.antt =====
-- crates/servicrab-core/src/load.rs: how the configuration is found, read and validated. The readings of
-- TOML are arguments.
pub mod Found
pub mod Loaded
mod Samples
use servicrab.Base.{
  ℕ, zero, suc, Bool, not, Option, none, some, List, [], ◌∷◌, Text, codes, ◌==◌, if◌then◌else◌,
  match_option, Result, ok, err, match_result, Run, returned, out_of_fuel, ◌>>=◌,
}
use servicrab.Errors.{ConfigError, config_not_found, unreadable, unparsed, unsupported_version}
use servicrab.Raw.{RawFragment, RawConfig}
use servicrab.Include.{merge}
use servicrab.Validation.{Host, join_path}
use servicrab.Validation.Pipeline.{Outcome, supported_version, validate_raw}

abbrev pub config_file : Text → Text
config_file dir = join_path dir (codes "servicrab.toml")

-- The loop of `discover_config`. `pop` goes to the parent of the directory, where it has one.
unfoldable pub discover_from : Host → ℕ → Text → Text → Run (Result ConfigError Text)
discover_from host zero start_dir dir = out_of_fuel
discover_from host (suc fuel) start_dir dir =
    if host.is_file (config_file dir)
    then returned (ok (config_file dir))
    else match_option (host.parent dir) (returned (err (config_not_found start_dir)))
        (discover_from host fuel start_dir)

unfoldable pub discover_config : Host → ℕ → Text → Run (Result ConfigError Text)
discover_config host fuel start_dir = discover_from host fuel start_dir start_dir

-- `current_dir` is what the operating system answers.
unfoldable pub resolve_config_path :
    Host → Result Text Text → ℕ → Option Text → Run (Result ConfigError Text)
resolve_config_path host current_dir fuel explicit =
    match_option explicit
      (match_result current_dir (λ source. returned (err (unreadable (codes ".") source)))
        (discover_config host fuel))
      λ path. returned (ok path)

-- A version that the file declares and that is not supported.
unfoldable pub other_version : Option ℕ → Option ℕ
other_version declared =
    match_option declared none
      λ version. if version == supported_version then none else some version

-- What the parser of TOML makes of a text: as `JustTheVersion`, as a configuration, and as a fragment.
pub record Toml : Type 0 where
  pub declared_version : Text → Option ℕ
  pub parse_config : Text → Result Text RawConfig
  pub parse_fragment : Text → Result Text RawFragment

unfoldable pub if_merged : Host → Text → RawConfig × List ConfigError → Run Outcome
if_merged host path (raw, []) = validate_raw host raw path
if_merged host path (raw, error ∷ errors) = returned (err (error ∷ errors))

unfoldable pub load : Host → Toml → ℕ → Text → Run Outcome
load host toml fuel path =
    match_result (host.read_to_string path) (λ source. returned (err (unreadable path source ∷ [])))
      λ text.
        match_option (other_version (toml.declared_version text))
          (match_result (toml.parse_config text)
            (λ source. returned (err (unparsed path source ∷ [])))
            λ raw. merge host toml.parse_fragment fuel raw path >>= if_merged host path)
          λ version. returned (err (unsupported_version version ∷ []))
