-- ===== src/Raw.antt =====
-- crates/servicrab-core/src/raw.rs: the configuration as it is written, which `serde` reads.
use servicrab.Base.{ℕ, Bool, Option, none, List, [], ◌∷◌, Text}
use servicrab.Base.Map.{BTreeMap}

pub data RawEnvFile : Type 0 where
  one : Text → RawEnvFile
  many : List Text → RawEnvFile

-- `RawEnvFile::paths`
unfoldable pub paths_of : RawEnvFile → List Text
paths_of (one path) = path ∷ []
paths_of (many paths) = paths

pub record RawLogs : Type 0 where
  pub dir : Option Text
  pub max_size : Option Text
  pub max_files : Option ℕ

pub record RawProject : Type 0 where
  pub name : Text
  pub env : BTreeMap Text
  pub env_file : Option RawEnvFile
  pub logs : Option RawLogs

pub record RawServiceLogs : Type 0 where
  pub enabled : Bool

pub record RawDependency : Type 0 where
  pub condition : Option Text

pub data RawDependsOn : Type 0 where
  names : List Text → RawDependsOn
  detailed : BTreeMap RawDependency → RawDependsOn

abbrev pub unconditional : List Text → List (Text × Option Text)
unconditional [] = []
unconditional (name ∷ rest) = (name, none) ∷ unconditional rest

abbrev pub conditions : BTreeMap RawDependency → List (Text × Option Text)
conditions [] = []
conditions ((name, d) ∷ m) = (name, d.condition) ∷ conditions m

-- `RawDependsOn::entries`
unfoldable pub entries : RawDependsOn → List (Text × Option Text)
entries (names ns) = unconditional ns
entries (detailed m) = conditions m

pub data RawRestartPolicy : Type 0 where
  never on_failure always unless_stopped : RawRestartPolicy

pub record RawWatch : Type 0 where
  pub paths : List Text
  pub ignore : List Text
  pub interval : Option Text
  pub debounce : Option Text

pub record RawHealthCheck : Type 0 where
  pub command : Option (List Text)
  pub http : Option Text
  pub tcp : Option Text
  pub interval : Option Text
  pub timeout : Option Text
  pub retries : Option ℕ
  pub start_period : Option Text
  pub on_unhealthy : Option Text

pub record RawService : Type 0 where
  pub origin : Option Text
  pub command : List Text
  pub cwd : Option Text
  pub env : BTreeMap Text
  pub env_file : Option RawEnvFile
  pub depends_on : Option RawDependsOn
  pub profiles : List Text
  pub autostart : Bool
  pub restart : RawRestartPolicy
  pub restart_delay : Option Text
  pub restart_max_delay : Option Text
  pub max_restarts : Option ℕ
  pub stable_after : Option Text
  pub shutdown_signal : Option Text
  pub shutdown_timeout : Option Text
  pub health : Option RawHealthCheck
  pub logs : Option RawServiceLogs
  pub watch : Option RawWatch

pub data RawInclude : Type 0 where
  include_one : Text → RawInclude
  include_many : List Text → RawInclude

-- `RawInclude::paths`
unfoldable pub include_paths : RawInclude → List Text
include_paths (include_one path) = path ∷ []
include_paths (include_many paths) = paths

-- An included file; what `version` and `project` hold is ignored, so it is whether they stand there.
pub record RawFragment : Type 0 where
  pub include : Option RawInclude
  pub services : BTreeMap RawService
  pub version : Bool
  pub project : Bool

pub record RawConfig : Type 0 where
  pub version : ℕ
  pub include : Option RawInclude
  pub project : RawProject
  pub services : BTreeMap RawService
