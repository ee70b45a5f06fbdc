-- ===== src/Validation.antt =====
-- crates/servicrab-core/src/validation.rs: what validation asks of its environment, and the limits.
pub mod Names
pub mod Fields
pub mod Files
pub mod Probes
pub mod Services
pub mod Pipeline
pub mod Bounds
pub mod Settings
pub mod Loop
pub mod Links
pub mod Health
pub mod Whole
pub mod Accepted
pub mod Outcomes
pub mod Plans
pub mod Grammar
pub mod Decimal
pub mod Addresses
pub mod Samples
use servicrab.Base.{
  ℕ, ◌+◌, ◌*◌, Bool, true, false, ◌||◌, Option, none, some, List, [], ◌∷◌, ◌++◌, Text, codes, ◌==◌,
  if◌then◌else◌, match_option, Result, ok, err,
}
use servicrab.Base.Map.{BTreeMap}
use servicrab.Base.Chars.{is_empty, starts_with, strip_suffix}
use servicrab.Lifecycle.{Duration}

-- The operating system, the crate `humantime`, and the machine's `f64`, whose values are their bits.
pub record Host : Type 0 where
  pub vars : BTreeMap Text
  pub search_path : Option (List Text)
  pub parent : Text → Option Text
  pub canonicalize : Text → Result Text Text
  pub exists : Text → Bool
  pub is_dir : Text → Bool
  pub is_file : Text → Bool
  pub read_to_string : Text → Result Text Text
  pub parse_duration : Text → Result Text Duration
  pub parse_f64 : Text → Option ℕ
  pub is_negative : ℕ → Bool
  pub times : ℕ → ℕ → ℕ
  pub is_finite : ℕ → Bool
  pub exceeds_u64 : ℕ → Bool
  pub to_u64 : ℕ → ℕ

abbrev pub millis : ℕ → Duration
millis n = n * 1000000

abbrev pub secs : ℕ → Duration
secs n = n * 1000000000

abbrev pub dur_100ms : Duration
dur_100ms = millis 100

abbrev pub dur_1s : Duration
dur_1s = secs 1

abbrev pub dur_1h : Duration
dur_1h = secs 3600

abbrev pub dur_24h : Duration
dur_24h = secs 86400

abbrev pub is_absolute : Text → Bool
is_absolute path = starts_with (b'/' ∷ []) path

-- `base.join(path)`, for a path that is relative.
unfoldable pub join_path : Text → Text → Text
join_path base path =
    if is_empty base
    then path
    else match_option (strip_suffix b'/' base) (base ++ (b'/' ∷ path)) λ _. base ++ path

-- A path as it is, where it is absolute, and else behind a directory.
unfoldable pub resolved_path : Text → Text → Text
resolved_path dir path = if is_absolute path then path else join_path dir path
