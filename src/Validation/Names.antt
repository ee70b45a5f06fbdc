-- ===== src/Validation/Names.antt =====
-- crates/servicrab-core/src/validation.rs: names, profiles and the keys and values of environments.
use servicrab.Base.{
  ℕ, Bool, ◌&&◌, ◌||◌, not, all, List, [], ◌∷◌, ◌++◌, Text, ltb, ◌==◌, if◌then◌else◌, length,
  Result, ok, err,
}
use servicrab.Base.Count.{contains}
use servicrab.Base.Map
use servicrab.Base.Map.{BTreeMap}
use servicrab.Base.Chars.{is_empty, is_ascii_alphanumeric, contains_char}
use servicrab.Errors.{
  ConfigError, NameReason, name_empty, name_not_ascii, name_too_long, bad_first, bad_character,
  invalid_project_name, invalid_service_name, invalid_profile_name, duplicate_profile,
  invalid_project_env_key, nul_in_project_env_value, invalid_env_key, nul_in_env_value,
}
use servicrab.Errors.Checked.{Checked, pure, refuse, ◌>>=◌}

abbrev pub is_name_char : ℕ → Bool
is_name_char c = is_ascii_alphanumeric c || c == b'.' || c == b'_' || c == b'-'

abbrev pub is_ascii : Text → Bool
is_ascii name = all (λ c. ltb c 128) name

-- The loop over the characters, which stops at the first one that is not allowed.
unfoldable pub check_characters : Text → Result NameReason (Unit {0})
check_characters [] = ok tt
check_characters (c ∷ s) =
    let rest = check_characters s in if is_name_char c then rest else err (bad_character c)

unfoldable pub check_first : Text → Result NameReason (Unit {0})
check_first [] = err name_empty
check_first (c ∷ s) =
    if is_ascii_alphanumeric c then check_characters (c ∷ s) else err (bad_first c)

-- The length in bytes is read of a name in ASCII.
unfoldable pub validate_name : Text → ℕ → Result NameReason (Unit {0})
validate_name name max_len =
    if is_empty name
    then err name_empty
    else if not (is_ascii name)
    then err name_not_ascii
    else if ltb max_len (length name)
    then err (name_too_long max_len (length name))
    else check_first name

unfoldable pub validate_project_name : Text → Result ConfigError Text
validate_project_name name = elim (validate_name name 64) [
  | ok _ ↦ ok name
  | err reason ↦ err (invalid_project_name name reason)
]

unfoldable pub validate_service_name : Text → Result ConfigError Text
validate_service_name name = elim (validate_name name 48) [
  | ok _ ↦ ok name
  | err reason ↦ err (invalid_service_name name reason)
]

-- One turn of the loop of `validate_profiles`.
unfoldable pub validate_profile : Text → List Text → Text → Checked (List Text)
validate_profile service profiles name = elim (validate_name name 48) [
  | err reason ↦ refuse (invalid_profile_name service name reason) profiles
  | ok _ ↦
      if contains profiles name
      then refuse (duplicate_profile service name) profiles
      else pure (profiles ++ name ∷ [])
]

-- The loop of `validate_profiles`, with the profiles kept so far.
unfoldable pub validate_profiles : Text → List Text → List Text → Checked (List Text)
validate_profiles service profiles [] = pure profiles
validate_profiles service profiles (name ∷ names) = do
  kept ← validate_profile service profiles name
  validate_profiles service kept names

unfoldable pub is_valid_env_key : Text → Bool
is_valid_env_key key =
    not (is_empty key) && not (contains_char b'=' key) && not (contains_char 0 key)

-- `validate_project_env` and `validate_service_env`: the two differ in the errors, for a key and for
-- a value.
unfoldable pub validate_env :
    (Text → ConfigError)
    → (Text → ConfigError)
    → BTreeMap Text
    → BTreeMap Text
    → Checked (BTreeMap Text)
validate_env bad_key bad_value out [] = pure out
validate_env bad_key bad_value out ((k, v) ∷ env) = do
  new ←
      if not (is_valid_env_key k)
      then refuse (bad_key k) out
      else if contains_char 0 v
      then refuse (bad_value k) out
      else pure (Map.insert k v out)
  validate_env bad_key bad_value new env

abbrev pub validate_project_env : BTreeMap Text → Checked (BTreeMap Text)
validate_project_env = validate_env invalid_project_env_key nul_in_project_env_value []

abbrev pub validate_service_env : Text → BTreeMap Text → Checked (BTreeMap Text)
validate_service_env service = validate_env (invalid_env_key service) (nul_in_env_value service) []
