-- ===== src/Validation/Files.antt =====
-- crates/servicrab-core/src/validation.rs: what reads the file system: environment files, the
-- directories, the log table and the search for an executable.
use servicrab.Base.{
  ℕ, ◌*◌, ◌&&◌, ◌||◌, not, Option, none, some, List, [], ◌∷◌, ◌++◌, Text, codes, ltb, leb,
  if◌then◌else◌, match_option, Result, ok, err,
}
use servicrab.Base.Map
use servicrab.Base.Map.{BTreeMap, unwrap_or, is_some}
use servicrab.Base.Chars.{is_empty, contains_char}
use servicrab.Config.{LogSettings}
use servicrab.Raw.{RawEnvFile, paths_of, RawLogs}
use servicrab.Envfile.{EnvFileError, unreadable, parse}
use servicrab.Errors.{
  Scope, invalid_env_file, not_loaded, bad_entry, invalid_cwd, invalid_log_dir, invalid_size,
  outside_range, invalid_max_files, executable_not_in_path,
}
use servicrab.Errors.Checked.{Checked, pure, warn, refuse, ◌>>=◌}
use servicrab.Validation.{Host, join_path, resolved_path}
use servicrab.Validation.Names.{is_valid_env_key}
use servicrab.Validation.Fields.{parse_size}

-- `envfile::load`
unfoldable pub load_env_file : Host → Text → Result EnvFileError (BTreeMap Text)
load_env_file host path = elim (host.read_to_string path) [
  | ok text ↦ parse text
  | err reason ↦ err (unreadable reason)
]

-- The inner loop of `load_env_files`, over the entries of one file.
unfoldable pub merge_entries :
    Scope → Text → BTreeMap Text → BTreeMap Text → Checked (BTreeMap Text)
merge_entries scope path merged [] = pure merged
merge_entries scope path merged ((key, value) ∷ vars) = do
  new ←
      if not (is_valid_env_key key) || contains_char 0 value
      then refuse (invalid_env_file scope path (bad_entry key)) merged
      else pure (Map.insert key value merged)
  merge_entries scope path new vars

-- The loop of `load_env_files`, with the paths and the entries so far.
unfoldable pub load_paths :
    Host
    → Text
    → Scope
    → List Text × BTreeMap Text
    → List Text
    → Checked (List Text × BTreeMap Text)
load_paths host dir scope loaded [] = pure loaded
load_paths host dir scope (paths, merged) (candidate ∷ candidates) = do
  let path = resolved_path dir candidate
  new ← elim (load_env_file host path) [
    | ok vars ↦ merge_entries scope path merged vars
    | err e ↦ refuse (invalid_env_file scope path (not_loaded e)) merged
  ]
  load_paths host dir scope (paths ++ path ∷ [], new) candidates

unfoldable pub load_env_files :
    Host → Option RawEnvFile → Text → Scope → Checked (List Text × BTreeMap Text)
load_env_files host none dir scope = pure ([], [])
load_env_files host (some declared) dir scope =
    load_paths host dir scope ([], []) (paths_of declared)

unfoldable pub resolve_source_dir : Host → Text → Text
resolve_source_dir host source_path =
    let parent =
      match_option (host.parent source_path) (codes ".") λ p. if is_empty p then codes "." else p in
    elim (host.canonicalize parent) [ ok dir ↦ dir | err e ↦ parent ]

unfoldable pub resolve_cwd : Host → Option Text → Text → Text → Checked Text
resolve_cwd host raw_cwd source_dir service =
    let candidate = match_option raw_cwd source_dir λ cwd. resolved_path source_dir cwd in
    elim (host.canonicalize candidate) [
      | ok abs ↦ if host.is_dir abs then pure abs else refuse (invalid_cwd service abs) source_dir
      | err e ↦ refuse (invalid_cwd service candidate) source_dir
    ]

abbrev pub default_max_size : ℕ
default_max_size = 10 * 1024 * 1024

abbrev pub min_max_size : ℕ
min_max_size = 1024

abbrev pub max_max_size : ℕ
max_max_size = 1024 * 1024 * 1024 * 1024

unfoldable pub validate_max_size : Host → Option Text → Checked ℕ
validate_max_size host none = pure default_max_size
validate_max_size host (some value) = elim (parse_size host value) [
  | ok size ↦
      if leb min_max_size size && leb size max_max_size
      then pure size
      else refuse (invalid_size (codes "max_size") value (outside_range size)) default_max_size
  | err reason ↦ refuse (invalid_size (codes "max_size") value reason) default_max_size
]

unfoldable pub validate_logs : Host → RawLogs → Text → Checked (Option LogSettings)
validate_logs host raw source_dir =
    let dir = resolved_path source_dir (unwrap_or (codes ".servicrab/logs") raw.dir) in
    let max_files = unwrap_or 3 raw.max_files in
    if host.exists dir && not (host.is_dir dir) then refuse (invalid_log_dir dir) none else do
      max_size ← validate_max_size host raw.max_size
      if ltb 100 max_files
          then refuse (invalid_max_files max_files) none
          else pure (some (record { dir = dir; max_size = max_size; max_files = max_files }))

-- The loop of `which_in_path`.
unfoldable pub which_in_dirs : Host → Text → List Text → Option Text
which_in_dirs host name [] = none
which_in_dirs host name (dir ∷ dirs) =
    let rest = which_in_dirs host name dirs in
    if host.is_file (join_path dir name) then some (join_path dir name) else rest

unfoldable pub which_in_path : Host → Text → Option Text
which_in_path host name = match_option host.search_path none (which_in_dirs host name)

unfoldable pub check_executable_in_path : Host → Text → Text → Checked (Unit {0})
check_executable_in_path host executable service =
    if contains_char b'/' executable || is_some (which_in_path host executable)
    then pure tt
    else warn (executable_not_in_path service executable)
