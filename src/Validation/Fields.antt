-- ===== src/Validation/Fields.antt =====
-- crates/servicrab-core/src/validation.rs: durations, sizes, signals and the watch table.
use servicrab.Base.{
  ℕ, ◌+◌, ◌^◌, Bool, true, false, ◌&&◌, ◌||◌, not, map, Option, none, some, List, [], ◌∷◌, ◌++◌,
  Text, codes, same, ltb, leb, ◌==◌, if◌then◌else◌, match_option, Result, ok, err,
}
use servicrab.Base.Count.{contains}
use servicrab.Base.Chars.{is_empty, is_ascii_digit, trim}
use servicrab.Lifecycle.{Duration}
use servicrab.Config.{ShutdownSignal, WatchSettings}
use servicrab.Raw.{RawWatch}
use servicrab.Errors.{
  at_least, at_most, invalid_duration, duration_out_of_range, invalid_watch, no_paths, empty_path,
  empty_ignore, unwatchable, SizeReason, size_empty, size_negative, size_too_large, not_a_number,
  unknown_unit, invalid_shutdown_signal,
}
use servicrab.Errors.Checked.{Checked, pure, report, refuse, ◌>>=◌, ◌>>◌}
use servicrab.Validation.{Host, millis, secs, dur_100ms, dur_1h, resolved_path}

-- `parse_duration_field`, of a duration that is read.
unfoldable pub check_range :
    Text → Text → Duration → Duration → Duration → Duration → Checked Duration
check_range service field default min max dur =
    if ltb dur min
    then refuse (duration_out_of_range service field (at_least min dur)) default
    else if ltb max dur
    then refuse (duration_out_of_range service field (at_most max dur)) default
    else pure dur

unfoldable pub parse_duration_field :
    Host → Option Text → Text → Duration → Text → Duration → Duration → Checked Duration
parse_duration_field host none field default service min max = pure default
parse_duration_field host (some s) field default service min max = elim (host.parse_duration s) [
  | ok dur ↦ check_range service field default min max dur
  | err reason ↦ refuse (invalid_duration service field s reason) default
]

unfoldable pub parse_shutdown_signal : Option Text → Text → Checked ShutdownSignal
parse_shutdown_signal none service = pure ShutdownSignal.term
parse_shutdown_signal (some value) service =
    if same value (codes "term")
    then pure ShutdownSignal.term
    else if same value (codes "int")
    then pure ShutdownSignal.int
    else if same value (codes "quit")
    then pure ShutdownSignal.quit
    else if same value (codes "hup")
    then pure ShutdownSignal.hup
    else refuse (invalid_shutdown_signal service value) ShutdownSignal.term

-- One turn of the loop of `validate_watch` over the paths.
unfoldable pub watch_path : Host → Text → Text → Text → Checked (List Text)
watch_path host cwd service entry =
    if is_empty entry
    then refuse (invalid_watch service empty_path) []
    else elim (host.canonicalize (resolved_path cwd entry)) [
      | ok path ↦ pure (path ∷ [])
      | err e ↦ refuse (invalid_watch service (unwatchable (resolved_path cwd entry) e)) []
    ]

unfoldable pub watch_paths : Host → Text → Text → List Text → Checked (List Text)
watch_paths host cwd service [] = pure []
watch_paths host cwd service (entry ∷ entries) = do
  first ← watch_path host cwd service entry
  rest ← watch_paths host cwd service entries
  pure (first ++ rest)

-- One turn of the loop of `validate_watch` over the names to ignore.
unfoldable pub ignore_entry : Text → List Text → Text → Checked (List Text)
ignore_entry service ignore entry =
    if is_empty entry
    then refuse (invalid_watch service empty_ignore) ignore
    else pure (if contains ignore entry then ignore else ignore ++ entry ∷ [])

unfoldable pub ignore_entries : Text → List Text → List Text → Checked (List Text)
ignore_entries service ignore [] = pure ignore
ignore_entries service ignore (entry ∷ entries) = do
  new ← ignore_entry service ignore entry
  ignore_entries service new entries

abbrev pub always_ignored : List Text
always_ignored = codes ".git" ∷ codes ".servicrab" ∷ []

abbrev pub is_none_left : List Text → Bool
is_none_left [] = true
is_none_left (path ∷ paths) = false

unfoldable pub validate_watch : Host → RawWatch → Text → Text → Checked (Option WatchSettings)
validate_watch host raw cwd service = do
  if is_none_left raw.paths then report (invalid_watch service no_paths) else pure tt
  paths ← watch_paths host cwd service raw.paths
  interval ←
      parse_duration_field host raw.interval (codes "watch.interval") (secs 1) service dur_100ms
        dur_1h
  debounce ←
      parse_duration_field host raw.debounce (codes "watch.debounce") (millis 300) service
        (millis 50) dur_1h
  ignore ← ignore_entries service always_ignored raw.ignore
  pure (
      if is_none_left paths
      then none
      else some
          (record { paths = paths; ignore = ignore; interval = interval; debounce = debounce }))

abbrev pub to_ascii_lowercase : Text → Text
to_ascii_lowercase s = map (λ c. if leb b'A' c && leb c b'Z' then c + 32 else c) s

-- The digits and dots at the front, and the suffix.
unfoldable pub split_number : Text → Text × Text
split_number [] = ([], [])
split_number (c ∷ s) =
    let (number, suffix) = split_number s in
    if is_ascii_digit c || c == b'.' then (c ∷ number, suffix) else ([], c ∷ s)

-- The power of 1024 that a unit stands for.
unfoldable pub unit_power : Text → Option ℕ
unit_power unit =
    if contains ([] ∷ codes "b" ∷ []) unit
    then some 0
    else if contains (codes "k" ∷ codes "kb" ∷ codes "kib" ∷ []) unit
    then some 1
    else if contains (codes "m" ∷ codes "mb" ∷ codes "mib" ∷ []) unit
    then some 2
    else if contains (codes "g" ∷ codes "gb" ∷ codes "gib" ∷ []) unit
    then some 3
    else if contains (codes "t" ∷ codes "tb" ∷ codes "tib" ∷ []) unit
    then some 4
    else none

-- `parse_size`, of a number that is read.
unfoldable pub size_of : Host → ℕ → Text → Result SizeReason ℕ
size_of host number suffix =
    let unit = to_ascii_lowercase (trim suffix) in
    if host.is_negative number
    then err size_negative
    else match_option (unit_power unit) (err (unknown_unit unit)) λ power.
      let bytes = host.times number (1024 ^ power) in
      if not (host.is_finite bytes) || host.exceeds_u64 bytes
      then err size_too_large
      else ok (host.to_u64 bytes)

unfoldable pub parse_size : Host → Text → Result SizeReason ℕ
parse_size host value =
    let trimmed = trim value in
    let (number, suffix) = split_number trimmed in
    if is_empty trimmed
    then err size_empty
    else match_option (host.parse_f64 number) (err (not_a_number number)) λ n. size_of host n suffix
