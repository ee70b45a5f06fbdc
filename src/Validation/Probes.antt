-- ===== src/Validation/Probes.antt =====
-- crates/servicrab-core/src/validation.rs: the health table and its probe.
use servicrab.Base.{
  ℕ, zero, suc, ◌+◌, ◌-◌, ◌*◌, Bool, true, false, ◌||◌, any, Option, none, some, List, [], ◌∷◌,
  ◌++◌, Text, codes, join, same, ltb, ◌==◌, if◌then◌else◌, match_option, Result, ok, err,
}
use servicrab.Base.Map.{is_some, unwrap_or}
use servicrab.Base.Chars.{
  is_empty, is_ascii_digit, contains_char, strip_prefix, split_once, rsplit_once,
}
use servicrab.Config.{HealthProbe, UnhealthyAction, HealthCheck}
use servicrab.Raw.{RawHealthCheck}
use servicrab.Errors.{
  AddressReason, unterminated_literal, expected_literal_port, expected_port, empty_host, zero_port,
  bad_port, https_unsupported, not_http, credentials, no_host, command_empty, command_unusable,
  address, invalid_health_probe, missing_health_probe, conflicting_health_probes, ProbeReason,
  invalid_unhealthy_action, invalid_health_retries,
}
use servicrab.Errors.Checked.{Checked, pure, refuse, ◌>>=◌}
use servicrab.Validation.{Host, secs, dur_100ms, dur_1h, dur_24h}
use servicrab.Validation.Fields.{parse_duration_field}

-- `u16::from_str`: an optional `+`, and digits whose value is below 2^16.
unfoldable pub decimal : ℕ → Text → Option ℕ
decimal n [] = some n
decimal n (c ∷ s) =
    let rest = decimal (n * 10 + (c - b'0')) s in if is_ascii_digit c then rest else none

unfoldable pub parse_u16 : Text → Option ℕ
parse_u16 s =
    let digits = unwrap_or s (strip_prefix (codes "+") s) in
    if is_empty digits
    then none
    else match_option (decimal 0 digits) none λ n. if ltb n 65536 then some n else none

-- The host and the port of an address, as texts.
unfoldable pub split_address : Text → Result AddressReason (Text × Text)
split_address addr =
    match_option (strip_prefix (codes "[") addr)
      (match_option (rsplit_once b':' addr) (err expected_port) λ parts. ok parts)
      λ rest.
        match_option (split_once (codes "]") rest) (err unterminated_literal) λ (host, behind).
          match_option (strip_prefix (codes ":") behind) (err expected_literal_port)
            λ port. ok (host, port)

unfoldable pub check_address : Text → Text → Result AddressReason (Text × ℕ)
check_address host port =
    if is_empty host
    then err empty_host
    else match_option (parse_u16 port) (err (bad_port port))
        λ n. if n == 0 then err zero_port else ok (host, n)

unfoldable pub parse_host_port : Text → Result AddressReason (Text × ℕ)
parse_host_port addr = elim (split_address addr) [
  | ok (host, port) ↦ check_address host port
  | err reason ↦ err reason
]

-- What stands in front of the path, and the path.
unfoldable pub split_path : Text → Text × Text
split_path rest =
    match_option (split_once (codes "/") rest) (rest, codes "/")
      λ (authority, path). (authority, b'/' ∷ path)

-- The host and the port of an authority; the port is 80 where there is none.
unfoldable pub host_of : Text → Result AddressReason (Text × ℕ)
host_of authority = elim (parse_host_port authority) [
  | ok parts ↦ ok parts
  | err reason ↦
      if contains_char b':' authority
      then err reason
      else if is_empty authority
      then err no_host
      else ok (authority, 80)
]

unfoldable pub parse_http_url : Text → Result AddressReason HealthProbe
parse_http_url url =
    match_option (strip_prefix (codes "http://") url)
      (match_option (split_once (codes "://") url) (err not_http)
        λ (scheme, _). if same scheme (codes "https") then err https_unsupported else err not_http)
      λ rest.
        let (authority, path) = split_path rest in
        if contains_char b'@' authority then err credentials else elim (host_of authority) [
          | ok (host, port) ↦ ok (HealthProbe.http url host port path)
          | err reason ↦ err reason
        ]

abbrev pub invalid : Text → Text → Text → ProbeReason → Checked (Option HealthProbe)
invalid service field value reason = refuse (invalid_health_probe service field value reason) none

-- `build_probe`, of a command.
unfoldable pub command_probe : Text → List Text → Checked (Option HealthProbe)
command_probe service [] = invalid service (codes "command") [] command_empty
command_probe service (executable ∷ args) =
    if is_empty executable || any (contains_char 0) (executable ∷ args)
    then invalid service (codes "command") executable command_unusable
    else pure (some (HealthProbe.command executable args))

-- `build_probe`, of a URL.
unfoldable pub http_probe : Text → Text → Checked (Option HealthProbe)
http_probe service url = elim (parse_http_url url) [
  | ok probe ↦ pure (some probe)
  | err reason ↦ invalid service (codes "http") url (address reason)
]

-- `build_probe`, of an address.
unfoldable pub tcp_probe : Text → Text → Checked (Option HealthProbe)
tcp_probe service addr = elim (parse_host_port addr) [
  | ok (host, port) ↦ pure (some (HealthProbe.tcp host port))
  | err reason ↦ invalid service (codes "tcp") addr (address reason)
]

unfoldable pub build_probe : RawHealthCheck → Text → Checked (Option HealthProbe)
build_probe raw service =
    match_option raw.command
      (match_option raw.http (match_option raw.tcp (pure none) (tcp_probe service))
        (http_probe service))
      (command_probe service)

abbrev pub declared_if : Bool → Text → List Text
declared_if true field = field ∷ []
declared_if false field = []

-- The probes that the table declares.
abbrev pub declared : RawHealthCheck → List Text
declared raw =
    declared_if (is_some raw.command) (codes "command")
    ++ (declared_if (is_some raw.http) (codes "http")
        ++ declared_if (is_some raw.tcp) (codes "tcp"))

unfoldable pub the_probe : List Text → RawHealthCheck → Text → Checked (Option HealthProbe)
the_probe [] raw service = refuse (missing_health_probe service) none
the_probe (field ∷ []) raw service = build_probe raw service
the_probe (field ∷ other ∷ more) raw service =
    refuse (conflicting_health_probes service (join (codes ", ") (field ∷ other ∷ more))) none

unfoldable pub parse_on_unhealthy : Option Text → Text → Checked UnhealthyAction
parse_on_unhealthy none service = pure UnhealthyAction.restart
parse_on_unhealthy (some value) service =
    if same value (codes "restart")
    then pure UnhealthyAction.restart
    else if same value (codes "ignore")
    then pure UnhealthyAction.ignore
    else refuse (invalid_unhealthy_action service value) UnhealthyAction.restart

unfoldable pub check_retries : Option ℕ → Text → Checked ℕ
check_retries none service = pure 3
check_retries (some zero) service = refuse (invalid_health_retries service) 1
check_retries (some (suc n)) service = pure (suc n)

unfoldable pub validate_health : Host → RawHealthCheck → Text → Checked (Option HealthCheck)
validate_health host raw service = do
  probe ← the_probe (declared raw) raw service
  interval ←
      parse_duration_field host raw.interval (codes "health.interval") (secs 2) service dur_100ms
        dur_1h
  timeout ←
      parse_duration_field host raw.timeout (codes "health.timeout") (secs 5) service dur_100ms
        dur_1h
  start_period ←
      parse_duration_field host raw.start_period (codes "health.start_period") 0 service 0 dur_24h
  on_unhealthy ← parse_on_unhealthy raw.on_unhealthy service
  retries ← check_retries raw.retries service
  pure (
      match_option probe none λ p. some (record {
        probe = p;
        interval = interval;
        timeout = timeout;
        retries = retries;
        start_period = start_period;
        on_unhealthy = on_unhealthy;
      }))
