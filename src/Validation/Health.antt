-- ===== src/Validation/Health.antt =====
-- crates/servicrab-core/src/validation.rs: a health table that passes gives a health check.
use servicrab.Base.{
  true, ◌||◌, any, Option, none, some, List, [], ◌∷◌, Text, ◌≡◌, inl, inr, ◌∙◌, refl, Bool-cases,
  Option-cases, Result-cases, arith,
}
use servicrab.Base.Map.{is_some}
use servicrab.Base.Chars.{is_empty, contains_char}
use servicrab.Raw.{RawHealthCheck}
use servicrab.Errors.Checked.{Passes, first_passes, ◌>>=◌}
use servicrab.Validation.{Host}
use servicrab.Validation.Probes.{
  parse_http_url, parse_host_port, command_probe, http_probe, tcp_probe, build_probe, declared,
  the_probe, validate_health,
}
use servicrab.Validation.Services.{optional_health}

command_probe_lem :
    (service : Text) (command : List Text)
    → Passes (command_probe service command)
    → is_some (command_probe service command).value ≡ true
unfolding command_probe
command_probe_lem service [] h = cc
command_probe_lem service (executable ∷ args) h =
    elim (Bool-cases (is_empty executable || any (contains_char 0) (executable ∷ args))) [
      | inl unusable ↦ ground (arith, h, unusable)
      | inr usable ↦ ground (arith, h, usable)
    ]

http_probe_lem :
    (service url : Text)
    → Passes (http_probe service url)
    → is_some (http_probe service url).value ≡ true
unfolding http_probe
http_probe_lem service url h = elim (Result-cases (parse_http_url url)) [
  | inl (probe, e) ↦ ground (arith, h, e)
  | inr (reason, e) ↦ ground (arith, h, e)
]

tcp_probe_lem :
    (service addr : Text)
    → Passes (tcp_probe service addr)
    → is_some (tcp_probe service addr).value ≡ true
unfolding tcp_probe
tcp_probe_lem service addr h = elim (Result-cases (parse_host_port addr)) [
  | inl (parts, e) ↦ ground (arith, h, e)
  | inr (reason, e) ↦ ground (arith, h, e)
]

the_probe_lem :
    (raw : RawHealthCheck) (service : Text)
    → Passes (the_probe (declared raw) raw service)
    → is_some (the_probe (declared raw) raw service).value ≡ true
unfolding the_probe build_probe
the_probe_lem raw service h = elim (Option-cases raw.command) [
  | inl no_command ↦ elim (Option-cases raw.http) [
    | inl no_http ↦ elim (Option-cases raw.tcp) [
      | inl no_tcp ↦ absurd (ground (arith, rw (no_command, no_http, no_tcp) at h))
      | inr (addr, tcp) ↦
          rw (no_command, no_http, tcp)
            (tcp_probe_lem service addr (rw (no_command, no_http, tcp) at h))
    ]
    | inr (url, http) ↦ elim (Option-cases raw.tcp) [
      | inl no_tcp ↦
          rw (no_command, http, no_tcp)
            (http_probe_lem service url (rw (no_command, http, no_tcp) at h))
      | inr (addr, tcp) ↦ absurd (ground (arith, rw (no_command, http, tcp) at h))
    ]
  ]
  | inr (command, given) ↦ elim (Option-cases raw.http) [
    | inl no_http ↦ elim (Option-cases raw.tcp) [
      | inl no_tcp ↦
          rw (given, no_http, no_tcp)
            (command_probe_lem service command (rw (given, no_http, no_tcp) at h))
      | inr (addr, tcp) ↦ absurd (ground (arith, rw (given, no_http, tcp) at h))
    ]
    | inr (url, http) ↦ elim (Option-cases raw.tcp) [
      | inl no_tcp ↦ absurd (ground (arith, rw (given, http, no_tcp) at h))
      | inr (addr, tcp) ↦ absurd (ground (arith, rw (given, http, tcp) at h))
    ]
  ]
]

is_some-validate_health :
    (host : Host) (raw : RawHealthCheck) (service : Text)
    → is_some (validate_health host raw service).value
      ≡ is_some (the_probe (declared raw) raw service).value
unfolding validate_health ◌>>=◌
is_some-validate_health host raw service =
    elim (Option-cases (the_probe (declared raw) raw service).value) [
      | inl none_built ↦ rw none_built
      | inr (probe, built) ↦ rw built
    ]

validate_health_lem :
    (host : Host) (raw : RawHealthCheck) (service : Text)
    → Passes (validate_health host raw service)
    → is_some (validate_health host raw service).value ≡ true
unfolding validate_health
validate_health_lem host raw service h =
    is_some-validate_health host raw service ∙ the_probe_lem raw service (first_passes _ _ h)

-- A service with a health table has a health check.
pub optional_health_lem :
    (host : Host) (raw : Option RawHealthCheck) (name : Text)
    → Passes (optional_health host raw name)
    → is_some (optional_health host raw name).value ≡ is_some raw
unfolding optional_health
optional_health_lem host none name h = refl
optional_health_lem host (some raw) name h = validate_health_lem host raw name h
