-- ===== src/Validation/Addresses.antt =====
-- crates/servicrab-core/src/validation.rs: addresses and URLs, written and read back.
use servicrab.Base.{
  ℕ, suc, ◌≤◌, ◌<◌, false, none, some, [], ◌∷◌, ◌++◌, Text, codes, ◌≡◌, refl, inl, inr,
  if◌then◌else◌, Bool-cases, ok, arith,
}
use servicrab.Base.Chars.{
  is_empty, is_ascii_digit, contains_char, starts_with, rsplit_once, split_once-append,
  contains_char-append,
}
use servicrab.Config.{HealthProbe}
use servicrab.Validation.Probes.{
  split_address, check_address, parse_host_port, split_path, host_of, parse_http_url,
}
use servicrab.Validation.Decimal.{printed, all_digits-print, no_other, parse_u16-printed}

rsplit_once_absent : (c : ℕ) (s : Text) → contains_char c s ≡ false → rsplit_once c s ≡ none
unfolding rsplit_once
rsplit_once_absent c [] h = refl
rsplit_once_absent c (d ∷ s) h = ground (arith, h, rsplit_once_absent c s (ground (arith, h)))

rsplit_once-append :
    (c : ℕ) (s tail : Text)
    → contains_char c tail ≡ false
    → rsplit_once c (s ++ c ∷ tail) ≡ some (s, tail)
unfolding rsplit_once
rsplit_once-append c [] tail h = ground (arith, rsplit_once_absent c tail h)
rsplit_once-append c (d ∷ s) tail h = ground (arith, rsplit_once-append c s tail h)

-- An address, with brackets around a host that has colons.
unfoldable pub written_address : Text → ℕ → Text
written_address host port =
    if contains_char b':' host
    then b'[' ∷ (host ++ b']' ∷ b':' ∷ printed port)
    else host ++ b':' ∷ printed port

-- A host that an address can be written for.
pub record IsHost (host : Text) : Type 0 where
  pub present : is_empty host ≡ false
  pub no_open : contains_char b'[' host ≡ false
  pub no_close : contains_char b']' host ≡ false

not_bracketed :
    (host tail : Text)
    → is_empty host ≡ false
    → contains_char b'[' host ≡ false
    → starts_with (codes "[") (host ++ tail) ≡ false
not_bracketed [] tail h k = cc
not_bracketed (c ∷ host) tail h k = ground (arith, k)

split_address-written :
    (host : Text) (port : ℕ)
    → IsHost host
    → split_address (written_address host port) ≡ ok (host, printed port)
unfolding split_address written_address
split_address-written host port h = elim (Bool-cases (contains_char b':' host)) [
  | inl colons ↦
      ground (arith, colons, split_once-append b']' host (b':' ∷ printed port) h.no_close)
  | inr none_in_it ↦
      let no_colon = no_other b':' (printed port) refl (all_digits-print (suc port) port) in
      ground (
        arith,
        none_in_it,
        not_bracketed host (b':' ∷ printed port) h.present h.no_open,
        rsplit_once-append b':' host (printed port) no_colon,
      )
]

-- A host and a port are read back from their address, written with brackets around a host that has
-- colons. The host is not empty and has no brackets, and the port is between 1 and 65535.
pub parse_host_port-written :
    (host : Text) (port : ℕ)
    → IsHost host
    → 1 ≤ port
    → port < 65536
    → parse_host_port (written_address host port) ≡ ok (host, port)
unfolding parse_host_port check_address
parse_host_port-written host port h low high =
    ground
      (arith, low, high, h.present, split_address-written host port h, parse_u16-printed port high)

-- A character that is neither in the host nor in the form of an address is not in the address.
address_free :
    (c : ℕ) (host : Text) (port : ℕ)
    → contains_char c host ≡ false
    → is_ascii_digit c ≡ false
    → contains_char c (codes "[]:") ≡ false
    → contains_char c (written_address host port) ≡ false
unfolding written_address
address_free c host port h other form =
    let digits = no_other c (printed port) other (all_digits-print (suc port) port) in
    elim (Bool-cases (contains_char b':' host)) [
      | inl colons ↦
          ground (
            arith,
            colons,
            h,
            form,
            digits,
            contains_char-append c host (b']' ∷ b':' ∷ printed port),
          )
      | inr none_in_it ↦
          ground
            (arith, none_in_it, h, form, digits, contains_char-append c host (b':' ∷ printed port))
    ]

unfoldable pub written_url : Text → ℕ → Text → Text
written_url host port path = codes "http://" ++ (written_address host port ++ b'/' ∷ path)

split_path-written :
    (host : Text) (port : ℕ) (path : Text)
    → contains_char b'/' host ≡ false
    → split_path (written_address host port ++ b'/' ∷ path)
      ≡ (written_address host port, b'/' ∷ path)
unfolding split_path
split_path-written host port path no_slash = rw (
    split_once-append b'/' (written_address host port) path
      (address_free b'/' host port no_slash refl refl))

-- A URL that is written from a host, a port and a path, with brackets around a host that has colons,
-- is read back as a probe of these. The host is not empty and has no brackets, no `/` and no `@`, and
-- the port is between 1 and 65535.
pub parse_http_url-written :
    (host : Text) (port : ℕ) (path : Text)
    → IsHost host
    → contains_char b'/' host ≡ false
    → contains_char b'@' host ≡ false
    → 1 ≤ port
    → port < 65536
    → parse_http_url (written_url host port path)
      ≡ ok (HealthProbe.http (written_url host port path) host port (b'/' ∷ path))
unfolding parse_http_url written_url host_of
parse_http_url-written host port path h no_slash no_at low high = ground (
  arith,
  split_path-written host port path no_slash,
  address_free b'@' host port no_at refl refl,
  parse_host_port-written host port h low high,
)
