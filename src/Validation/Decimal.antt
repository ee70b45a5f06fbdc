-- ===== src/Validation/Decimal.antt =====
-- crates/servicrab-core/src/validation.rs: numbers in decimal digits, as `u16::from_str` reads them.
use servicrab.Base.{
  ℕ, zero, suc, ◌+◌, ◌*◌, ◌-◌, ◌/◌, ◌%◌, ◌<◌, true, false, all, none, some, [], ◌∷◌, ◌++◌, Text,
  codes, ltb, ◌≡◌, refl, inl, inr, if◌then◌else◌, match_option, Bool-cases, arith,
}
use servicrab.Base.Chars.{is_empty, is_ascii_digit, contains_char, starts_with}
use servicrab.Validation.Probes.{decimal, parse_u16}

-- A number in decimal digits; fuel above the number is enough.
unfoldable pub print : ℕ → ℕ → Text
print zero n = []
print (suc fuel) n =
    let rest = print fuel (n / 10) in
    if ltb n 10 then (b'0' + n) ∷ [] else rest ++ (b'0' + n % 10) ∷ []

abbrev pub printed : ℕ → Text
printed n = print (suc n) n

decimal-append :
    (n : ℕ) (s : Text) (c : ℕ)
    → decimal n (s ++ c ∷ [])
      ≡ match_option
          (decimal n s)
          none
          (λ m. if is_ascii_digit c then some (m * 10 + (c - b'0')) else none)
unfolding decimal
decimal-append n [] c = refl
decimal-append n (d ∷ s) c = ground (arith, decimal-append (n * 10 + (d - b'0')) s c)

decimal-print : (fuel n : ℕ) → n < fuel → decimal 0 (print fuel n) ≡ some n
unfolding print decimal
decimal-print zero n h = absurd (omega (arith, h))
decimal-print (suc fuel) n h = elim (Bool-cases (ltb n 10)) [
  | inl small ↦ ground (arith, small)
  | inr large ↦
      let rest = decimal-print fuel (n / 10) (ground (arith, h, large)) in
      ground (arith, large, rest, decimal-append 0 (print fuel (n / 10)) (b'0' + n % 10))
]

all_digits-append :
    (s : Text) (c : ℕ)
    → all is_ascii_digit s ≡ true
    → is_ascii_digit c ≡ true
    → all is_ascii_digit (s ++ c ∷ []) ≡ true
all_digits-append [] c h k = ground (arith, k)
all_digits-append (d ∷ s) c h k = ground (arith, h, all_digits-append s c (ground (arith, h)) k)

pub all_digits-print : (fuel n : ℕ) → all is_ascii_digit (print fuel n) ≡ true
unfolding print
all_digits-print zero n = refl
all_digits-print (suc fuel) n = elim (Bool-cases (ltb n 10)) [
  | inl small ↦ ground (arith, small)
  | inr large ↦ ground (
    arith,
    large,
    all_digits-append (print fuel (n / 10)) (b'0' + n % 10) (all_digits-print fuel (n / 10))
        (ground arith),
  )
]

-- A character that is no digit is not in a number.
pub no_other :
    (c : ℕ) (s : Text)
    → is_ascii_digit c ≡ false
    → all is_ascii_digit s ≡ true
    → contains_char c s ≡ false
no_other c [] other h = refl
no_other c (d ∷ s) other h = ground (arith, h, other, no_other c s other (ground (arith, h)))

is_empty-append : (s : Text) (c : ℕ) → is_empty (s ++ c ∷ []) ≡ false
is_empty-append [] c = refl
is_empty-append (d ∷ s) c = refl

is_empty-print : (fuel n : ℕ) → is_empty (print (suc fuel) n) ≡ false
unfolding print
is_empty-print fuel n = elim (Bool-cases (ltb n 10)) [
  | inl small ↦ ground (arith, small)
  | inr large ↦ ground (arith, large, is_empty-append (print fuel (n / 10)) (b'0' + n % 10))
]

no_sign : (s : Text) → all is_ascii_digit s ≡ true → starts_with (codes "+") s ≡ false
no_sign [] h = refl
no_sign (c ∷ s) h = ground (arith, h)

pub parse_u16-printed : (n : ℕ) → n < 65536 → parse_u16 (printed n) ≡ some n
unfolding parse_u16
parse_u16-printed n h = ground (
  arith,
  h,
  no_sign (printed n) (all_digits-print (suc n) n),
  is_empty-print n n,
  decimal-print (suc n) n (omega arith),
)
