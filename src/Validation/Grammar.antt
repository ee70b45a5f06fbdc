-- ===== src/Validation/Grammar.antt =====
-- crates/servicrab-core/src/validation.rs: the names and addresses that are accepted.
use servicrab.Base.{
  ℕ, ◌≤◌, Bool, true, false, all, [], ◌∷◌, Text, ◌≡◌, ◌↔◌, refl, length, ok, arith,
}
use servicrab.Base.Chars.{is_ascii_alphanumeric}
use servicrab.Validation.Names.{
  is_name_char, is_ascii, check_characters, check_first, validate_name,
}

abbrev pub begins_name : Text → Bool
begins_name [] = false
begins_name (c ∷ s) = is_ascii_alphanumeric c

check_characters_iff : (s : Text) → (check_characters s ≡ ok tt) ↔ (all is_name_char s ≡ true)
unfolding check_characters
check_characters_iff [] = ground arith
check_characters_iff (c ∷ s) = ground (arith, check_characters_iff s)

name_char_ascii : (s : Text) → all is_name_char s ≡ true → is_ascii s ≡ true
name_char_ascii [] h = refl
name_char_ascii (c ∷ s) h = ground (arith, h, name_char_ascii s)

-- A name is accepted exactly when it begins with a letter or a digit, is not longer than its limit,
-- and has letters, digits, dots, underscores and dashes only.
pub validate_name_iff :
    (name : Text) (max_len : ℕ)
    → (validate_name name max_len ≡ ok tt)
      ↔ (begins_name name ≡ true) × (length name ≤ max_len) × (all is_name_char name ≡ true)
unfolding validate_name check_first
validate_name_iff [] max_len = ground arith
validate_name_iff (c ∷ s) max_len =
    ground (arith, check_characters_iff (c ∷ s), name_char_ascii (c ∷ s))
