-- ===== src/Subst/Templates.antt =====
-- Templates for crates/servicrab-core/src/subst.rs: literals, references and defaults as they are
-- written and as they are meant.
use servicrab.Base.{
  Bool, true, false, ◌&&◌, none, [], ◌∷◌, ◌++◌, Text, ◌≡◌, refl, if◌then◌else◌, match_option,
  Result, ok, err,
}
use servicrab.Base.Map
use servicrab.Base.Chars.{is_empty, strip_suffix}
use servicrab.Subst.{Vars, SubstError, undefined, opener}
use servicrab.Subst.Splits.{escape, is_braceless, is_name, is_braceless_name, is_braceless-append}

-- `${name}`, `${name:-default}` where `empty_counts`, and `${name-default}`.
pub data Reference : Type 0 where
  required : (name : Text) → Reference
  with_default : (empty_counts : Bool) (name default : Text) → Reference

-- A text with references in it.
pub data Template : Type 0 where
  ends : (literal : Text) → Template
  continues : (literal : Text) (r : Reference) (rest : Template) → Template

unfoldable pub body : Reference → Text
body (required name) = name
body (with_default true name default) = name ++ (b':' ∷ b'-' ∷ default)
body (with_default false name default) = name ++ (b'-' ∷ default)

unfoldable pub written : Template → Text
written (ends literal) = escape literal
written (continues literal r rest) = escape literal ++ (opener ++ (body r ++ b'}' ∷ written rest))

unfoldable pub value_of : Vars → Reference → Result SubstError Text
value_of vars (required name) =
    match_option (Map.get vars name) (err (undefined name)) λ value. ok value
value_of vars (with_default empty_counts name default) =
    match_option (Map.get vars name) (ok default)
      λ value. if is_empty value && empty_counts then ok default else ok value

abbrev pub behind : Text → Result SubstError Text → Result SubstError Text
behind out (ok v) = ok (out ++ v)
behind out (err e) = err e

-- A value behind a literal, and what follows.
abbrev pub with_value :
    Text → Result SubstError Text → Result SubstError Text → Result SubstError Text
with_value literal (ok v) m = behind (literal ++ v) m
with_value literal (err e) m = err e

abbrev pub meaning : Vars → Template → Result SubstError Text
meaning vars (ends literal) = ok literal
meaning vars (continues literal r rest) = with_value literal (value_of vars r) (meaning vars rest)

abbrev pub IsReference : Reference → Type 0
IsReference (required name) = is_name name ≡ true
IsReference (with_default empty_counts name default) =
    (is_name name ≡ true) × (is_braceless default ≡ true)

-- The literals in front of references do not end in `$`, and defaults have no braces.
abbrev pub IsTemplate : Template → Type 0
IsTemplate (ends literal) = Unit
IsTemplate (continues literal r rest) =
    (strip_suffix b'$' literal ≡ none) × IsReference r × IsTemplate rest

pub body-braceless : (r : Reference) → IsReference r → is_braceless (body r) ≡ true
unfolding body
body-braceless (required name) h = is_braceless_name name h
body-braceless (with_default true name default) (h, plain) =
    is_braceless-append name (b':' ∷ b'-' ∷ default) (is_braceless_name name h) plain
body-braceless (with_default false name default) (h, plain) =
    is_braceless-append name (b'-' ∷ default) (is_braceless_name name h) plain

pub is_name_present : (name : Text) → is_name name ≡ true → is_empty name ≡ false
is_name_present [] h = cc
is_name_present (c ∷ s) h = refl
