-- ===== src/Subst.antt =====
-- crates/servicrab-core/src/subst.rs: the `${VAR}` references of one value.
pub mod Ends
pub mod Splits
pub mod Templates
pub mod Reading
pub mod Values
pub mod Walk
pub mod Covered
mod Samples
use servicrab.Base.{
  ℕ, zero, suc, Bool, true, false, ◌&&◌, ◌||◌, not, ◌+◌, ◌-◌, Option, none, some, List, [], ◌∷◌,
  ◌++◌, Text, codes, ◌==◌, if◌then◌else◌, match_option, Result, ok, err, Run, returned, out_of_fuel,
  ◌>>=◌,
}
use servicrab.Base.Map
use servicrab.Base.Map.{BTreeMap}
use servicrab.Base.Chars.{
  is_ascii_alphabetic, is_ascii_alphanumeric, is_empty, strip_prefix, strip_suffix, split_once,
}

abbrev pub Vars : Type 0
Vars = BTreeMap Text

-- The texts that `format!` makes for `SubstError::Malformed`.
pub data Malformation : Type 0 where
  missing_brace : (input : Text) → Malformation
  no_name : (body : Text) → Malformation
  unsupported_form : (body name : Text) → Malformation

pub data SubstError : Type 0 where
  undefined : Text → SubstError
  malformed : Malformation → SubstError

abbrev pub opener : Text
opener = b'$' ∷ b'{' ∷ []

-- The character is put in front of the body that the rest gives.
unfoldable pub in_body : ℕ → Option (Text × Text) → Option (Text × Text)
in_body c none = none
in_body c (some (body, tail)) = some (c ∷ body, tail)

-- `chars.peek()` is a `$`.
abbrev pub starts_pair : Text → Bool
starts_pair [] = false
starts_pair (c ∷ s) = c == b'$'

-- One turn of the loop of `split_braced`, with `s` still to come: whether the next character is
-- taken with this one, and the depth, unless the brace that counts is closed. `skip` says that this
-- character is the second `$` of a pair.
unfoldable pub scan : Bool → ℕ → ℕ → Text → Option (Bool × ℕ)
scan skip depth c s =
    if skip
    then some (false, depth)
    else if c == b'{'
    then some (false, depth + 1)
    else if c == b'}'
    then (if depth - 1 == 0 then none else some (false, depth - 1))
    else some ((c == b'$') && starts_pair s, depth)

unfoldable pub closing_brace : Bool → ℕ → Text → Option (Text × Text)
closing_brace skip depth [] = none
closing_brace skip depth (c ∷ s) =
    match_option (scan skip depth c s) (some ([], s))
      λ (next, inner). in_body c (closing_brace next inner s)

unfoldable pub split_braced : Text → Result SubstError (Text × Text)
split_braced input =
    match_option (closing_brace false 1 input) (err (malformed (missing_brace input)))
      λ parts. ok parts

abbrev pub is_name_char : ℕ → Bool
is_name_char c = is_ascii_alphanumeric c || c == b'_'

-- A body split at `name_length`: the name, and the rest of the body.
unfoldable pub split_rest_of_name : Text → Text × Text
split_rest_of_name [] = ([], [])
split_rest_of_name (c ∷ s) =
    let (name, modifier) = split_rest_of_name s in
    if is_name_char c then (c ∷ name, modifier) else ([], c ∷ s)

unfoldable pub split_name : Text → Text × Text
split_name [] = ([], [])
split_name (c ∷ s) =
    let (name, modifier) = split_rest_of_name s in
    if is_ascii_alphabetic c || c == b'_' then (c ∷ name, modifier) else ([], c ∷ s)

unfoldable pub lookup : Text → Vars → Result SubstError Text
lookup name vars = match_option (Map.get vars name) (err (undefined name)) λ value. ok value

-- A default stands in for a variable that is unset, or empty where `empty_counts`.
unfoldable pub value_or :
    (Text → Run (Result SubstError Text)) → Vars → Text → Text → Bool → Run (Result SubstError Text)
value_or expand_default vars name default empty_counts =
    match_option (Map.get vars name) (expand_default default) λ value.
      if not (is_empty value) || not empty_counts
      then returned (ok value)
      else expand_default default

-- `expand_default` is the call of `expand`.
unfoldable pub resolve :
    (Text → Run (Result SubstError Text)) → Vars → Text → Run (Result SubstError Text)
resolve expand_default vars body =
    let (name, modifier) = split_name body in
    if is_empty name
    then returned (err (malformed (no_name body)))
    else if is_empty modifier
    then returned (lookup name vars)
    else match_option (strip_prefix (codes ":-") modifier)
        (match_option (strip_prefix (codes "-") modifier)
          (returned (err (malformed (unsupported_form body name))))
          (λ default. value_or expand_default vars name default false))
        λ default. value_or expand_default vars name default true

-- `?` behind a call in a loop.
unfoldable pub and_then {ℓ κ} :
    {E : Type ℓ} {A B : Type κ} → Result E A → (A → Run (Result E B)) → Run (Result E B)
and_then (ok a) f = f a
and_then (err e) f = returned (err e)

-- The loop of `expand`, with what it has put out and what is left of the input.
unfoldable pub expand_rest : ℕ → Vars → Text → Text → Run (Result SubstError Text)
expand_rest zero vars out rest = out_of_fuel
expand_rest (suc fuel) vars out rest =
    match_option (split_once opener rest) (returned (ok (out ++ rest))) λ (before, after).
      match_option (strip_suffix b'$' before)
        (and_then (split_braced after) λ (body, tail).
          resolve (λ default. expand_rest fuel vars [] default) vars body >>= λ value.
          and_then value λ v. expand_rest fuel vars (out ++ (before ++ v)) tail)
        λ escaped. expand_rest fuel vars (out ++ (escaped ++ opener)) after
