-- ===== src/Subst/Reading.antt =====
-- The loop of `expand` gives a written template's meaning.
use servicrab.Base.{
  ℕ, zero, suc, ◌<◌, true, false, none, some, [], ◌∷◌, ◌++◌, Text, ◌≡◌, refl, ◌∙◌, ap, inl, inr,
  length, length-append, Option-cases, Result, ok, err, Run, returned, arith,
}
use mathlib.Core.List.{append_assoc, append-nil}
use servicrab.Base.Map
use servicrab.Base.Chars.{starts_with, strip_suffix, split_once, length-split_once}
use servicrab.Subst.{
  Vars, SubstError, opener, split_name, lookup, value_or, resolve, and_then, expand_rest,
}
use servicrab.Subst.Splits.{
  escape, escape_plain, split_once-escape, split_once_plain, split_once_join, strip_suffix-append,
  strip_suffix_part, is_braceless, split_braced_braceless, split_name-append, split_once_braceless,
}
use servicrab.Subst.Templates.{
  Reference, required, with_default, Template, ends, continues, body, written, value_of, behind,
  with_value, meaning, IsReference, IsTemplate, body-braceless, is_name_present,
}

module _ (fuel : ℕ) (vars : Vars) where
  default_value :
      (default : Text)
      → is_braceless default ≡ true
      → expand_rest (suc fuel) vars [] default ≡ returned (ok default)
  unfolding expand_rest
  default_value default h = ground (arith, split_once_braceless default h)

  resolve-body :
      (r : Reference)
      → IsReference r
      → resolve (λ default. expand_rest (suc fuel) vars [] default) vars (body r)
        ≡ returned (value_of vars r)
  unfolding resolve body value_of lookup value_or
  resolve-body (required name) h =
      let named : split_name name ≡ (name, []) =
        rw append-nil at (split_name-append name [] h refl) in
      ground (arith, named, is_name_present name h)
  resolve-body (with_default true name default) (h, plain) =
      let named = split_name-append name (b':' ∷ b'-' ∷ default) h refl in
      elim (Option-cases (Map.get vars name)) [
        | inl unset ↦
            ground (arith, named, unset, is_name_present name h, default_value default plain)
        | inr (value, found) ↦
            ground (arith, named, found, is_name_present name h, default_value default plain)
      ]
  resolve-body (with_default false name default) (h, plain) =
      let named = split_name-append name (b'-' ∷ default) h refl in
      elim (Option-cases (Map.get vars name)) [
        | inl unset ↦
            ground (arith, named, unset, is_name_present name h, default_value default plain)
        | inr (value, found) ↦
            ground (arith, named, found, is_name_present name h, default_value default plain)
      ]

module _ (fuel : ℕ) (vars : Vars) (out : Text) where
  -- An opener that is escaped is put out.
  escaped_step :
      (literal tail before after : Text)
      → starts_with (b'{' ∷ []) tail ≡ false
      → split_once opener literal ≡ some (before, after)
      → expand_rest (suc fuel) vars out (escape literal ++ tail)
        ≡ expand_rest fuel vars (out ++ (before ++ opener)) (escape after ++ tail)
  unfolding expand_rest
  escaped_step literal tail before after free found =
      rw (split_once-escape literal tail before after free found, strip_suffix-append before b'$')

  -- A reference is replaced by its value.
  reference_step :
      (literal : Text) (r : Reference) (tail : Text)
      → split_once opener literal ≡ none
      → strip_suffix b'$' literal ≡ none
      → IsReference r
      → expand_rest (suc (suc fuel)) vars out (literal ++ (opener ++ (body r ++ b'}' ∷ tail)))
        ≡ and_then (value_of vars r) (λ v. expand_rest (suc fuel) vars (out ++ (literal ++ v)) tail)
  unfolding expand_rest and_then
  reference_step literal r tail plain free h = rw (
    split_once_plain literal (body r ++ b'}' ∷ tail) plain,
    free,
    split_braced_braceless (body r) tail (body-braceless r h),
    resolve-body fuel vars r h,
  )

last_step :
    (fuel : ℕ) (vars : Vars) (out literal : Text)
    → split_once opener literal ≡ none
    → expand_rest (suc fuel) vars out literal ≡ returned (ok (out ++ literal))
unfolding expand_rest
last_step fuel vars out literal plain = rw plain

-- The loop moves the front of a literal to what is put out.
joined :
    (out before after literal : Text)
    → split_once opener literal ≡ some (before, after)
    → (out ++ (before ++ opener)) ++ after ≡ out ++ literal
joined out before after literal found =
    rw (append_assoc, append_assoc, split_once_join literal before after found)

behind_assoc :
    (out s : Text) (r : Result SubstError Text) → behind (out ++ s) r ≡ behind out (behind s r)
behind_assoc out s (ok v) = rw append_assoc
behind_assoc out s (err e) = refl

moved :
    (out out2 s s2 : Text) (value m : Result SubstError Text)
    → out2 ++ s2 ≡ out ++ s
    → behind out2 (with_value s2 value m) ≡ behind out (with_value s value m)
moved out out2 s s2 (ok v) m same_text = rw (
  ← behind_assoc out2 (s2 ++ v) m,
  ← behind_assoc out (s ++ v) m,
  ← append_assoc,
  same_text,
  append_assoc,
)
moved out out2 s s2 (err e) m same_text = refl

-- The rest of the loop, behind the value of a reference.
with_value_lem :
    (out literal : Text) (value m : Result SubstError Text)
    (f : Text → Run (Result SubstError Text))
    → ((v : Text) → f v ≡ returned (behind (out ++ (literal ++ v)) m))
    → and_then value f ≡ returned (behind out (with_value literal value m))
unfolding and_then
with_value_lem out literal (ok v) m f h = h v ∙ ap returned (behind_assoc out (literal ++ v) m)
with_value_lem out literal (err e) m f h = refl

-- The loop, from a template's literal on.
pub expand_rest-written :
    (fuel : ℕ) (vars : Vars) (out : Text) (t : Template)
    → IsTemplate t
    → length (written t) < fuel
    → expand_rest fuel vars out (written t) ≡ returned (behind out (meaning vars t))
unfolding written
expand_rest-written zero vars out t h enough = absurd (omega (arith, enough))
expand_rest-written (suc fuel) vars out (ends literal) h enough =
    elim (Option-cases (split_once opener literal)) [
      | inl plain ↦ rw (escape_plain literal plain) (last_step fuel vars out literal plain)
      | inr ((before, after), found) ↦
          let shorter =
            length-split_once opener (escape literal ++ []) _ _
              (split_once-escape literal [] before after refl found) in
          rw (append-nil (escape literal), append-nil (escape after)) at
            (escaped_step fuel vars out literal [] before after refl found)
          ∙ expand_rest-written fuel vars (out ++ (before ++ opener)) (ends after) tt (
              omega (
                arith,
                enough,
                rw (append-nil (escape literal), append-nil (escape after)) at shorter,
              ))
          ∙ ap (λ s. returned (ok s)) (joined out before after literal found)
    ]
expand_rest-written (suc zero) vars out (continues literal r rest) h enough = absurd (
    omega
      (arith, enough, length-append (escape literal) (opener ++ (body r ++ b'}' ∷ written rest))))
expand_rest-written (suc (suc fuel)) vars out (continues literal r rest) (free, is_ref, more)
      enough =
    let tail = opener ++ (body r ++ b'}' ∷ written rest) in
    elim (Option-cases (split_once opener literal)) [
      | inl plain ↦ rw (escape_plain literal plain) (
          reference_step fuel vars out literal r (written rest) plain free is_ref
          ∙ with_value_lem out literal (value_of vars r) (meaning vars rest) _ λ v.
            expand_rest-written (suc fuel) vars (out ++ (literal ++ v)) rest more (
              omega (
                arith,
                enough,
                length-append (escape literal) tail,
                length-append (body r) (b'}' ∷ written rest),
              )))
      | inr ((before, after), found) ↦
          let shorter =
            length-split_once opener (escape literal ++ tail) _ _
              (split_once-escape literal tail before after refl found) in
          escaped_step (suc fuel) vars out literal tail before after refl found
          ∙ expand_rest-written (suc fuel) vars (out ++ (before ++ opener)) (continues after r rest)
              (
                strip_suffix_part (before ++ opener) after b'$'
                    (rw (append_assoc, split_once_join literal before after found) free),
                is_ref,
                more,
              )
              (omega (arith, enough, shorter))
          ∙ ap returned (
              moved out (out ++ (before ++ opener)) literal after (value_of vars r)
                (meaning vars rest) (joined out before after literal found))
    ]
