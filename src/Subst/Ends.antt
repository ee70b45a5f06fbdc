-- ===== src/Subst/Ends.antt =====
-- The loop of `expand`, and its calls of itself on defaults, end.
use servicrab.Base.{
  ℕ, zero, suc, ◌+◌, ◌≤◌, ◌<◌, Bool, true, false, ◌||◌, not, some, [], ◌∷◌, Text, codes, ◌≡◌, refl,
  inl, inr, length, if_ind, match_option_ind, Option-cases, Result, ok, err, Run, Returns,
  Returns-bind, arith,
}
use servicrab.Base.Map
use servicrab.Base.Chars.{
  is_empty, strip_prefix, strip_suffix, split_once, length-split_once, length-strip_prefix,
}
use servicrab.Subst.{
  Vars, SubstError, opener, in_body, scan, closing_brace, split_braced, split_rest_of_name,
  split_name, value_or, resolve, and_then, expand_rest,
}

abbrev pub Ends {ℓ} : {A : Type ℓ} → Run A → Type 0
Ends = Returns (λ r. Unit)

length-closing_brace :
    (skip : Bool) (depth : ℕ) (s body tail : Text)
    → closing_brace skip depth s ≡ some (body, tail)
    → suc (length body + length tail) ≡ length s
unfolding closing_brace in_body
length-closing_brace skip depth [] body tail h = ground arith
length-closing_brace skip depth (c ∷ s) body tail h = elim (Option-cases (scan skip depth c s)) [
  | inl closed ↦ ground (arith, h, closed)
  | inr ((next, inner), more) ↦ elim (Option-cases (closing_brace next inner s)) [
    | inl unclosed ↦ ground (arith, h, more, unclosed)
    | inr ((x, y), found) ↦
        ground (arith, h, more, found, length-closing_brace next inner s x y found)
  ]
]

length-split_rest_of_name :
    (s : Text) → length (split_rest_of_name s).0 + length (split_rest_of_name s).1 ≡ length s
unfolding split_rest_of_name
length-split_rest_of_name [] = refl
length-split_rest_of_name (c ∷ s) = ground (arith, length-split_rest_of_name s)

length-split_name : (s : Text) → length (split_name s).0 + length (split_name s).1 ≡ length s
unfolding split_name
length-split_name [] = refl
length-split_name (c ∷ s) = ground (arith, length-split_rest_of_name s)

module _ (f : Text → Run (Result SubstError Text)) (vars : Vars) where
  value_or-Ends :
      (name default : Text) (empty_counts : Bool)
      → Ends (f default)
      → Ends (value_or f vars name default empty_counts)
  unfolding value_or
  value_or-Ends name default empty_counts h =
      match_option_ind Ends (Map.get vars name) (λ _. h)
        λ value _. if_ind Ends (not (is_empty value) || not empty_counts) (λ _. tt) (λ _. h)

  resolve-Ends :
      (body : Text)
      → ((default : Text) → length default ≤ length body → Ends (f default))
      → Ends (resolve f vars body)
  unfolding resolve
  resolve-Ends body h =
      let modifier = (split_name body).1 in
      if_ind Ends (is_empty (split_name body).0) (λ _. tt)
        λ _.
          if_ind Ends (is_empty modifier) (λ _. tt)
            λ _.
              match_option_ind Ends (strip_prefix (codes ":-") modifier)
                (λ _.
                  match_option_ind Ends (strip_prefix (codes "-") modifier) (λ _. tt)
                    λ default found. value_or-Ends (split_name body).0 default false (
                      h default (
                        omega (
                          arith,
                          length-strip_prefix (codes "-") modifier default found,
                          length-split_name body,
                        ))))
                λ default found. value_or-Ends (split_name body).0 default true (
                  h default (
                    omega (
                      arith,
                      length-strip_prefix (codes ":-") modifier default found,
                      length-split_name body,
                    )))

and_then-Ends {ℓ κ} :
    {E : Type ℓ} {A B : Type κ} (r : Result E A) (f : A → Run (Result E B))
    → ((a : A) → r ≡ ok a → Ends (f a))
    → Ends (and_then r f)
unfolding and_then
and_then-Ends (ok a) f h = h a refl
and_then-Ends (err e) f h = tt

split_braced_lem :
    (input body tail : Text)
    → split_braced input ≡ ok (body, tail)
    → suc (length body + length tail) ≡ length input
unfolding split_braced
split_braced_lem input body tail h = elim (Option-cases (closing_brace false 1 input)) [
  | inl unclosed ↦ ground (arith, h, unclosed)
  | inr ((x, y), found) ↦ ground (arith, h, found, length-closing_brace false 1 input x y found)
]

-- Fuel above the length of the input is enough.
pub expand_rest-Ends :
    (fuel : ℕ) (vars : Vars) (out rest : Text)
    → length rest < fuel
    → Ends (expand_rest fuel vars out rest)
unfolding expand_rest
expand_rest-Ends zero vars out rest h = absurd (omega (arith, h))
expand_rest-Ends (suc fuel) vars out rest h =
    match_option_ind Ends (split_once opener rest) (λ _. tt)
      λ (before, after) found.
        let sizes = length-split_once opener rest before after found in
        match_option_ind Ends (strip_suffix b'$' before)
          (λ _. and_then-Ends (split_braced after) _ λ (body, tail) closed.
            let inner = split_braced_lem after body tail closed in
            Returns-bind (λ r. Unit) (λ r. Unit)
              (resolve (λ default. expand_rest fuel vars [] default) vars body) _
              (resolve-Ends (λ default. expand_rest fuel vars [] default) vars body
                λ default short.
                  expand_rest-Ends fuel vars [] default (omega (arith, h, sizes, inner, short)))
              λ value _.
                and_then-Ends value _
                  λ v _. expand_rest-Ends fuel vars _ tail (omega (arith, h, sizes, inner)))
          λ escaped _. expand_rest-Ends fuel vars _ after (omega (arith, h, sizes))
