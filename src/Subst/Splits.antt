-- ===== src/Subst/Splits.antt =====
-- Where `expand` finds references in a text whose literal parts are escaped.
use servicrab.Base.{
  ℕ, Bool, true, false, ◌&&◌, ◌||◌, not, none, some, [], ◌∷◌, ◌++◌, Text, ◌==◌, ◌≡◌, refl, inl, inr,
  all, if◌then◌else◌, Option-cases, ok, arith,
}
use servicrab.Base.Chars.{is_empty, is_ascii_alphabetic, starts_with, strip_suffix, split_once}
use servicrab.Subst.{
  opener, in_body, scan, closing_brace, split_braced, is_name_char, split_rest_of_name, split_name,
}

-- A literal as it is written: a `$` goes in front of each opener.
unfoldable pub escape : Text → Text
escape [] = []
escape (c ∷ s) =
    let rest = escape s in if starts_with opener (c ∷ s) then b'$' ∷ c ∷ rest else c ∷ rest

pub escape_plain : (s : Text) → split_once opener s ≡ none → escape s ≡ s
unfolding escape split_once
escape_plain [] h = refl
escape_plain (c ∷ s) h = elim (Option-cases (split_once opener s)) [
  | inl absent ↦ ground (arith, h, absent, escape_plain s absent)
  | inr ((x, y), found) ↦ ground (arith, h, found)
]

-- The first opener of a literal is the first one of what is written, which has a `$` in front.
pub split_once-escape :
    (s tail before after : Text)
    → starts_with (b'{' ∷ []) tail ≡ false
    → split_once opener s ≡ some (before, after)
    → split_once opener (escape s ++ tail) ≡ some (before ++ b'$' ∷ [], escape after ++ tail)
unfolding escape split_once
split_once-escape [] tail before after free h = ground arith
split_once-escape (c ∷ []) tail before after free h = ground arith
split_once-escape (c ∷ d ∷ s) tail before after free h =
    elim (Option-cases (split_once opener (d ∷ s))) [
      | inl absent ↦ ground (arith, h, absent)
      | inr ((x, y), found) ↦
          ground (arith, h, found, free, split_once-escape (d ∷ s) tail x y free found)
    ]

pub split_once_plain :
    (s tail : Text)
    → split_once opener s ≡ none
    → split_once opener (s ++ (opener ++ tail)) ≡ some (s, tail)
unfolding split_once
split_once_plain [] tail h = refl
split_once_plain (c ∷ []) tail h = ground (arith, h)
split_once_plain (c ∷ d ∷ s) tail h = elim (Option-cases (split_once opener (d ∷ s))) [
  | inl absent ↦ ground (arith, h, absent, split_once_plain (d ∷ s) tail absent)
  | inr ((x, y), found) ↦ ground (arith, h, found)
]

pub split_once_join :
    (s before after : Text)
    → split_once opener s ≡ some (before, after)
    → before ++ (opener ++ after) ≡ s
unfolding split_once
split_once_join [] before after h = ground arith
split_once_join (c ∷ []) before after h = ground (arith, h)
split_once_join (c ∷ d ∷ s) before after h = elim (Option-cases (split_once opener (d ∷ s))) [
  | inl absent ↦ ground (arith, h, absent)
  | inr ((x, y), found) ↦ ground (arith, h, found, split_once_join (d ∷ s) x y found)
]

pub strip_suffix-append : (s : Text) (c : ℕ) → strip_suffix c (s ++ c ∷ []) ≡ some s
unfolding strip_suffix
strip_suffix-append [] c = ground arith
strip_suffix-append (d ∷ []) c = ground arith
strip_suffix-append (d ∷ e ∷ s) c = ground (arith, strip_suffix-append (e ∷ s) c)

-- A text that does not end in a character has no part at its end that does.
pub strip_suffix_part :
    (s tail : Text) (c : ℕ) → strip_suffix c (s ++ tail) ≡ none → strip_suffix c tail ≡ none
unfolding strip_suffix
strip_suffix_part [] tail c h = h
strip_suffix_part (d ∷ []) [] c h = refl
strip_suffix_part (d ∷ []) (e ∷ tail) c h = elim (Option-cases (strip_suffix c (e ∷ tail))) [
  | inl absent ↦ absent
  | inr (x, found) ↦ ground (arith, h, found)
]
strip_suffix_part (d ∷ e ∷ s) tail c h = elim (Option-cases (strip_suffix c ((e ∷ s) ++ tail))) [
  | inl absent ↦ strip_suffix_part (e ∷ s) tail c absent
  | inr (x, found) ↦ ground (arith, h, found)
]

-- A text without braces.
abbrev pub is_braceless : Text → Bool
is_braceless s = all (λ c. not (c == b'{') && not (c == b'}')) s

closing_brace_braceless :
    (skip : Bool) (body tail : Text)
    → is_braceless body ≡ true
    → (skip && is_empty body) ≡ false
    → closing_brace skip 1 (body ++ b'}' ∷ tail) ≡ some (body, tail)
unfolding closing_brace in_body scan
closing_brace_braceless true [] tail h free = cc
closing_brace_braceless false [] tail h free = refl
closing_brace_braceless true (c ∷ body) tail h free =
    ground (arith, h, closing_brace_braceless false body tail)
closing_brace_braceless false (c ∷ []) tail h free = ground (arith, h)
closing_brace_braceless false (c ∷ d ∷ body) tail h free = ground (
  arith,
  h,
  closing_brace_braceless false (d ∷ body) tail,
  closing_brace_braceless true (d ∷ body) tail,
)

pub split_braced_braceless :
    (body tail : Text)
    → is_braceless body ≡ true
    → split_braced (body ++ b'}' ∷ tail) ≡ ok (body, tail)
unfolding split_braced
split_braced_braceless body tail h = ground (arith, closing_brace_braceless false body tail h refl)

-- The names that a reference may have.
abbrev pub is_name : Text → Bool
is_name [] = false
is_name (c ∷ s) = (is_ascii_alphabetic c || c == b'_') && all is_name_char s

-- What may stand behind a name.
abbrev pub ends_name : Text → Bool
ends_name [] = true
ends_name (c ∷ s) = not (is_name_char c)

split_rest_of_name-append :
    (name modifier : Text)
    → all is_name_char name ≡ true
    → ends_name modifier ≡ true
    → split_rest_of_name (name ++ modifier) ≡ (name, modifier)
unfolding split_rest_of_name
split_rest_of_name-append [] [] h free = refl
split_rest_of_name-append [] (c ∷ modifier) h free = ground (arith, free)
split_rest_of_name-append (c ∷ name) modifier h free =
    ground (arith, h, split_rest_of_name-append name modifier (ground (arith, h)) free)

pub split_name-append :
    (name modifier : Text)
    → is_name name ≡ true
    → ends_name modifier ≡ true
    → split_name (name ++ modifier) ≡ (name, modifier)
unfolding split_name
split_name-append [] modifier h free = cc
split_name-append (c ∷ name) modifier h free =
    ground (arith, h, split_rest_of_name-append name modifier (ground (arith, h)) free)

is_braceless_name_rest : (s : Text) → all is_name_char s ≡ true → is_braceless s ≡ true
is_braceless_name_rest [] h = refl
is_braceless_name_rest (c ∷ s) h = ground (arith, h, is_braceless_name_rest s)

pub is_braceless_name : (s : Text) → is_name s ≡ true → is_braceless s ≡ true
is_braceless_name [] h = cc
is_braceless_name (c ∷ s) h = ground (arith, h, is_braceless_name_rest s)

pub is_braceless-append :
    (s t : Text) → is_braceless s ≡ true → is_braceless t ≡ true → is_braceless (s ++ t) ≡ true
is_braceless-append [] t hs ht = ht
is_braceless-append (c ∷ s) t hs ht = ground (arith, hs, is_braceless-append s t)

pub split_once_braceless : (s : Text) → is_braceless s ≡ true → split_once opener s ≡ none
unfolding split_once
split_once_braceless [] h = refl
split_once_braceless (c ∷ []) h = ground (arith, h)
split_once_braceless (c ∷ d ∷ s) h = ground (arith, h, split_once_braceless (d ∷ s))
