-- ===== src/Base/Chars.antt =====
-- Methods of `str` and `char` on texts: tests of a character, prefixes, suffixes and splits.
use Prim.Native.Nat.{ℕ, ◌+◌, ◌≤◌}
use mathlib.Core.Path.{◌≡◌, refl}
use mathlib.Core.Bool.{Bool, true, false, ◌&&◌, ◌||◌}
use mathlib.Core.Logic.{inl, inr}
use mathlib.Core.Option.{Option, none, some}
use mathlib.Core.List.{List, [], ◌∷◌, ◌++◌}
use native.Mathlib.Omega.{arith}
use servicrab.Base.Tests.{leb, ◌==◌, if◌then◌else◌, match_option, Bool-cases, Option-cases}
use servicrab.Base.Lists.{length, drop, any}
use servicrab.Base.Texts.{Text}

abbrev pub is_ascii_digit : ℕ → Bool
is_ascii_digit c = leb b'0' c && leb c b'9'

abbrev pub is_ascii_alphabetic : ℕ → Bool
is_ascii_alphabetic c = leb b'a' c && leb c b'z' || leb b'A' c && leb c b'Z'

abbrev pub is_ascii_alphanumeric : ℕ → Bool
is_ascii_alphanumeric c = is_ascii_alphabetic c || is_ascii_digit c

abbrev pub is_empty : Text → Bool
is_empty [] = true
is_empty (c ∷ s) = false

-- `s.contains(c)`
abbrev pub contains_char : ℕ → Text → Bool
contains_char c s = any (λ d. d == c) s

abbrev pub starts_with : Text → Text → Bool
starts_with [] s = true
starts_with (c ∷ p) [] = false
starts_with (c ∷ p) (d ∷ s) = (c == d) && starts_with p s

abbrev pub strip_prefix : Text → Text → Option Text
strip_prefix p s = if starts_with p s then some (drop (length p) s) else none

-- `s.strip_suffix(c)`
unfoldable pub strip_suffix : ℕ → Text → Option Text
strip_suffix c [] = none
strip_suffix c (d ∷ []) = if d == c then some [] else none
strip_suffix c (d ∷ e ∷ s) =
    let rest = strip_suffix c (e ∷ s) in match_option rest none λ before. some (d ∷ before)

-- What stands in front of the first occurrence of a text, and what stands behind it.
unfoldable pub split_once : Text → Text → Option (Text × Text)
split_once sep [] = if starts_with sep [] then some ([], []) else none
split_once sep (c ∷ s) =
    let rest = split_once sep s in
    if starts_with sep (c ∷ s)
    then some ([], drop (length sep) (c ∷ s))
    else match_option rest none λ (before, after). some (c ∷ before, after)

-- The same for the last occurrence of a character.
unfoldable pub rsplit_once : ℕ → Text → Option (Text × Text)
rsplit_once c [] = none
rsplit_once c (d ∷ s) =
    let rest = rsplit_once c s in
    match_option rest (if d == c then some ([], s) else none)
      λ (before, after). some (d ∷ before, after)

length-starts_with : (p s : Text) → starts_with p s ≡ true → length p ≤ length s
length-starts_with [] s h = omega arith
length-starts_with (c ∷ p) [] h = ground arith
length-starts_with (c ∷ p) (d ∷ s) h = ground (arith, h, length-starts_with p s)

length-drop : (p s : Text) → length p ≤ length s → length p + length (drop (length p) s) ≡ length s
length-drop [] s h = omega arith
length-drop (c ∷ p) [] h = omega (arith, h)
length-drop (c ∷ p) (d ∷ s) h = omega (arith, length-drop p s (omega (arith, h)))

-- The two parts and the separator make up the text.
pub length-split_once :
    (sep s before after : Text)
    → split_once sep s ≡ some (before, after)
    → length before + (length sep + length after) ≡ length s
unfolding split_once
length-split_once sep [] before after h = elim (Bool-cases (starts_with sep [])) [
  | inl at ↦ ground (arith, h, at, length-starts_with sep [])
  | inr other ↦ ground (arith, h, other)
]
length-split_once sep (c ∷ s) before after h = elim (Bool-cases (starts_with sep (c ∷ s))) [
  | inl at ↦ ground (arith, h, at, length-drop sep (c ∷ s) (length-starts_with sep (c ∷ s) at))
  | inr other ↦ elim (Option-cases (split_once sep s)) [
    | inl absent ↦ ground (arith, h, other, absent)
    | inr ((x, y), found) ↦ ground (arith, h, other, found, length-split_once sep s x y found)
  ]
]

pub length-strip_prefix : (p s rest : Text) → strip_prefix p s ≡ some rest → length rest ≤ length s
length-strip_prefix p s rest h = elim (Bool-cases (starts_with p s)) [
  | inl at ↦ ground (arith, h, at, length-drop p s (length-starts_with p s at))
  | inr other ↦ ground (arith, h, other)
]

-- `char::is_whitespace`
abbrev pub is_whitespace : ℕ → Bool
is_whitespace c =
    leb 9 c && leb c 13
    || c == 32
    || c == 133
    || c == 160
    || c == 5760
    || leb 8192 c && leb c 8202
    || c == 8232
    || c == 8233
    || c == 8239
    || c == 8287
    || c == 12288

abbrev pub is_ascii_whitespace : ℕ → Bool
is_ascii_whitespace c = c == 9 || c == 10 || c == 12 || c == 13 || c == 32

unfoldable pub trim_start : Text → Text
trim_start [] = []
trim_start (c ∷ s) = let rest = trim_start s in if is_whitespace c then rest else c ∷ s

unfoldable pub trim_end : Text → Text
trim_end [] = []
trim_end (c ∷ s) =
    let rest = trim_end s in if is_whitespace c && is_empty rest then [] else c ∷ rest

abbrev pub trim : Text → Text
trim s = trim_end (trim_start s)

-- The character in front of the first of the lines.
abbrev pub in_line : ℕ → List Text → List Text
in_line c [] = (c ∷ []) ∷ []
in_line c (l ∷ ls) = (c ∷ l) ∷ ls

-- `str::lines`: the lines end with `\n` or `\r\n`.
unfoldable pub lines : Text → List Text
lines [] = []
lines (c ∷ s) =
    let rest = lines s in
    if c == b'\n'
    then [] ∷ rest
    else if (c == b'\r') && starts_with (b'\n' ∷ []) s
    then rest
    else in_line c rest

pub split_once-append :
    (c : ℕ) (s tail : Text)
    → contains_char c s ≡ false
    → split_once (c ∷ []) (s ++ c ∷ tail) ≡ some (s, tail)
unfolding split_once
split_once-append c [] tail h = ground arith
split_once-append c (d ∷ s) tail h =
    ground (arith, h, split_once-append c s tail (ground (arith, h)))

pub contains_char-append :
    (c : ℕ) (s t : Text) → contains_char c (s ++ t) ≡ (contains_char c s || contains_char c t)
contains_char-append c [] t = refl
contains_char-append c (d ∷ s) t = ground (arith, contains_char-append c s t)
