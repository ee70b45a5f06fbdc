-- ===== src/Envfile/Quotes.antt =====
-- crates/servicrab-core/src/envfile.rs: entries as they are written, and how their parts are read.
use servicrab.Base.{
  ℕ, Bool, true, false, ◌&&◌, ◌||◌, not, all, List, [], ◌∷◌, ◌++◌, Text, ◌==◌, ◌≡◌, ◌⊎◌, refl,
  if◌then◌else◌, inl, inr, ok, arith,
}
use mathlib.Core.List.{append_assoc, append-nil}
use servicrab.Base.Map
use servicrab.Base.Map.{BTreeMap}
use servicrab.Base.Chars.{is_whitespace, contains_char, trim_end, lines}
use servicrab.Envfile.{escaped, unquote_char, unquote_rest}

-- A value as it is written between double quotes.
unfoldable pub quoted : Text → Text
quoted [] = []
quoted (c ∷ s) =
    let rest = quoted s in
    if c == b'\n'
    then b'\\' ∷ b'n' ∷ rest
    else if c == b'\r'
    then b'\\' ∷ b'r' ∷ rest
    else if (c == b'"') || (c == b'\\')
    then b'\\' ∷ c ∷ rest
    else c ∷ rest

unfoldable pub written_line : Text → Text → Text
written_line key value = key ++ b'=' ∷ b'"' ∷ (quoted value ++ b'"' ∷ [])

unfoldable pub written : List (Text × Text) → Text
written [] = []
written ((key, value) ∷ rest) = written_line key value ++ b'\n' ∷ written rest

-- The characters of a key: no blank, no NUL, and neither `=` nor `#` nor the byte order mark.
abbrev pub is_key_char : ℕ → Bool
is_key_char c =
    not (is_whitespace c) && not (c == 0) && not (c == b'=') && not (c == b'#') && not (c == 65279)

abbrev pub is_key : Text → Bool
is_key [] = false
is_key (c ∷ s) = all is_key_char (c ∷ s)

-- Each value is put into the map in its turn, so a later one of the same key stands.
abbrev pub inserted : List (Text × Text) → BTreeMap Text → BTreeMap Text
inserted [] m = m
inserted ((key, value) ∷ rest) m = inserted rest (Map.insert key value m)

abbrev pub AreKeys : List (Text × Text) → Type 0
AreKeys [] = Unit
AreKeys ((key, value) ∷ rest) = (is_key key ≡ true) × AreKeys rest

append_one : (out : Text) (c : ℕ) (s : Text) → (out ++ c ∷ []) ++ s ≡ out ++ c ∷ s
append_one out c s = rw append_assoc

joined : (out : Text) (c : ℕ) (s : Text) → ((out ++ []) ++ c ∷ []) ++ s ≡ out ++ c ∷ s
joined out c s = rw (append-nil out, append_assoc)

pub unquote_rest-quoted :
    (out s tail : Text)
    → unquote_rest b'"' true false out (quoted s ++ b'"' ∷ tail) ≡ ok (out ++ s, tail)
unfolding unquote_rest unquote_char escaped quoted
unquote_rest-quoted out [] tail = rw append-nil
unquote_rest-quoted out (c ∷ s) tail =
    let escaped_one = unquote_rest-quoted ((out ++ []) ++ c ∷ []) s tail in
    let plain_one = unquote_rest-quoted (out ++ c ∷ []) s tail in
    ground (arith, escaped_one, plain_one, joined out c s, append_one out c s)

pub lines-append :
    (line rest : Text)
    → contains_char b'\n' line ≡ false
    → contains_char b'\r' line ≡ false
    → lines (line ++ b'\n' ∷ rest) ≡ line ∷ lines rest
unfolding lines
lines-append [] rest h k = refl
lines-append (c ∷ s) rest h k =
    ground (arith, h, k, lines-append s rest (ground (arith, h)) (ground (arith, k)))

pub quoted_free :
    (c : ℕ) (s : Text) → (c ≡ b'\n') ⊎ (c ≡ b'\r') → contains_char c (quoted s) ≡ false
unfolding quoted
quoted_free c [] h = refl
quoted_free c (d ∷ s) (inl e) = rw e (ground (arith, rw e at (quoted_free c s (inl e))))
quoted_free c (d ∷ s) (inr e) = rw e (ground (arith, rw e at (quoted_free c s (inr e))))

pub key_free :
    (c : ℕ) (s : Text)
    → is_key_char c ≡ false
    → all is_key_char s ≡ true
    → contains_char c s ≡ false
key_free c [] other h = refl
key_free c (d ∷ s) other h = ground (arith, h, other, key_free c s other (ground (arith, h)))

pub trim_end-append :
    (s : Text) (c : ℕ) → is_whitespace c ≡ false → trim_end (s ++ c ∷ []) ≡ s ++ c ∷ []
unfolding trim_end
trim_end-append [] c h = rw h
trim_end-append (d ∷ []) c h = ground (arith, h)
trim_end-append (d ∷ e ∷ s) c h = ground (arith, trim_end-append (e ∷ s) c h)

pub trim_key : (s : Text) → all is_key_char s ≡ true → trim_end s ≡ s
unfolding trim_end
trim_key [] h = refl
trim_key (c ∷ s) h = ground (arith, h, trim_key s (ground (arith, h)))
