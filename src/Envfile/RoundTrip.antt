-- ===== src/Envfile/RoundTrip.antt =====
-- crates/servicrab-core/src/envfile.rs: entries that are written with quotes, and read back.
use servicrab.Base.{
  ℕ, suc, true, false, ◌||◌, any, all, List, [], ◌∷◌, ◌++◌, Text, codes, ◌≡◌, ◌⊎◌, refl, ap, ◌∙◌,
  inl, inr, ok, arith,
}
use mathlib.Core.List.{append_assoc, append-nil}
use servicrab.Base.Map
use servicrab.Base.Map.{BTreeMap}
use servicrab.Base.Chars.{
  is_empty, is_whitespace, contains_char, starts_with, trim_start, trim_end, trim, lines,
  split_once-append, contains_char-append,
}
use servicrab.Envfile.{
  closed_value, parse_value, insert_value, parse_assignment, strip_export, parse_line, parse_lines,
  parse,
}
use servicrab.Envfile.Quotes.{
  quoted, written_line, written, is_key_char, is_key, inserted, AreKeys, unquote_rest-quoted,
  lines-append, quoted_free, key_free, trim_end-append, trim_key,
}

-- A prefix with a blank and without `=` does not begin a line whose key has no blank.
no_prefix :
    (p key rest : Text)
    → all is_key_char key ≡ true
    → contains_char b'=' p ≡ false
    → contains_char b' ' p ≡ true
    → starts_with p (key ++ b'=' ∷ rest) ≡ false
no_prefix [] key rest h free blank = cc
no_prefix (c ∷ p) [] rest h free blank = ground (arith, free)
no_prefix (c ∷ p) (d ∷ key) rest h free blank =
    ground (arith, h, free, blank, no_prefix p key rest (ground (arith, h)))

all_key_chars : (key : Text) → is_key key ≡ true → all is_key_char key ≡ true
all_key_chars [] h = cc
all_key_chars (c ∷ s) h = h

trim_start_key : (key rest : Text) → is_key key ≡ true → trim_start (key ++ rest) ≡ key ++ rest
unfolding trim_start
trim_start_key [] rest h = cc
trim_start_key (c ∷ s) rest h = ground (arith, h)

no_blank : (s : Text) → all is_key_char s ≡ true → any is_whitespace s ≡ false
no_blank [] h = refl
no_blank (c ∷ s) h = ground (arith, h, no_blank s (ground (arith, h)))

key_kept : (key : Text) → is_key key ≡ true → trim key ≡ key
key_kept key h =
    rw append-nil at (ap trim_end (trim_start_key key [] h)) ∙ trim_key key (all_key_chars key h)

key_present : (key : Text) → is_key key ≡ true → is_empty key ≡ false
key_present [] h = cc
key_present (c ∷ s) h = refl

not_skipped :
    (key value : Text)
    → is_key key ≡ true
    → (is_empty (written_line key value) || starts_with (b'#' ∷ []) (written_line key value))
      ≡ false
unfolding written_line
not_skipped [] value h = cc
not_skipped (c ∷ s) value h = ground (arith, h)

parse_value-quoted : (value : Text) → parse_value (b'"' ∷ (quoted value ++ b'"' ∷ [])) ≡ ok value
unfolding parse_value closed_value trim_start trim_end
parse_value-quoted value = rw (unquote_rest-quoted [] value [])

module _ (key value : Text) (valid : is_key key ≡ true) where
  trimmed : trim (written_line key value) ≡ written_line key value
  unfolding written_line
  trimmed =
      rw (trim_start_key key (b'=' ∷ b'"' ∷ (quoted value ++ b'"' ∷ [])) valid)
        (rw append_assoc at (trim_end-append (key ++ b'=' ∷ b'"' ∷ quoted value) b'"' refl))

  not_exported : strip_export (written_line key value) ≡ written_line key value
  unfolding strip_export written_line
  not_exported = rw (
      no_prefix (codes "export ") key (b'"' ∷ (quoted value ++ b'"' ∷ [])) (all_key_chars key valid)
        refl refl)

  parse_assignment-written :
      (line_no : ℕ) (out : BTreeMap Text)
      → parse_assignment line_no (written_line key value) out ≡ ok (Map.insert key value out)
  unfolding parse_assignment written_line insert_value trim_start
  parse_assignment-written line_no out = rw (
    split_once-append b'=' key (b'"' ∷ (quoted value ++ b'"' ∷ []))
        (key_free b'=' key refl (all_key_chars key valid)),
    key_kept key valid,
    no_blank key (all_key_chars key valid),
    key_free 0 key refl (all_key_chars key valid),
    parse_value-quoted value,
    key_present key valid,
  )

  parse_line-written :
      (line_no : ℕ) (out : BTreeMap Text)
      → parse_line line_no (written_line key value) out ≡ ok (Map.insert key value out)
  unfolding parse_line
  parse_line-written line_no out =
      rw (trimmed, not_skipped key value valid, not_exported) (parse_assignment-written line_no out)

line_free :
    (c : ℕ) (key value : Text)
    → (c ≡ b'\n') ⊎ (c ≡ b'\r')
    → is_key key ≡ true
    → contains_char c (written_line key value) ≡ false
unfolding written_line
line_free c key value (inl e) h = ground (
  arith,
  e,
  contains_char-append c key (b'=' ∷ b'"' ∷ (quoted value ++ b'"' ∷ [])),
  contains_char-append c (quoted value) (b'"' ∷ []),
  quoted_free c value (inl e),
  key_free c key (ground (arith, e)) (all_key_chars key h),
)
line_free c key value (inr e) h = ground (
  arith,
  e,
  contains_char-append c key (b'=' ∷ b'"' ∷ (quoted value ++ b'"' ∷ [])),
  contains_char-append c (quoted value) (b'"' ∷ []),
  quoted_free c value (inr e),
  key_free c key (ground (arith, e)) (all_key_chars key h),
)

parse_lines_step :
    (line_no : ℕ) (line : Text) (rest : List Text) (out new : BTreeMap Text)
    → parse_line line_no line out ≡ ok new
    → parse_lines line_no (line ∷ rest) out ≡ parse_lines (suc line_no) rest new
unfolding parse_lines
parse_lines_step line_no line rest out new h = ground (arith, h)

parse_lines-written :
    (line_no : ℕ) (entries : List (Text × Text)) (out : BTreeMap Text)
    → AreKeys entries
    → parse_lines line_no (lines (written entries)) out ≡ ok (inserted entries out)
unfolding parse_lines lines written
parse_lines-written line_no [] out h = refl
parse_lines-written line_no ((key, value) ∷ rest) out (valid, more) =
    rw
      (lines-append (written_line key value) (written rest)
        (line_free b'\n' key value (inl refl) valid) (line_free b'\r' key value (inr refl) valid))
      (parse_lines_step line_no (written_line key value) (lines (written rest)) out
          (Map.insert key value out) (parse_line-written key value valid line_no out)
        ∙ parse_lines-written (suc line_no) rest (Map.insert key value out) more)

no_mark :
    (entries : List (Text × Text))
    → AreKeys entries
    → starts_with (65279 ∷ []) (written entries) ≡ false
unfolding written written_line
no_mark [] h = refl
no_mark (([], value) ∷ rest) (valid, more) = cc
no_mark ((c ∷ s, value) ∷ rest) (valid, more) = ground (arith, valid)

-- Entries that are written line by line, each value between double quotes, are read back into a map
-- where the last value of a key stands. The keys are not empty and have no blank, no NUL, no `=`, no `#`
-- and no byte order mark, and the values are any texts.
pub parse-written :
    (entries : List (Text × Text))
    → AreKeys entries
    → parse (written entries) ≡ ok (inserted entries [])
unfolding parse
parse-written entries h = rw (no_mark entries h) (parse_lines-written 1 entries [] h)
