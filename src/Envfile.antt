-- ===== src/Envfile.antt =====
-- crates/servicrab-core/src/envfile.rs: files of `KEY=VALUE` lines. `load` reads a file and calls
-- `parse`; the read is the caller's.
pub mod Quotes
pub mod RoundTrip
mod Samples
use servicrab.Base.{
  ℕ, suc, Bool, true, false, ◌&&◌, ◌||◌, not, any, Option, none, some, List, [], ◌∷◌, ◌++◌, Text,
  codes, ◌==◌, if◌then◌else◌, match_option, Result, ok, err,
}
use servicrab.Base.Map
use servicrab.Base.Map.{BTreeMap}
use servicrab.Base.Chars.{
  is_empty, is_whitespace, is_ascii_whitespace, contains_char, starts_with, strip_prefix,
  split_once, trim_start, trim_end, trim, lines,
}

-- The texts that `format!` makes for `EnvFileError::Syntax`.
pub data LineReason : Type 0 where
  expected_assignment : (line : Text) → LineReason
  invalid_key : (key : Text) → LineReason
  dangling_backslash : LineReason
  unterminated : (quote : ℕ) → LineReason
  text_after_quote : (trailing : Text) → LineReason

pub data EnvFileError : Type 0 where
  unreadable : (reason : Text) → EnvFileError
  syntax : (line : ℕ) (reason : LineReason) → EnvFileError

-- What a character stands for behind a backslash.
unfoldable pub escaped : ℕ → Text
escaped c =
    if c == b'n'
    then b'\n' ∷ []
    else if c == b'r'
    then b'\r' ∷ []
    else if c == b't'
    then b'\t' ∷ []
    else if (c == b'\\') || (c == b'"') || (c == b'$')
    then c ∷ []
    else b'\\' ∷ c ∷ []

-- One turn of the loop of `unquote`: whether a backslash is open, and what is pushed, unless the
-- quote is closed.
unfoldable pub unquote_char : ℕ → Bool → Bool → ℕ → Option (Bool × Text)
unquote_char quote escapes true c = some (false, escaped c)
unquote_char quote escapes false c =
    if c == quote
    then none
    else if escapes && (c == b'\\')
    then some (true, [])
    else some (false, c ∷ [])

-- The loop of `unquote`, with `open` for a backslash in front: the value and what stands behind the
-- closing quote.
unfoldable pub unquote_rest : ℕ → Bool → Bool → Text → Text → Result LineReason (Text × Text)
unquote_rest quote escapes true out [] = err dangling_backslash
unquote_rest quote escapes false out [] = err (unterminated quote)
unquote_rest quote escapes backslash out (c ∷ s) =
    match_option (unquote_char quote escapes backslash c) (ok (out, s))
      λ (next, pushed). unquote_rest quote escapes next (out ++ pushed) s

-- The check of what stands behind the closing quote.
unfoldable pub closed_value : Result LineReason (Text × Text) → Result LineReason Text
closed_value (ok (out, rest)) =
    let trailing = trim rest in
    if not (is_empty trailing) && not (starts_with (b'#' ∷ []) trailing)
    then err (text_after_quote trailing)
    else ok out
closed_value (err e) = err e

-- `unquote`, behind the opening quote.
abbrev pub unquote : Text → ℕ → Bool → Result LineReason Text
unquote s quote escapes = closed_value (unquote_rest quote escapes false [] s)

-- `strip_trailing_comment`; `blank` says that the character in front is a blank, or that there is
-- none.
unfoldable pub strip_comment : Bool → Text → Text
strip_comment blank [] = []
strip_comment blank (c ∷ s) =
    let rest = strip_comment (is_ascii_whitespace c) s in
    if (c == b'#') && blank then [] else c ∷ rest

unfoldable pub parse_value : Text → Result LineReason Text
parse_value [] = ok []
parse_value (c ∷ s) =
    if c == b'"'
    then unquote s b'"' true
    else if c == b'\''
    then unquote s b'\'' false
    else ok (trim_end (strip_comment true (c ∷ s)))

unfoldable pub insert_value :
    ℕ → Text → BTreeMap Text → Result LineReason Text → Result EnvFileError (BTreeMap Text)
insert_value line_no key out (ok value) = ok (Map.insert key value out)
insert_value line_no key out (err reason) = err (syntax line_no reason)

-- A line with an assignment.
unfoldable pub parse_assignment : ℕ → Text → BTreeMap Text → Result EnvFileError (BTreeMap Text)
parse_assignment line_no line out =
    match_option (split_once (b'=' ∷ []) line) (err (syntax line_no (expected_assignment line)))
      λ (before, rest).
        let key = trim before in
        if is_empty key || any is_whitespace key || contains_char 0 key
        then err (syntax line_no (invalid_key key))
        else insert_value line_no key out (parse_value (trim_start rest))

-- `line.strip_prefix("export ").map_or(line, str::trim_start)`
unfoldable pub strip_export : Text → Text
strip_export line = match_option (strip_prefix (codes "export ") line) line λ rest. trim_start rest

-- One turn of the loop of `parse`.
unfoldable pub parse_line : ℕ → Text → BTreeMap Text → Result EnvFileError (BTreeMap Text)
parse_line line_no raw_line out =
    let line = trim raw_line in
    if is_empty line || starts_with (b'#' ∷ []) line
    then ok out
    else parse_assignment line_no (strip_export line) out

-- The loop of `parse`, from a line number on.
unfoldable pub parse_lines : ℕ → List Text → BTreeMap Text → Result EnvFileError (BTreeMap Text)
parse_lines line_no [] out = ok out
parse_lines line_no (line ∷ rest) out = elim (parse_line line_no line out) [
  | ok new ↦ parse_lines (suc line_no) rest new
  | err e ↦ err e
]

-- U+FEFF, the byte order mark.
abbrev byte_order_mark : Text
byte_order_mark = 65279 ∷ []

unfoldable pub parse : Text → Result EnvFileError (BTreeMap Text)
parse text =
    parse_lines 1 (lines (match_option (strip_prefix byte_order_mark text) text λ rest. rest)) []
