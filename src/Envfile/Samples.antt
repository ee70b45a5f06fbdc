-- ===== src/Envfile/Samples.antt =====
-- Runs of the parser of environment files.
use servicrab.Base.{List, [], ◌∷◌, ◌++◌, Text, codes, ◌≡◌, refl, same, before, ok, err}
use servicrab.Base.Map
use servicrab.Base.Chars.{split_once, trim_start, trim_end, lines}
use servicrab.Envfile.{
  escaped, unquote_char, unquote_rest, closed_value, strip_comment, parse_value, insert_value,
  parse_assignment, strip_export, parse_line, parse_lines, parse, syntax, unterminated,
}
use servicrab.Envfile.Quotes.{written, inserted}
use servicrab.Envfile.RoundTrip.{parse-written}

program : Unit {0}
unfolding parse parse_lines parse_line strip_export parse_assignment insert_value parse_value
    strip_comment closed_value unquote_rest unquote_char escaped lines split_once trim_start
    trim_end Map.insert same before
program = tt

-- The comments and the last of two values.
plain_file :
    parse (codes "# shop\n" ++ (b'\n' ∷ codes "export A = 1 # one\nA='2'\n"))
    ≡ ok ((codes "A", codes "2") ∷ [])
unfolding program
plain_file = refl

open_quote : parse (codes "A=1\nB=\"x") ≡ err (syntax 2 (unterminated b'"'))
unfolding program
open_quote = refl

abbrev entries : List (Text × Text)
entries = (codes "KEY", codes "a \"b\"\n#") ∷ (codes "KEY", codes "$x") ∷ []

parse-written_example : parse (written entries) ≡ ok (inserted entries [])
parse-written_example = parse-written entries (refl, (refl, tt))
