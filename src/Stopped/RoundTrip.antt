-- ===== src/Stopped/RoundTrip.antt =====
-- crates/servicrab-cli/src/daemon/stopped.rs: `render`, read back by `parse`.
use servicrab.Base.{
  true, false, none, List, [], ◌∷◌, ◌++◌, Text, ◌≡◌, refl, inl, inr, Option-cases, All, same_iff,
  before, before_irrefl, arith,
}
use servicrab.Base.Set
use servicrab.Base.Set.{BTreeSet}
use servicrab.Base.Chars.{contains_char, strip_suffix, trim_start, trim_end, lines}
use servicrab.Stopped.{version_line, collect, parse, render_names, render}
use servicrab.Stopped.Names.{IsName, AreNames, strip_suffix-trim_end}

lines_line :
    (line rest : Text)
    → contains_char b'\n' line ≡ false
    → strip_suffix b'\r' line ≡ none
    → lines (line ++ b'\n' ∷ rest) ≡ line ∷ lines rest
unfolding lines strip_suffix
lines_line [] rest h k = refl
lines_line (c ∷ []) rest h k = ground (arith, h, k)
lines_line (c ∷ d ∷ s) rest h k = elim (Option-cases (strip_suffix b'\r' (d ∷ s))) [
  | inl absent ↦ ground (arith, h, lines_line (d ∷ s) rest (ground (arith, h)) absent)
  | inr (x, found) ↦ ground (arith, k, found)
]

insert_below :
    (x : Text) (xs : BTreeSet) → All (λ y. before x y ≡ true) xs → Set.insert x xs ≡ x ∷ xs
unfolding Set.insert
insert_below x [] h = refl
insert_below x (y ∷ ys) h = ground (arith, h.0, same_iff x y, before_irrefl x)

collect_line :
    (name : Text) (rest : List Text)
    → IsName name
    → collect (name ∷ rest) ≡ Set.insert name (collect rest)
unfolding collect
collect_line name rest h = rw (h.trimmed, h.present, h.no_comment)

collect_nothing : collect (lines (render_names [])) ≡ []
unfolding collect lines render_names
collect_nothing = refl

collect_version : (rest : List Text) → collect (version_line ∷ rest) ≡ collect rest
unfolding collect trim_start trim_end
collect_version rest = refl

version_ends : strip_suffix b'\r' version_line ≡ none
unfolding strip_suffix
version_ends = refl

collect-render_names :
    (names : BTreeSet) → AreNames names → collect (lines (render_names names)) ≡ names
unfolding render_names
collect-render_names [] h = collect_nothing
collect-render_names (name ∷ names) h =
    let (valid, more) = h.each in
    let rest = collect-render_names names (record { ascending = h.ascending.1; each = more }) in
    let ends : strip_suffix b'\r' name ≡ none =
      rw valid.trimmed at (strip_suffix-trim_end b'\r' (trim_start name) refl) in
    rw
      (
        lines_line name (render_names names) valid.one_line ends,
        collect_line name (lines (render_names names)) valid,
        rest,
      )
      (insert_below name names h.ascending.0)

-- Names that ascend, each one not empty, trimmed, on one line and no comment, are read back from the
-- file that is rendered of them.
pub parse-render : (names : BTreeSet) → AreNames names → parse (render names) ≡ names
unfolding parse render
parse-render names h =
    rw
      (
        lines_line version_line (render_names names) refl version_ends,
        collect_version (lines (render_names names)),
      )
      (collect-render_names names h)
