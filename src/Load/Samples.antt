-- ===== src/Load/Samples.antt =====
-- Runs of the search for the configuration, and the theorems at concrete inputs.
use servicrab.Base.{
  ◌<◌, true, none, some, [], ◌∷◌, Text, codes, same, same_iff, if◌then◌else◌, length, ok, err,
  Returns, Bool-cases, inl, inr, returned, ◌≡◌, refl, arith, subst, sym,
}
use servicrab.Base.Count.{contains}
use servicrab.Base.Map
use servicrab.Base.Chars.{strip_suffix}
use servicrab.Raw.{RawConfig}
use servicrab.Validation.{Host, join_path}
use servicrab.Validation.Samples.{raw-IsMap}
use servicrab.Validation.Outcomes.{IsOutcome}
use servicrab.Include.{identity}
use servicrab.Include.Samples.{disk, cache_file, root, with_include, plain_file}
use servicrab.Errors.{unsupported_version}
use servicrab.Load.{Toml, other_version, discover_from, discover_config, load}
use servicrab.Load.Found.{IsNearest, discover_config-IsNearest}
use servicrab.Load.Loaded.{load-IsOutcome}

abbrev app : Text
app = codes "/srv/app"

abbrev srv : Text
srv = codes "/srv"

-- The configuration stands one directory up, and there is no directory above that.
abbrev tree : Host
tree = record disk {
  parent = λ dir. if same dir app then some srv else none;
  is_file = λ path. same path (codes "/srv/servicrab.toml");
}

one_up : discover_config tree 9 app ≡ returned (ok (codes "/srv/servicrab.toml"))
unfolding discover_config discover_from join_path strip_suffix same
one_up = refl

tree_shorter : (d up : Text) → tree.parent d ≡ some up → length up < length d
tree_shorter d up found = elim (Bool-cases (same d app)) [
  | inl at ↦
      let there : srv ≡ up = ground (arith, found, at) in
      subst (λ (e : Text). length up < length e) (sym ((same_iff d app).0 at))
        (subst (λ (u : Text). length u < 8) there (omega arith))
  | inr other ↦ absurd (ground (arith, found, other))
]

discover_config-IsNearest_example : Returns (IsNearest tree app) (discover_config tree 9 app)
discover_config-IsNearest_example = discover_config-IsNearest tree 9 app tree_shorter (omega arith)

-- Both files can be read.
abbrev two_files : Host
two_files = record disk {
  read_to_string = λ path. if same path root then ok (codes "root") else disk.read_to_string path;
}

abbrev toml : Toml
toml = record {
  declared_version = λ text. some 1;
  parse_config = λ text. ok with_include;
  parse_fragment = plain_file;
}

toml_maps :
    (text : Text) (parsed : RawConfig)
    → toml.parse_config text ≡ ok parsed
    → Map.IsMap parsed.services
toml_maps text parsed found =
    let equal : with_include ≡ parsed = cc in
    subst (λ (r : RawConfig). Map.IsMap r.services) equal raw-IsMap

two_known :
    (p text : Text)
    → two_files.read_to_string p ≡ ok text
    → contains (root ∷ cache_file ∷ []) (identity two_files plain_file p) ≡ true
unfolding identity
two_known p text found =
    ground
      (arith, found, same_iff p cache_file, same_iff cache_file p, same_iff p root, same_iff root p)

load-IsOutcome_example : Returns IsOutcome (load two_files toml 3 root)
load-IsOutcome_example =
    load-IsOutcome two_files toml (root ∷ cache_file ∷ []) 3 root toml_maps two_known (omega arith)

-- A later schema is reported by its version, whatever else of it cannot be read.
abbrev later : Toml
later = record {
  declared_version = λ text. some 2;
  parse_config = λ text. err (codes "unknown field");
  parse_fragment = plain_file;
}

version_first : load two_files later 3 root ≡ returned (err (unsupported_version 2 ∷ []))
unfolding load other_version same
version_first = refl
