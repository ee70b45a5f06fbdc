-- ===== src/Include/Chain.antt =====
-- crates/servicrab-core/src/include.rs: the chain of files that are being read, which bounds the depth.
use servicrab.Base.{
  ℕ, ◌<◌, ◌≤◌, ◌||◌, not, filter, length, Bool, true, false, List, [], ◌∷◌, ◌++◌, Text, same,
  Result, ok, match_result_ind, ◌≡◌, inl, inr, Bool-cases, same_iff, same_refl, arith, ap, ◌∙◌,
}
use servicrab.Base.Count.{contains}
use servicrab.Errors.{ConfigError}
use servicrab.Raw.{RawFragment}
use servicrab.Validation.{Host}
use servicrab.Include.{Ancestor, in_chain, read}
use servicrab.Include.Walk.{IsRead}

-- How many of the files are not in the chain.
abbrev pub remaining : List Text → List Ancestor → ℕ
remaining files chain = length (filter (λ u. not (in_chain u chain)) files)

in_chain-append :
    (u : Text) (chain : List Ancestor) (a : Ancestor)
    → in_chain u (chain ++ a ∷ []) ≡ (in_chain u chain || same a.identity u)
unfolding in_chain
in_chain-append u [] a = ground arith
in_chain-append u (b ∷ chain) a = ground (arith, in_chain-append u chain a)

remaining-le :
    (files : List Text) (chain : List Ancestor) (a : Ancestor)
    → remaining files (chain ++ a ∷ []) ≤ remaining files chain
remaining-le [] chain a = omega arith
remaining-le (u ∷ files) chain a =
    ground (arith, remaining-le files chain a, in_chain-append u chain a)

-- A file that joins the chain is one less.
pub remaining_less :
    (files : List Text) (chain : List Ancestor) (a : Ancestor)
    → in_chain a.identity chain ≡ false
    → contains files a.identity ≡ true
    → remaining files (chain ++ a ∷ []) < remaining files chain
remaining_less [] chain a out inside = absurd (ground arith)
remaining_less (u ∷ files) chain a out inside = elim (Bool-cases (same u a.identity)) [
  | inl at ↦
      let same_file = (same_iff u a.identity).0 at in
      ground (
        arith,
        rw (← same_file) at out,
        remaining-le files chain a,
        in_chain-append u chain a,
        rw same_file at (same_refl u),
        same_iff a.identity u,
      )
  | inr other ↦
      ground (arith, other, in_chain-append u chain a, inside, remaining_less files chain a out)
]

pub length-filter-le : (p : Text → Bool) (xs : List Text) → length (filter p xs) ≤ length xs
length-filter-le p [] = omega arith
length-filter-le p (x ∷ xs) = ground (arith, length-filter-le p xs)

pub read-IsRead :
    (host : Host) (parse_fragment : Text → Result Text RawFragment) (path by : Text)
    (fragment : RawFragment)
    → read host parse_fragment path by ≡ ok fragment
    → IsRead host parse_fragment path fragment
unfolding read
read-IsRead host parse_fragment path by fragment =
    let Answers : Result ConfigError RawFragment → Type 0 =
      λ r. r ≡ ok fragment → IsRead host parse_fragment path fragment in
    match_result_ind Answers (host.read_to_string path) (λ e missing h. absurd cc)
      λ text found.
        match_result_ind Answers (parse_fragment text) (λ e bad h. absurd cc)
          λ parsed good h. (text, found, (let equal : parsed ≡ fragment = cc in good ∙ ap ok equal))

pub IsRead-unique :
    (host : Host) (parse_fragment : Text → Result Text RawFragment) (path : Text)
    (f g : RawFragment)
    → IsRead host parse_fragment path f
    → IsRead host parse_fragment path g
    → f ≡ g
IsRead-unique host parse_fragment path f g (s, found, good) (t, found2, good2) =
    let same_text : s ≡ t = cc in let again : parse_fragment s ≡ ok g = rw same_text good2 in cc
