-- ===== src/Include/Samples.antt =====
-- Runs of the merge of included files, and its theorem at a concrete input.
use servicrab.Base.{
  false, true, none, some, [], ◌∷◌, Text, codes, join, same, same_iff, before, if◌then◌else◌,
  Result, ok, err, Returns, returned, ◌≡◌, refl, arith,
}
use servicrab.Base.Count.{contains}
use servicrab.Base.Entries.{map_values}
use servicrab.Base.Map
use servicrab.Base.Chars.{strip_suffix}
use servicrab.Errors.{include_cycle, duplicate_service}
use servicrab.Raw.{RawInclude, include_many, include_one, include_paths, RawFragment, RawConfig}
use servicrab.Validation.{Host, join_path, resolved_path}
use servicrab.Validation.Samples.{host, raw, service_of, web}
use servicrab.Include.{
  push_error, stamp, in_chain, chain_from, merge_service, merge_services, not_a_fragment, each_path,
  included, take_fragment, identity, beside, read, include_file, merge,
}
use servicrab.Include.Merged.{IsMerged, merge-IsMerged}

abbrev pub cache_file : Text
cache_file = codes "cache.toml"

-- One file can be read beside the root.
abbrev pub disk : Host
disk = record host {
  read_to_string =
      λ path. if same path cache_file then ok (codes "cache") else err (codes "no such file");
}

abbrev pub fragment_of : RawInclude → Text → RawFragment
fragment_of include name = record {
  include = some include;
  services = (name, service_of none none) ∷ [];
  version = false;
  project = false;
}

-- The file includes nothing, or the root, or has a service of the root's.
abbrev pub plain_file : Text → Result Text RawFragment
plain_file text = ok (fragment_of (include_many []) (codes "cache"))

abbrev looping_file : Text → Result Text RawFragment
looping_file text = ok (fragment_of (include_one (codes "servicrab.toml")) (codes "cache"))

abbrev doubled_file : Text → Result Text RawFragment
doubled_file text = ok (fragment_of (include_many []) web)

abbrev pub root : Text
root = codes "servicrab.toml"

abbrev pub with_include : RawConfig
with_include = record raw { include = some (include_one cache_file) }

program : Unit {0}
unfolding push_error stamp in_chain chain_from merge_service merge_services not_a_fragment each_path
    included take_fragment identity beside read include_file merge include_paths map_values Map.get
    Map.insert same before join join_path resolved_path strip_suffix
program = tt

the_cycle :
    merge disk looping_file 3 with_include root
    ≡ returned (
      record with_include {
        include = none;
        services =
            (codes "cache", stamp cache_file (service_of none none))
            ∷ map_values (λ name service. stamp root service) raw.services;
      },
      include_cycle (codes "servicrab.toml -> cache.toml -> servicrab.toml") ∷ [],
    )
unfolding program
the_cycle = refl

the_double :
    merge disk doubled_file 2 with_include root
    ≡ returned (
      record with_include {
        include = none;
        services = map_values (λ name service. stamp root service) raw.services;
      },
      duplicate_service web root cache_file ∷ [],
    )
unfolding program
the_double = refl

disk_known :
    (p text : Text)
    → disk.read_to_string p ≡ ok text
    → contains (cache_file ∷ []) (identity disk plain_file p) ≡ true
unfolding identity
disk_known p text found = ground (arith, found, same_iff p cache_file, same_iff cache_file p)

merge-IsMerged_example :
    Returns
      (λ (result, errors). IsMerged disk plain_file with_include root result errors)
      (merge disk plain_file 2 with_include root)
merge-IsMerged_example =
    merge-IsMerged disk plain_file with_include root (cache_file ∷ []) 2 disk_known (omega arith)
