-- ===== src/Validation/Outcomes.antt =====
-- crates/servicrab-core/src/validation.rs: every run of `validate_raw`.
use servicrab.Base.{[], Text, ◌≡◌, ◌≢◌, ◌∙◌, ok, err, Returns, Returns-map}
use servicrab.Base.Map
use servicrab.Config.{Config}
use servicrab.Raw.{RawConfig}
use servicrab.Graph.StartOrder.{topological_sort-IsStartOrder}
use servicrab.Subst.Values.{expand_raw}
use servicrab.Validation.{Host}
use servicrab.Validation.Services.{validate_services}
use servicrab.Validation.Pipeline.{dep_graph, Outcome, validate_raw}
use servicrab.Validation.Whole.{
  expand_raw-IsMap, dep_graph-IsMap, services_pass, services-validate_parts, parts-IsMap, Accepts,
  Ended, shared_of, validate_raw-Ended,
}
use servicrab.Validation.Accepted.{
  IsValid, entry_of, name-Built, Built-IsService, services-IsDependencies,
}

module _ (host : Host) (raw : RawConfig) (source_path : Text)
    (sorted : Map.IsMap raw.services) where
  Accepts-IsValid : (config : Config) → Accepts host raw source_path config → IsValid config
  Accepts-IsValid config a =
      let expanded = (expand_raw host.vars raw).value in
      let keys = expand_raw-IsMap host.vars raw sorted in
      let shared = shared_of host expanded source_path in
      let (built, checked) = services_pass host expanded source_path a.checked in
      let same_services : config.services
          ≡ (validate_services host shared [] expanded.services).value =
        a.services ∙ services-validate_parts host expanded source_path in
      let ascending : Map.IsMap config.services =
        rw a.services (parts-IsMap host expanded source_path a.checked) in
      let ordered =
        topological_sort-IsStartOrder (dep_graph config.services) config.start_order
          (dep_graph-IsMap config.services ascending) a.sorted in
      record {
        keys = ascending;
        named = λ k s found.
            let (entry, _, b) =
              entry_of host shared expanded.services keys built k s (rw same_services at found) in
            name-Built host shared expanded.services keys built k entry s b;
        settings = λ k s found.
            let (entry, _, b) =
              entry_of host shared expanded.services keys built k s (rw same_services at found) in
            Built-IsService host shared expanded.services keys built k entry s b;
        links = λ k s found. rw same_services (
            services-IsDependencies host shared expanded.services keys built k s checked
              (rw same_services at found));
        order = ordered.0;
        once = ordered.1;
      }

-- One error at least, or a configuration that is valid.
abbrev pub IsOutcome : Outcome → Type 0
IsOutcome (err errors) = errors ≢ []
IsOutcome (ok (config, warnings)) = IsValid config

-- From every map of services `validate_raw` returns, and its `expect` does not fail. It returns
-- errors, of which there is one at least, or a configuration that is valid: the services stand under
-- their names, their durations, retries and watch tables are within the documented limits, and the
-- restart delay is not above its maximum; each dependency is another service, stands once, and waits
-- for what can come to hold; and the start order has each service once, behind its dependencies.
pub validate_raw-IsOutcome :
    (host : Host) (raw : RawConfig) (source_path : Text)
    → Map.IsMap raw.services
    → Returns IsOutcome (validate_raw host raw source_path)
validate_raw-IsOutcome host raw source_path sorted =
    Returns-map (Ended host raw source_path) IsOutcome (validate_raw host raw source_path)
      (valid host raw source_path sorted) (validate_raw-Ended host raw source_path sorted)
  where
    valid :
        (host : Host) (raw : RawConfig) (source_path : Text)
        → Map.IsMap raw.services
        → (r : Outcome) → Ended host raw source_path r
        → IsOutcome r
    valid host raw source_path sorted (err errors) h = h
    valid host raw source_path sorted (ok (config, warnings)) h =
        Accepts-IsValid host raw source_path sorted config h
