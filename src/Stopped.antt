-- ===== src/Stopped.antt =====
-- crates/servicrab-cli/src/daemon/stopped.rs: the services that were stopped by hand, in a file. The
-- file is its contents, where it exists; what the write of a file comes to is an argument.
pub mod Names
pub mod RoundTrip
pub mod Changes
mod Samples
use servicrab.Base.{
  Bool, true, false, ◌&&◌, not, Option, none, some, List, [], ◌∷◌, ◌++◌, Text, codes, filter,
  if◌then◌else◌, match_option, Result, ok, err,
}
use servicrab.Base.Count.{contains}
use servicrab.Base.Map
use servicrab.Base.Map.{BTreeMap}
use servicrab.Base.Set
use servicrab.Base.Set.{BTreeSet}
use servicrab.Base.Chars.{is_empty, starts_with, trim, lines}
use servicrab.Lifecycle.{RestartPolicy}
use servicrab.Config.{Service, Config}
use servicrab.Plan.{with_dependents}

abbrev pub version_line : Text
version_line = codes "# servicrab stopped v1"

-- The names among the lines, collected into a set.
unfoldable pub collect : List Text → BTreeSet
collect [] = []
collect (line ∷ rest) =
    let names = collect rest in
    let name = trim line in
    if not (is_empty name) && not (starts_with (b'#' ∷ []) name)
    then Set.insert name names
    else names

unfoldable pub parse : Text → BTreeSet
parse text = collect (lines text)

unfoldable pub read : Option Text → BTreeSet
read file = match_option file [] parse

unfoldable pub render_names : BTreeSet → Text
render_names [] = []
render_names (name ∷ names) = name ++ b'\n' ∷ render_names names

unfoldable pub render : BTreeSet → Text
render names = version_line ++ b'\n' ∷ render_names names

-- `write_atomically`: the contents are replaced, or the file stays as it is.
unfoldable pub write_atomically :
    Result Text (Unit {0}) → Text → Option Text → Option Text × Result Text (Unit {0})
write_atomically (ok _) contents file = (some contents, ok tt)
write_atomically (err problem) contents file = (file, err problem)

-- `names.insert` and `names.remove`: whether the set has changed, and the set.
unfoldable pub change : Bool → Text → BTreeSet → Bool × BTreeSet
change true service names = (not (contains names service), Set.insert service names)
change false service names = (contains names service, Set.remove service names)

unfoldable pub record_stop :
    Result Text (Unit {0}) → Option Text → Text → Bool → Option Text × Result Text (Unit {0})
record_stop outcome file service stopped =
    let (changed, names) = change stopped service (read file) in
    if changed then write_atomically outcome (render names) file else (file, ok tt)

-- `remove_file`, or the write of what is kept.
unfoldable pub replace :
    Result Text (Unit {0}) → BTreeSet → Option Text → Option Text × Result Text (Unit {0})
replace (ok _) [] file = (none, ok tt)
replace (err problem) [] file = (file, err problem)
replace outcome (name ∷ names) file = write_atomically outcome (render (name ∷ names)) file

abbrev pub is_none : BTreeSet → Bool
is_none [] = true
is_none (name ∷ names) = false

-- What is dropped, behind the replacement.
unfoldable pub dropped_or :
    BTreeSet → Option Text × Result Text (Unit {0}) → Option Text × Result Text BTreeSet
dropped_or dropped (file, ok _) = (file, ok dropped)
dropped_or dropped (file, err problem) = (file, err problem)

unfoldable pub reconcile :
    Result Text (Unit {0}) → Option Text → Config → Option Text × Result Text BTreeSet
reconcile outcome file config =
    let remembered = read file in
    let kept = filter (λ name. Map.contains_key config.services name) remembered in
    let dropped = filter (λ name. not (Map.contains_key config.services name)) remembered in
    if is_none remembered
    then (file, ok [])
    else if is_none dropped
    then (file, ok dropped)
    else dropped_or dropped (replace outcome kept file)

abbrev pub is_unless_stopped : Option Service → Bool
is_unless_stopped none = false
is_unless_stopped (some service) = elim service.restart [
  | RestartPolicy.unless_stopped ↦ true
  | _ ↦ false
]

-- The planned services that are remembered and ask for it. `collect` into a set gives them in
-- ascending order.
unfoldable pub seeds : Config → List Text → BTreeSet → BTreeSet
seeds config [] remembered = []
seeds config (name ∷ plan) remembered =
    let rest = seeds config plan remembered in
    if contains remembered name && is_unless_stopped (Map.get config.services name)
    then Set.insert name rest
    else rest

unfoldable pub held_back : Config → List Text → BTreeSet → BTreeSet
held_back config plan remembered =
    let chosen = seeds config plan remembered in
    if is_none chosen then [] else with_dependents config plan chosen
