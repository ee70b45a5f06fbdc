-- ===== src/Graph.antt =====
-- crates/servicrab-core/src/graph.rs: the start order of the services by Kahn's algorithm, and the
-- search for a cycle to report. A service name is a text.
pub mod Build
mod Rounds
mod Tally
pub mod Order
mod Visits
pub mod Cycle
pub mod StartOrder
mod Samples
use servicrab.Base.{
  ℕ, zero, suc, ◌+◌, ◌<◌, List, [], ◌∷◌, ◌++◌, Bool, ◌||◌, not, Option, none, some, Text, codes,
  join, length, drop, pop, for_each, same, before, ◌==◌, ltb, if◌then◌else◌, Result, ok, err, Run,
  returned, panicked, out_of_fuel, ◌>>=◌,
}
use servicrab.Base.Count.{contains}
use servicrab.Base.Map
use servicrab.Base.Map.{BTreeMap}
use servicrab.Base.Set
use servicrab.Base.Set.{BTreeSet}

abbrev pub Deps : Type 0
Deps = BTreeMap (List Text)

-- The two tables of Kahn's algorithm.
pub record Tables : Type 0 where
  pub in_degree : BTreeMap ℕ
  pub adj : BTreeMap (List Text)

-- The body of the first loop over `deps`.
pub register : Tables → Text → Tables
register t name = record {
  in_degree = Map.or_insert name 0 t.in_degree;
  adj = Map.or_insert name [] t.adj;
}

-- The body of the inner loop over `service_deps`.
pub add_edge : Text → Tables → Text → Tables
add_edge name t dep = record {
  in_degree = Map.update_or name 0 (λ n. n + 1) t.in_degree;
  adj = Map.update_or dep [] (λ l. l ++ name ∷ []) t.adj;
}

pub add_edges : Tables → Text × List Text → Tables
unfolding add_edge
add_edges t (name, service_deps) = for_each (add_edge name) t service_deps

pub build : Deps → Tables
unfolding register add_edges
build deps =
    for_each add_edges (for_each register (record { in_degree = []; adj = [] }) (Map.keys deps))
      deps

-- The services with no unsatisfied dependency, sorted.
pub seed : Tables → List Text
seed t = Set.sort (Map.keys_where (λ deg. deg == 0) t.in_degree)

-- `VecDeque::partition_point` and `VecDeque::insert`.
pub partition_point : (Text → Bool) → List Text → ℕ
partition_point p [] = 0
partition_point p (x ∷ xs) = let rest = partition_point p xs in if p x then suc rest else 0

pub insert_at : ℕ → Text → List Text → List Text
insert_at zero a xs = a ∷ xs
insert_at (suc n) a [] = a ∷ []
insert_at (suc n) a (x ∷ xs) = x ∷ insert_at n a xs

-- What the inner loop changes.
pub record Kahn : Type 0 where
  pub in_degree : BTreeMap ℕ
  pub queue : List Text

pub enqueue : Text → List Text → List Text
unfolding partition_point insert_at
enqueue successor queue =
    insert_at (partition_point (λ q. before q successor) queue) successor queue

-- One round of the inner loop: `expect` fails on a node with no entry, and `*deg -= 1` on a zero.
pub release : Kahn → Text → Option ℕ → Run Kahn
unfolding enqueue
release s successor none = panicked
release s successor (some zero) = panicked
release s successor (some (suc deg)) = returned (record {
  in_degree = Map.insert successor deg s.in_degree;
  queue = if deg == 0 then enqueue successor s.queue else s.queue;
})

pub release_all : Kahn → List Text → Run Kahn
unfolding release
release_all s [] = returned s
release_all s (x ∷ next) = do s' ← release s x (Map.get s.in_degree x); release_all s' next

-- `while let Some(name) = queue.pop_front()`. The result is `in_degree` and `order`.
pub drain :
    ℕ → BTreeMap (List Text) → BTreeMap ℕ → List Text → List Text → Run (BTreeMap ℕ × List Text)
unfolding release_all
drain zero adj in_degree queue order = out_of_fuel
drain (suc fuel) adj in_degree [] order = returned (in_degree, order)
drain (suc fuel) adj in_degree (name ∷ queue) order = do
  s ←
      release_all (record { in_degree = in_degree; queue = queue })
        (Set.sort (Map.unwrap_or [] (Map.get adj name)))
  drain fuel adj s.in_degree s.queue (order ++ name ∷ [])

-- What `dfs` changes.
pub record Search : Type 0 where
  pub path : List Text
  pub on_path : BTreeSet
  pub finished : BTreeSet

-- `path.iter().position(|&n| n == node)`
pub position : Text → List Text → Option ℕ
position node [] = none
position node (x ∷ path) =
    let rest = position node path in
    if same x node then some 0 else elim rest [ none ↦ none | some i ↦ some (suc i) ]

abbrev pub arrow : Text
arrow = codes " -> "

-- The loop of `path` that `node` closes, as it is printed.
pub close : List Text → Text → Option ℕ → Run Text
close path node none = panicked
close path node (some start_idx) = returned (join arrow (drop start_idx path ++ node ∷ []))

-- A cycle that was found ends the loop at once; else it goes on from the state so far.
abbrev pub unless_found :
    (Search → Run (Option Text × Search)) → Option Text × Search → Run (Option Text × Search)
unless_found rest (some cycle, s) = returned (some cycle, s)
unless_found rest (none, s) = rest s

-- `for dep in sorted_deps { if let Some(cycle) = dfs(..) { return Some(cycle); } }`
pub visit :
    (Search → Text → Run (Option Text × Search)) → Search → List Text → Run (Option Text × Search)
visit dfs s [] = returned (none, s)
visit dfs s (dep ∷ sorted_deps) = dfs s dep >>= unless_found (λ s'. visit dfs s' sorted_deps)

pub enter : Text → Search → Search
enter node s = record s { path = s.path ++ node ∷ []; on_path = Set.insert node s.on_path }

-- The end of `dfs`, behind the loop over the dependencies.
pub leave : Text → Option Text × Search → Option Text × Search
leave node (some cycle, s) = (some cycle, s)
leave node (none, s) = (
  none,
  record {
    path = pop s.path;
    on_path = Set.remove node s.on_path;
    finished = Set.insert node s.finished;
  },
)

module _ (deps : Deps) (remaining : BTreeSet) where
  pub dfs : ℕ → Search → Text → Run (Option Text × Search)
  unfolding close position visit enter leave
  dfs zero s node = out_of_fuel
  dfs (suc fuel) s node =
      let descend =
        visit (dfs fuel) (enter node s) (Set.sort (Map.unwrap_or [] (Map.get deps node))) in
      if contains s.on_path node
      then (do cycle ← close s.path node (position node s.path); returned (some cycle, s))
      else if contains s.finished node || not (contains remaining node)
      then returned (none, s)
      else (do found ← descend; returned (leave node found))

  -- `for start in remaining`
  pub search_from : ℕ → Search → List Text → Run (Option Text × Search)
  unfolding dfs
  search_from fuel s [] = returned (none, s)
  search_from fuel s (start ∷ starts) =
      let skip = search_from fuel s starts in
      let go = dfs fuel s start >>= unless_found (λ s'. search_from fuel s' starts) in
      if not (contains s.finished start) then go else skip

  abbrev or_all : Option Text × Search → Text
  or_all (some cycle, s) = cycle
  or_all (none, s) = join arrow remaining

  -- The search from every remaining node, and what is printed if it finds nothing. On a path stand
  -- only remaining nodes, each once, so `dfs` goes no deeper than the fuel.
  pub find_cycle : Run Text
  unfolding search_from
  find_cycle = do
    found ←
        search_from (suc (suc (length remaining)))
          (record { path = []; on_path = []; finished = [] }) remaining
    returned (or_all found)

-- `ConfigError::DependencyCycle`
pub record DependencyCycle : Type 0 where
  pub cycle : Text

finish : Deps → BTreeMap ℕ × List Text → Run (Result DependencyCycle (List Text))
unfolding find_cycle
finish deps (in_degree, order) = if length order == length deps then returned (ok order) else do
  cycle ← find_cycle deps (Map.keys_where (λ deg. ltb 0 deg) in_degree)
  returned (err (record { cycle = cycle }))

-- Every round of `drain` moves one service to `order`, so the fuel is their number, and one more.
unfoldable pub topological_sort : Deps → Run (Result DependencyCycle (List Text))
unfolding build seed drain finish
topological_sort deps =
    let t = build deps in drain (suc (length deps)) t.adj t.in_degree (seed t) [] >>= finish deps
