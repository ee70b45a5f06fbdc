-- ===== src/Graph/Samples.antt =====
-- The tests of graph.rs, and the theorems at concrete inputs.
use servicrab.Base.{
  ℕ, List, [], ◌∷◌, ◌≡◌, refl, Bool, true, ◌&&◌, Text, codes, Result, ok, err, returned, same,
  same_iff, before, join, ltb, ltb→lt, all, if◌then◌else◌, arith,
}
use servicrab.Base.Count.{contains}
use servicrab.Base.Map
use servicrab.Base.Set
use servicrab.Graph.{Deps, DependencyCycle, topological_sort}
use servicrab.Graph.Build.{deps_of}
use servicrab.Graph.Order.{IsStartOrder}
use servicrab.Graph.Visits.{ShowsCycle}
use servicrab.Graph.StartOrder.{
  IsClosed, IsEachOnce, IsRanked, topological_sort_total, topological_sort-IsStartOrder,
  topological_sort-ShowsCycle, topological_sort-IsRanked,
}

abbrev a : Text
a = codes "a"

abbrev b : Text
b = codes "b"

abbrev c : Text
c = codes "c"

abbrev d : Text
d = codes "d"

abbrev diamond : Deps
diamond = (a, []) ∷ (b, a ∷ []) ∷ (c, a ∷ []) ∷ (d, b ∷ c ∷ []) ∷ []

abbrev loop : Deps
loop = (a, c ∷ []) ∷ (b, a ∷ []) ∷ (c, b ∷ []) ∷ (d, []) ∷ []

program : Unit {0}
unfolding topological_sort same before join Map.get Map.insert Map.or_insert Map.update_or
    Set.insert Set.remove Set.sort
program = tt

topological_sort-diamond : topological_sort diamond ≡ returned (ok (a ∷ b ∷ c ∷ d ∷ []))
unfolding program
topological_sort-diamond = refl

topological_sort-loop :
    topological_sort loop ≡ returned (err (record { cycle = codes "a -> c -> b -> a" }))
unfolding program
topological_sort-loop = refl

rank : Text → ℕ
unfolding same
rank n = if same n a then 0 else if same n d then 2 else 1

sorted : Map.IsMap diamond
unfolding before
sorted = ((refl, (refl, (refl, tt))), ((refl, (refl, tt)), ((refl, tt), (tt, tt))))

loop_sorted : Map.IsMap loop
unfolding before
loop_sorted = ((refl, (refl, (refl, tt))), ((refl, (refl, tt)), ((refl, tt), (tt, tt))))

-- A test of each edge of a small graph.
abbrev edges_pass : (Text → Text → Bool) → Deps → Bool
edges_pass p [] = true
edges_pass p ((n, ds) ∷ deps) = all (p n) ds && edges_pass p deps

all-contains :
    (p : Text → Bool) (ds : List Text) (x : Text)
    → all p ds ≡ true
    → contains ds x ≡ true
    → p x ≡ true
all-contains p [] x h c = ground arith
all-contains p (y ∷ ds) x h c = ground (arith, all-contains p ds x, same_iff y x)

edges_pass-deps_of :
    (p : Text → Text → Bool) (deps : Deps) (n x : Text)
    → edges_pass p deps ≡ true
    → contains (deps_of deps n) x ≡ true
    → p n x ≡ true
unfolding Map.get
edges_pass-deps_of p [] n x h c = ground arith
edges_pass-deps_of p ((m, ds) ∷ deps) n x h c =
    ground (arith, edges_pass-deps_of p deps n x, all-contains (p m) ds x, same_iff m n)

diamond-IsClosed : IsClosed diamond
unfolding same
diamond-IsClosed n x = edges_pass-deps_of (λ _ y. Map.contains_key diamond y) diamond n x refl

loop-IsClosed : IsClosed loop
unfolding same
loop-IsClosed n x = edges_pass-deps_of (λ _ y. Map.contains_key loop y) loop n x refl

diamond-IsRanked : IsRanked rank diamond
unfolding rank
diamond-IsRanked n x c =
    ltb→lt _ _ (edges_pass-deps_of (λ m y. ltb (rank y) (rank m)) diamond n x refl c)

topological_sort_total_example :
    (r : Result DependencyCycle (List Text)) × (topological_sort loop ≡ returned r)
topological_sort_total_example = topological_sort_total loop loop_sorted

topological_sort-IsStartOrder_example :
    IsStartOrder diamond [] (a ∷ b ∷ c ∷ d ∷ []) × IsEachOnce diamond (a ∷ b ∷ c ∷ d ∷ [])
topological_sort-IsStartOrder_example =
    topological_sort-IsStartOrder diamond (a ∷ b ∷ c ∷ d ∷ []) sorted topological_sort-diamond

topological_sort-ShowsCycle_example : ShowsCycle loop (codes "a -> c -> b -> a")
topological_sort-ShowsCycle_example =
    topological_sort-ShowsCycle loop (record { cycle = codes "a -> c -> b -> a" }) loop_sorted
      loop-IsClosed topological_sort-loop

topological_sort-IsRanked_example :
    (order : List Text) × (topological_sort diamond ≡ returned (ok order))
topological_sort-IsRanked_example =
    topological_sort-IsRanked diamond rank sorted diamond-IsClosed diamond-IsRanked
