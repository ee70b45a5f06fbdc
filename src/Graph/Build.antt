-- ===== src/Graph/Build.antt =====
-- What the tables hold when the main loop of `topological_sort` starts.
use servicrab.Base.{
  ℕ, ◌+◌, List, [], ◌∷◌, ◌++◌, ◌≡◌, refl, Bool, true, ◌||◌, ap, ◌∙◌, Text, length, for_each, All,
  All-map, same, same_iff, if◌then◌else◌, arith,
}
use servicrab.Base.Count.{count, contains, count-append, All-of_contains}
use servicrab.Base.Map
use servicrab.Base.Map.{BTreeMap}
use servicrab.Graph.{Deps, Tables, register, add_edge, add_edges, build}

-- What a service depends on.
abbrev pub deps_of : Deps → Text → List Text
deps_of deps n = Map.unwrap_or [] (Map.get deps n)

abbrev degree : Tables → Text → ℕ
degree t n = Map.unwrap_or 0 (Map.get t.in_degree n)

abbrev known : Tables → Text → Bool
known t n = Map.is_some (Map.get t.in_degree n)

abbrev waiting : Tables → Text → List Text
waiting t n = Map.unwrap_or [] (Map.get t.adj n)

degree-register :
    (ks : List Text) (t : Tables) (n : Text) → degree (for_each register t ks) n ≡ degree t n
unfolding register
degree-register [] t n = refl
degree-register (k ∷ ks) t n =
    ground (
      arith,
      degree-register ks (register t k) n,
      Map.get-or_insert t.in_degree k n 0,
      same_iff k n,
    )

known-register :
    (ks : List Text) (t : Tables) (n : Text)
    → known (for_each register t ks) n ≡ (contains ks n || known t n)
unfolding register
known-register [] t n = refl
known-register (k ∷ ks) t n =
    ground
      (arith, known-register ks (register t k) n, Map.get-or_insert t.in_degree k n 0, same_iff k n)

waiting-register :
    (ks : List Text) (t : Tables) (n : Text) → waiting (for_each register t ks) n ≡ waiting t n
unfolding register
waiting-register [] t n = refl
waiting-register (k ∷ ks) t n =
    ground
      (arith, waiting-register ks (register t k) n, Map.get-or_insert t.adj k n [], same_iff k n)

module _ (name : Text) where
  degree-add_edge :
      (ds : List Text) (t : Tables) (n : Text)
      → degree (for_each (add_edge name) t ds) n
        ≡ degree t n + (if same name n then length ds else 0)
  unfolding add_edge
  degree-add_edge [] t n = ground arith
  degree-add_edge (d ∷ ds) t n = ground (
    arith,
    degree-add_edge ds (add_edge name t d) n,
    Map.get-update_or t.in_degree name n 0 (λ i. i + 1),
    same_iff name n,
  )

  known-add_edge :
      (ds : List Text) (t : Tables) (n : Text)
      → known t name ≡ true
      → known (for_each (add_edge name) t ds) n ≡ known t n
  unfolding add_edge
  known-add_edge [] t n h = refl
  known-add_edge (d ∷ ds) t n h = ground (
    arith,
    known-add_edge ds (add_edge name t d) n,
    Map.get-update_or t.in_degree name n 0 (λ i. i + 1),
    Map.get-update_or t.in_degree name name 0 (λ i. i + 1),
    same_iff name n,
    same_iff name name,
  )

  count-waiting-add_edge :
      (ds : List Text) (t : Tables) (n s : Text)
      → count s (waiting (for_each (add_edge name) t ds) n)
        ≡ count s (waiting t n) + (if same name s then count n ds else 0)
  unfolding add_edge
  count-waiting-add_edge [] t n s = ground arith
  count-waiting-add_edge (d ∷ ds) t n s = ground (
    arith,
    count-waiting-add_edge ds (add_edge name t d) n s,
    Map.get-update_or t.adj d n [] (λ l. l ++ name ∷ []),
    same_iff d n,
    count-append s (waiting t d) (name ∷ []),
  )

degree-add_edges :
    (m : Deps) (t : Tables) (n : Text)
    → Map.IsMap m
    → degree (for_each add_edges t m) n ≡ degree t n + length (deps_of m n)
unfolding add_edges Map.get
degree-add_edges [] t n h = ground arith
degree-add_edges ((j, ds) ∷ m) t n h = ground (
  arith,
  degree-add_edges m (add_edges t (j, ds)) n h.1,
  degree-add_edge j ds t n,
  Map.get_above j m h.0,
  same_iff j n,
)

known-add_edges :
    (m : Deps) (t : Tables) (n : Text)
    → All (λ k. known t k ≡ true) (Map.keys m)
    → known (for_each add_edges t m) n ≡ known t n
unfolding add_edges
known-add_edges [] t n h = refl
known-add_edges ((j, ds) ∷ m) t n h =
    known-add_edges m (add_edges t (j, ds)) n
      (All-map (λ k p. known-add_edge j ds t k h.0 ∙ p) (Map.keys m) h.1)
    ∙ known-add_edge j ds t n h.0

count-waiting-add_edges :
    (m : Deps) (t : Tables) (n s : Text)
    → Map.IsMap m
    → count s (waiting (for_each add_edges t m) n) ≡ count s (waiting t n) + count n (deps_of m s)
unfolding add_edges Map.get
count-waiting-add_edges [] t n s h = ground arith
count-waiting-add_edges ((j, ds) ∷ m) t n s h = ground (
  arith,
  count-waiting-add_edges m (add_edges t (j, ds)) n s h.1,
  count-waiting-add_edge j ds t n s,
  Map.get_above j m h.0,
  same_iff j s,
)

add_edge-IsMap :
    (name : Text) (ds : List Text) (t : Tables)
    → Map.IsMap t.in_degree
    → Map.IsMap (for_each (add_edge name) t ds).in_degree
unfolding add_edge
add_edge-IsMap name [] t h = h
add_edge-IsMap name (d ∷ ds) t h =
    add_edge-IsMap name ds (add_edge name t d)
      (Map.update_or-IsMap name 0 (λ n. n + 1) t.in_degree h)

add_edges-IsMap :
    (m : Deps) (t : Tables) → Map.IsMap t.in_degree → Map.IsMap (for_each add_edges t m).in_degree
unfolding add_edges
add_edges-IsMap [] t h = h
add_edges-IsMap ((j, ds) ∷ m) t h =
    add_edges-IsMap m (add_edges t (j, ds)) (add_edge-IsMap j ds t h)

register-IsMap :
    (ks : List Text) (t : Tables)
    → Map.IsMap t.in_degree
    → Map.IsMap (for_each register t ks).in_degree
unfolding register
register-IsMap [] t h = h
register-IsMap (k ∷ ks) t h =
    register-IsMap ks (register t k) (Map.or_insert-IsMap k 0 t.in_degree h)

module _ (deps : Deps) where
  abbrev registered : Tables
  registered = for_each register (record { in_degree = []; adj = [] }) (Map.keys deps)

  pub in_degree-build-IsMap : Map.IsMap (build deps).in_degree
  unfolding build
  in_degree-build-IsMap = add_edges-IsMap deps registered (register-IsMap (Map.keys deps) _ tt)

  -- Every service is known, and nothing else is.
  pub known-build :
      (n : Text) → Map.is_some (Map.get (build deps).in_degree n) ≡ Map.contains_key deps n
  unfolding build Map.get
  known-build n =
      known-add_edges deps registered n (
        All-of_contains (λ k. known registered k ≡ true) (Map.keys deps)
          (λ k c. known-register (Map.keys deps) _ k ∙ rw c))
      ∙ known-register (Map.keys deps) _ n
      ∙ ground arith

  module _ (sorted : Map.IsMap deps) where
    pub degree-build :
        (n : Text) → Map.unwrap_or 0 (Map.get (build deps).in_degree n) ≡ length (deps_of deps n)
    unfolding build Map.get
    degree-build n = omega (
      arith,
      degree-add_edges deps registered n sorted,
      degree-register (Map.keys deps) (record { in_degree = []; adj = [] }) n,
    )

    -- `adj` is the graph with its edges turned round, each as often as it is declared.
    pub count-adj-build :
        (n s : Text)
        → count s (Map.unwrap_or [] (Map.get (build deps).adj n)) ≡ count n (deps_of deps s)
    unfolding build Map.get
    count-adj-build n s = omega (
      arith,
      count-waiting-add_edges deps registered n s sorted,
      ap (count s) (waiting-register (Map.keys deps) (record { in_degree = []; adj = [] }) n),
    )
