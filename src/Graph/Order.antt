-- ===== src/Graph/Order.antt =====
-- The start order that `topological_sort` computes.
use servicrab.Base.{
  ℕ, zero, suc, ◌+◌, ◌<◌, ◌≤◌, List, [], ◌∷◌, ◌++◌, ◌≡◌, refl, true, false, Text, length,
  length-append, same_iff, ◌==◌, arith, All, Returns, Returns-bind,
}
use mathlib.Core.List.{append-nil, append_assoc}
use servicrab.Base.Count.{count, contains, count-append, contains_iff, All-of_contains}
use servicrab.Base.Map
use servicrab.Base.Map.{BTreeMap}
use servicrab.Base.Set
use servicrab.Graph.{Deps, build, seed, release_all, drain}
use servicrab.Graph.Tally.{tally, tally-eq-length, tally-le}
use servicrab.Graph.Build.{deps_of, degree-build, known-build, in_degree-build-IsMap}
use servicrab.Graph.Rounds.{
  pending-append, pending-nil, All-started_of_pending, Inv, release_all-Inv,
}

-- `order` starts each service behind all of its dependencies; `seen` is started already.
abbrev pub IsStartOrder : Deps → List Text → List Text → Type 0
IsStartOrder deps seen [] = Unit
IsStartOrder deps seen (n ∷ order) =
    All (λ d. contains seen d ≡ true) (deps_of deps n) × IsStartOrder deps (seen ++ n ∷ []) order

IsStartOrder-snoc :
    (deps : Deps) (seen order : List Text) (n : Text)
    → IsStartOrder deps seen order
    → All (λ d. contains (seen ++ order) d ≡ true) (deps_of deps n)
    → IsStartOrder deps seen (order ++ n ∷ [])
IsStartOrder-snoc deps seen [] n h new = (rw append-nil at new, tt)
IsStartOrder-snoc deps seen (m ∷ order) n h new =
    (h.0, IsStartOrder-snoc deps (seen ++ m ∷ []) order n h.1 (rw append_assoc new))

pub length-keys : (deps : Deps) → length (Map.keys deps) ≡ length deps
length-keys [] = refl
length-keys ((k, ds) ∷ deps) = omega (arith, length-keys deps)

module _ (deps : Deps) (sorted : Map.IsMap deps) where
  module _ (D : BTreeMap ℕ) (queue order : List Text) (inv : Inv deps D queue order []) where
    pub placed_once : (k : Text) → count k (order ++ queue) ≤ 1
    placed_once k = ground (arith, inv.place k, count-append k order queue)

    placed_known : (k : Text) → contains (order ++ queue) k ≡ true → count k (Map.keys deps) ≡ 1
    placed_known k c = ground (
      arith,
      (contains_iff (order ++ queue) k).0 c,
      count-append k order queue,
      inv.place k,
      inv.entry k,
      Map.count-keys deps k sorted,
    )

    pub tally_placed : tally (order ++ queue) (Map.keys deps) ≡ length order + length queue
    tally_placed = omega (
      arith,
      length-append order queue,
      tally-eq-length (order ++ queue) (Map.keys deps) (All-of_contains _ _ placed_known),
    )

    pub fits : length order + length queue ≤ length deps
    fits = omega (
      arith,
      tally_placed,
      tally-le (order ++ queue) (Map.keys deps) placed_once,
      length-keys deps,
    )

  module _ (adj : BTreeMap (List Text))
      (edges : (n s : Text)
        → count s (Map.unwrap_or [] (Map.get adj n)) ≡ count n (deps_of deps s)) where
    -- What the inner loop starts from.
    Inv-pop :
        (D : BTreeMap ℕ) (name : Text) (queue order : List Text)
        → Inv deps D (name ∷ queue) order []
        → Inv deps D queue (order ++ name ∷ []) (Set.sort (Map.unwrap_or [] (Map.get adj name)))
    Inv-pop D name queue order inv =
        let new : contains order name ≡ false =
          ground (arith, inv.place name, contains_iff order name, same_iff name name) in
        record {
          ascending = inv.ascending;
          entry = λ n. ground (
            arith,
            inv.entry n,
            Set.count-sort n (Map.unwrap_or [] (Map.get adj name)),
            edges name n,
            pending-append order name (deps_of deps n) new,
          );
          rest_known = λ n absent. ground (
            arith,
            Set.count-sort n (Map.unwrap_or [] (Map.get adj name)),
            edges name n,
            Map.contains_key_lem deps n,
          );
          place = λ n. ground (arith, inv.place n, count-append n order (name ∷ []));
        }

    popped_ready :
        (D : BTreeMap ℕ) (name : Text) (queue order : List Text)
        → Inv deps D (name ∷ queue) order []
        → All (λ d. contains order d ≡ true) (deps_of deps name)
    popped_ready D name queue order inv =
        All-started_of_pending order (deps_of deps name)
          (ground (arith, inv.place name, inv.entry name, same_iff name name))

    pub drain_total :
        (fuel : ℕ) (D : BTreeMap ℕ) (queue order : List Text)
        → Inv deps D queue order []
        → IsStartOrder deps [] order
        → length deps < fuel + length order
        → Returns
            (λ r. Inv deps r.0 [] r.1 [] × IsStartOrder deps [] r.1)
            (drain fuel adj D queue order)
    unfolding drain
    drain_total zero D queue order inv h room = absurd (omega (arith, fits D queue order inv))
    drain_total (suc fuel) D [] order inv h room = (inv, h)
    drain_total (suc fuel) D (name ∷ queue) order inv h room =
        Returns-bind (λ s. Inv deps s.in_degree s.queue (order ++ name ∷ []) []) _
          (release_all _ (Set.sort (Map.unwrap_or [] (Map.get adj name)))) _
          (release_all-Inv deps (Set.sort (Map.unwrap_or [] (Map.get adj name))) D queue
            (order ++ name ∷ []) (Inv-pop D name queue order inv))
          (λ s i.
            drain_total fuel s.in_degree s.queue (order ++ name ∷ []) i
              (IsStartOrder-snoc deps [] order name h (popped_ready D name queue order inv))
              (omega (arith, length-append order (name ∷ []))))

  pub Inv-start : Inv deps (build deps).in_degree (seed (build deps)) [] []
  unfolding seed
  Inv-start = record {
    ascending = in_degree-build-IsMap deps;
    entry = λ n.
        ground
          (arith, known-build deps n, degree-build deps sorted n, pending-nil (deps_of deps n));
    rest_known = λ n _. refl;
    place = λ n. omega (
      arith,
      Set.count-sort n (Map.keys_where (λ deg. deg == 0) (build deps).in_degree),
      Map.count-keys_where (λ deg. deg == 0) n (build deps).in_degree (in_degree-build-IsMap deps),
    );
  }
