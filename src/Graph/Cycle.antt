-- ===== src/Graph/Cycle.antt =====
-- The search for a cycle to report.
use servicrab.Base.{
  ℕ, zero, suc, ◌+◌, ◌<◌, ◌≤◌, List, [], ◌∷◌, ◌++◌, ◌≡◌, refl, true, ◌||◌, not, Option, none, some,
  Text, length, length-append, same, same_iff, join, if_ind, arith, Run, Returns, Returns-bind,
  returned, ◌>>=◌, Bool-cases, inl, inr, sym, ap, ◌∙◌, Returns-map,
}
use servicrab.Base.Count.{count, contains, contains_iff, All-contains, All-of_contains}
use servicrab.Base.Set
use servicrab.Base.Set.{BTreeSet}
use servicrab.Graph.{
  Deps, Search, arrow, position, close, visit, enter, dfs, search_from, find_cycle, or_all,
}
use servicrab.Graph.Build.{deps_of}
use servicrab.Graph.Tally.{tally-eq-length, tally-le}
use servicrab.Graph.Visits.{
  IsWalk, ShowsCycle, IsWalk-snoc, close-ShowsCycle, IsFinishOrder, Good, Settled, Visited,
  Kept-refl, unless_found-Visited, Visited-cons, visit-Visited, enter-Good, leave-Visited,
}

module _ (deps : Deps) (remaining : BTreeSet) (rem_once : (k : Text) → count k remaining ≤ 1) where
  path_fits :
      (s : Search) (done : List Text)
      → Good deps remaining s done
      → length s.path ≤ length remaining
  path_fits s done g = omega (
    arith,
    tally-le s.path remaining g.once,
    tally-eq-length s.path remaining (
        All-of_contains _ s.path
          λ k c. ground (arith, contains_iff remaining k, g.inside k c, rem_once k)),
  )

  closing-Visited :
      (s : Search) (done : List Text) (node : Text)
      → Good deps remaining s done
      → IsWalk deps (s.path ++ node ∷ [])
      → contains s.path node ≡ true
      → Returns
          (Visited deps remaining s (node ∷ []))
          (close s.path node (position node s.path) >>= λ cycle. returned (some cycle, s))
  unfolding close
  closing-Visited s done node g w c =
      let (i, mid, at, split, w') = close-ShowsCycle deps s.path node c w in
      rw at (record {
        start = node;
        mid = mid;
        shown = ap (λ (l : List Text). join arrow (l ++ node ∷ [])) split;
        walk = w';
      })

  dfs-Visited :
      (fuel : ℕ) (s : Search) (done : List Text) (node : Text)
      → Good deps remaining s done
      → IsWalk deps (s.path ++ node ∷ [])
      → length remaining + 1 < fuel + length s.path
      → Returns (Visited deps remaining s (node ∷ [])) (dfs deps remaining fuel s node)
  unfolding dfs
  dfs-Visited zero s done node g w room = absurd (omega (arith, path_fits s done g))
  dfs-Visited (suc fuel) s done node g w room =
      if_ind (Returns (Visited deps remaining s (node ∷ []))) (contains s.on_path node)
        (λ again. closing-Visited s done node g w (sym (g.on node) ∙ again))
        λ new.
          if_ind (Returns (Visited deps remaining s (node ∷ [])))
            (contains s.finished node || not (contains remaining node))
            (λ skip. (done, Kept-refl deps remaining s done g, ((λ r. ground arith), tt)))
            λ fresh.
              Returns-bind (Visited deps remaining (enter node s) (Set.sort (deps_of deps node))) _
                (visit (dfs deps remaining fuel) (enter node s) (Set.sort (deps_of deps node))) _
                (visit-Visited deps remaining (dfs deps remaining fuel) (s.path ++ node ∷ []) node
                  (λ t done' d at g' dep.
                    dfs-Visited fuel t done' d g' (rw at (IsWalk-snoc deps s.path node d w dep))
                      (rw at (omega (arith, length-append s.path (node ∷ [])))))
                  (Set.sort (deps_of deps node)) (enter node s) done (unfold enter in refl)
                  (enter-Good deps remaining s done node g (sym (g.on node) ∙ new) (ground arith))
                  (All-of_contains _ _ λ d c. ground (
                    arith,
                    contains_iff (deps_of deps node) d,
                    contains_iff (Set.sort (deps_of deps node)) d,
                    Set.count-sort d (deps_of deps node),
                  )))
                (λ r v. leave-Visited deps remaining s done node g (sym (g.on node) ∙ new) r v)

  search_from-Visited :
      (fuel : ℕ) (starts : List Text) (s : Search) (done : List Text)
      → Good deps remaining s done
      → s.path ≡ []
      → length remaining + 1 < fuel
      → Returns (Visited deps remaining s starts) (search_from deps remaining fuel s starts)
  unfolding search_from
  search_from-Visited fuel [] s done g at room = (done, Kept-refl deps remaining s done g, tt)
  search_from-Visited fuel (start ∷ starts) s done g at room =
      if_ind (Returns (Visited deps remaining s (start ∷ starts))) (not (contains s.finished start))
        (λ fresh.
          Returns-bind (Visited deps remaining s (start ∷ [])) _ (dfs deps remaining fuel s start) _
            (dfs-Visited fuel s done start g (rw at tt) (omega arith))
            λ r v.
              unless_found-Visited deps remaining s start starts _ r v
                λ t done' k. search_from-Visited fuel starts t done' k.good (k.path_eq ∙ at) room)
        (λ old.
          Returns-map (Visited deps remaining s starts) _ (search_from deps remaining fuel s starts)
            (λ r v.
              Visited-cons deps remaining s s start starts (Kept-refl deps remaining s done g)
                (λ _. ground arith) r v)
            (search_from-Visited fuel starts s done g at room))

  abbrev start_search : Search
  start_search = record { path = []; on_path = []; finished = [] }

  start-Good : Good deps remaining start_search []
  start-Good = record {
    on = λ b. refl;
    once = λ b. omega arith;
    inside = λ b c. absurd (ground arith);
    fin = λ b. refl;
    order = tt;
  }

  abbrev searched : Run (Option Text × Search)
  searched = search_from deps remaining (suc (suc (length remaining))) start_search remaining

  find_cycle_search : Returns (Visited deps remaining start_search remaining) searched
  find_cycle_search = search_from-Visited _ remaining start_search [] start-Good refl (omega arith)

  -- The search ends, and takes no element out of an empty place.
  pub find_cycle_total : Returns (λ cycle. Unit {0}) (find_cycle deps remaining)
  unfolding find_cycle
  find_cycle_total =
      Returns-bind (Visited deps remaining start_search remaining) (λ cycle. Unit {0}) searched
        (λ r. returned (or_all deps remaining r)) find_cycle_search (λ r v. tt)

  -- Each remaining service has a dependency that remains.
  module _
      (held : (n : Text)
        → contains remaining n ≡ true
        → (d : Text) × (contains (deps_of deps n) d ≡ true) × (contains remaining d ≡ true)) where
    not_finished :
        (done : List Text) (n : Text)
        → IsFinishOrder deps remaining done
        → contains done n ≡ true
        → ¬ (contains remaining n ≡ true)
    not_finished [] n h c r = cc
    not_finished (x ∷ done) n h c r = elim (Bool-cases (same x n)) [
      | inl e ↦
          let (d, dep, r') = held n r in
          not_finished done d h.1
            (All-contains (λ e. contains remaining e ≡ true → contains done e ≡ true)
              (deps_of deps n) d (rw (← (same_iff x n).0 e) h.0) dep r')
            r'
      | inr e ↦ not_finished done n h.1 (ground arith) r
    ]

    found-ShowsCycle :
        (n : Text)
        → contains remaining n ≡ true
        → (r : Option Text × Search) → Visited deps remaining start_search remaining r
        → ShowsCycle deps (or_all deps remaining r)
    found-ShowsCycle n c (some cycle, t) v = v
    found-ShowsCycle n c (none, t) (done, k, settled) = absurd (
        not_finished done n k.good.order
          (sym (k.good.fin n) ∙ All-contains (Settled deps remaining t) remaining n settled c c) c)

    pub find_cycle-ShowsCycle :
        (n : Text)
        → contains remaining n ≡ true
        → Returns (ShowsCycle deps) (find_cycle deps remaining)
    unfolding find_cycle
    find_cycle-ShowsCycle n c =
        Returns-bind (Visited deps remaining start_search remaining) (ShowsCycle deps) searched
          (λ r. returned (or_all deps remaining r)) find_cycle_search (found-ShowsCycle n c)
