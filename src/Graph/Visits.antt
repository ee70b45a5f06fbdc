-- ===== src/Graph/Visits.antt =====
-- What one call of `dfs` does, and what its loop over the dependencies does.
use servicrab.Base.{
  ℕ, suc, ◌≤◌, List, [], ◌∷◌, ◌++◌, ◌≡◌, refl, true, false, Option, none, some, Text, same,
  same_iff, same_refl, join, drop, pop, pop-append, arith, All, Run, Returns, Returns-bind,
  Bool-cases, inl, inr, subst, sym, ap, ◌∙◌, Returns-map,
}
use servicrab.Base.Count.{
  count, contains, count-append, contains-append, contains_iff, All-contains, All-of_contains,
}
use servicrab.Base.Set
use servicrab.Base.Set.{BTreeSet}
use servicrab.Graph.{Deps, Search, arrow, position, unless_found, visit, enter, leave}
use servicrab.Graph.Build.{deps_of}

-- Each service depends on the next one.
abbrev pub IsWalk : Deps → List Text → Type 0
IsWalk deps [] = Unit
IsWalk deps (x ∷ []) = Unit
IsWalk deps (x ∷ y ∷ xs) = (contains (deps_of deps x) y ≡ true) × IsWalk deps (y ∷ xs)

-- The text shows services that depend on one another in a ring.
pub record ShowsCycle (deps : Deps) (cycle : Text) : Type 0 where
  pub start : Text
  pub mid : List Text
  pub shown : cycle ≡ join arrow ((start ∷ mid) ++ start ∷ [])
  pub walk : IsWalk deps ((start ∷ mid) ++ start ∷ [])

module _ (deps : Deps) where
  pub IsWalk-snoc :
      (xs : List Text) (n d : Text)
      → IsWalk deps (xs ++ n ∷ [])
      → contains (deps_of deps n) d ≡ true
      → IsWalk deps ((xs ++ n ∷ []) ++ d ∷ [])
  IsWalk-snoc [] n d h e = (e, tt)
  IsWalk-snoc (x ∷ []) n d h e = (h.0, (e, tt))
  IsWalk-snoc (x ∷ y ∷ xs) n d h e = (h.0, IsWalk-snoc (y ∷ xs) n d h.1 e)

  IsWalk-tail : (x : Text) (xs : List Text) → IsWalk deps (x ∷ xs) → IsWalk deps xs
  IsWalk-tail x [] h = tt
  IsWalk-tail x (y ∷ xs) h = h.1

  pub close-ShowsCycle :
      (path : List Text) (node : Text)
      → contains path node ≡ true
      → IsWalk deps (path ++ node ∷ [])
      → (i : ℕ) × (mid : List Text) × (position node path ≡ some i)
        × (drop i path ≡ node ∷ mid)
        × IsWalk deps ((node ∷ mid) ++ node ∷ [])
  unfolding position
  close-ShowsCycle [] node c w = absurd (ground arith)
  close-ShowsCycle (x ∷ path) node c w = elim (Bool-cases (same x node)) [
    | inl e ↦
        let x_eq = (same_iff x node).0 e in
        (0, path, rw e, rw x_eq, subst (λ y. IsWalk deps ((y ∷ path) ++ node ∷ [])) x_eq w)
    | inr e ↦
        let (i, mid, at, split, w') =
          close-ShowsCycle path node (ground arith) (IsWalk-tail x (path ++ node ∷ []) w) in
        (suc i, mid, ground arith, split, w')
  ]

-- In the order in which `dfs` finished the services, the last one first, each stands above its own
-- remaining dependencies.
abbrev pub IsFinishOrder : Deps → BTreeSet → List Text → Type 0
IsFinishOrder deps remaining [] = Unit
IsFinishOrder deps remaining (x ∷ done) =
    All (λ d. contains remaining d ≡ true → contains done d ≡ true) (deps_of deps x)
    × IsFinishOrder deps remaining done

module _ (deps : Deps) (remaining : BTreeSet) where
  pub record Good (s : Search) (done : List Text) : Type 0 where
    pub on : (b : Text) → contains s.on_path b ≡ contains s.path b
    pub once : (b : Text) → count b s.path ≤ 1
    pub inside : (b : Text) → contains s.path b ≡ true → contains remaining b ≡ true
    pub fin : (b : Text) → contains s.finished b ≡ contains done b
    pub order : IsFinishOrder deps remaining done

  pub record Kept (s s' : Search) (done : List Text) : Type 0 where
    pub good : Good s' done
    pub path_eq : s'.path ≡ s.path
    pub mono : (b : Text) → contains s.finished b ≡ true → contains s'.finished b ≡ true

  abbrev pub Settled : Search → Text → Type 0
  Settled s d = contains remaining d ≡ true → contains s.finished d ≡ true

  -- What one call does, and what a loop of calls does.
  abbrev pub Visited : Search → List Text → Option Text × Search → Type 0
  Visited s ds (some cycle, s') = ShowsCycle deps cycle
  Visited s ds (none, s') = (done : List Text) × Kept s s' done × All (Settled s') ds

  Kept-trans :
      {s t u : Search} {done done' : List Text} → Kept s t done → Kept t u done' → Kept s u done'
  Kept-trans h k = record {
    good = k.good;
    path_eq = k.path_eq ∙ h.path_eq;
    mono = λ b e. k.mono b (h.mono b e);
  }

  pub Visited-cons :
      (s t : Search) (d : Text) (ds : List Text) {done : List Text}
      → Kept s t done
      → Settled t d
      → (r : Option Text × Search) → Visited t ds r
      → Visited s (d ∷ ds) r
  Visited-cons s t d ds h e (some cycle, u) v = v
  Visited-cons s t d ds h e (none, u) (done', k, settled) =
      (done', Kept-trans h k, ((λ r. k.mono d (e r)), settled))

  pub Kept-refl : (s : Search) (done : List Text) → Good s done → Kept s s done
  Kept-refl s done g = record { good = g; path_eq = refl; mono = λ b e. e }

  pub unless_found-Visited :
      (s : Search) (d : Text) (ds : List Text) (rest : Search → Run (Option Text × Search))
      (r : Option Text × Search)
      → Visited s (d ∷ []) r
      → ((t : Search) (done : List Text) → Kept s t done → Returns (Visited t ds) (rest t))
      → Returns (Visited s (d ∷ ds)) (unless_found rest r)
  unless_found-Visited s d ds rest (some cycle, t) v k = v
  unless_found-Visited s d ds rest (none, t) (done, kept, settled) k =
      Returns-map (Visited t ds) (Visited s (d ∷ ds)) (rest t)
        (Visited-cons s t d ds kept settled.0) (k t done kept)

  pub visit-Visited :
      (f : Search → Text → Run (Option Text × Search)) (path : List Text) (node : Text)
      → ((s : Search) (done : List Text) (d : Text)
          → s.path ≡ path
          → Good s done
          → contains (deps_of deps node) d ≡ true
          → Returns (Visited s (d ∷ [])) (f s d))
      → (ds : List Text) (s : Search) (done : List Text) → s.path ≡ path
      → Good s done
      → All (λ d. contains (deps_of deps node) d ≡ true) ds
      → Returns (Visited s ds) (visit f s ds)
  unfolding visit
  visit-Visited f path node f_ok [] s done at g h = (done, Kept-refl s done g, tt)
  visit-Visited f path node f_ok (d ∷ ds) s done at g h =
      Returns-bind (Visited s (d ∷ [])) _ (f s d) _ (f_ok s done d at g h.0) λ r v.
        unless_found-Visited s d ds _ r v
          λ t done' k. visit-Visited f path node f_ok ds t done' (k.path_eq ∙ at) k.good h.1

  pub enter-Good :
      (s : Search) (done : List Text) (node : Text)
      → Good s done
      → contains s.path node ≡ false
      → contains remaining node ≡ true
      → Good (enter node s) done
  unfolding enter
  enter-Good s done node g new inside = record {
    on = λ b.
        ground (
          arith,
          Set.contains-insert s.on_path node b,
          contains-append s.path (node ∷ []) b,
          g.on b,
        );
    once = λ b. ground (
      arith,
      count-append b s.path (node ∷ []),
      g.once b,
      contains_iff s.path node,
      same_iff node b,
    );
    inside = λ b. ground (arith, contains-append s.path (node ∷ []) b, g.inside b, same_iff node b);
    fin = g.fin;
    order = g.order;
  }

  sorted-Settled :
      (t : Search) (done : List Text) (ds : List Text)
      → Good t done
      → All (Settled t) (Set.sort ds)
      → All (λ d. contains remaining d ≡ true → contains done d ≡ true) ds
  sorted-Settled t done ds g h = All-of_contains _ ds λ d c r.
      sym (g.fin d)
      ∙ All-contains (Settled t) (Set.sort ds) d h
          (ground (arith, contains_iff ds d, contains_iff (Set.sort ds) d, Set.count-sort d ds)) r

  pub leave-Visited :
      (s : Search) (done : List Text) (node : Text)
      → Good s done
      → contains s.path node ≡ false
      → (r : Option Text × Search) → Visited (enter node s) (Set.sort (deps_of deps node)) r
      → Visited s (node ∷ []) (leave node r)
  unfolding enter leave
  leave-Visited s done node g new (some cycle, t) v = v
  leave-Visited s done node g new (none, t) (done', k, settled) =
      let back : pop t.path ≡ s.path = ap pop k.path_eq ∙ pop-append s.path node in
      (
        node ∷ done',
        record {
          good = record {
            on = λ b. ground (
              arith,
              back,
              Set.contains-remove t.on_path node b,
              k.good.on b,
              k.path_eq,
              contains-append s.path (node ∷ []) b,
              same_iff node b,
            );
            once = λ b. rw back (g.once b);
            inside = λ b. rw back (g.inside b);
            fin = λ b. ground (arith, Set.contains-insert t.finished node b, k.good.fin b);
            order = (sorted-Settled t done' (deps_of deps node) k.good settled, k.good.order);
          };
          path_eq = back;
          mono = λ b e. ground (arith, Set.contains-insert t.finished node b, k.mono b);
        },
        ((λ _. ground (arith, Set.contains-insert t.finished node node, same_refl node)), tt),
      )
