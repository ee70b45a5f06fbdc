-- ===== src/Graph/Rounds.antt =====
-- What holds in each round of the main loop of `topological_sort`.
use servicrab.Base.{
  ◌<◌, Bool-cases, inl, inr, same_refl, ℕ, zero, suc, ◌+◌, List, [], ◌∷◌, ◌++◌, ◌≡◌, refl, true,
  false, none, some, Text, length, same, same_iff, ◌==◌, if◌then◌else◌, arith, All, Returns,
  Returns-bind,
}
use servicrab.Base.Count.{count, contains, contains-append}
use servicrab.Base.Map
use servicrab.Base.Map.{BTreeMap}
use servicrab.Graph.{Deps, insert_at, enqueue, release, release_all}
use servicrab.Graph.Build.{deps_of}

-- How many of the dependencies are not started yet.
pub pending : List Text → List Text → ℕ
pending started [] = 0
pending started (d ∷ ds) = (if contains started d then 0 else 1) + pending started ds

pub pending-append :
    (started : List Text) (n : Text) (ds : List Text)
    → contains started n ≡ false
    → pending started ds ≡ pending (started ++ n ∷ []) ds + count n ds
unfolding pending
pending-append started n [] h = ground arith
pending-append started n (d ∷ ds) h = ground (
  arith,
  pending-append started n ds h,
  contains-append started (n ∷ []) d,
  same_iff n d,
  same_iff d n,
)

pub pending-nil : (ds : List Text) → pending [] ds ≡ length ds
unfolding pending
pending-nil [] = refl
pending-nil (d ∷ ds) = ground (arith, pending-nil ds)

pub All-started_of_pending :
    (started ds : List Text) → pending started ds ≡ 0 → All (λ d. contains started d ≡ true) ds
unfolding pending
All-started_of_pending started [] h = tt
All-started_of_pending started (d ∷ ds) h =
    (ground arith, All-started_of_pending started ds (omega arith))

-- Where dependencies are pending, one can be named.
pub pending_one :
    (started ds : List Text)
    → 0 < pending started ds
    → (d : Text) × (contains ds d ≡ true) × (contains started d ≡ false)
unfolding pending
pending_one started [] h = elim h [ ]
pending_one started (d ∷ ds) h = elim (Bool-cases (contains started d)) [
  | inl e ↦ let (d', m, new) = pending_one started ds (ground arith) in (d', ground arith, new)
  | inr e ↦ (d, ground (arith, same_refl d), e)
]

count-insert_at :
    (i : ℕ) (a b : Text) (xs : List Text)
    → count b (insert_at i a xs) ≡ (if same a b then 1 else 0) + count b xs
unfolding insert_at
count-insert_at zero a b xs = refl
count-insert_at (suc i) a b [] = refl
count-insert_at (suc i) a b (x ∷ xs) = omega (arith, count-insert_at i a b xs)

pub count-enqueue :
    (a b : Text) (queue : List Text)
    → count b (enqueue a queue) ≡ (if same a b then 1 else 0) + count b queue
unfolding enqueue
count-enqueue a b queue = count-insert_at _ a b queue

-- `rest` are the edges out of the last started service that are still to be released.
pub record Inv (deps : Deps) (in_degree : BTreeMap ℕ) (queue order rest : List Text) : Type 0 where
  pub ascending : Map.IsMap in_degree
  pub entry :
      (n : Text)
      → Map.get in_degree n ≡ (
          if Map.contains_key deps n
          then some (pending order (deps_of deps n) + count n rest)
          else none)
  pub rest_known : (n : Text) → Map.contains_key deps n ≡ false → count n rest ≡ 0
  -- A service is started or queued, once, when nothing holds it back.
  pub place :
      (n : Text) → count n order + count n queue ≡ Map.hits (λ deg. deg == 0) (Map.get in_degree n)

module _ (deps : Deps) where
  known_of_next :
      (D : BTreeMap ℕ) (queue order : List Text) (x : Text) (next : List Text)
      → Inv deps D queue order (x ∷ next)
      → Map.get D x ≡ some (suc (pending order (deps_of deps x) + count x next))
  known_of_next D queue order x next inv =
      ground (arith, inv.entry x, inv.rest_known x, same_iff x x)

  release-Inv :
      (D : BTreeMap ℕ) (queue order : List Text) (x : Text) (next : List Text)
      → Inv deps D queue order (x ∷ next)
      → Returns
          (λ s. Inv deps s.in_degree s.queue order next)
          (release (record { in_degree = D; queue = queue }) x (Map.get D x))
  unfolding release
  release-Inv D queue order x next inv =
      let k = pending order (deps_of deps x) + count x next in
      rw (known_of_next D queue order x next inv) (record {
        ascending = Map.insert-IsMap x k D inv.ascending;
        entry = λ n. ground (
          arith,
          inv.entry n,
          inv.entry x,
          inv.rest_known x,
          Map.get-insert D x n k,
          same_iff x n,
          same_iff x x,
        );
        rest_known = λ n absent. omega (arith, inv.rest_known n absent);
        place = λ n. ground (
          arith,
          inv.place n,
          inv.place x,
          known_of_next D queue order x next inv,
          Map.get-insert D x n k,
          same_iff x n,
          count-enqueue x n queue,
        );
      })

  pub release_all-Inv :
      (next : List Text) (D : BTreeMap ℕ) (queue order : List Text)
      → Inv deps D queue order next
      → Returns
          (λ s. Inv deps s.in_degree s.queue order [])
          (release_all (record { in_degree = D; queue = queue }) next)
  unfolding release_all
  release_all-Inv [] D queue order inv = inv
  release_all-Inv (x ∷ next) D queue order inv =
      Returns-bind (λ s. Inv deps s.in_degree s.queue order next) _ (release _ x (Map.get D x)) _
        (release-Inv D queue order x next inv)
        (λ s i. release_all-Inv next s.in_degree s.queue order i)
