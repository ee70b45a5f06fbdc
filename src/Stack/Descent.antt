-- ===== src/Stack/Descent.antt =====
-- The order in which a shutdown asks the services to stop.
use servicrab.Base.{
  ◌+◌, ◌≤◌, Bool, true, false, ◌&&◌, ◌||◌, not, if◌then◌else◌, if_ind, Option, none, some, List, [],
  ◌∷◌, ◌++◌, filter, for_each, Text, same, same_iff, same_refl, ◌≡◌, refl, ap, sym, ◌∙◌, arith,
  Bool-cases, inl, inr, Option-cases, All, All-append,
}
use servicrab.Base.Count.{
  count, contains, contains_iff, contains-filter, contains-append, All-of_contains,
}
use servicrab.Base.Map
use servicrab.Config.{Config, Service}
use servicrab.Lifecycle.{ShutdownReason}
use servicrab.Plan.{names_of}
use servicrab.Plan.Held.{IsInOrder}
use servicrab.Stack.{RunState}
use servicrab.Stack.Reached.{NoDuplicates}
use servicrab.Stack.Shutdown.{
  Action, send_stop, wait, sweep, abort, Stopping, stop_turn, stop_all, stop_order, stops_of,
  handles_of, sent_to, reverse, wait_actions, sent_to-wait_actions,
}

-- Whether a service is configured to depend on another.
abbrev pub depends_on : Config → Text → Text → Bool
depends_on config k d = depends (Map.get config.services k) d
  where
    depends : Option Service → Text → Bool
    depends none d = false
    depends (some service) d = contains (names_of service.depends_on) d

-- No service of the plan stands behind one that it depends on.
abbrev pub IsDescending : Config → List Text → List Text → Type 0
IsDescending config plan [] = Unit
IsDescending config plan (x ∷ xs) =
    All (λ k. (contains plan k && depends_on config k x) ≡ false) xs × IsDescending config plan xs

append_none : (xs : List Text) → xs ++ [] ≡ xs
append_none [] = refl
append_none (x ∷ xs) = ap (λ (l : List Text). x ∷ l) (append_none xs)

append_assoc : (xs ys zs : List Text) → (xs ++ ys) ++ zs ≡ xs ++ (ys ++ zs)
append_assoc [] ys zs = refl
append_assoc (x ∷ xs) ys zs = ap (λ (l : List Text). x ∷ l) (append_assoc xs ys zs)

sent_to-append : (xs ys : List Action) → sent_to (xs ++ ys) ≡ sent_to xs ++ sent_to ys
sent_to-append [] ys = refl
sent_to-append (send_stop service reason ∷ xs) ys =
    ap (λ (l : List Text). service ∷ l) (sent_to-append xs ys)
sent_to-append (wait service grace ∷ xs) ys = sent_to-append xs ys
sent_to-append (sweep service pgid ∷ xs) ys = sent_to-append xs ys
sent_to-append (abort service ∷ xs) ys = sent_to-append xs ys

no_count : (xs : List Text) → ((k : Text) → count k xs ≡ 0) → xs ≡ []
no_count [] h = refl
no_count (x ∷ xs) h = absurd (ground (arith, h x, same_refl x))

sent_to-stop_turn :
    (st : RunState) (reason : ShutdownReason) (in_time : Text → Bool) (s : Stopping) (name : Text)
    → sent_to (stop_turn st reason in_time s name).actions
      ≡ sent_to s.actions ++ (if contains (stops_of st) name then name ∷ [] else [])
unfolding stop_turn
sent_to-stop_turn st reason in_time s name = elim (Bool-cases (contains (stops_of st) name)) [
  | inr skipped ↦ rw skipped (sym (append_none (sent_to s.actions)))
  | inl stops ↦ elim (Bool-cases (contains s.handles name)) [
    | inl waits ↦
        rw (stops, waits)
          (sent_to-append s.actions (send_stop name reason ∷ wait_actions st in_time name)
            ∙ ap (λ (l : List Text). sent_to s.actions ++ name ∷ l)
                (no_count (sent_to (wait_actions st in_time name))
                  (sent_to-wait_actions st in_time name)))
    | inr alone ↦ rw (stops, alone) (sent_to-append s.actions (send_stop name reason ∷ []))
  ]
]

sent_to-turns :
    (st : RunState) (reason : ShutdownReason) (in_time : Text → Bool) (names : List Text)
    (s : Stopping)
    → sent_to (for_each (stop_turn st reason in_time) s names).actions
      ≡ sent_to s.actions ++ filter (contains (stops_of st)) names
sent_to-turns st reason in_time [] s = sym (append_none (sent_to s.actions))
sent_to-turns st reason in_time (x ∷ names) s =
    sent_to-turns st reason in_time names (stop_turn st reason in_time s x)
    ∙ ap (λ (l : List Text). l ++ filter (contains (stops_of st)) names)
        (sent_to-stop_turn st reason in_time s x)
    ∙ append_assoc (sent_to s.actions) (if contains (stops_of st) x then x ∷ [] else [])
        (filter (contains (stops_of st)) names)
    ∙ ap (λ (l : List Text). sent_to s.actions ++ l)
        (one_first (contains (stops_of st) x) x (filter (contains (stops_of st)) names))
  where
    one_first :
        (b : Bool) (x : Text) (xs : List Text)
        → (if b then x ∷ [] else []) ++ xs ≡ (if b then x ∷ xs else xs)
    one_first true x xs = refl
    one_first false x xs = refl

module _ (config : Config) (plan : List Text) where
  All-filter :
      (P : Text → Type 0) (p : Text → Bool) (xs : List Text) → All P xs → All P (filter p xs)
  All-filter P p [] h = tt
  All-filter P p (x ∷ xs) h =
      if_ind (All P) (p x) (λ _. (h.0, All-filter P p xs h.1)) (λ _. All-filter P p xs h.1)

  IsDescending-filter :
      (p : Text → Bool) (xs : List Text)
      → IsDescending config plan xs
      → IsDescending config plan (filter p xs)
  IsDescending-filter p [] h = tt
  IsDescending-filter p (x ∷ xs) h =
      if_ind (IsDescending config plan) (p x)
        (λ _. (
          All-filter (λ k. (contains plan k && depends_on config k x) ≡ false) p xs h.0,
          IsDescending-filter p xs h.1,
        ))
        (λ _. IsDescending-filter p xs h.1)

  IsDescending-append :
      (xs ys : List Text)
      → IsDescending config plan xs
      → IsDescending config plan ys
      → All (λ x. All (λ k. (contains plan k && depends_on config k x) ≡ false) ys) xs
      → IsDescending config plan (xs ++ ys)
  IsDescending-append [] ys hx hy h = hy
  IsDescending-append (x ∷ xs) ys hx hy h = (
    All-append (λ k. (contains plan k && depends_on config k x) ≡ false) xs ys hx.0 h.0,
    IsDescending-append xs ys hx.1 hy h.1,
  )

  depends_lem :
      (k d : Text)
      → depends_on config k d ≡ true
      → (service : Service) × (Map.get config.services k ≡ some service)
        × (contains (names_of service.depends_on) d ≡ true)
  depends_lem k d h = elim (Option-cases (Map.get config.services k)) [
    | inl absent ↦ absurd (ground (arith, absent, h))
    | inr (service, found) ↦ (service, found, ground (arith, found, h))
  ]

  contains-reverse : (xs : List Text) (k : Text) → contains (reverse xs) k ≡ contains xs k
  contains-reverse [] k = refl
  contains-reverse (x ∷ xs) k =
      ground (arith, contains-append (reverse xs) (x ∷ []) k, contains-reverse xs k)

  IsDescending-reverse :
      (seen names : List Text)
      → IsInOrder config seen names
      → ((k : Text) → count k seen + count k names ≤ 1)
      → IsDescending config plan (reverse names)
  IsDescending-reverse seen [] ordered once = tt
  IsDescending-reverse seen (k ∷ names) ordered once =
      IsDescending-append (reverse names) (k ∷ [])
        (IsDescending-reverse (k ∷ seen) names ordered.1 (λ j. omega (arith, once j))) (tt, tt)
        (All-of_contains
          (λ x. All (λ j. (contains plan j && depends_on config j x) ≡ false) (k ∷ []))
          (reverse names)
          (λ x later. (
            elim (Bool-cases (depends_on config k x)) [
              | inl dependent ↦
                  let (service, found, in_deps) = depends_lem k x dependent in
                  absurd (
                    ground (
                      arith,
                      ordered.0 service x found in_deps,
                      later,
                      contains-reverse names x,
                      once x,
                      contains_iff seen x,
                      contains_iff names x,
                    ))
              | inr free ↦ ground (arith, free)
            ],
            tt,
          )))

  in_order_closed :
      (seen names : List Text) (k d : Text)
      → IsInOrder config seen names
      → contains names k ≡ true
      → depends_on config k d ≡ true
      → contains seen d || contains names d ≡ true
  in_order_closed seen [] k d ordered inside h = cc
  in_order_closed seen (x ∷ names) k d ordered inside h = elim (Bool-cases (same x k)) [
    | inl at ↦
        let (service, found, in_deps) = depends_lem k d h in
        ground (arith, ordered.0 service d (rw ((same_iff x k).0 at) found) in_deps)
    | inr other ↦
        ground
          (arith, in_order_closed (x ∷ seen) names k d ordered.1 (ground (arith, inside, other)) h)
  ]

  -- On a service outside the plan no service of the plan depends.
  free_of_outside :
      (x k : Text)
      → IsInOrder config [] plan
      → contains plan x ≡ false
      → (contains plan k && depends_on config k x) ≡ false
  free_of_outside x k ordered outside =
      elim (Bool-cases (contains plan k && depends_on config k x)) [
        | inl both ↦
            let inside : contains plan k ≡ true = ground (arith, both) in
            let dependent : depends_on config k x ≡ true = ground (arith, both) in
            absurd (ground (arith, outside, in_order_closed [] plan k x ordered inside dependent))
        | inr free ↦ free
      ]

  IsDescending-outside :
      (xs : List Text)
      → IsInOrder config [] plan
      → ((x : Text) → contains xs x ≡ true → contains plan x ≡ false)
      → IsDescending config plan xs
  IsDescending-outside [] ordered outside = tt
  IsDescending-outside (x ∷ xs) ordered outside = (
    All-of_contains (λ k. (contains plan k && depends_on config k x) ≡ false) xs
        (λ k _. free_of_outside x k ordered (outside x (ground (arith, same_refl x)))),
    IsDescending-outside xs ordered (λ j inside. outside j (ground (arith, inside))),
  )

-- A shutdown asks no service of the plan to stop behind one that it depends on: dependents stop
-- first. In the plan each service stands once, behind all of its dependencies.
pub stop_all-IsDescending :
    (st : RunState) (reason : ShutdownReason) (in_time : Text → Bool)
    → NoDuplicates st.plan
    → IsInOrder st.config [] st.plan
    → IsDescending st.config st.plan (sent_to (stop_all st reason in_time).actions)
unfolding stop_all
stop_all-IsDescending st reason in_time once ordered =
    let dropped = filter (λ name. not (contains st.plan name)) (stops_of st) in
    let outside : (x : Text) → contains dropped x ≡ true → contains st.plan x ≡ false = λ x inside.
      ground
        (arith, inside, contains-filter (λ name. not (contains st.plan name)) x (stops_of st)) in
    rw
      (sent_to-turns st reason in_time (stop_order st)
        (record { handles = handles_of st; actions = [] }))
      (IsDescending-filter st.config st.plan (contains (stops_of st)) (stop_order st) (
        IsDescending-append st.config st.plan dropped (reverse st.plan)
          (IsDescending-outside st.config st.plan dropped ordered outside)
          (IsDescending-reverse st.config st.plan [] st.plan ordered (λ k. omega (arith, once k)))
          (All-of_contains
            (λ x.
              All (λ k. (contains st.plan k && depends_on st.config k x) ≡ false) (reverse st.plan))
            dropped
            (λ x inside.
              All-of_contains (λ k. (contains st.plan k && depends_on st.config k x) ≡ false)
                (reverse st.plan)
                (λ k _. free_of_outside st.config st.plan x k ordered (outside x inside))))))
