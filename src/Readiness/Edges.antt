-- ===== src/Readiness/Edges.antt =====
-- What a service waits for before it starts.
use servicrab.Base.{List, [], ◌∷◌, ◌++◌, All, All-map, ◌≡◌, ◌↔◌, refl, ◌∙◌, ap, ◌⊎◌, inl, inr, Text}
use servicrab.Config.{DependencyCondition}
use servicrab.Readiness.{
  Readiness, DependencyStatus, readiness, DependencyEdge, Seen, changed, sender_gone,
  DependencyWait, on_verdict, wait_for_edge, Wait, wait_for_dependencies,
}
use servicrab.Readiness.Conditions.{Meets, RulesOut, readiness-Meets, readiness-RulesOut}

-- The wait sees a ready status, and before it only pending ones.
data BecomesReady (condition : DependencyCondition) : DependencyStatus → Seen → Type 0 where
  now :
      {s : DependencyStatus} {seen : Seen}
      → readiness s condition ≡ Readiness.ready
      → BecomesReady condition s seen
  later :
      {s s' : DependencyStatus} {seen : Seen}
      → readiness s condition ≡ Readiness.pending
      → BecomesReady condition s' seen
      → BecomesReady condition s (changed s' seen)

on_verdict-ready :
    (v : Readiness) (name : Text) {go wait : DependencyWait}
    → on_verdict v go (DependencyWait.blocked name) wait ≡ DependencyWait.ready
    → (v ≡ Readiness.ready) × (go ≡ DependencyWait.ready)
      ⊎ (v ≡ Readiness.pending) × (wait ≡ DependencyWait.ready)
on_verdict-ready Readiness.ready name e = inl (refl, e)
on_verdict-ready Readiness.pending name e = inr (refl, e)
on_verdict-ready Readiness.gone name e = cc

wait_for_edge-ready :
    (edge : DependencyEdge) (s : DependencyStatus) (seen : Seen) (go : DependencyWait)
    → wait_for_edge edge s seen go ≡ DependencyWait.ready
    → BecomesReady edge.condition s seen × (go ≡ DependencyWait.ready)
unfolding wait_for_edge
wait_for_edge-ready edge s sender_gone go e =
    elim (on_verdict-ready (readiness s edge.condition) edge.name e) [
      | inl (v, g) ↦ (now v, g)
      | inr (v, w) ↦ cc
    ]
wait_for_edge-ready edge s (Seen.shutdown reason) go e =
    elim (on_verdict-ready (readiness s edge.condition) edge.name e) [
      | inl (v, g) ↦ (now v, g)
      | inr (v, w) ↦ cc
    ]
wait_for_edge-ready edge s (changed s' seen) go e =
    elim (on_verdict-ready (readiness s edge.condition) edge.name e) [
      | inl (v, g) ↦ (now v, g)
      | inr (v, w) ↦ let (r, g) = wait_for_edge-ready edge s' seen go w in (later v r, g)
    ]

wait_for_edge_of_ready :
    (edge : DependencyEdge) {s : DependencyStatus} {seen : Seen} (go : DependencyWait)
    → BecomesReady edge.condition s seen
    → wait_for_edge edge s seen go ≡ go
unfolding wait_for_edge
wait_for_edge_of_ready edge {seen = sender_gone} go (now v) = rw v
wait_for_edge_of_ready edge {seen = Seen.shutdown reason} go (now v) = rw v
wait_for_edge_of_ready edge {seen = changed s' seen} go (now v) = rw v
wait_for_edge_of_ready edge go (later v r) = rw v (wait_for_edge_of_ready edge go r)

-- The statuses that a wait comes to, in order.
abbrev pub statuses : DependencyStatus → Seen → List DependencyStatus
statuses s sender_gone = s ∷ []
statuses s (Seen.shutdown reason) = s ∷ []
statuses s (changed s' seen) = s ∷ statuses s' seen

-- One of the statuses meets the condition, and none before it rules it out.
abbrev pub ComesToMeet : DependencyCondition → List DependencyStatus → Type 0
ComesToMeet condition all =
    (earlier : List DependencyStatus) × (s : DependencyStatus) × (rest : List DependencyStatus)
    × (all ≡ earlier ++ s ∷ rest)
    × Meets condition s
    × All (λ t. RulesOut condition t → ⊥) earlier

open_of_pending :
    (s : DependencyStatus) (condition : DependencyCondition)
    → readiness s condition ≡ Readiness.pending
    → RulesOut condition s
    → ⊥
open_of_pending s condition h out = let gone = (readiness-RulesOut s condition).1 out in cc

BecomesReady-ComesToMeet :
    (condition : DependencyCondition) {s : DependencyStatus} {seen : Seen}
    → BecomesReady condition s seen
    → ComesToMeet condition (statuses s seen)
BecomesReady-ComesToMeet condition {s} {seen = sender_gone} (now v) =
    ([], s, [], refl, (readiness-Meets s condition).0 v, tt)
BecomesReady-ComesToMeet condition {s} {seen = Seen.shutdown reason} (now v) =
    ([], s, [], refl, (readiness-Meets s condition).0 v, tt)
BecomesReady-ComesToMeet condition {s} {seen = changed s' seen} (now v) =
    ([], s, statuses s' seen, refl, (readiness-Meets s condition).0 v, tt)
BecomesReady-ComesToMeet condition {s} (later v r) =
    let (earlier, met, rest, split, meets, unspoilt) = BecomesReady-ComesToMeet condition r in
    (
      s ∷ earlier,
      met,
      rest,
      ap (λ (l : List DependencyStatus). s ∷ l) split,
      meets,
      (open_of_pending s condition v, unspoilt),
    )

-- The verdict on a status that does not rule the condition out.
not_gone :
    (s : DependencyStatus) (condition : DependencyCondition) (v : Readiness)
    → readiness s condition ≡ v
    → (RulesOut condition s → ⊥)
    → (readiness s condition ≡ Readiness.ready) ⊎ (readiness s condition ≡ Readiness.pending)
not_gone s condition Readiness.ready e h = inl e
not_gone s condition Readiness.pending e h = inr e
not_gone s condition Readiness.gone e h = absurd (h ((readiness-RulesOut s condition).0 e))

no_split :
    (es : List DependencyStatus) (x : DependencyStatus) (rest : List DependencyStatus)
    → [] ≡ es ++ x ∷ rest
    → ⊥
no_split [] x rest e = cc
no_split (y ∷ es) x rest e = cc

ComesToMeet-BecomesReady :
    (condition : DependencyCondition) (s : DependencyStatus) (seen : Seen)
    (earlier : List DependencyStatus) (met : DependencyStatus) (rest : List DependencyStatus)
    → statuses s seen ≡ earlier ++ met ∷ rest
    → Meets condition met
    → All (λ t. RulesOut condition t → ⊥) earlier
    → BecomesReady condition s seen
ComesToMeet-BecomesReady condition s sender_gone [] met rest split meets unspoilt =
    let same_status : met ≡ s = cc in
    now ((readiness-Meets s condition).1 (rw same_status at meets))
ComesToMeet-BecomesReady condition s (Seen.shutdown reason) [] met rest split meets unspoilt =
    let same_status : met ≡ s = cc in
    now ((readiness-Meets s condition).1 (rw same_status at meets))
ComesToMeet-BecomesReady condition s (changed s' seen) [] met rest split meets unspoilt =
    let same_status : met ≡ s = cc in
    now ((readiness-Meets s condition).1 (rw same_status at meets))
ComesToMeet-BecomesReady condition s sender_gone (e ∷ earlier) met rest split meets unspoilt =
    absurd (no_split earlier met rest cc)
ComesToMeet-BecomesReady condition s (Seen.shutdown reason) (e ∷ earlier) met rest split meets
      unspoilt =
    absurd (no_split earlier met rest cc)
ComesToMeet-BecomesReady condition s (changed s' seen) (e ∷ earlier) met rest split meets unspoilt =
    let same_status : e ≡ s = cc in
    elim (not_gone s condition (readiness s condition) refl (rw same_status at unspoilt.0)) [
      | inl v ↦ now v
      | inr v ↦
          later v
            (ComesToMeet-BecomesReady condition s' seen earlier met rest (cc) meets unspoilt.1)
    ]

wait_for_dependencies-BecomesReady :
    (deps : List Wait)
    → (wait_for_dependencies deps ≡ DependencyWait.ready)
      ↔ All (λ w. BecomesReady w.edge.condition w.first w.seen) deps
unfolding wait_for_dependencies
wait_for_dependencies-BecomesReady [] = ((λ _. tt), (λ _. refl))
wait_for_dependencies-BecomesReady (w ∷ deps) = (
  (λ e.
      let (r, rest) = wait_for_edge-ready w.edge w.first w.seen (wait_for_dependencies deps) e in
      (r, (wait_for_dependencies-BecomesReady deps).0 rest)),
  (λ h.
      wait_for_edge_of_ready w.edge (wait_for_dependencies deps) h.0
      ∙ (wait_for_dependencies-BecomesReady deps).1 h.1),
)

abbrev pub MeetsCondition : Wait → Type 0
MeetsCondition w = ComesToMeet w.edge.condition (statuses w.first w.seen)

-- A service starts exactly when each of its dependencies comes to a status that meets the condition
-- of its edge, without one before it that rules the condition out. The condition is met by a
-- dependency that is not gone and: for `service_started`, runs; for `service_healthy`, runs and is
-- healthy; for either of them also one that has exited and is not unhealthy; and for
-- `service_completed_successfully`, has exited well. It is ruled out by a dependency that is gone, has
-- failed or is stopped, or has exited otherwise.
pub wait_for_dependencies_iff :
    (deps : List Wait)
    → (wait_for_dependencies deps ≡ DependencyWait.ready) ↔ All MeetsCondition deps
wait_for_dependencies_iff deps =
    let whole = wait_for_dependencies-BecomesReady deps in
    (
      (λ e. All-map (λ w r. BecomesReady-ComesToMeet w.edge.condition r) deps (whole.0 e)),
      (λ h. whole.1 (
          All-map
            (λ w (earlier, met, rest, split, meets, unspoilt).
              ComesToMeet-BecomesReady w.edge.condition w.first w.seen earlier met rest split meets
                unspoilt)
            deps h)),
    )
