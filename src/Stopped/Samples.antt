-- ===== src/Stopped/Samples.antt =====
-- Runs of the stopped set, and its theorems at concrete inputs.
use servicrab.Base.{
  true, Option, some, [], ◌∷◌, Text, codes, filter, if◌then◌else◌, not, same, before, ok, err, ◌≡◌,
  ◌↔◌, refl,
}
use servicrab.Base.Chars.{trim_start, trim_end, lines}
use servicrab.Base.Count.{contains}
use servicrab.Base.Map
use servicrab.Base.Set
use servicrab.Plan.Samples.{two, db, web, two-IsInOrder}
use servicrab.Stopped.{collect, parse, read, render, record_stop, reconcile, held_back}
use servicrab.Stopped.Names.{IsName, AreNames}
use servicrab.Stopped.RoundTrip.{parse-render}
use servicrab.Stopped.Changes.{record_stop_lem, reconcile_lem, IsHeldBy, held_back_iff}

-- A list that was edited by hand, as `parse` sorts and trims it.
by_hand : parse (codes "web\n# why\n\n  db \nweb") ≡ db ∷ web ∷ []
unfolding parse collect lines trim_start trim_end Set.insert same before
by_hand = refl

db-IsName : IsName db
unfolding trim_start trim_end
db-IsName = record { present = refl; trimmed = refl; no_comment = refl; one_line = refl }

web-IsName : IsName web
unfolding trim_start trim_end
web-IsName = record { present = refl; trimmed = refl; no_comment = refl; one_line = refl }

both-AreNames : AreNames (db ∷ web ∷ [])
unfolding before
both-AreNames = record { ascending = ((refl, tt), (tt, tt)); each = (db-IsName, (web-IsName, tt)) }

parse-render_example : parse (render (db ∷ web ∷ [])) ≡ db ∷ web ∷ []
parse-render_example = parse-render (db ∷ web ∷ []) both-AreNames

abbrev file : Option Text
file = some (codes "web\n")

record_stop_lem_example :
    (contains (read (record_stop (ok tt) file db true).0) web
      ≡ (if same db web then true else contains (read file) web))
    × ((record_stop (err (codes "full")) file db true).0 ≡ file)
record_stop_lem_example = record_stop_lem file db web (codes "full") true db-IsName

abbrev stale : Option Text
stale = some (codes "old\nweb\n")

reconcile_lem_example :
    (read (reconcile (ok tt) stale two).0
      ≡ filter (λ name. Map.contains_key two.services name) (read stale))
    × ((reconcile (ok tt) stale two).1
        ≡ ok (filter (λ name. not (Map.contains_key two.services name)) (read stale)))
reconcile_lem_example = reconcile_lem stale two

held_back_iff_example :
    (contains (held_back two (db ∷ web ∷ []) (db ∷ [])) web ≡ true)
    ↔ (contains (db ∷ web ∷ []) web ≡ true)
      × ((seed : Text) × IsHeldBy two (db ∷ web ∷ []) (db ∷ []) web seed)
held_back_iff_example = held_back_iff two (db ∷ web ∷ []) (db ∷ []) web two-IsInOrder
