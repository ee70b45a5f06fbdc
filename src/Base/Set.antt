-- ===== src/Base/Set.antt =====
-- `BTreeSet<String>` as the list of its members, in ascending order; and the sort of a list.
use Prim.Native.Nat.{◌+◌}
use mathlib.Core.Path.{◌≡◌, refl}
use mathlib.Core.Bool.{◌||◌, ◌&&◌, not}
use mathlib.Core.List.{List, [], ◌∷◌}
use native.Mathlib.Omega.{arith}
use servicrab.Base.Tests.{if◌then◌else◌}
use servicrab.Base.Lists.{filter}
use servicrab.Base.Texts.{Text, same, same_iff, before}
use servicrab.Base.Count.{count, contains}

abbrev pub BTreeSet : Type 0
BTreeSet = List Text

unfoldable pub insert : Text → BTreeSet → BTreeSet
insert a [] = a ∷ []
insert a (x ∷ xs) =
    let rest = insert a xs in
    if same a x then x ∷ xs else if before a x then a ∷ x ∷ xs else x ∷ rest

unfoldable pub remove : Text → BTreeSet → BTreeSet
remove a xs = filter (λ x. not (same a x)) xs

pub contains-insert :
    (xs : BTreeSet) (a b : Text) → contains (insert a xs) b ≡ (same a b || contains xs b)
unfolding insert
contains-insert [] a b = refl
contains-insert (x ∷ xs) a b =
    ground (arith, contains-insert xs a b, same_iff a x, same_iff a b, same_iff x b)

pub contains-remove :
    (xs : BTreeSet) (a b : Text) → contains (remove a xs) b ≡ (not (same a b) && contains xs b)
unfolding remove
contains-remove [] a b = ground arith
contains-remove (x ∷ xs) a b =
    ground (arith, contains-remove xs a b, same_iff a x, same_iff a b, same_iff x b)

insert_sorted : Text → List Text → List Text
insert_sorted a [] = a ∷ []
insert_sorted a (x ∷ xs) =
    let rest = insert_sorted a xs in if before x a then x ∷ rest else a ∷ x ∷ xs

-- `Vec::sort`
unfoldable pub sort : List Text → List Text
unfolding insert_sorted
sort [] = []
sort (x ∷ xs) = insert_sorted x (sort xs)

count-insert_sorted :
    (a b : Text) (xs : List Text)
    → count b (insert_sorted a xs) ≡ (if same a b then 1 else 0) + count b xs
unfolding insert_sorted
count-insert_sorted a b [] = refl
count-insert_sorted a b (x ∷ xs) = ground (arith, count-insert_sorted a b xs)

pub count-sort : (b : Text) (xs : List Text) → count b (sort xs) ≡ count b xs
unfolding sort
count-sort b [] = refl
count-sort b (x ∷ xs) = ground (arith, count-insert_sorted x b (sort xs), count-sort b xs)
