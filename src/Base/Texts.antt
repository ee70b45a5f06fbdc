-- ===== src/Base/Texts.antt =====
-- Text as the list of its code points, with Rust's equality and order of strings. (The order of
-- the UTF-8 bytes is the order of the code points.)
use Prim.Native.Nat.{ℕ}
use Prim.Native.Char.{code}
use Prim.Native.String.{String}
use mathlib.Core.Path.{◌≡◌, refl}
use mathlib.Core.Logic.{◌↔◌}
use mathlib.Core.Bool.{Bool, true, false, ◌&&◌}
use mathlib.Core.List.{List, [], ◌∷◌, ◌++◌}
use native.Mathlib.Omega.{arith}
use servicrab.Base.Tests.{ltb, ◌==◌, if◌then◌else◌}

abbrev pub Text : Type 0
Text = List ℕ

abbrev pub codes : String → Text
codes String.[] = []
codes (String.◌∷◌ c s) = code c ∷ codes s

-- `parts.join(separator)`
unfoldable pub join : Text → List Text → Text
join sep [] = []
join sep (s ∷ []) = s
join sep (s ∷ t ∷ rest) = s ++ (sep ++ join sep (t ∷ rest))

unfoldable pub same : Text → Text → Bool
same [] [] = true
same (a ∷ s) (b ∷ t) = (a == b) && same s t
same _ _ = false

unfoldable pub before : Text → Text → Bool
before [] [] = false
before [] (b ∷ t) = true
before (a ∷ s) [] = false
before (a ∷ s) (b ∷ t) = let rest = before s t in if ltb a b then true else (a == b) && rest

pub same_iff : (s t : Text) → (same s t ≡ true) ↔ (s ≡ t)
unfolding same
same_iff [] [] = ground arith
same_iff [] (b ∷ t) = ground arith
same_iff (a ∷ s) [] = ground arith
same_iff (a ∷ s) (b ∷ t) = ground (arith, same_iff s t)

pub same_refl : (s : Text) → same s s ≡ true
same_refl s = (same_iff s s).1 refl

pub before_irrefl : (s : Text) → before s s ≡ false
unfolding before
before_irrefl [] = refl
before_irrefl (a ∷ s) = ground (arith, before_irrefl s)

pub before_trans : (s t u : Text) → before s t ≡ true → before t u ≡ true → before s u ≡ true
unfolding before
before_trans [] [] u h k = ground arith
before_trans [] (b ∷ t) [] h k = ground arith
before_trans [] (b ∷ t) (c ∷ u) h k = refl
before_trans (a ∷ s) [] u h k = ground arith
before_trans (a ∷ s) (b ∷ t) [] h k = ground arith
before_trans (a ∷ s) (b ∷ t) (c ∷ u) h k = ground (arith, before_trans s t u)

pub before_total : (s t : Text) → same s t ≡ false → before s t ≡ false → before t s ≡ true
unfolding same before
before_total [] [] h k = ground arith
before_total [] (b ∷ t) h k = ground arith
before_total (a ∷ s) [] h k = refl
before_total (a ∷ s) (b ∷ t) h k = ground (arith, before_total s t)
