-- ===== src/Stopped/Names.antt =====
-- The names that a file for crates/servicrab-cli/src/daemon/stopped.rs can hold.
use servicrab.Base.{
  ℕ, true, false, ◌&&◌, not, Option, none, some, List, [], ◌∷◌, Text, ◌==◌, ==_iff, ◌≡◌, refl, ap,
  ◌∙◌, if_ind, inl, inr, Bool-cases, All, same, before, before_total, before_trans, All-map, arith,
}
use servicrab.Base.Set
use servicrab.Base.Set.{BTreeSet}
use servicrab.Base.Chars.{
  is_empty, is_whitespace, contains_char, starts_with, strip_suffix, trim_start, trim_end, trim,
  in_line, lines,
}
use servicrab.Stopped.{collect, parse, read}

pub record IsName (name : Text) : Type 0 where
  pub present : is_empty name ≡ false
  pub trimmed : trim name ≡ name
  pub no_comment : starts_with (b'#' ∷ []) name ≡ false
  pub one_line : contains_char b'\n' name ≡ false

-- The members ascend, so none stands twice.
abbrev pub IsAscending : BTreeSet → Type 0
IsAscending [] = Unit
IsAscending (x ∷ xs) = All (λ y. before x y ≡ true) xs × IsAscending xs

trim_end_idem : (s : Text) → trim_end (trim_end s) ≡ trim_end s
unfolding trim_end
trim_end_idem [] = refl
trim_end_idem (c ∷ s) = ground (arith, trim_end_idem s)

trim_kept : (s : Text) → trim_start (trim_end (trim_start s)) ≡ trim_end (trim_start s)
unfolding trim_start trim_end
trim_kept [] = refl
trim_kept (c ∷ s) = ground (arith, trim_kept s)

trim_idem : (s : Text) → trim (trim s) ≡ trim s
trim_idem s = ap trim_end (trim_kept s) ∙ trim_end_idem (trim_start s)

trim_start-contains :
    (c : ℕ) (s : Text) → contains_char c s ≡ false → contains_char c (trim_start s) ≡ false
unfolding trim_start
trim_start-contains c [] h = refl
trim_start-contains c (d ∷ s) h = ground (arith, h, trim_start-contains c s (ground (arith, h)))

trim_end-contains :
    (c : ℕ) (s : Text) → contains_char c s ≡ false → contains_char c (trim_end s) ≡ false
unfolding trim_end
trim_end-contains c [] h = refl
trim_end-contains c (d ∷ s) h = ground (arith, h, trim_end-contains c s (ground (arith, h)))

lines-one_line : (s : Text) → All (λ line. contains_char b'\n' line ≡ false) (lines s)
unfolding lines
lines-one_line [] = tt
lines-one_line (c ∷ s) =
    let rest = lines-one_line s in
    if_ind (All (λ line. contains_char b'\n' line ≡ false)) (c == b'\n') (λ _. (refl, rest))
      λ other.
        if_ind (All (λ line. contains_char b'\n' line ≡ false))
          ((c == b'\r') && starts_with (b'\n' ∷ []) s) (λ _. rest)
          λ _. in_line_lem c (lines s) other rest
  where
    in_line_lem :
        (c : ℕ) (ls : List Text)
        → (c == b'\n') ≡ false
        → All (λ line. contains_char b'\n' line ≡ false) ls
        → All (λ line. contains_char b'\n' line ≡ false) (in_line c ls)
    in_line_lem c [] other h = (ground (arith, other), tt)
    in_line_lem c (l ∷ ls) other h = (ground (arith, other, h.0), h.1)

strip_front :
    (c d : ℕ) (t : Text)
    → strip_suffix c t ≡ none
    → (is_empty t ≡ true → (d == c) ≡ false)
    → strip_suffix c (d ∷ t) ≡ none
unfolding strip_suffix
strip_front c d [] h last = rw (last refl)
strip_front c d (e ∷ t) h last = rw h

different : (c d : ℕ) → is_whitespace d ≡ false → is_whitespace c ≡ true → (d == c) ≡ false
different c d h k = elim (Bool-cases (d == c)) [
  | inl at ↦ absurd (ground (arith, h, rw (← (==_iff d c).0 at) at k))
  | inr other ↦ other
]

-- A trimmed text does not end in a blank.
pub strip_suffix-trim_end :
    (c : ℕ) (s : Text) → is_whitespace c ≡ true → strip_suffix c (trim_end s) ≡ none
unfolding trim_end strip_suffix
strip_suffix-trim_end c [] h = refl
strip_suffix-trim_end c (d ∷ s) h =
    if_ind (λ t. strip_suffix c t ≡ none) (is_whitespace d && is_empty (trim_end s)) (λ _. refl)
      λ kept.
        strip_front c d (trim_end s) (strip_suffix-trim_end c s h)
          (λ last. different c d (ground (arith, kept, last)) h)

All-insert :
    (P : Text → Type 0) (x : Text) (xs : BTreeSet) → P x → All P xs → All P (Set.insert x xs)
unfolding Set.insert
All-insert P x [] p h = (p, tt)
All-insert P x (y ∷ ys) p h =
    if_ind (All P) (same x y) (λ _. h)
      λ _. if_ind (All P) (before x y) (λ _. (p, h)) λ _. (h.0, All-insert P x ys p h.1)

pub insert-IsAscending : (x : Text) (xs : BTreeSet) → IsAscending xs → IsAscending (Set.insert x xs)
unfolding Set.insert
insert-IsAscending x [] h = (tt, tt)
insert-IsAscending x (y ∷ ys) h =
    if_ind IsAscending (same x y) (λ _. h)
      λ other.
        if_ind IsAscending (before x y)
          (λ below. ((below, All-map (λ z. before_trans x y z below) ys h.0), h))
          λ above. (
            All-insert (λ z. before y z ≡ true) x ys (before_total x y other above) h.0,
            insert-IsAscending x ys h.1,
          )

All-remove : (P : Text → Type 0) (x : Text) (xs : BTreeSet) → All P xs → All P (Set.remove x xs)
unfolding Set.remove
All-remove P x [] h = tt
All-remove P x (y ∷ ys) h =
    if_ind (All P) (not (same x y)) (λ _. (h.0, All-remove P x ys h.1)) λ _. All-remove P x ys h.1

pub remove-IsAscending : (x : Text) (xs : BTreeSet) → IsAscending xs → IsAscending (Set.remove x xs)
unfolding Set.remove
remove-IsAscending x [] h = tt
remove-IsAscending x (y ∷ ys) h =
    if_ind IsAscending (not (same x y))
      (λ _. (All-remove (λ z. before y z ≡ true) x ys h.0, remove-IsAscending x ys h.1))
      λ _. remove-IsAscending x ys h.1

-- What can stand in the file: names, in ascending order.
pub record AreNames (names : BTreeSet) : Type 0 where
  pub ascending : IsAscending names
  pub each : All IsName names

pub insert-AreNames :
    (x : Text) (xs : BTreeSet) → IsName x → AreNames xs → AreNames (Set.insert x xs)
insert-AreNames x xs valid h = record {
  ascending = insert-IsAscending x xs h.ascending;
  each = All-insert IsName x xs valid h.each;
}

pub remove-AreNames : (x : Text) (xs : BTreeSet) → AreNames xs → AreNames (Set.remove x xs)
remove-AreNames x xs h = record {
  ascending = remove-IsAscending x xs h.ascending;
  each = All-remove IsName x xs h.each;
}

collect-AreNames :
    (ls : List Text) → All (λ line. contains_char b'\n' line ≡ false) ls → AreNames (collect ls)
unfolding collect
collect-AreNames [] h = record { ascending = tt; each = tt }
collect-AreNames (line ∷ ls) h =
    if_ind AreNames (not (is_empty (trim line)) && not (starts_with (b'#' ∷ []) (trim line)))
      (λ taken.
        insert-AreNames (trim line) (collect ls)
          (record {
            present = ground (arith, taken);
            trimmed = trim_idem line;
            no_comment = ground (arith, taken);
            one_line =
                trim_end-contains b'\n' (trim_start line) (trim_start-contains b'\n' line h.0);
          })
          (collect-AreNames ls h.1))
      λ left_out. collect-AreNames ls h.1

-- Whatever the file holds, what is read of it can stand in a file.
pub read-AreNames : (file : Option Text) → AreNames (read file)
unfolding read parse
read-AreNames none = record { ascending = tt; each = tt }
read-AreNames (some text) = collect-AreNames (lines text) (lines-one_line text)
