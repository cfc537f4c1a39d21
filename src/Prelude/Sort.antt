-- ===== src/Prelude/Sort.antt =====
-- `sort.Strings`: byte strings in ascending order.
use mathlib.Core.Logic.{inl, inr}
use ggt.Prelude.Tests.{Bool-cases, ltb, ◌==◌, if◌then◌else◌}
use ggt.Prelude.Strings.{Text}
use mathlib.Core.Path.{◌≡◌, refl}
use mathlib.Core.Bool.{Bool, true, false, ◌&&◌, ◌||◌}
use mathlib.Core.List.{List, [], ◌∷◌, Perm}
use mathlib.Core.List.Perm
use native.Mathlib.Omega.{arith}

unfoldable pub text_le : Text → Text → Bool
text_le [] t = true
text_le (a ∷ s) [] = false
text_le (a ∷ s) (b ∷ t) = ltb a b || ((a == b) && text_le s t)

unfoldable pub insert_text : Text → List Text → List Text
insert_text x [] = x ∷ []
insert_text x (y ∷ l) = let rest = insert_text x l in if text_le x y then x ∷ y ∷ l else y ∷ rest

unfoldable pub sort_strings : List Text → List Text
unfolding insert_text text_le
sort_strings [] = []
sort_strings (x ∷ l) = insert_text x (sort_strings l)

pub text_le_total : (s t : Text) → text_le s t ≡ false → text_le t s ≡ true
unfolding text_le
text_le_total [] t h = cc
text_le_total (a ∷ s) [] h = refl
text_le_total (a ∷ s) (b ∷ t) h = ground (arith, text_le_total s t)

-- Each text is at most the next one.
abbrev pub SortedFrom : Text → List Text → Type 0
SortedFrom x [] = Unit
SortedFrom x (y ∷ l) = (text_le x y ≡ true) × SortedFrom y l

abbrev pub IsSorted : List Text → Type 0
IsSorted [] = Unit
IsSorted (x ∷ l) = SortedFrom x l

insert-SortedFrom :
    (x y : Text) (l : List Text)
    → text_le y x ≡ true
    → SortedFrom y l
    → SortedFrom y (insert_text x l)
unfolding insert_text
insert-SortedFrom x y [] h s = (h, tt)
insert-SortedFrom x y (z ∷ l) h s = ground (arith, text_le_total x z, insert-SortedFrom x z l)

insert-IsSorted : (x : Text) (l : List Text) → IsSorted l → IsSorted (insert_text x l)
unfolding insert_text
insert-IsSorted x [] s = tt
insert-IsSorted x (y ∷ l) s = ground (arith, text_le_total x y, insert-SortedFrom x y l)

pub sort-IsSorted : (l : List Text) → IsSorted (sort_strings l)
unfolding sort_strings
sort-IsSorted [] = tt
sort-IsSorted (x ∷ l) = insert-IsSorted x (sort_strings l) (sort-IsSorted l)

insert-perm : (x : Text) (l : List Text) → Perm (insert_text x l) (x ∷ l)
unfolding insert_text
insert-perm x [] = Perm.refl (x ∷ [])
insert-perm x (y ∷ l) = elim (Bool-cases (text_le x y)) [
  | inl e ↦ rw (e, insert_text) (Perm.refl (x ∷ y ∷ l))
  | inr e ↦ rw (e, insert_text) (Perm.trans (Perm.cons y (insert-perm x l)) (Perm.swap x y l))
]

pub sort-perm : (l : List Text) → Perm (sort_strings l) l
unfolding sort_strings
sort-perm [] = Perm.refl []
sort-perm (x ∷ l) = Perm.trans (insert-perm x (sort_strings l)) (Perm.cons x (sort-perm l))
