-- ===== src/Prelude/Order.antt =====
-- `sort.Strings` does not depend on the order in which it is given the strings.
use ggt.Prelude.Strings.{Text}
use ggt.Prelude.Sort.{text_le, text_le_total, insert_text}
use mathlib.Core.Path.{◌≡◌, refl}
use mathlib.Core.Bool.{true}
use mathlib.Core.List.{List, [], ◌∷◌}
use native.Mathlib.Omega.{arith}

text_le_antisym : (s t : Text) → text_le s t ≡ true → text_le t s ≡ true → s ≡ t
unfolding text_le
text_le_antisym [] [] h g = refl
text_le_antisym [] (b ∷ t) h g = cc
text_le_antisym (a ∷ s) [] h g = cc
text_le_antisym (a ∷ s) (b ∷ t) h g = ground (arith, text_le_antisym s t)

text_le_trans : (s t u : Text) → text_le s t ≡ true → text_le t u ≡ true → text_le s u ≡ true
unfolding text_le
text_le_trans [] t u h g = refl
text_le_trans (a ∷ s) [] u h g = cc
text_le_trans (a ∷ s) (b ∷ t) [] h g = cc
text_le_trans (a ∷ s) (b ∷ t) (c ∷ u) h g = ground (arith, text_le_trans s t u)

pub insert_comm :
    (x y : Text) (l : List Text) → insert_text x (insert_text y l) ≡ insert_text y (insert_text x l)
unfolding insert_text
insert_comm x y [] = ground (arith, text_le_total x y, text_le_antisym x y)
insert_comm x y (z ∷ l) = ground (
  arith,
  text_le_total x y,
  text_le_total y x,
  text_le_antisym x y,
  text_le_trans x y z,
  text_le_trans y x z,
  text_le_total x z,
  text_le_total y z,
  insert_comm x y l,
)
