-- ===== src/Cache/Rep.antt =====
-- One list that stands for both the map and the linked list of a cache
-- (internal/enrichment/cache.go), most recently used first.
use ggt.Prelude.{
  ℕ, false, some, List, [], ◌∷◌, ◌+◌, ◌<◌, ◌≡◌, refl, Text, ◌==◌, length, text_eq_iff, arith,
}
use ggt.Prelude.Dict.{Dict, lookup, remove, NodupKeys, remove_absent}
use ggt.Cache.{Entry, Cache, remove_element, find_element, move_to_front, back}

abbrev pub Rep : Type 0
Rep = Dict Entry

abbrev pub elements : Rep → List (ℕ × Text)
elements [] = []
elements ((k, e) ∷ r) = (e.element, k) ∷ elements r

-- Every element is a pointer below `n`, and not nil.
abbrev pub Allocated : ℕ → Rep → Type 0
Allocated n [] = Unit
Allocated n ((k, e) ∷ r) = (0 < e.element) × (e.element < n) × Allocated n r

-- No element is `i`.
abbrev pub Fresh : ℕ → Rep → Type 0
Fresh i [] = Unit
Fresh i ((k, e) ∷ r) = ((e.element == i) ≡ false) × Fresh i r

abbrev pub NodupElements : Rep → Type 0
NodupElements [] = Unit
NodupElements ((k, e) ∷ r) = Fresh e.element r × NodupElements r

pub record Holds (c : Cache) (r : Rep) : Type 0 where
  pub list_eq : c.lru_list ≡ elements r
  pub map_eq : (k : Text) → lookup k c.entries ≡ lookup k r
  pub size_eq : length c.entries ≡ length r
  pub map_keys : NodupKeys c.entries
  pub keys : NodupKeys r
  pub distinct : NodupElements r
  pub allocated : Allocated c.next_element r
  pub next_pos : 0 < c.next_element

pub Fresh-remove : (i : ℕ) (k : Text) (r : Rep) → Fresh i r → Fresh i (remove k r)
unfolding remove
Fresh-remove i k [] h = tt
Fresh-remove i k ((j, e) ∷ r) h = ground (arith, Fresh-remove i k r h.1)

pub NodupElements-remove : (k : Text) (r : Rep) → NodupElements r → NodupElements (remove k r)
unfolding remove
NodupElements-remove k [] h = tt
NodupElements-remove k ((j, e) ∷ r) h =
    ground (arith, Fresh-remove e.element k r h.0, NodupElements-remove k r h.1)

pub Allocated-remove : (n : ℕ) (k : Text) (r : Rep) → Allocated n r → Allocated n (remove k r)
unfolding remove
Allocated-remove n k [] h = tt
Allocated-remove n k ((j, e) ∷ r) h = ground (arith, Allocated-remove n k r h.2)

pub Fresh-of_lookup :
    (i : ℕ) (k : Text) (e : Entry) (r : Rep)
    → Fresh i r
    → lookup k r ≡ some e
    → (e.element == i) ≡ false
unfolding lookup
Fresh-of_lookup i k e [] h l = cc
Fresh-of_lookup i k e ((j, x) ∷ r) h l = ground (arith, Fresh-of_lookup i k e r h.1)

pub Allocated-of_lookup :
    (n : ℕ) (k : Text) (e : Entry) (r : Rep)
    → Allocated n r
    → lookup k r ≡ some e
    → (0 < e.element) × (e.element < n)
unfolding lookup
Allocated-of_lookup n k e [] h l = cc
Allocated-of_lookup n k e ((j, x) ∷ r) h l = ground (arith, Allocated-of_lookup n k e r h.2)

pub remove_element-Fresh :
    (i : ℕ) (r : Rep) → Fresh i r → remove_element i (elements r) ≡ elements r
unfolding remove_element
remove_element-Fresh i [] h = refl
remove_element-Fresh i ((j, e) ∷ r) h = ground (arith, remove_element-Fresh i r h.1)

-- Removing the element of a key removes the key.
pub remove_element-elements :
    (k : Text) (e : Entry) (r : Rep)
    → NodupKeys r
    → NodupElements r
    → lookup k r ≡ some e
    → remove_element e.element (elements r) ≡ elements (remove k r)
unfolding lookup remove remove_element
remove_element-elements k e [] dk de l = cc
remove_element-elements k e ((j, x) ∷ r) dk de l = ground (
  arith,
  text_eq_iff j k,
  remove_absent k r,
  remove_element-Fresh e.element r,
  Fresh-of_lookup x.element k e r de.0,
  remove_element-elements k e r dk.1 de.1,
)

pub find_element-elements :
    (k : Text) (e : Entry) (r : Rep)
    → NodupElements r
    → lookup k r ≡ some e
    → find_element e.element (elements r) ≡ some k
unfolding lookup find_element
find_element-elements k e [] de l = cc
find_element-elements k e ((j, x) ∷ r) de l =
    ground (
      arith,
      text_eq_iff j k,
      Fresh-of_lookup x.element k e r de.0,
      find_element-elements k e r de.1,
    )

pub move_to_front-elements :
    (k : Text) (e : Entry) (r : Rep)
    → NodupKeys r
    → NodupElements r
    → lookup k r ≡ some e
    → move_to_front e.element (elements r) ≡ (e.element, k) ∷ elements (remove k r)
unfolding move_to_front
move_to_front-elements k e r dk de l =
    rw (find_element-elements k e r de l, move_to_front)
      (rw (remove_element-elements k e r dk de l) refl)

pub Fresh-remove_self :
    (k : Text) (e : Entry) (r : Rep)
    → NodupKeys r
    → NodupElements r
    → lookup k r ≡ some e
    → Fresh e.element (remove k r)
unfolding lookup remove
Fresh-remove_self k e [] dk de l = cc
Fresh-remove_self k e ((j, x) ∷ r) dk de l = ground (
  arith,
  text_eq_iff j k,
  remove_absent k r,
  Fresh-of_lookup x.element k e r de.0,
  Fresh-remove_self k e r dk.1 de.1,
)

pub Fresh-of_Allocated : (n : ℕ) (r : Rep) → Allocated n r → Fresh n r
Fresh-of_Allocated n [] h = tt
Fresh-of_Allocated n ((j, x) ∷ r) h = ground (arith, Fresh-of_Allocated n r h.2)

pub Allocated-suc : (n : ℕ) (r : Rep) → Allocated n r → Allocated (n + 1) r
Allocated-suc n [] h = tt
Allocated-suc n ((j, x) ∷ r) h = (h.0, omega arith, Allocated-suc n r h.2)

abbrev pub drop_last {ℓ} : {A : Type ℓ} → List A → List A
drop_last [] = []
drop_last (x ∷ []) = []
drop_last (x ∷ y ∷ l) = x ∷ drop_last (y ∷ l)

-- The back of the list is the element of the last key.
pub back-elements :
    (k : Text) (x : Entry) (r : Rep)
    → NodupKeys ((k, x) ∷ r)
    → (j : Text) × (e : Entry) × (back (elements ((k, x) ∷ r)) ≡ some (e.element, j))
      × (lookup j ((k, x) ∷ r) ≡ some e)
      × (remove j ((k, x) ∷ r) ≡ drop_last ((k, x) ∷ r))
unfolding lookup remove back
back-elements k x [] d =
    (k, x, refl, ground (arith, text_eq_iff k k), ground (arith, text_eq_iff k k))
back-elements k x ((k', x') ∷ r) d =
    let (j, e, b, l, m) = back-elements k' x' r d.1 in
    (j, e, b, ground (arith, text_eq_iff k j), ground (arith, text_eq_iff k j))
