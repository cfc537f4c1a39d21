-- ===== src/Event/Paths.antt =====
-- Reading, writing and removing a field by its path (pkg/event/event.go).
pub mod Missing
use ggt.Prelude.{
  Bool, true, false, Option, none, some, Option-cases, inl, inr, ◌⊎◌, sym, text_eq_refl, List, [],
  ◌∷◌, ◌++◌, Text, text_eq, text_eq_iff, ◌≡◌, refl, arith, if◌then◌else◌,
}
use ggt.Value.{
  Value, Object, Fields, object, nil_map, make_map, no_fields, field, lookup_fields, lookup_key,
  as_object, insert_field, delete_field, lookup-insert_field, lookup-delete_field,
  insert-insert_field,
}
use ggt.Event.{fresh_fields, orig_next, copy_fields, get_keys, set_keys, remove_keys, has_keys}

copy_fields-eq : (fs : Fields) → copy_fields fs ≡ fs
unfolding copy_fields
copy_fields-eq no_fields = refl
copy_fields-eq (field k v fs) = rw (copy_fields-eq fs)

lookup-fresh : (k : Text) (m : Object) → lookup_fields k (fresh_fields m) ≡ lookup_key k m
unfolding fresh_fields lookup_key lookup_fields
lookup-fresh k nil_map = refl
lookup-fresh k (make_map fs) = rw (copy_fields-eq fs)

-- A key after a write to a cloned map, and after a deletion.
lookup-write :
    (k j : Text) (v : Value) (m : Object)
    → lookup_key j (make_map (insert_field k v (fresh_fields m)))
      ≡ (if text_eq k j then some v else lookup_key j m)
unfolding lookup_key
lookup-write k j v m = simp (lookup-insert_field, lookup-fresh)

lookup-cut :
    (k j : Text) (m : Object)
    → lookup_key j (make_map (delete_field k (fresh_fields m)))
      ≡ (if text_eq k j then none else lookup_key j m)
unfolding lookup_key
lookup-cut k j m = simp (lookup-delete_field, lookup-fresh)

-- Two paths part: at some position both have a key, and the keys differ.
unfoldable pub diverges : List Text → List Text → Bool
diverges (k ∷ ks) (j ∷ js) = if text_eq k j then diverges ks js else true
diverges _ _ = false

-- What a walk sees below a value.
abbrev as_map : Value → Object
as_map (object m) = m
as_map _ = nil_map

pub get_keys_nil : (k : Text) (ks : List Text) → get_keys (k ∷ ks) nil_map ≡ none
unfolding get_keys lookup_key as_object
get_keys_nil k [] = refl
get_keys_nil k (k' ∷ ks) = refl

as_object-cases :
    (o : Option Value) → (as_object o ≡ none) ⊎ ((m : Object) × (as_object o ≡ some m))
as_object-cases o = Option-cases (as_object o)

get_keys-step :
    (k j : Text) (js : List Text) (m : Object)
    → get_keys (k ∷ j ∷ js) m ≡ get_keys (j ∷ js) (orig_next k m)
get_keys-step k j js m = elim (as_object-cases (lookup_key k m)) [
  | inl e ↦ unfold get_keys orig_next in rw (e, get_keys, orig_next) (sym (get_keys_nil j js))
  | inr (n, e) ↦ unfold get_keys orig_next in rw (e, get_keys, orig_next) refl
]

orig_next-write :
    (k j : Text) (v : Value) (m : Object)
    → orig_next j (make_map (insert_field k v (fresh_fields m)))
      ≡ (if text_eq k j then as_map v else orig_next j m)
unfolding orig_next as_object
orig_next-write k j v m = rw (lookup-write, orig_next) (ground arith)

orig_next-cut :
    (k j : Text) (m : Object)
    → orig_next j (make_map (delete_field k (fresh_fields m)))
      ≡ (if text_eq k j then nil_map else orig_next j m)
unfolding orig_next as_object
orig_next-cut k j m = rw (lookup-cut, orig_next) (ground arith)

get_keys-one : (k : Text) (m : Object) → get_keys (k ∷ []) m ≡ lookup_key k m
unfolding get_keys
get_keys-one k m = refl

set_keys-step :
    (k k' : Text) (ks : List Text) (v : Value) (m : Object)
    → set_keys (k ∷ k' ∷ ks) v m
      ≡ make_map (insert_field k (object (set_keys (k' ∷ ks) v (orig_next k m))) (fresh_fields m))
unfolding set_keys
set_keys-step k k' ks v m = refl

set_keys-one :
    (k : Text) (v : Value) (m : Object)
    → set_keys (k ∷ []) v m ≡ make_map (insert_field k v (fresh_fields m))
unfolding set_keys
set_keys-one k v m = refl

ruleset walk = (
  get_keys-one, get_keys-step, set_keys-one, set_keys-step, lookup-write, lookup-cut,
  orig_next-write, orig_next-cut, text_eq_refl,
)

pub get-set_keys_self :
    (k : Text) (ks : List Text) (v : Value) (m : Object)
    → get_keys (k ∷ ks) (set_keys (k ∷ ks) v m) ≡ some v
get-set_keys_self k [] v m = simp walk
get-set_keys_self k (k' ∷ ks) v m = simp walk (get-set_keys_self k' ks v (orig_next k m))

pub get-set_keys_ne :
    (ks js : List Text) (v : Value) (m : Object)
    → diverges ks js ≡ true
    → get_keys js (set_keys ks v m) ≡ get_keys js m
unfolding diverges
get-set_keys_ne (k ∷ []) (j ∷ []) v m h = simp walk (ground arith)
get-set_keys_ne (k ∷ []) (j ∷ j' ∷ js) v m h = simp walk (ground arith)
get-set_keys_ne (k ∷ k' ∷ ks) (j ∷ []) v m h = simp walk (ground arith)
get-set_keys_ne (k ∷ k' ∷ ks) (j ∷ j' ∷ js) v m h =
    simp walk
      (ground (arith, text_eq_iff k j, get-set_keys_ne (k' ∷ ks) (j' ∷ js) v (orig_next k m)))
get-set_keys_ne [] js v m h = cc
get-set_keys_ne (k ∷ ks) [] v m h = cc

-- Below the written path, the written value is read.
pub get-set_keys_below :
    (k : Text) (ks : List Text) (j : Text) (js : List Text) (v : Value) (m : Object)
    → get_keys (k ∷ ks ++ j ∷ js) (set_keys (k ∷ ks) v m) ≡ get_keys (j ∷ js) (as_map v)
get-set_keys_below k [] j js v m = simp walk
get-set_keys_below k (k' ∷ ks) j js v m =
    simp walk (get-set_keys_below k' ks j js v (orig_next k m))

remove_keys-step :
    (k k' : Text) (ks : List Text) (m : Object)
    → remove_keys (k ∷ k' ∷ ks) m
      ≡ make_map (insert_field k (object (remove_keys (k' ∷ ks) (orig_next k m))) (fresh_fields m))
unfolding remove_keys
remove_keys-step k k' ks m = refl

remove_keys-one :
    (k : Text) (m : Object) → remove_keys (k ∷ []) m ≡ make_map (delete_field k (fresh_fields m))
unfolding remove_keys
remove_keys-one k m = refl

ruleset walk_remove = (walk, remove_keys-step, remove_keys-one)

pub get-remove_keys_self :
    (k : Text) (ks : List Text) (m : Object) → get_keys (k ∷ ks) (remove_keys (k ∷ ks) m) ≡ none
get-remove_keys_self k [] m = simp walk_remove
get-remove_keys_self k (k' ∷ ks) m = simp walk_remove (get-remove_keys_self k' ks (orig_next k m))

pub get-remove_keys_ne :
    (ks js : List Text) (m : Object)
    → diverges ks js ≡ true
    → get_keys js (remove_keys ks m) ≡ get_keys js m
unfolding diverges
get-remove_keys_ne (k ∷ []) (j ∷ []) m h = simp walk_remove (ground arith)
get-remove_keys_ne (k ∷ []) (j ∷ j' ∷ js) m h = simp walk_remove (ground arith)
get-remove_keys_ne (k ∷ k' ∷ ks) (j ∷ []) m h = simp walk_remove (ground arith)
get-remove_keys_ne (k ∷ k' ∷ ks) (j ∷ j' ∷ js) m h =
    simp walk_remove
      (ground (arith, text_eq_iff k j, get-remove_keys_ne (k' ∷ ks) (j' ∷ js) (orig_next k m)))
get-remove_keys_ne [] js m h = cc
get-remove_keys_ne (k ∷ ks) [] m h = cc

-- The test of the first loop of `RemoveField` is the existence of the field.
pub has_keys-get :
    (k : Text) (ks : List Text) (m : Object) (absent : has_keys (k ∷ ks) m ≡ false)
    → get_keys (k ∷ ks) m ≡ none
unfolding has_keys get_keys
has_keys-get k [] m absent = ground arith
has_keys-get k (k' ∷ ks) m absent = elim (as_object-cases (lookup_key k m)) [
  | inl e ↦ rw (e, get_keys) refl
  | inr (n, e) ↦ rw (e, get_keys) (has_keys-get k' ks n (rw (e, has_keys) at absent))
]

fresh-make_map : (fs : Fields) → fresh_fields (make_map fs) ≡ fs
unfolding fresh_fields
fresh-make_map fs = copy_fields-eq fs

pub set-set_keys :
    (ks : List Text) (v w : Value) (m : Object) → set_keys ks w (set_keys ks v m) ≡ set_keys ks w m
set-set_keys [] v w m = unfold set_keys in simp fresh-make_map
set-set_keys (k ∷ []) v w m = simp (walk, fresh-make_map, insert-insert_field)
set-set_keys (k ∷ k' ∷ ks) v w m =
    simp (walk, fresh-make_map, insert-insert_field, set-set_keys (k' ∷ ks) v w (orig_next k m))

pub has_keys_nil : (k : Text) (ks : List Text) → has_keys (k ∷ ks) nil_map ≡ false
unfolding has_keys lookup_key as_object
has_keys_nil k [] = refl
has_keys_nil k (k' ∷ ks) = refl
