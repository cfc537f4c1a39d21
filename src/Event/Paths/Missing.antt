-- ===== src/Event/Paths/Missing.antt =====
-- Fields that are not there, by the keys of their paths (pkg/event/event.go).
use ggt.Prelude.{
  true, false, Option, none, List, [], ◌∷◌, ◌++◌, Text, text_eq_iff, ◌≡◌, refl, sym, ◌∙◌, ap, arith,
  inl, inr,
}
use ggt.Value.{Value, Object, nil_map, lookup_key, as_object}
use ggt.Event.{orig_next, get_keys, remove_keys, has_keys}
use ggt.Event.Paths.{get_keys_nil, get_keys-step, walk_remove, as_object-cases, get_keys-one}

orig_next_missing : (k : Text) (m : Object) → lookup_key k m ≡ none → orig_next k m ≡ nil_map
unfolding orig_next as_object
orig_next_missing k m h = rw (h, orig_next) refl

-- Below a field that is not there is none.
pub get_keys-below :
    (k : Text) (ks : List Text) (j : Text) (js : List Text) (m : Object)
    → get_keys (k ∷ ks) m ≡ none
    → get_keys (k ∷ ks ++ j ∷ js) m ≡ none
get_keys-below k [] j js m h =
    get_keys-step k j js m
    ∙ ap (get_keys (j ∷ js)) (orig_next_missing k m (sym (get_keys-one k m) ∙ h))
    ∙ get_keys_nil j js
get_keys-below k (k' ∷ ks) j js m h =
    get_keys-step k k' (ks ++ j ∷ js) m
    ∙ get_keys-below k' ks j js (orig_next k m) (sym (get_keys-step k k' ks m) ∙ h)

as_object-none : (o : Option Value) → o ≡ none → as_object o ≡ none
unfolding as_object
as_object-none o h = rw h refl

has_keys_lookup :
    (k k' : Text) (ks : List Text) (m : Object)
    → has_keys (k ∷ k' ∷ ks) m ≡ true
    → has_keys (k' ∷ ks) (orig_next k m) ≡ true
has_keys_lookup k k' ks m h = elim (as_object-cases (lookup_key k m)) [
  | inl e ↦ unfold has_keys in cc
  | inr (n, e) ↦ unfold orig_next in rw (e, orig_next) (unfold has_keys in rw (e, has_keys) at h)
]

has_keys_missing :
    (k k' : Text) (ks : List Text) (m : Object)
    → lookup_key k m ≡ none
    → has_keys (k ∷ k' ∷ ks) m ≡ false
unfolding has_keys
has_keys_missing k k' ks m h = rw (as_object-none (lookup_key k m) h, has_keys) refl

-- A removal makes no field.
pub get-remove_keys-none :
    (k : Text) (ks : List Text) (j : Text) (js : List Text) (m : Object)
    → has_keys (k ∷ ks) m ≡ true
    → get_keys (j ∷ js) m ≡ none
    → get_keys (j ∷ js) (remove_keys (k ∷ ks) m) ≡ none
get-remove_keys-none k [] j [] m h a = simp walk_remove (ground (arith, get_keys-one j m))
get-remove_keys-none k [] j (j' ∷ js) m h a =
    simp walk_remove (ground (arith, get_keys-step j j' js m, get_keys_nil j' js))
get-remove_keys-none k (k' ∷ ks) j [] m h a =
    simp walk_remove (ground (arith, text_eq_iff k j, get_keys-one j m, has_keys_missing k k' ks m))
get-remove_keys-none k (k' ∷ ks) j (j' ∷ js) m h a = simp walk_remove (
    ground (
      arith,
      text_eq_iff k j,
      get_keys-step j j' js m,
      has_keys_lookup k k' ks m,
      get-remove_keys-none k' ks j' js (orig_next k m),
    ))
