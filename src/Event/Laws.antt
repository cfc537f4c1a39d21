-- ===== src/Event/Laws.antt =====
-- What `GetField`, `SetField` and `RemoveField` promise to one another (pkg/event/event.go).
use ggt.Prelude.{
  ℕ, true, none, some, List, [], ◌∷◌, Text, ◌==◌, ◌≡◌, refl, arith, if◌then◌else◌, ◌≢◌, Bool-cases,
  inl, inr,
}
use ggt.Value.{Value, Object, nil_map, make_map}
use ggt.Event.{
  Event, get_keys, set_keys, remove_keys, has_keys, split, path_keys, get_field, set_field,
  remove_field, remove_present,
}
use ggt.Event.Paths.{
  diverges, get_keys_nil, has_keys_nil, get-set_keys_self, get-set_keys_ne, set-set_keys,
  get-remove_keys_self, get-remove_keys_ne, has_keys-get,
}
use ggt.Event.Copies.{clone_metadata-eq, clone_string_map-eq}

pub split-cons : (sep : ℕ) (s : Text) → (k : Text) × (ks : List Text) × (split sep s ≡ k ∷ ks)
unfolding split
split-cons sep [] = ([], [], refl)
split-cons sep (c ∷ s) = elim (Bool-cases (c == sep)) [
  | inl e ↦ ([], split sep s, rw e refl)
  | inr e ↦ let (k, ks, p) = split-cons sep s in (c ∷ k, ks, rw (e, p) refl)
]

pub get_field-cons :
    (e : Event) (c : ℕ) (path : Text)
    → get_field e (c ∷ path) ≡ get_keys (path_keys (c ∷ path)) e.payload
get_field-cons e c path = go e.payload refl
  where
    go : (m : Object) → e.payload ≡ m → get_field e (c ∷ path) ≡ get_keys (path_keys (c ∷ path)) m
    go nil_map p =
        let (k, ks, s) = split-cons b'.' (c ∷ path) in
        rw (s, get_keys_nil) (unfold get_field in rw (p, get_field) refl)
    go (make_map fs) p = unfold get_field in rw (p, get_field) refl

payload-set_field :
    (e : Event) (c : ℕ) (path : Text) (v : Value)
    → (set_field e (c ∷ path) v).payload ≡ set_keys (path_keys (c ∷ path)) v e.payload
unfolding set_field
payload-set_field e c path v = refl

-- After a field is set, reading it by the same path returns the value, whatever stood on the way.
pub get-set_field_self :
    (e : Event) (path : Text) (v : Value) → path ≢ [] → get_field (set_field e path v) path ≡ some v
get-set_field_self e [] v h = absurd (h refl)
get-set_field_self e (c ∷ path) v h =
    let (k, ks, s) = split-cons b'.' (c ∷ path) in
    rw (get_field-cons, payload-set_field, s) (get-set_keys_self k ks v e.payload)

-- Setting a field leaves every field alone whose path parts from its own.
pub get-set_field_ne :
    (e : Event) (path other : Text) (v : Value)
    → diverges (path_keys path) (path_keys other) ≡ true
    → get_field (set_field e path v) other ≡ get_field e other
get-set_field_ne e [] other v h = unfold set_field in refl
get-set_field_ne e (c ∷ path) [] v h = unfold get_field in refl
get-set_field_ne e (c ∷ path) (d ∷ other) v h =
    simp (get_field-cons, payload-set_field)
      (get-set_keys_ne (path_keys (c ∷ path)) (path_keys (d ∷ other)) v e.payload h)

-- Of two writes to one path the second one is all that counts.
pub set-set_field :
    (e : Event) (path : Text) (v w : Value)
    → set_field (set_field e path v) path w ≡ set_field e path w
unfolding set_field
set-set_field e [] v w = refl
set-set_field e (c ∷ path) v w = simp (set-set_keys, clone_metadata-eq, clone_string_map-eq)

-- Setting a field keeps metadata, timestamp and headers.
pub set_field_rest :
    (e : Event) (path : Text) (v : Value)
    → ((set_field e path v).metadata ≡ e.metadata)
      × ((set_field e path v).timestamp ≡ e.timestamp)
      × ((set_field e path v).headers ≡ e.headers)
unfolding set_field
set_field_rest e [] v = (refl, refl, refl)
set_field_rest e (c ∷ path) v = (clone_metadata-eq e.metadata, refl, clone_string_map-eq e.headers)

payload-remove_present :
    (e : Event) (keys : List Text)
    → (remove_present e keys).payload
      ≡ (if has_keys keys e.payload then remove_keys keys e.payload else e.payload)
unfolding remove_present
payload-remove_present e keys = ground arith

pub payload-remove_field :
    (e : Event) (c : ℕ) (path : Text)
    → (remove_field e (c ∷ path)).payload ≡ (
        if has_keys (path_keys (c ∷ path)) e.payload
        then remove_keys (path_keys (c ∷ path)) e.payload
        else e.payload)
payload-remove_field e c path = go e.payload refl
  where
    go :
        (m : Object)
        → e.payload ≡ m
        → (remove_field e (c ∷ path)).payload
          ≡ (if has_keys (path_keys (c ∷ path)) m then remove_keys (path_keys (c ∷ path)) m else m)
    go nil_map p =
        let (k, ks, s) = split-cons b'.' (c ∷ path) in
        rw (s, has_keys_nil) (unfold remove_field in rw (p, remove_field) p)
    go (make_map fs) p =
        unfold remove_field in rw (p, remove_field) (rw (payload-remove_present, p) refl)

-- A removed field is gone, whether or not it was there.
pub get-remove_field_self : (e : Event) (path : Text) → get_field (remove_field e path) path ≡ none
get-remove_field_self e [] = unfold get_field in refl
get-remove_field_self e (c ∷ path) =
    let (k, ks, s) = split-cons b'.' (c ∷ path) in
    elim (Bool-cases (has_keys (k ∷ ks) e.payload)) [
      | inl there ↦
          rw (get_field-cons, payload-remove_field, s, there) (get-remove_keys_self k ks e.payload)
      | inr absent ↦
          rw (get_field-cons, payload-remove_field, s, absent) (has_keys-get k ks e.payload absent)
    ]

-- Removing a field leaves every field alone whose path parts from its own.
pub get-remove_field_ne :
    (e : Event) (path other : Text)
    → diverges (path_keys path) (path_keys other) ≡ true
    → get_field (remove_field e path) other ≡ get_field e other
get-remove_field_ne e [] other h = unfold remove_field in refl
get-remove_field_ne e (c ∷ path) [] h = unfold get_field in refl
get-remove_field_ne e (c ∷ path) (d ∷ other) h =
    elim (Bool-cases (has_keys (path_keys (c ∷ path)) e.payload)) [
      | inl there ↦
          simp (get_field-cons, payload-remove_field, there)
            (get-remove_keys_ne (path_keys (c ∷ path)) (path_keys (d ∷ other)) e.payload h)
      | inr absent ↦ simp (get_field-cons, payload-remove_field, absent)
    ]
