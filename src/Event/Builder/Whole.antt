-- ===== src/Event/Builder/Whole.antt =====
-- Payloads without nil maps, which a builder never panics on (pkg/event/builder.go).
use ggt.Prelude.{
  none, some, List, [], ◌∷◌, ◌≡◌, ◌⊎◌, refl, sym, ap, ◌∙◌, Text, text_eq, Bool-cases, Option-cases,
  inl, inr,
}
use ggt.Value.{
  Value, Object, Fields, nil_map, make_map, no_fields, field, object, insert_field, lookup_key,
  as_object, lookup_fields, null, bool, int, float32, float64, float64_ptr, str, time, strings,
  slice,
}
use ggt.Event.{set_keys, fresh_fields, orig_next, copy_fields}
use ggt.Event.Builder.{with_keys, next_map}

unfoldable mutual
  pub IsWhole : Object → Type 0
  IsWhole nil_map = ⊥
  IsWhole (make_map fs) = AreWhole fs

  pub AreWhole : Fields → Type 0
  AreWhole no_fields = Unit
  AreWhole (field k v fs) = IsWholeValue v × AreWhole fs

  pub IsWholeValue : Value → Type 0
  IsWholeValue (object m) = IsWhole m
  IsWholeValue _ = Unit

some_inj {ℓ} : {A : Type ℓ} {a b : A} → some a ≡ some b → a ≡ b
some_inj e = cc

insert_field-AreWhole :
    (k : Text) (v : Value) (fs : Fields)
    → IsWholeValue v
    → AreWhole fs
    → AreWhole (insert_field k v fs)
unfolding insert_field AreWhole
insert_field-AreWhole k v no_fields p h = (p, tt)
insert_field-AreWhole k v (field j w fs) p h = elim (Bool-cases (text_eq j k)) [
  | inl same ↦ rw (same, insert_field) (p, h.1)
  | inr other ↦ rw (other, insert_field) (h.0, insert_field-AreWhole k v fs p h.1)
]

lookup-IsWhole :
    (k : Text) (fs : Fields) (v : Value)
    → AreWhole fs
    → lookup_fields k fs ≡ some v
    → IsWholeValue v
unfolding lookup_fields AreWhole
lookup-IsWhole k no_fields v h p = cc
lookup-IsWhole k (field j w fs) v h p = elim (Bool-cases (text_eq j k)) [
  | inl same ↦ let e : w ≡ v = some_inj (rw (same, lookup_fields) at p) in rw (← e) h.0
  | inr other ↦ lookup-IsWhole k fs v h.1 (rw (other, lookup_fields) at p)
]

Value-cases : (v : Value) → ((m : Object) × (v ≡ object m)) ⊎ (as_object (some v) ≡ none)
unfolding as_object
Value-cases null = inr refl
Value-cases (bool b) = inr refl
Value-cases (int k z) = inr refl
Value-cases (float32 x) = inr refl
Value-cases (float64 x) = inr refl
Value-cases (float64_ptr x) = inr refl
Value-cases (str s) = inr refl
Value-cases (time t) = inr refl
Value-cases (strings ts) = inr refl
Value-cases (slice xs) = inr refl
Value-cases (object m) = inl (m, refl)

there :
    (k : Text) (fs : Fields) {v : Value}
    → lookup_fields k fs ≡ some v
    → as_object (lookup_key k (make_map fs)) ≡ as_object (some v)
unfolding lookup_key
there k fs p = rw p refl

missing :
    (k : Text) (fs : Fields)
    → lookup_fields k fs ≡ none
    → as_object (lookup_key k (make_map fs)) ≡ none
unfolding lookup_key as_object
missing k fs p = rw p refl

next_map-IsWhole : (k : Text) (m : Object) → IsWhole m → IsWhole (next_map k m)
unfolding next_map IsWhole AreWhole IsWholeValue
next_map-IsWhole k nil_map h = absurd h
next_map-IsWhole k (make_map fs) h = elim (Option-cases (lookup_fields k fs)) [
  | inl p ↦ rw (missing k fs p, next_map) tt
  | inr (v, p) ↦ elim (Value-cases v) [
    | inl (m, q) ↦
        rw (there k fs p ∙ ap (λ x. as_object (some x)) q, next_map)
          (unfold as_object in lookup-IsWhole k fs (object m) h (p ∙ ap some q))
    | inr q ↦ rw (there k fs p ∙ q, next_map) tt
  ]
]

pub copy_fields-eq : (fs : Fields) → copy_fields fs ≡ fs
unfolding copy_fields
copy_fields-eq no_fields = refl
copy_fields-eq (field k v fs) = ap (λ r. field k v r) (copy_fields-eq fs)

-- Setting a field in a nil map is setting it in a new one.
set_keys_nil :
    (k : Text) (ks : List Text) (v : Value)
    → set_keys (k ∷ ks) v nil_map ≡ set_keys (k ∷ ks) v (make_map no_fields)
unfolding set_keys fresh_fields orig_next copy_fields
set_keys_nil k [] v = refl
set_keys_nil k (k' ∷ ks) v = unfold lookup_key in unfold lookup_fields in refl

next_map-orig :
    (k k' : Text) (ks : List Text) (v : Value) (m : Object)
    → set_keys (k' ∷ ks) v (next_map k m) ≡ set_keys (k' ∷ ks) v (orig_next k m)
unfolding next_map orig_next
next_map-orig k k' ks v m = elim (Option-cases (as_object (lookup_key k m))) [
  | inl p ↦ rw (p, next_map, orig_next) (sym (set_keys_nil k' ks v))
  | inr (n, p) ↦ rw (p, next_map, orig_next) refl
]

-- Where no map is nil, `WithField` writes what `SetField` would.
pub with_keys-IsWhole :
    (k : Text) (ks : List Text) (v : Value) (m : Object)
    → IsWhole m
    → IsWholeValue v
    → (m' : Object) × (with_keys (k ∷ ks) v m ≡ some m') × IsWhole m' × (m' ≡ set_keys (k ∷ ks) v m)
unfolding with_keys set_keys fresh_fields IsWhole
with_keys-IsWhole k ks v nil_map h w = absurd h
with_keys-IsWhole k [] v (make_map fs) h w = (
  make_map (insert_field k v fs),
  refl,
  insert_field-AreWhole k v fs w h,
  rw (copy_fields-eq fs) refl,
)
with_keys-IsWhole k (k' ∷ ks) v (make_map fs) h w =
    let (n, e, p, q) =
      with_keys-IsWhole k' ks v (next_map k (make_map fs)) (next_map-IsWhole k (make_map fs) h) w in
    (
      make_map (insert_field k (object n) fs),
      rw e refl,
      insert_field-AreWhole k (object n) fs p h,
      rw (q, next_map-orig, copy_fields-eq fs) refl,
    )

pub empty-IsWhole : IsWhole (make_map no_fields)
unfolding IsWhole
empty-IsWhole = tt
