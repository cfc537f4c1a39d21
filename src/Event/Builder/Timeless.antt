-- ===== src/Event/Builder/Timeless.antt =====
-- Payloads without times, which `Build` copies as they are (pkg/event/builder.go).
use ggt.Prelude.{List, [], ◌∷◌, ◌≡◌, refl, Text, text_eq, Bool-cases, inl, inr}
use ggt.Value.{
  Value, Object, Fields, nil_map, make_map, no_fields, field, object, insert_field, null, bool, int,
  float32, float64, float64_ptr, str, time, strings, slice,
}
use ggt.Event.{set_keys, fresh_fields}
use ggt.Event.Builder.{deep_copy_value, copy_payload}
use ggt.Event.Builder.Whole.{copy_fields-eq}

-- No value at the top of the payload is a time.
abbrev pub IsTimeless : Value → Type 0
IsTimeless (time t) = ⊥
IsTimeless _ = Unit

abbrev pub AreTimeless : Fields → Type 0
AreTimeless no_fields = Unit
AreTimeless (field k v fs) = IsTimeless v × AreTimeless fs

abbrev pub HasNoTime : Object → Type 0
HasNoTime nil_map = Unit
HasNoTime (make_map fs) = AreTimeless fs

insert_field-AreTimeless :
    (k : Text) (v : Value) (fs : Fields)
    → IsTimeless v
    → AreTimeless fs
    → AreTimeless (insert_field k v fs)
unfolding insert_field
insert_field-AreTimeless k v no_fields p h = (p, tt)
insert_field-AreTimeless k v (field j w fs) p h = elim (Bool-cases (text_eq j k)) [
  | inl same ↦ rw (same, insert_field) (p, h.1)
  | inr other ↦ rw (other, insert_field) (h.0, insert_field-AreTimeless k v fs p h.1)
]

pub set_keys-HasNoTime :
    (k : Text) (ks : List Text) (v : Value) (m : Object)
    → IsTimeless v
    → HasNoTime m
    → HasNoTime (set_keys (k ∷ ks) v m)
unfolding set_keys fresh_fields
set_keys-HasNoTime k [] v nil_map w h = insert_field-AreTimeless k v no_fields w tt
set_keys-HasNoTime k [] v (make_map fs) w h =
    rw (copy_fields-eq fs) (insert_field-AreTimeless k v fs w h)
set_keys-HasNoTime k (k' ∷ ks) v nil_map w h = insert_field-AreTimeless k _ no_fields tt tt
set_keys-HasNoTime k (k' ∷ ks) v (make_map fs) w h =
    rw (copy_fields-eq fs) (insert_field-AreTimeless k _ fs tt h)

deep_copy_value-IsTimeless : (v : Value) → IsTimeless v → deep_copy_value v ≡ v
unfolding deep_copy_value
deep_copy_value-IsTimeless null h = refl
deep_copy_value-IsTimeless (bool b) h = refl
deep_copy_value-IsTimeless (int k z) h = refl
deep_copy_value-IsTimeless (float32 x) h = refl
deep_copy_value-IsTimeless (float64 x) h = refl
deep_copy_value-IsTimeless (float64_ptr x) h = refl
deep_copy_value-IsTimeless (str s) h = refl
deep_copy_value-IsTimeless (time t) h = absurd h
deep_copy_value-IsTimeless (strings ts) h = refl
deep_copy_value-IsTimeless (slice xs) h = refl
deep_copy_value-IsTimeless (object m) h = refl

pub copy_payload-AreTimeless : (fs : Fields) → AreTimeless fs → copy_payload fs ≡ fs
unfolding copy_payload
copy_payload-AreTimeless no_fields h = refl
copy_payload-AreTimeless (field k v fs) (h, hs) =
    rw (copy_payload-AreTimeless fs hs, deep_copy_value-IsTimeless v h) refl
