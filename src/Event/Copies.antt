-- ===== src/Event/Copies.antt =====
-- `Clone` and the copies of metadata and headers reproduce what they copy (pkg/event/event.go).
use ggt.Prelude.{ℕ, Option, none, some, List, [], ◌∷◌, Text, ◌≡◌, refl}
use ggt.Prelude.Dict.{Dict}
use ggt.Value.{
  Value, Slice, Items, Object, Fields, null, bool, int, float32, float64, float64_ptr, str, time,
  strings, slice, object, nil_slice, make_slice, no_items, item, nil_map, make_map, no_fields,
  field,
}
use ggt.Event.{
  Metadata, Event, copy_entries, clone_string_map, copy_bytes, clone_key, clone_metadata,
  deep_copy_value, deep_copy_map, deep_copy_fields, deep_copy_slice, deep_copy_items, clone,
}

copy_entries-eq : (m : Dict Text) → copy_entries m ≡ m
unfolding copy_entries
copy_entries-eq [] = refl
copy_entries-eq ((k, v) ∷ m) = rw (copy_entries-eq m)

pub clone_string_map-eq : (m : Option (Dict Text)) → clone_string_map m ≡ m
unfolding clone_string_map
clone_string_map-eq none = refl
clone_string_map-eq (some m) = rw (copy_entries-eq m)

copy_bytes-eq : (bs : List ℕ) → copy_bytes bs ≡ bs
unfolding copy_bytes
copy_bytes-eq [] = refl
copy_bytes-eq (b ∷ bs) = rw (copy_bytes-eq bs)

clone_key-eq : (k : Option (List ℕ)) → clone_key k ≡ k
unfolding clone_key
clone_key-eq none = refl
clone_key-eq (some k) = rw (copy_bytes-eq k)

pub clone_metadata-eq : (meta : Metadata) → clone_metadata meta ≡ meta
unfolding clone_metadata
clone_metadata-eq meta = rw (clone_key-eq meta.key)

mutual
  unfolding deep_copy_value

  value-eq : (v : Value) → deep_copy_value v ≡ v
  value-eq (object m) = rw (map-eq m)
  value-eq (slice s) = rw (slice-eq s)
  value-eq null = refl
  value-eq (bool b) = refl
  value-eq (int k n) = refl
  value-eq (float32 x) = refl
  value-eq (float64 x) = refl
  value-eq (float64_ptr x) = refl
  value-eq (str s) = refl
  value-eq (time t) = refl
  value-eq (strings ss) = refl

  map-eq : (m : Object) → deep_copy_map m ≡ m
  map-eq nil_map = refl
  map-eq (make_map fs) = rw (fields-eq fs)

  fields-eq : (fs : Fields) → deep_copy_fields fs ≡ fs
  fields-eq no_fields = refl
  fields-eq (field k v fs) = rw (value-eq v, fields-eq fs)

  slice-eq : (s : Slice) → deep_copy_slice s ≡ s
  slice-eq nil_slice = refl
  slice-eq (make_slice xs) = rw (items-eq xs)

  items-eq : (xs : Items) → deep_copy_items xs ≡ xs
  items-eq no_items = refl
  items-eq (item v xs) = rw (value-eq v, items-eq xs)

pub deep_copy_map-eq : (m : Object) → deep_copy_map m ≡ m
deep_copy_map-eq m = map-eq m

-- A clone has the payload, at every depth and with nil kept apart from empty, the metadata, the
-- timestamp and the headers of the event that it was made from.
pub clone-eq : (e : Event) → clone e ≡ e
unfolding clone
clone-eq e =
    rw (deep_copy_map-eq e.payload, clone_metadata-eq e.metadata, clone_string_map-eq e.headers)
