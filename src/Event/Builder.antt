-- ===== src/Event/Builder.antt =====
-- pkg/event/builder.go: building an event for tests and examples. A builder's maps are values here,
-- which is what the code does as long as no map of the payload is shared: not with a map that a caller
-- passes to two calls or writes to itself, and not with an event that was built. `none` stands for the
-- panic of a write to a nil map.
pub mod Whole
pub mod Timeless
pub mod Built
use ggt.Prelude.{Bool, true, false, ℕ, Option, none, some, List, [], ◌∷◌, Text, if◌then◌else◌}
use ggt.Prelude.Int.{ℤ, pos}
use ggt.Prelude.Dict.{Dict, insert}
use ggt.Value.{
  Value, Object, Fields, field, time, nil_map, make_map, no_fields, object, insert_field,
  lookup_key, as_object, lookup_fields,
}
use ggt.Event.{Event, Metadata, path_keys, clone_metadata, clone_string_map, split}

pub record Builder : Type 0 where
  pub event : Event

-- the time is an argument
unfoldable pub new_builder : ℕ → Builder
new_builder now = record {
  event = record {
    payload = make_map no_fields;
    metadata = record { topic = []; partition = pos 0; offset = pos 0; key = none };
    timestamp = now;
    headers = some [];
  };
}

abbrev pub drop_empty : List Text → List Text
drop_empty [] = []
drop_empty ([] ∷ ks) = drop_empty ks
drop_empty ((c ∷ k) ∷ ks) = (c ∷ k) ∷ drop_empty ks

unfoldable pub split_path : Text → List Text
unfolding split
split_path [] = []
split_path (c ∷ path) = drop_empty (path_keys (c ∷ path))

abbrev pub put : Text → Option Object → Object → Option Object
put k none m = none
put k (some next) nil_map = none
put k (some next) (make_map fs) = some (make_map (insert_field k (object next) fs))

-- the map to go on with, a new one where there is none
unfoldable pub next_map : Text → Object → Object
next_map k m = elim (as_object (lookup_key k m)) [
  | none ↦ make_map no_fields
  | some nested ↦ nested
]

-- the loop of `WithField`: the maps on the path are written in place
unfoldable pub with_keys : List Text → Value → Object → Option Object
unfolding next_map
with_keys [] v m = some m
with_keys (k ∷ []) v nil_map = none
with_keys (k ∷ []) v (make_map fs) = some (make_map (insert_field k v fs))
with_keys (k ∷ k' ∷ ks) v m = put k (with_keys (k' ∷ ks) v (next_map k m)) m

unfoldable pub with_field : Text → Value → Builder → Option Builder
unfolding with_keys split_path
with_field path v b = elim (with_keys (split_path path) v b.event.payload) [
  | none ↦ none
  | some m ↦ some (record { event = record b.event { payload = m } })
]

abbrev copied : Object → Object
copied nil_map = make_map no_fields
copied (make_map fs) = make_map fs

unfoldable pub with_payload : Object → Builder → Builder
with_payload m b = record { event = record b.event { payload = copied m } }

unfoldable pub with_metadata : Metadata → Builder → Builder
with_metadata meta b = record { event = record b.event { metadata = clone_metadata meta } }

unfoldable pub with_topic : Text → Builder → Builder
with_topic topic b = record {
  event = record b.event { metadata = record b.event.metadata { topic = topic } };
}

unfoldable pub with_partition : ℤ → Builder → Builder
with_partition p b = record {
  event = record b.event { metadata = record b.event.metadata { partition = p } };
}

unfoldable pub with_offset : ℤ → Builder → Builder
with_offset n b = record {
  event = record b.event { metadata = record b.event.metadata { offset = n } };
}

-- a key that is nil becomes one that is empty
abbrev bytes_of : Option (List ℕ) → List ℕ
bytes_of none = []
bytes_of (some key) = key

unfoldable pub with_key : Option (List ℕ) → Builder → Builder
with_key key b = record {
  event = record b.event { metadata = record b.event.metadata { key = some (bytes_of key) } };
}

unfoldable pub with_headers : Option (Dict Text) → Builder → Builder
with_headers headers b = record {
  event = record b.event { headers = some (elim headers [ none ↦ [] | some m ↦ m ]) };
}

unfoldable pub with_header : Text → Text → Builder → Option Builder
with_header k v b = elim b.event.headers [
  | none ↦ none
  | some m ↦ some (record { event = record b.event { headers = some (insert k v m) } })
]

unfoldable pub with_timestamp : ℕ → Builder → Builder
with_timestamp t b = record { event = record b.event { timestamp = t } }

-- `deepCopyValue`, of a value at the top of the payload. A copy has the value of the original, but
-- the fields of a struct that are not exported are left out: a time becomes the zero time, 0 here.
unfoldable pub deep_copy_value : Value → Value
deep_copy_value (time t) = time 0
deep_copy_value v = v

unfoldable pub copy_payload : Fields → Fields
unfolding deep_copy_value
copy_payload no_fields = no_fields
copy_payload (field k v fs) = field k (deep_copy_value v) (copy_payload fs)

abbrev pub copied_payload : Object → Object
copied_payload nil_map = nil_map
copied_payload (make_map fs) = make_map (copy_payload fs)

-- `Build`: every part is copied
unfoldable pub build : Builder → Event
unfolding copy_payload
build b = record {
  payload = copied_payload b.event.payload;
  metadata = clone_metadata b.event.metadata;
  timestamp = b.event.timestamp;
  headers = clone_string_map b.event.headers;
}
