-- ===== src/Event.antt =====
-- pkg/event/event.go: the event, its copies, and the dotted paths into its payload. An operation
-- returns a new event. A header map that is nil is `none`.
pub mod Paths
pub mod Copies
pub mod Laws
pub mod Absent
pub mod Builder
use ggt.Prelude.{ℕ, Bool, true, false, Option, none, some, List, [], ◌∷◌, Text, ◌==◌, if◌then◌else◌}
use ggt.Prelude.Int.{ℤ}
use ggt.Prelude.Dict.{Dict}
use ggt.Value.{
  Value, Slice, Items, Object, Fields, slice, object, nil_slice, make_slice, no_items, item,
  nil_map, make_map, no_fields, field, lookup_key, insert_field, delete_field, as_object,
}

pub record Metadata : Type 0 where
  pub topic : Text
  pub partition : ℤ
  pub offset : ℤ
  pub key : Option (List ℕ)

pub record Event : Type 0 where
  pub payload : Object
  pub metadata : Metadata
  pub timestamp : ℕ
  pub headers : Option (Dict Text)

copy_entries : Dict Text → Dict Text
copy_entries [] = []
copy_entries ((k, v) ∷ m) = (k, v) ∷ copy_entries m

pub clone_string_map : Option (Dict Text) → Option (Dict Text)
unfolding copy_entries
clone_string_map none = none
clone_string_map (some m) = some (copy_entries m)

copy_bytes : List ℕ → List ℕ
copy_bytes [] = []
copy_bytes (b ∷ bs) = b ∷ copy_bytes bs

clone_key : Option (List ℕ) → Option (List ℕ)
unfolding copy_bytes
clone_key none = none
clone_key (some key) = some (copy_bytes key)

pub clone_metadata : Metadata → Metadata
unfolding clone_key
clone_metadata meta = record meta { key = clone_key meta.key }

unfoldable pub copy_fields : Fields → Fields
copy_fields no_fields = no_fields
copy_fields (field k v fs) = field k v (copy_fields fs)

clone_map_shallow : Object → Object
unfolding copy_fields
clone_map_shallow nil_map = nil_map
clone_map_shallow (make_map fs) = make_map (copy_fields fs)

unfoldable mutual
  pub deep_copy_value : Value → Value
  deep_copy_value (object m) = object (deep_copy_map m)
  deep_copy_value (slice s) = slice (deep_copy_slice s)
  deep_copy_value v = v

  pub deep_copy_map : Object → Object
  deep_copy_map nil_map = nil_map
  deep_copy_map (make_map fs) = make_map (deep_copy_fields fs)

  pub deep_copy_fields : Fields → Fields
  deep_copy_fields no_fields = no_fields
  deep_copy_fields (field k v fs) = field k (deep_copy_value v) (deep_copy_fields fs)

  pub deep_copy_slice : Slice → Slice
  deep_copy_slice nil_slice = nil_slice
  deep_copy_slice (make_slice xs) = make_slice (deep_copy_items xs)

  pub deep_copy_items : Items → Items
  deep_copy_items no_items = no_items
  deep_copy_items (item v xs) = item (deep_copy_value v) (deep_copy_items xs)

unfoldable pub clone : Event → Event
unfolding clone_metadata clone_string_map deep_copy_value
clone e = record {
  payload = deep_copy_map e.payload;
  metadata = clone_metadata e.metadata;
  timestamp = e.timestamp;
  headers = clone_string_map e.headers;
}

-- `strings.Split(s, sep)` at a separator of one byte; the result is never empty
abbrev glue : ℕ → List Text → List Text
glue c [] = (c ∷ []) ∷ []
glue c (w ∷ ws) = (c ∷ w) ∷ ws

unfoldable pub split : ℕ → Text → List Text
split sep [] = [] ∷ []
split sep (c ∷ s) = let rest = split sep s in if c == sep then [] ∷ rest else glue c rest

abbrev pub path_keys : Text → List Text
path_keys path = split b'.' path

-- the loop of `GetField`, over the keys of the path
unfoldable pub get_keys : List Text → Object → Option Value
get_keys [] m = none
get_keys (k ∷ []) m = lookup_key k m
get_keys (k ∷ k' ∷ ks) m = elim (as_object (lookup_key k m)) [
  | none ↦ none
  | some nested ↦ get_keys (k' ∷ ks) nested
]

unfoldable pub get_field : Event → Text → Option Value
get_field e [] = none
get_field e (c ∷ path) = elim e.payload [
  | nil_map ↦ none
  | make_map fs ↦ get_keys (path_keys (c ∷ path)) (make_map fs)
]

-- a shallow clone, or a new map where the original is nil
fresh_fields : Object → Fields
unfolding copy_fields
fresh_fields nil_map = no_fields
fresh_fields (make_map fs) = copy_fields fs

-- `origNext`: nil where the key is missing or holds no map
orig_next : Text → Object → Object
orig_next k m = elim (as_object (lookup_key k m)) [ none ↦ nil_map | some nested ↦ nested ]

-- the loop of `SetField`: each map on the path is cloned, and the last one is written
unfoldable pub set_keys : List Text → Value → Object → Object
unfolding fresh_fields orig_next
set_keys [] v m = make_map (fresh_fields m)
set_keys (k ∷ []) v m = make_map (insert_field k v (fresh_fields m))
set_keys (k ∷ k' ∷ ks) v m =
    let next = set_keys (k' ∷ ks) v (orig_next k m) in
    make_map (insert_field k (object next) (fresh_fields m))

unfoldable pub set_field : Event → Text → Value → Event
unfolding clone_metadata clone_string_map
set_field e [] v = e
set_field e (c ∷ path) v = record {
  payload = set_keys (path_keys (c ∷ path)) v e.payload;
  metadata = clone_metadata e.metadata;
  timestamp = e.timestamp;
  headers = clone_string_map e.headers;
}

-- the first loop of `RemoveField`: the path can be walked, and its last key is there
unfoldable pub has_keys : List Text → Object → Bool
has_keys [] m = true
has_keys (k ∷ []) m = elim (lookup_key k m) [ none ↦ false | some _ ↦ true ]
has_keys (k ∷ k' ∷ ks) m = elim (as_object (lookup_key k m)) [
  | none ↦ false
  | some nested ↦ has_keys (k' ∷ ks) nested
]

-- the second loop of `RemoveField`
unfoldable pub remove_keys : List Text → Object → Object
unfolding fresh_fields orig_next
remove_keys [] m = make_map (fresh_fields m)
remove_keys (k ∷ []) m = make_map (delete_field k (fresh_fields m))
remove_keys (k ∷ k' ∷ ks) m =
    let next = remove_keys (k' ∷ ks) (orig_next k m) in
    make_map (insert_field k (object next) (fresh_fields m))

remove_present : Event → List Text → Event
unfolding clone_metadata clone_string_map
remove_present e keys =
    if has_keys keys e.payload
    then record {
      payload = remove_keys keys e.payload;
      metadata = clone_metadata e.metadata;
      timestamp = e.timestamp;
      headers = clone_string_map e.headers;
    }
    else e

unfoldable pub remove_field : Event → Text → Event
unfolding remove_present
remove_field e [] = e
remove_field e (c ∷ path) = elim e.payload [
  | nil_map ↦ e
  | make_map _ ↦ remove_present e (path_keys (c ∷ path))
]
