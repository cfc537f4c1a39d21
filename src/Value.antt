-- ===== src/Value.antt =====
-- The dynamic values of a payload (pkg/event/event.go): what a decoded JSON document, and the
-- transforms that write into one, put behind `interface{}`. A map that is nil and a map with no
-- entry are two values, and so are the two slices. A float is its bit pattern, a time its
-- nanoseconds.
use ggt.Prelude.{
  ℕ, Bool, Option, none, some, List, Text, text_eq, text_eq_iff, ◌≡◌, refl, arith, if◌then◌else◌,
}
use ggt.Prelude.Int.{ℤ}

pub data IntKind : Type 0 where
  kint kint8 kint16 kint32 kint64 kuint kuint8 kuint16 kuint32 kuint64 : IntKind

mutual
  pub data Value : Type 0 where
    null : Value
    bool : Bool → Value
    int : IntKind → ℤ → Value
    float32 : ℕ → Value
    float64 : ℕ → Value
    float64_ptr : Option ℕ → Value
    str : Text → Value
    time : ℕ → Value
    strings : List Text → Value
    slice : Slice → Value
    object : Object → Value

  pub data Slice : Type 0 where
    nil_slice : Slice
    make_slice : Items → Slice

  pub data Items : Type 0 where
    no_items : Items
    item : Value → Items → Items

  pub data Object : Type 0 where
    nil_map : Object
    make_map : Fields → Object

  pub data Fields : Type 0 where
    no_fields : Fields
    field : Text → Value → Fields → Fields

-- `m[k]`, on a nil map too.
unfoldable pub lookup_fields : Text → Fields → Option Value
lookup_fields k no_fields = none
lookup_fields k (field j v fs) = if text_eq j k then some v else lookup_fields k fs

unfoldable pub lookup_key : Text → Object → Option Value
lookup_key k nil_map = none
lookup_key k (make_map fs) = lookup_fields k fs

-- `m[k] = v`
unfoldable pub insert_field : Text → Value → Fields → Fields
insert_field k v no_fields = field k v no_fields
insert_field k v (field j w fs) =
    if text_eq j k then field j v fs else field j w (insert_field k v fs)

-- `delete(m, k)`
unfoldable pub delete_field : Text → Fields → Fields
delete_field k no_fields = no_fields
delete_field k (field j w fs) =
    let rest = delete_field k fs in if text_eq j k then rest else field j w rest

-- `v.(map[string]interface{})`, on the result of a map access
unfoldable pub as_object : Option Value → Option Object
as_object (some (object m)) = some m
as_object _ = none

pub lookup-insert_field :
    (k j : Text) (v : Value) (fs : Fields)
    → lookup_fields j (insert_field k v fs) ≡ (if text_eq k j then some v else lookup_fields j fs)
unfolding lookup_fields insert_field
lookup-insert_field k j v no_fields = refl
lookup-insert_field k j v (field i w fs) =
    ground (arith, text_eq_iff k j, text_eq_iff i k, text_eq_iff i j, lookup-insert_field k j v fs)

pub lookup-delete_field :
    (k j : Text) (fs : Fields)
    → lookup_fields j (delete_field k fs) ≡ (if text_eq k j then none else lookup_fields j fs)
unfolding lookup_fields delete_field
lookup-delete_field k j no_fields = ground arith
lookup-delete_field k j (field i w fs) =
    ground (arith, text_eq_iff k j, text_eq_iff i k, text_eq_iff i j, lookup-delete_field k j fs)

pub insert-insert_field :
    (k : Text) (v w : Value) (fs : Fields)
    → insert_field k w (insert_field k v fs) ≡ insert_field k w fs
unfolding insert_field
insert-insert_field k v w no_fields = ground (arith, text_eq_iff k k)
insert-insert_field k v w (field i x fs) =
    ground (arith, text_eq_iff i k, insert-insert_field k v w fs)
