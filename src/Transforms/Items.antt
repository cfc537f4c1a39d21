-- ===== src/Transforms/Items.antt =====
-- What `reflect` makes of a value that is a slice: its elements, as values
-- (internal/transform/split/array.go, internal/transform/filter/split.go). The source takes every
-- slice type; the values of a payload in this model have two, []interface{} and []string.
use ggt.Prelude.{Bool, true, false, Option, none, some, List, [], ◌∷◌, ◌≡◌, refl, Text}
use ggt.Value.{Value, Items, null, str, strings, slice, nil_slice, make_slice, no_items, item}

list_items : Items → List Value
list_items no_items = []
list_items (item v xs) = v ∷ list_items xs

string_items : List Text → List Value
string_items [] = []
string_items (s ∷ ss) = str s ∷ string_items ss

-- `none` where the kind is no slice
unfoldable pub elements : Value → Option (List Value)
unfolding list_items string_items
elements (slice nil_slice) = some []
elements (slice (make_slice xs)) = some (list_items xs)
elements (strings ss) = some (string_items ss)
elements _ = none

-- `v == nil`
unfoldable pub is_null : Value → Bool
is_null null = true
is_null _ = false

pub elements_not_null : (v : Value) (vs : List Value) → elements v ≡ some vs → is_null v ≡ false
unfolding elements is_null
elements_not_null null vs h = cc
elements_not_null (slice s) vs h = refl
elements_not_null (strings ss) vs h = refl
elements_not_null _ vs h = cc
