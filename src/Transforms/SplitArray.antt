-- ===== src/Transforms/SplitArray.antt =====
-- internal/transform/split/array.go: one event for each element of an array.
use ggt.Prelude.{
  true, none, some, List, [], ◌∷◌, ◌≡◌, ◌≢◌, refl, ap, ◌∙◌, Text, codes, text_eq, if◌then◌else◌,
}
use ggt.Value.{Value}
use ggt.Event.{Event, path_keys, get_field, set_field, remove_field, clone}
use ggt.Event.Paths.{diverges}
use ggt.Event.Laws.{
  get-set_field_self, get-set_field_ne, get-remove_field_self, get-remove_field_ne,
}
use ggt.Event.Copies.{clone-eq}
use ggt.Pipeline.{Payload, one, many, Result, ok, err, failure}
use ggt.Transforms.{Raw, empty_raw, undecodable, decoded, Configured, refused, configured}
use ggt.Transforms.Items.{elements, is_null, elements_not_null}

pub record Config : Type 0 where
  pub field : Text
  pub key : Text

unfoldable pub configure : Raw Config → Configured Config
configure empty_raw = refused (codes "split array configuration required")
configure (undecodable e) = refused e
configure (decoded cfg) =
    if text_eq cfg.field []
    then refused (codes "field path is required")
    else configured (record cfg { key = if text_eq cfg.key [] then codes "value" else cfg.key })

-- one event of the loop over the elements
unfoldable pub element_event : Config → Event → Value → Event
element_event cfg e item = remove_field (set_field (clone e) cfg.key item) cfg.field

unfoldable pub element_events : Config → Event → List Value → List Event
element_events cfg e [] = []
element_events cfg e (v ∷ vs) = element_event cfg e v ∷ element_events cfg e vs

unfoldable pub split_value : Config → Event → Value → Result
split_value cfg e v = if is_null v then ok (many []) else elim (elements v) [
  | none ↦ err (failure (codes "field is not an array"))
  | some items ↦ ok (many (element_events cfg e items))
]

unfoldable pub execute : Config → Payload → Result
execute cfg (one e) = elim (get_field e cfg.field) [
  | none ↦ err (failure (codes "failed to get field: field does not exist"))
  | some v ↦ split_value cfg e v
]
execute cfg _ = err (failure (codes "unexpected payload type"))

-- Each event of a list stands for the element at its place: the key holds the element, the array
-- is gone, and a field that parts from both is what it is in the source event.
abbrev pub Splits : Config → Event → List Value → List Event → Type 0
Splits cfg e [] [] = Unit
Splits cfg e (v ∷ vs) (x ∷ xs) =
    (get_field x cfg.key ≡ some v)
    × (get_field x cfg.field ≡ none)
    × ((other : Text)
        → diverges (path_keys cfg.field) (path_keys other) ≡ true
        → diverges (path_keys cfg.key) (path_keys other) ≡ true
        → get_field x other ≡ get_field e other)
    × Splits cfg e vs xs
Splits cfg e _ _ = ⊥

element_events-Splits :
    (cfg : Config) (e : Event) (vs : List Value)
    → cfg.key ≢ []
    → diverges (path_keys cfg.field) (path_keys cfg.key) ≡ true
    → Splits cfg e vs (element_events cfg e vs)
unfolding element_events element_event
element_events-Splits cfg e [] n d = tt
element_events-Splits cfg e (v ∷ vs) n d =
    let e1 = set_field (clone e) cfg.key v in
    (
      get-remove_field_ne e1 cfg.field cfg.key d ∙ get-set_field_self (clone e) cfg.key v n,
      get-remove_field_self e1 cfg.field,
      λ other p q.
          get-remove_field_ne e1 cfg.field other p
          ∙ get-set_field_ne (clone e) cfg.key other v q
          ∙ ap (λ x. get_field x other) (clone-eq e),
      element_events-Splits cfg e vs n d,
    )

execute_elements :
    (cfg : Config) (e : Event) (v : Value) (vs : List Value)
    → get_field e cfg.field ≡ some v
    → elements v ≡ some vs
    → execute cfg (one e) ≡ ok (many (element_events cfg e vs))
unfolding execute split_value
execute_elements cfg e v vs g h =
    rw (g, execute) (rw (elements_not_null v vs h) (rw (h, split_value) refl))

-- If the path of the key is not empty and parts from that of the array field, the array is split into
-- one event for each element, in order, each with its element under the key and without the array;
-- fields that part from the two stay as they were.
pub execute-Splits :
    (cfg : Config) (e : Event) (v : Value) (vs : List Value)
    → get_field e cfg.field ≡ some v
    → elements v ≡ some vs
    → cfg.key ≢ []
    → diverges (path_keys cfg.field) (path_keys cfg.key) ≡ true
    → (xs : List Event) × (execute cfg (one e) ≡ ok (many xs)) × Splits cfg e vs xs
execute-Splits cfg e v vs g h n d =
    (element_events cfg e vs, execute_elements cfg e v vs g h, element_events-Splits cfg e vs n d)
