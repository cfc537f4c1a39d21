-- ===== src/Transforms/SplitFilter.antt =====
-- internal/transform/filter/split.go: one event for each element of an array, numbered.
use ggt.Prelude.{
  ℕ, Bool, true, none, some, List, [], ◌∷◌, ◌+◌, ◌≡◌, ◌≢◌, refl, ◌∙◌, Text, codes, text_eq,
  text_eq_iff, arith, if◌then◌else◌,
}
use ggt.Value.{Value}
use ggt.Event.{Event, path_keys, get_field, set_field, remove_field}
use ggt.Event.Paths.{diverges}
use ggt.Event.Laws.{get-set_field_self, get-set_field_ne, get-remove_field_ne}
use ggt.Pipeline.{Payload, one, many, nothing, Result, ok, err, failure, drop}
use ggt.Worker.{decimal, header}
use ggt.Transforms.{
  Raw, empty_raw, undecodable, decoded, Configured, refused, configured, set_header,
}
use ggt.Transforms.Headers.{header-set_header}
use ggt.Transforms.Items.{elements, is_null, elements_not_null}

pub record Config : Type 0 where
  pub field : Text
  pub target : Text
  pub drop_empty : Bool

unfoldable pub configure : Raw Config → Configured Config
configure empty_raw = refused (codes "split configuration required")
configure (undecodable e) = refused e
configure (decoded cfg) =
    if text_eq cfg.field [] then refused (codes "field path is required") else configured cfg

unfoldable pub target_field : Config → Text
target_field cfg = if text_eq cfg.target [] then cfg.field else cfg.target

unfoldable pub element_event : Config → Event → ℕ → Value → Event
element_event cfg e i item =
    set_header (codes "_split_index") (decimal i)
      (set_field (remove_field e cfg.field) (target_field cfg) item)

unfoldable pub element_events : Config → Event → ℕ → List Value → List Event
element_events cfg e i [] = []
element_events cfg e i (v ∷ vs) = element_event cfg e i v ∷ element_events cfg e (i + 1) vs

-- no element, or no value
abbrev dropped : Config → Payload → Result
dropped cfg p = if cfg.drop_empty then err drop else ok p

unfoldable pub split_elements : Config → Event → List Value → Result
split_elements cfg e [] = dropped cfg (many [])
split_elements cfg e (v ∷ vs) = ok (many (element_events cfg e 0 (v ∷ vs)))

unfoldable pub split_value : Config → Event → Value → Result
split_value cfg e v = if is_null v then dropped cfg nothing else elim (elements v) [
  | none ↦ err (failure (codes "field is not an array"))
  | some items ↦ split_elements cfg e items
]

unfoldable pub execute : Config → Payload → Result
execute cfg (one e) = elim (get_field e cfg.field) [
  | none ↦ dropped cfg nothing
  | some v ↦ split_value cfg e v
]
execute cfg _ = err (failure (codes "unexpected payload type"))

-- Each event of a list stands for the element at its place: the target holds the element, the
-- header `_split_index` its index from `i` on, and a field that parts from both paths is what it
-- is in the source event.
abbrev pub Numbered : Config → Event → ℕ → List Value → List Event → Type 0
Numbered cfg e i [] [] = Unit
Numbered cfg e i (v ∷ vs) (x ∷ xs) =
    (get_field x (target_field cfg) ≡ some v)
    × (header (codes "_split_index") x.headers ≡ decimal i)
    × ((other : Text)
        → diverges (path_keys cfg.field) (path_keys other) ≡ true
        → diverges (path_keys (target_field cfg)) (path_keys other) ≡ true
        → get_field x other ≡ get_field e other)
    × Numbered cfg e (i + 1) vs xs
Numbered cfg e i _ _ = ⊥

get_field-set_header :
    (k v : Text) (e : Event) (path : Text) → get_field (set_header k v e) path ≡ get_field e path
unfolding get_field
get_field-set_header k v e [] = refl
get_field-set_header k v e (c ∷ path) = unfold set_header in refl

element_events-Numbered :
    (cfg : Config) (e : Event) (i : ℕ) (vs : List Value)
    → target_field cfg ≢ []
    → Numbered cfg e i vs (element_events cfg e i vs)
unfolding element_events element_event
element_events-Numbered cfg e i [] n = tt
element_events-Numbered cfg e i (v ∷ vs) n =
    let e1 = remove_field e cfg.field in
    let e2 = set_field e1 (target_field cfg) v in
    let k = codes "_split_index" in
    (
      get_field-set_header k (decimal i) e2 (target_field cfg)
          ∙ get-set_field_self e1 (target_field cfg) v n,
      header-set_header k (decimal i) e2,
      λ other p q.
          get_field-set_header k (decimal i) e2 other
          ∙ get-set_field_ne e1 (target_field cfg) other v q
          ∙ get-remove_field_ne e cfg.field other p,
      element_events-Numbered cfg e (i + 1) vs n,
    )

target_nonempty : (cfg : Config) → configure (decoded cfg) ≡ configured cfg → target_field cfg ≢ []
unfolding configure target_field
target_nonempty cfg c h = ground (arith, text_eq_iff cfg.field [], text_eq_iff cfg.target [])

execute_elements :
    (cfg : Config) (e : Event) (v w : Value) (vs : List Value)
    → get_field e cfg.field ≡ some v
    → elements v ≡ some (w ∷ vs)
    → execute cfg (one e) ≡ ok (many (element_events cfg e 0 (w ∷ vs)))
unfolding execute split_value split_elements
execute_elements cfg e v w vs g h =
    rw (g, execute) (rw (elements_not_null v (w ∷ vs) h) (rw (h, split_value) refl))

-- Under an accepted configuration a field with an array that is not empty is split into one event
-- for each element, in order, each with its element at the target, which is the field itself
-- where none is configured, and its index in a header; fields that part from the two stay as they
-- were.
pub execute-Numbered :
    (cfg : Config) (e : Event) (v w : Value) (vs : List Value)
    → configure (decoded cfg) ≡ configured cfg
    → get_field e cfg.field ≡ some v
    → elements v ≡ some (w ∷ vs)
    → (xs : List Event) × (execute cfg (one e) ≡ ok (many xs)) × Numbered cfg e 0 (w ∷ vs) xs
execute-Numbered cfg e v w vs c g h = (
  element_events cfg e 0 (w ∷ vs),
  execute_elements cfg e v w vs g h,
  element_events-Numbered cfg e 0 (w ∷ vs) (target_nonempty cfg c),
)
