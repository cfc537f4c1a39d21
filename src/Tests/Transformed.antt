-- ===== src/Tests/Transformed.antt =====
-- Transforms on a concrete event (internal/transform).
use ggt.Prelude.{
  true, false, Option, none, some, List, [], ◌∷◌, ◌++◌, ◌≡◌, refl, inr, ◌⊎◌, Text, codes, text_eq,
}
use ggt.Prelude.Int.{pos}
use ggt.Value.{
  Value, str, bool, slice, make_slice, item, no_items, make_map, no_fields, field, lookup_key,
  lookup_fields, as_object,
}
use ggt.Event.{Event, path_keys, get_field, get_keys, split}
use ggt.Event.Paths.{diverges}
use ggt.Pipeline.{Payload, one, many, ok}
use ggt.Worker.{PipelineInfo, wants_dlq, send_topic}
use ggt.Transforms.{decoded, configured}
use ggt.Transforms.Extract.{execute_moved, execute_below_lost}
use ggt.Transforms.Extract
use ggt.Transforms.Remove.{execute-Gone, Gone, Apart}
use ggt.Transforms.Remove
use ggt.Transforms.Rename.{single, execute_renamed, execute_self_lost}
use ggt.Transforms.Rename
use ggt.Transforms.Split as Split
use ggt.Transforms.Join as Join
use ggt.Transforms.Join.Parts.{get-join_split}
use ggt.Transforms.Items.{elements}
use ggt.Transforms.SplitArray.{execute-Splits, Splits}
use ggt.Transforms.SplitArray
use ggt.Transforms.SplitFilter.{execute-Numbered, Numbered}
use ggt.Transforms.SplitFilter
use ggt.Transforms.Route.{Condition, RouteConfig, CompiledRoute, Routes, with_headers}
use ggt.Transforms.Route
use ggt.Transforms.Route.Chosen.{Chosen, execute-Chosen}
use ggt.Transforms.Required.Missing.{Present, execute_dlq}
use ggt.Transforms.Required

abbrev a : Text
a = codes "a"

abbrev b : Text
b = codes "b"

abbrev below : Text
below = codes "a.b"

abbrev x : Value
x = str (codes "x")

abbrev y : Value
y = bool true

abbrev array : Value
array = slice (make_slice (item x (item y no_items)))

abbrev with_field : Value → Event
with_field v = record {
  payload = make_map (field a v no_fields);
  metadata = record { topic = codes "in"; partition = pos 0; offset = pos 7; key = none };
  timestamp = 5;
  headers = none;
}

there : get_field (with_field x) a ≡ some x
unfolding get_field get_keys split lookup_key lookup_fields text_eq
there = refl

array_there : get_field (with_field array) a ≡ some array
unfolding get_field get_keys split lookup_key lookup_fields text_eq
array_there = refl

b_free : get_field (with_field x) b ≡ none
unfolding get_field get_keys split lookup_key lookup_fields text_eq
b_free = refl

below_free : get_field (with_field x) below ≡ none
unfolding get_field get_keys split lookup_key as_object lookup_fields text_eq
below_free = refl

apart : diverges (path_keys a) (path_keys b) ≡ true
unfolding diverges split text_eq
apart = refl

abbrev to_b : Extract.Config
to_b = record { source = a; target = b; overwrite = false }

execute_moved_example :
    (e' : Event) × (Extract.execute to_b (one (with_field x)) ≡ ok (one e'))
    × (get_field e' b ≡ some x)
    × (get_field e' a ≡ none)
    × ((other : Text)
        → diverges (path_keys a) (path_keys other) ≡ true
        → diverges (path_keys b) (path_keys other) ≡ true
        → get_field e' other ≡ get_field (with_field x) other)
execute_moved_example = execute_moved to_b (with_field x) x there (inr b_free) (λ h. cc) apart

abbrev inside : Extract.Config
inside = record { source = a; target = below; overwrite = false }

accepted_inside : Extract.configure (decoded inside) ≡ configured inside
unfolding Extract.configure text_eq
accepted_inside = refl

keys_below : path_keys below ≡ path_keys a ++ b ∷ []
unfolding split
keys_below = refl

abbrev both : Remove.Config
both = record { fields = below ∷ a ∷ [] }

execute-Gone_example :
    (e' : Event) × (Remove.execute both (one (with_field x)) ≡ ok (one e'))
    × Gone e' (below ∷ a ∷ [])
    × ((other : Text)
        → Apart other (below ∷ a ∷ [])
        → get_field e' other ≡ get_field (with_field x) other)
execute-Gone_example = execute-Gone both (with_field x)

elements-array : elements array ≡ some (x ∷ y ∷ [])
unfolding elements
elements-array = refl

abbrev by_key : SplitArray.Config
by_key = record { field = a; key = b }

execute-Splits_example :
    (xs : List Event) × (SplitArray.execute by_key (one (with_field array)) ≡ ok (many xs))
    × Splits by_key (with_field array) (x ∷ y ∷ []) xs
execute-Splits_example =
    execute-Splits by_key (with_field array) array (x ∷ y ∷ []) array_there elements-array (λ h. cc)
      apart

abbrev in_place : SplitFilter.Config
in_place = record { field = a; target = []; drop_empty = true }

accepted_in_place : SplitFilter.configure (decoded in_place) ≡ configured in_place
unfolding SplitFilter.configure text_eq
accepted_in_place = refl

execute-Numbered_example :
    (xs : List Event) × (SplitFilter.execute in_place (one (with_field array)) ≡ ok (many xs))
    × Numbered in_place (with_field array) 0 (x ∷ y ∷ []) xs
execute-Numbered_example =
    execute-Numbered in_place (with_field array) array x (y ∷ []) accepted_in_place array_there
      elements-array

abbrev always : Condition
always e = some true

abbrev parse : Text → Option Condition
parse s = some always

abbrev routing : RouteConfig
routing = record {
  conditions = record { condition = codes "1 == 1"; topic = codes "t" } ∷ [];
  default_topic = codes "d";
}

abbrev routes : Routes
routes = record {
  rules = record { cond = always; topic = codes "t" } ∷ [];
  default_topic = codes "d";
}

accepted_routing : Route.configure parse (decoded routing) ≡ configured routes
unfolding Route.configure Route.compile Route.compile_entry Route.topic_error text_eq
accepted_routing = refl

execute-Chosen_example :
    ((p : Payload)
      → Route.execute routes (one (with_field x)) ≡ ok p
      → (t : Text) × (e' : Event) × (p ≡ one e')
        × Chosen (with_headers (with_field x)) (codes "d") routes.rules t
        × (send_topic (codes "out") e' ≡ t))
    × ((t : Text)
        → Chosen (with_headers (with_field x)) (codes "d") routes.rules t
        → (e' : Event) × (Route.execute routes (one (with_field x)) ≡ ok (one e'))
          × (send_topic (codes "out") e' ≡ t))
execute-Chosen_example =
    execute-Chosen parse routing routes (codes "out") (with_field x) accepted_routing

abbrev info : PipelineInfo
info = record { execute = λ p. ok p; output_topic = codes "out"; dlq_topic = codes "dlq" }

abbrev need_b : Required.Config
need_b = record { fields = b ∷ []; on_error = codes "dlq" }

execute_dlq_example :
    (Present (with_field x) (b ∷ [])
      × (Required.execute need_b (one (with_field x)) ≡ ok (one (with_field x))))
    ⊎ ((Present (with_field x) (b ∷ []) → ⊥)
        × ((e' : Event) × (Required.execute need_b (one (with_field x)) ≡ ok (one e'))
            × (e'.payload ≡ (with_field x).payload)
            × (wants_dlq info e' ≡ true)))
execute_dlq_example = execute_dlq need_b info (with_field x) refl (λ h. cc)

execute_renamed_example :
    (e' : Event) × (Rename.execute (single a b) (one (with_field x)) ≡ ok (one e'))
    × (get_field e' b ≡ some x)
    × (get_field e' a ≡ none)
    × ((other : Text)
        → diverges (path_keys a) (path_keys other) ≡ true
        → diverges (path_keys b) (path_keys other) ≡ true
        → get_field e' other ≡ get_field (with_field x) other)
execute_renamed_example = execute_renamed a b (with_field x) x there b_free (λ h. cc) apart

abbrev plain : Value → Text
plain v = codes "<value>"

abbrev commas : Split.Config
commas = record { field = a; separator = codes ", "; target = codes "parts" }

abbrev with_commas : Join.Config
with_commas = record { source_field = codes "parts"; target_field = b; separator = codes ", " }

get-join_split_example :
    (e' e'' : Event) × (Split.execute commas (one (with_field (str (codes "x, y")))) ≡ ok (one e'))
    × (Join.execute plain with_commas (one e') ≡ ok (one e''))
    × (get_field e'' b ≡ some (str (codes "x, y")))
unfolding Split.configure text_eq Join.configure get_field get_keys split lookup_key lookup_fields
get-join_split_example =
    get-join_split plain commas commas with_commas with_commas (with_field (str (codes "x, y")))
      (codes "x, y") refl refl refl refl refl
