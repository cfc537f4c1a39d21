-- ===== src/Transforms/Join.antt =====
-- internal/transform/data/join.go: joining the elements of an array. The text of a value
-- (`fmt.Sprintf` with `%v`) is an argument; the bytes of a configuration are decoded even when there
-- are none, which the decoder refuses.
pub mod Parts
use ggt.Prelude.{Option, none, some, List, [], ◌∷◌, ◌++◌, Text, codes, text_eq, if◌then◌else◌}
use ggt.Value.{Value, Items, str, strings, slice, nil_slice, make_slice, no_items, item}
use ggt.Event.{Event, get_field, set_field}
use ggt.Pipeline.{Payload, one, Result, ok, err, failure}
use ggt.Transforms.{Raw, empty_raw, undecodable, decoded, Configured, refused, configured}

pub record Config : Type 0 where
  pub source_field : Text
  pub target_field : Text
  pub separator : Text

abbrev or_else : Text → Text → Text
or_else t d = if text_eq t [] then d else t

unfoldable pub configure : Raw Config → Configured Config
configure empty_raw = refused (codes "unexpected end of JSON input")
configure (undecodable e) = refused e
configure (decoded cfg) =
    if text_eq cfg.source_field []
    then refused (codes "source_field is required")
    else configured (record cfg {
      target_field = or_else cfg.target_field cfg.source_field;
      separator = or_else cfg.separator (codes ",");
    })

-- `strings.Join`
unfoldable pub join_texts : List Text → Text → Text
join_texts [] sep = []
join_texts (t ∷ []) sep = t
join_texts (t ∷ u ∷ ts) sep = t ++ sep ++ join_texts (u ∷ ts) sep

module _ (sprint : Value → Text) where
  unfoldable pub printed : Items → List Text
  printed no_items = []
  printed (item v xs) = sprint v ∷ printed xs

  -- the switch on the type of the value
  unfoldable pub str_slice : Value → Option (List Text)
  unfolding printed
  str_slice (strings ts) = some ts
  str_slice (slice nil_slice) = some []
  str_slice (slice (make_slice xs)) = some (printed xs)
  str_slice _ = none

  unfoldable pub execute : Config → Payload → Result
  unfolding str_slice join_texts
  execute cfg (one e) = elim (get_field e cfg.source_field) [
    | none ↦ err (failure (codes "field does not exist"))
    | some v ↦ elim (str_slice v) [
      | none ↦ err (failure (codes "field must be an array"))
      | some ts ↦ ok (one (set_field e cfg.target_field (str (join_texts ts cfg.separator))))
    ]
  ]
  execute cfg _ = err (failure (codes "expected event.Event"))
