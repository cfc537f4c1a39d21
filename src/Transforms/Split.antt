-- ===== src/Transforms/Split.antt =====
-- internal/transform/data/split.go: splitting a text at a separator.
use ggt.Prelude.{
  ℕ, zero, suc, Option, none, some, List, [], ◌∷◌, ◌++◌, ◌-◌, Text, codes, text_eq, length,
  if◌then◌else◌,
}
use ggt.Value.{Value, str, strings}
use ggt.Event.{get_field, set_field}
use ggt.Pipeline.{Payload, one, Result, ok, err, failure}
use ggt.Transforms.{Raw, empty_raw, undecodable, decoded, Configured, refused, configured}
use ggt.Condition.Scan.{has_prefix}

pub record Config : Type 0 where
  pub field : Text
  pub separator : Text
  pub target : Text

unfoldable pub configure : Raw Config → Configured Config
configure empty_raw = refused (codes "config required")
configure (undecodable e) = refused e
configure (decoded cfg) =
    if text_eq cfg.field []
    then refused (codes "field is required")
    else if text_eq cfg.separator []
    then refused (codes "separator is required")
    else configured cfg

-- `strings.Split` at a separator that is not empty: `skip` bytes of a separator are still to be
-- passed over, and `part` is what came since the last one.
unfoldable pub split_from : Text → ℕ → Text → Text → List Text
unfolding has_prefix
split_from sep skip part [] = part ∷ []
split_from sep (suc skip) part (c ∷ s) = split_from sep skip part s
split_from sep zero part (c ∷ s) =
    let hit = has_prefix (c ∷ s) sep in
    let rest =
      split_from sep (if hit then length sep - 1 else 0) (if hit then [] else part ++ c ∷ []) s in
    if hit then part ∷ rest else rest

unfoldable pub split_text : Text → Text → List Text
split_text s sep = split_from sep 0 [] s

abbrev pub as_text : Value → Option Text
as_text (str s) = some s
as_text _ = none

abbrev pub target_field : Config → Text
target_field cfg = if text_eq cfg.target [] then cfg.field else cfg.target

unfoldable pub execute : Config → Payload → Result
unfolding split_text
execute cfg (one e) = elim (get_field e cfg.field) [
  | none ↦ ok (one e)
  | some v ↦ elim (as_text v) [
    | none ↦ err (failure (codes "field is not a string"))
    | some s ↦ ok (one (set_field e (target_field cfg) (strings (split_text s cfg.separator))))
  ]
]
execute cfg _ = err (failure (codes "unexpected payload type"))
