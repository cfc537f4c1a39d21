-- ===== src/Transforms/Required.antt =====
-- internal/transform/validate/required.go: fields that an event must have.
pub mod Missing
use ggt.Prelude.{
  Bool, true, false, not, ◌&&◌, ◌||◌, Option, none, some, List, [], ◌∷◌, ◌++◌, ◌≡◌, ◌≢◌, refl, sym,
  ap, ◌∙◌, Text, codes, text_eq, text_eq_iff, text_eq_refl, arith, if◌then◌else◌, Option-cases,
  Bool-cases, inl, inr, ◌⊎◌,
}
use ggt.Prelude.Dict.{lookup, lookup-insert}
use ggt.Event.{Event, get_field}
use ggt.Pipeline.{Payload, one, Result, ok, err, failure, drop}
use ggt.Worker.{PipelineInfo, header, wants_dlq, is_empty}
use ggt.Transforms.{
  Raw, empty_raw, undecodable, decoded, Configured, refused, configured, set_header,
}

pub record Config : Type 0 where
  pub fields : List Text
  pub on_error : Text

abbrev is_mode : Text → Bool
is_mode m = text_eq m (codes "drop") || text_eq m (codes "dlq") || text_eq m (codes "fail")

unfoldable pub configure : Raw Config → Configured Config
configure empty_raw = refused (codes "required fields configuration required")
configure (undecodable e) = refused e
configure (decoded cfg) = elim cfg.fields [
  | [] ↦ refused (codes "at least one required field must be specified")
  | _ ∷ _ ↦
      let mode = if text_eq cfg.on_error [] then codes "drop" else cfg.on_error in
      if is_mode mode
      then configured (record cfg { on_error = mode })
      else refused (codes "on_error must be 'drop', 'dlq', or 'fail'")
]

unfoldable pub missing_fields : List Text → Event → List Text
missing_fields [] e = []
missing_fields (f ∷ fs) e =
    let rest = missing_fields fs e in elim (get_field e f) [ none ↦ f ∷ rest | some _ ↦ rest ]

-- `fmt.Sprintf("required fields missing: %v", missingFields)`
unfoldable pub missing_message : List Text → Text
missing_message missing = codes "required fields missing: [" ++ names missing
  where
    names : List Text → Text
    names [] = codes "]"
    names (f ∷ []) = f ++ codes "]"
    names (f ∷ g ∷ fs) = f ++ codes " " ++ names (g ∷ fs)

unfoldable pub on_missing : Config → List Text → Event → Result
on_missing cfg missing e =
    if text_eq cfg.on_error (codes "drop")
    then err drop
    else if text_eq cfg.on_error (codes "dlq")
    then ok (
        one (
          set_header (codes "_dlq_transform") (codes "validate.required")
            (set_header (codes "_dlq_reason") (missing_message missing) e)))
    else if text_eq cfg.on_error (codes "fail")
    then err (failure (missing_message missing))
    else err (failure (codes "invalid on_error value"))

unfoldable pub execute : Config → Payload → Result
execute cfg (one e) = elim (missing_fields cfg.fields e) [
  | [] ↦ ok (one e)
  | f ∷ fs ↦ on_missing cfg (f ∷ fs) e
]
execute cfg _ = err (failure (codes "unexpected payload type"))
