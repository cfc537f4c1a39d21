-- ===== src/Transforms/Add.antt =====
-- internal/transform/field/add.go: setting a field to a configured value.
use ggt.Prelude.{[], Text, codes, text_eq, if◌then◌else◌}
use ggt.Value.{Value, null}
use ggt.Event.{set_field}
use ggt.Pipeline.{Payload, one, Result, ok, err, failure}
use ggt.Transforms.{Raw, empty_raw, undecodable, decoded, Configured, refused, configured}

pub record Config : Type 0 where
  pub field : Text
  pub value : Value

-- the zero configuration where there is none
unfoldable pub configure : Raw Config → Configured Config
configure empty_raw = configured (record { field = []; value = null })
configure (undecodable e) = refused e
configure (decoded cfg) =
    if text_eq cfg.field [] then refused (codes "field name is required") else configured cfg

unfoldable pub execute : Config → Payload → Result
execute cfg (one e) = ok (one (set_field e cfg.field cfg.value))
execute cfg _ = err (failure (codes "unexpected payload type"))
