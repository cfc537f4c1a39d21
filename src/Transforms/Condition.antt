-- ===== src/Transforms/Condition.antt =====
-- internal/transform/filter/condition.go: letting events through by a condition. The language of
-- conditions (internal/condition) is an argument, as in Transforms/Route.
pub mod Expressions
use ggt.Prelude.{Option, none, some, [], Text, codes, text_eq, if◌then◌else◌}
use ggt.Pipeline.{Payload, one, Result, ok, err, failure, drop}
use ggt.Transforms.{Raw, empty_raw, undecodable, decoded, Configured, refused, configured}
use ggt.Transforms.Route.{Condition}

unfoldable pub configure : (Text → Option Condition) → Raw Text → Configured Condition
configure parse empty_raw = refused (codes "condition expression required")
configure parse (undecodable e) = refused e
configure parse (decoded expression) =
    if text_eq expression []
    then refused (codes "expression cannot be empty")
    else elim (parse expression) [
      | none ↦ refused (codes "invalid condition expression")
      | some c ↦ configured c
    ]

unfoldable pub execute : Condition → Payload → Result
execute cond (one e) = elim (cond e) [
  | none ↦ err (failure (codes "condition evaluation failed"))
  | some match ↦ if match then ok (one e) else err drop
]
execute cond _ = err (failure (codes "unexpected payload type"))
