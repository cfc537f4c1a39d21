-- ===== src/Transforms/EnrichPostgres.antt =====
-- internal/enrichment/postgres/enrichment.go: a field from a query. What the database answers to a
-- statement and its arguments is an argument, and so is the value that a slice of maps makes behind
-- `interface{}`; the timeout is part of what the database does.
pub mod Outcomes
use ggt.Prelude.{
  ℕ, Bool, true, false, ◌||◌, Option, none, some, List, [], ◌∷◌, ◌⊎◌, Text, codes, text_eq, ltb,
  length, if◌then◌else◌,
}
use ggt.Value.{Value, null, Fields, no_fields, insert_field}
use ggt.Event.{Event, get_field, set_field}
use ggt.Pipeline.{Payload, one, Result, ok, err, drop, failure}
use ggt.PostgresClient.{Client, Prepared, Error}
use ggt.PostgresClient.Queries.{Outcome, rows, not_prepared, failed, query, query_row}
use ggt.Transforms.{Raw, empty_raw, undecodable, decoded, Configured, refused, configured}

pub record Config : Type 0 where
  pub query : Text
  pub params : List Text
  pub target_field : Text
  pub output_fields : List Text
  pub drop_on_error : Bool

unfoldable pub configure : Raw Config → Configured Config
configure empty_raw = refused (codes "unexpected end of JSON input")
configure (undecodable e) = refused e
configure (decoded cfg) =
    if text_eq cfg.query []
    then refused (codes "query required")
    else if text_eq cfg.target_field []
    then refused (codes "target_field required")
    else configured cfg

-- The rows of a query: the names of the columns, the values of each row in turn, and whether they
-- end without an error. `none` stands for an error of `Columns` or of a `Scan`.
pub record Rows : Type 0 where
  pub columns : Option (List Text)
  pub scans : List (Option (List Value))
  pub is_complete : Bool

-- What the database answers: to `Prepare`, and to a statement with arguments; a single value is
-- `none` where there is no row.
pub record Database : Type 0 where
  pub prepare : Text → Prepared
  pub ask : List Value → ℕ → Error ⊎ Rows
  pub ask_row : List Value → ℕ → Error ⊎ Option Value
  pub of_rows : List Fields → Value

-- `none` stands for the error of a missing parameter.
unfoldable pub arguments : Event → List Text → Option (List Value)
arguments e [] = some []
arguments e (p ∷ ps) = elim (get_field e p) [
  | none ↦ none
  | some v ↦ elim (arguments e ps) [ none ↦ none | some vs ↦ some (v ∷ vs) ]
]

unfoldable pub give_up : Config → Text → Result
give_up cfg message = err (if cfg.drop_on_error then drop else failure message)

abbrev pub is_output : List Text → Text → Bool
is_output [] col = false
is_output (f ∷ fs) col = text_eq f col || is_output fs col

-- the loop over the columns of a row
unfoldable pub row_from : List Text → List Text → List Value → Fields → Fields
row_from outputs [] vs row = row
row_from outputs (col ∷ cols) [] row = row
row_from outputs (col ∷ cols) (v ∷ vs) row =
    row_from outputs cols vs (if is_output outputs col then insert_field col v row else row)

-- the loop over the rows; `none` stands for the error of a `Scan`
unfoldable pub scan_rows : List Text → List Text → List (Option (List Value)) → Option (List Fields)
unfolding row_from
scan_rows outputs cols [] = some []
scan_rows outputs cols (none ∷ scans) = none
scan_rows outputs cols (some vs ∷ scans) = elim (scan_rows outputs cols scans) [
  | none ↦ none
  | some results ↦ some (row_from outputs cols vs no_fields ∷ results)
]

-- what becomes of the rows of a query
unfoldable pub finish_rows : Database → Config → Event → Outcome Rows → Result
unfolding give_up scan_rows
finish_rows db cfg e (not_prepared m) = give_up cfg (codes "execute")
finish_rows db cfg e (failed m) = give_up cfg (codes "execute")
finish_rows db cfg e (rows r) = elim r.columns [
  | none ↦ give_up cfg (codes "get columns failed")
  | some cols ↦ elim (scan_rows cfg.output_fields cols r.scans) [
    | none ↦ give_up cfg (codes "scan failed")
    | some results ↦
        if r.is_complete
        then ok (one (set_field e cfg.target_field (db.of_rows results)))
        else give_up cfg (codes "rows iteration failed")
  ]
]

abbrev pub value_or_nil : Option Value → Value
value_or_nil none = null
value_or_nil (some v) = v

-- what becomes of the value of a single row
unfoldable pub finish_row : Config → Event → Outcome (Option Value) → Result
unfolding give_up
finish_row cfg e (not_prepared m) = give_up cfg (codes "scan failed")
finish_row cfg e (failed m) = give_up cfg (codes "scan failed")
finish_row cfg e (rows v) = ok (one (set_field e cfg.target_field (value_or_nil v)))

unfoldable pub execute_event : Database → Config → Event → Client → Client × Result
unfolding arguments finish_rows finish_row give_up
execute_event db cfg e c = elim (arguments e cfg.params) [
  | none ↦ (c, give_up cfg (codes "missing parameter"))
  | some args ↦
      if ltb 1 (length cfg.output_fields)
      then (let (c', out) = query (db.prepare cfg.query) (db.ask args) cfg.query c in
          (c', finish_rows db cfg e out))
      else (let (c', out) = query_row (db.prepare cfg.query) (db.ask_row args) cfg.query c in
          (c', finish_row cfg e out))
]

-- A configuration that is missing stands for a transform that was not configured.
unfoldable pub execute : Database → Option Config → Payload → Client → Client × Result
unfolding execute_event
execute db none p c = (c, err (failure (codes "not configured")))
execute db (some cfg) (one e) c = execute_event db cfg e c
execute db (some cfg) _ c = (c, err (failure (codes "payload is not an event")))
