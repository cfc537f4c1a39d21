-- ===== src/Transforms/EnrichPostgres/Outcomes.antt =====
-- What enrich.postgres comes to (internal/enrichment/postgres/enrichment.go).
use ggt.Prelude.{
  true, false, Option, none, some, List, [], ◌∷◌, ◌≡◌, ◌≢◌, ◌⊎◌, Text, text_eq, ltb, length,
  if◌then◌else◌,
}
use ggt.Value.{Value, null, Fields, lookup_fields}
use ggt.Event.{Event, set_field}
use ggt.Pipeline.{one, Result, ok, err, drop, failure}
use ggt.PostgresClient.{Client}
use ggt.PostgresClient.Queries.{rows, query, query_row}
use ggt.Transforms.EnrichPostgres.{Config, Database, Rows, arguments, is_output}

-- What was scanned for a column: the value of the last column of the name.
abbrev pub scanned : List Text → List Value → Text → Option Value
scanned [] vs k = none
scanned (col ∷ cols) [] k = none
scanned (col ∷ cols) (v ∷ vs) k = elim (scanned cols vs k) [
  | some x ↦ some x
  | none ↦ if text_eq col k then some v else none
]

-- A row that holds what was scanned for the output fields, and nothing else.
abbrev pub IsRow : List Text → List Text → List Value → Fields → Type 0
IsRow outputs cols vs row =
    (k : Text) → lookup_fields k row ≡ (if is_output outputs k then scanned cols vs k else none)

-- One such row for each scan, in order; no scan failed.
abbrev pub AreRows : List Text → List Text → List (Option (List Value)) → List Fields → Type 0
AreRows outputs cols [] [] = Unit
AreRows outputs cols (some vs ∷ scans) (row ∷ results) =
    IsRow outputs cols vs row × AreRows outputs cols scans results
AreRows outputs cols _ _ = ⊥

-- An error, which is `ErrDrop` exactly if the configuration says so.
abbrev pub Fails : Config → Result → Type 0
Fails cfg r =
    ((cfg.drop_on_error ≡ true) × (r ≡ err drop))
    ⊎ ((m : Text) × (cfg.drop_on_error ≡ false) × (r ≡ err (failure m)))

abbrev pub value_at : Option Value → Value
value_at none = null
value_at (some v) = v

-- What the event becomes, by the answers of the cache of statements to the query and its arguments:
-- with at most one output field the value of the single row, or nil where there is none; with
-- several the rows of the query. An error has one of its causes.
pub data Answers (db : Database) (cfg : Config) (e : Event) (c : Client) (r : Result) : Type 0 where
  one_value :
      (args : List Value) (x : Option Value)
      → arguments e cfg.params ≡ some args
      → ltb 1 (length cfg.output_fields) ≡ false
      → (query_row (db.prepare cfg.query) (db.ask_row args) cfg.query c).1 ≡ rows x
      → r ≡ ok (one (set_field e cfg.target_field (value_at x)))
      → Answers db cfg e c r
  row_list :
      (args : List Value) (found : Rows) (cols : List Text) (results : List Fields)
      → arguments e cfg.params ≡ some args
      → ltb 1 (length cfg.output_fields) ≡ true
      → (query (db.prepare cfg.query) (db.ask args) cfg.query c).1 ≡ rows found
      → found.columns ≡ some cols
      → found.is_complete ≡ true
      → AreRows cfg.output_fields cols found.scans results
      → r ≡ ok (one (set_field e cfg.target_field (db.of_rows results)))
      → Answers db cfg e c r
  no_argument : arguments e cfg.params ≡ none → Fails cfg r → Answers db cfg e c r
  no_value :
      (args : List Value)
      → arguments e cfg.params ≡ some args
      → ltb 1 (length cfg.output_fields) ≡ false
      → ((x : Option Value)
          → (query_row (db.prepare cfg.query) (db.ask_row args) cfg.query c).1 ≢ rows x)
      → Fails cfg r
      → Answers db cfg e c r
  no_rows :
      (args : List Value)
      → arguments e cfg.params ≡ some args
      → ltb 1 (length cfg.output_fields) ≡ true
      → ((found : Rows) (cols : List Text) (results : List Fields)
          → (query (db.prepare cfg.query) (db.ask args) cfg.query c).1 ≡ rows found
          → found.columns ≡ some cols
          → found.is_complete ≡ true
          → AreRows cfg.output_fields cols found.scans results
          → ⊥)
      → Fails cfg r
      → Answers db cfg e c r
