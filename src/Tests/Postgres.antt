-- ===== src/Tests/Postgres.antt =====
-- Statements of two queries, and an event enriched by one (internal/enrichment/postgres).
use ggt.Prelude.{
  ℕ, true, some, none, inr, List, [], ◌∷◌, ◌≤◌, ◌≡◌, ◌⊎◌, inl, refl, Text, codes, text_eq, length,
}
use ggt.Prelude.Int.{pos}
use ggt.Prelude.Dict.{lookup, remove}
use ggt.PostgresClient.{
  ClientConfig, empty_client, Prepared, prepared, prepare_failed, prepared_stmt, Error, pq_error,
}
use ggt.PostgresClient.Queries.{failed, query, query_row}
use ggt.PostgresClient.Steps.{Action, touches, prepares, fails, run}
use ggt.PostgresClient.Recency.{recent_run, recent_step}
use ggt.PostgresClient.Refinement.{empty-Represents}
use ggt.PostgresClient.Bounded.{Shows, run-Shows}
use ggt.Value.{
  null, str, make_map, field, no_fields, Fields, Items, no_items, item, object, slice, make_slice,
}
use ggt.Event.{Event}
use ggt.Transforms.EnrichPostgres.{Config, Database, Rows}
use ggt.PostgresClient.Invalid.{fails-Again}

abbrev config : ClientConfig
config = record {
  url = codes "postgres://db";
  max_open_conns = pos 25;
  max_idle_conns = pos 5;
  conn_max_lifetime = pos 300000000000;
  cache_ttl = pos 600000000000;
  cache_size = pos 1000;
}

abbrev a : Text
a = codes "a"

abbrev b : Text
b = codes "b"

-- Two queries are prepared, the first one is used again, the second one turns out invalid.
abbrev actions : List Action
actions =
    prepares (prepared 1) a
    ∷ prepares (prepared 2) b
    ∷ touches a
    ∷ fails (pq_error (codes "26000")) b
    ∷ prepares (prepare_failed (codes "down")) b
    ∷ []

left : recent_run actions [] ≡ (a, 1) ∷ []
unfolding recent_run lookup remove text_eq recent_step
left = refl

run-Shows_example :
    Shows (run actions (empty_client config)) (recent_run actions [])
    × (length (recent_run actions []) ≤ 500)
run-Shows_example = run-Shows config actions

abbrev unknown : Error
unknown = pq_error (codes "26000")

abbrev ask : ℕ → Error ⊎ Text
ask stmt = inl unknown

fails-Again_example :
    ((query (prepared 1) ask a (empty_client config)).1 ≡ failed unknown)
    × ((query_row (prepared 1) ask a (empty_client config)).1 ≡ failed unknown)
    × ((next : Prepared)
        → (prepared_stmt next a (query (prepared 1) ask a (empty_client config)).0).1 ≡ next)
    × ((next : Prepared)
        → (prepared_stmt next a (query_row (prepared 1) ask a (empty_client config)).0).1
          ≡ prepared 1)
unfolding text_eq prepared_stmt empty_client lookup
fails-Again_example =
    fails-Again (prepared 1) ask a (empty_client config) [] 1 unknown (empty-Represents config) refl
      refl

abbrev event : Event
event = record {
  payload = make_map (field a (str b) no_fields);
  metadata = record { topic = codes "in"; partition = pos 0; offset = pos 7; key = none };
  timestamp = 5;
  headers = none;
}

-- one row of three columns
abbrev row_of_three : Rows
row_of_three = record {
  columns = some (codes "id" ∷ codes "name" ∷ codes "age" ∷ []);
  scans = some (null ∷ str b ∷ null ∷ []) ∷ [];
  is_complete = true;
}

abbrev maps : List Fields → Items
maps [] = no_items
maps (row ∷ rows) = item (object (make_map row)) (maps rows)

abbrev database : Database
database = record {
  prepare = λ q. prepared 1;
  ask = λ args stmt. inr row_of_three;
  ask_row = λ args stmt. inr none;
  of_rows = λ rows. slice (make_slice (maps rows));
}

abbrev enrich : Config
enrich = record {
  query = codes "select * from users where id = $1";
  params = a ∷ [];
  target_field = codes "user";
  output_fields = codes "name" ∷ codes "age" ∷ [];
  drop_on_error = true;
}
