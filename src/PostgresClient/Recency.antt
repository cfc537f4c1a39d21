-- ===== src/PostgresClient/Recency.antt =====
-- What the cache of statements promises (internal/enrichment/postgres/client.go): a list of queries
-- with their statements, most recently used first, of at most 500.
use ggt.Prelude.{ℕ, none, some, List, [], ◌∷◌, Text, leb, length, if◌then◌else◌}
use ggt.Prelude.Dict.{Dict, lookup, remove}
use ggt.Cache.Rep.{drop_last}
use ggt.PostgresClient.{max_prepared_stmts, Prepared, prepared, prepare_failed, is_invalid}
use ggt.PostgresClient.Steps.{Action, touches, prepares, fails, closes}

abbrev pub Recent : Type 0
Recent = Dict ℕ

abbrev pub recent_room : Recent → Recent
recent_room s = if leb max_prepared_stmts (length s) then drop_last s else s

-- A known query moves to the front.
unfoldable pub recent_touch : Text → Recent → Recent
recent_touch q s = elim (lookup q s) [ none ↦ s | some stmt ↦ (q, stmt) ∷ remove q s ]

-- A new query goes to the front. The least recently used one gives way if there are 500, also where
-- there is no new statement then.
unfoldable pub recent_add : Prepared → Text → Recent → Recent × Prepared
recent_add (prepare_failed e) q s = (recent_room s, prepare_failed e)
recent_add (prepared stmt) q s = ((q, stmt) ∷ recent_room s, prepared stmt)

unfoldable pub recent_prepare : Prepared → Text → Recent → Recent × Prepared
unfolding recent_add
recent_prepare answer q s = elim (lookup q s) [
  | some stmt ↦ ((q, stmt) ∷ remove q s, prepared stmt)
  | none ↦ recent_add answer q s
]

unfoldable pub recent_step : Action → Recent → Recent
unfolding recent_touch recent_prepare
recent_step (touches q) s = recent_touch q s
recent_step (prepares answer q) s = (recent_prepare answer q s).0
recent_step (fails e q) s = if is_invalid e then remove q s else s
recent_step closes s = []

unfoldable pub recent_run : List Action → Recent → Recent
recent_run [] s = s
recent_run (a ∷ actions) s = recent_run actions (recent_step a s)
