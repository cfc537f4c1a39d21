-- ===== src/PostgresClient/Steps.antt =====
-- The parts of internal/enrichment/postgres/client.go that hold the lock, in any order: the calls of
-- several goroutines interleave at these.
use ggt.Prelude.{some, List, [], ◌∷◌, Text}
use ggt.PostgresClient.{Client, Prepared, Error, touch, prepare_locked, remove_invalid_stmt}
use ggt.PostgresClient.Queries.{close}

-- Moving a query to the front after a first look that found it; preparing it, with what `Prepare`
-- answers if it is asked; looking at an error of its statement; and closing the client.
pub data Action : Type 0 where
  touches : Text → Action
  prepares : Prepared → Text → Action
  fails : Error → Text → Action
  closes : Action

unfoldable pub step : Action → Client → Client
unfolding touch prepare_locked remove_invalid_stmt close
step (touches q) c = touch q c
step (prepares answer q) c = (prepare_locked answer q c).0
step (fails e q) c = remove_invalid_stmt q (some e) c
step closes c = close c

unfoldable pub run : List Action → Client → Client
run [] c = c
run (a ∷ actions) c = run actions (step a c)
