-- ===== src/Aggregate/Count.antt =====
-- internal/transform/aggregate/count.go: one event for every so many events of a key. `none` stands
-- for the panic of a nil pointer. The lock is held for the whole of a call, so calls come one after
-- the other.
pub mod Aggregates
pub mod Step
pub mod Updates
pub mod Folds
pub mod Runs
pub mod Values
pub mod Idle
use ggt.Prelude.{
  ℕ, Bool, true, false, Option, none, some, List, [], ◌∷◌, ◌+◌, ◌==◌, Text, codes, text_eq, ltb,
  length, if◌then◌else◌,
}
use ggt.Prelude.Int.{ℤ, pos, leb_ℤ, ltb_ℤ, sub_ℕ}
use ggt.Prelude.Dict.{Dict, lookup, insert, remove}
use ggt.Value.{Value, int, float32, float64, str, time, make_map, no_fields, kint, kint32, kint64}
use ggt.Event.{Event, get_field, set_field}
use ggt.Pipeline.{Payload, nothing, one, Result, ok, err, failure}
use ggt.Transforms.{Raw, empty_raw, undecodable, decoded, Configured, refused, configured}
use ggt.Aggregate.{
  Aggregation, AggregateState, Library, Function, sum, count, avg, min, max, function_of, normalize,
  all_valid,
}

pub record Config : Type 0 where
  pub key_field : Text
  pub count : ℤ
  pub aggregations : List Aggregation
  pub idle_timeout : ℤ

pub record WindowState : Type 0 where
  pub start_time : ℕ
  pub event_count : ℕ
  pub aggregates : Dict AggregateState
  pub last_seen : ℕ

abbrev pub Windows : Type 0
Windows = Dict WindowState

abbrev hour : ℕ
hour = 3600000000000

abbrev is_zero : ℤ → Bool
is_zero (pos n) = n == 0
is_zero _ = false

-- `&AggregateState{}`
abbrev pub new_state : AggregateState
new_state = record { sum = 0; count = 0; min = none; max = none }

abbrev pub new_aggregates : List Aggregation → Dict AggregateState → Dict AggregateState
new_aggregates [] m = m
new_aggregates (agg ∷ aggs) m = new_aggregates aggs (insert agg.as_field new_state m)

module _ (lib : Library) where
  unfoldable pub configure : Raw Config → Configured Config
  configure empty_raw = refused (codes "count aggregation configuration required")
  configure (undecodable e) = refused e
  configure (decoded cfg) =
      let aggs = normalize lib.to_lower cfg.aggregations in
      if text_eq cfg.key_field []
      then refused (codes "key_field is required")
      else if leb_ℤ cfg.count (pos 0)
      then refused (codes "count must be positive")
      else if length cfg.aggregations == 0
      then refused (codes "at least one aggregation is required")
      else if all_valid aggs
      then configured (record cfg {
        aggregations = aggs;
        idle_timeout = if is_zero cfg.idle_timeout then pos hour else cfg.idle_timeout;
      })
      else refused (codes "invalid aggregation function(s)")

  -- the switch on the type of a field's value
  unfoldable pub numeric_value : Value → Option ℕ
  numeric_value (int kint n) = some (lib.float_of_int n)
  numeric_value (int kint32 n) = some (lib.float_of_int n)
  numeric_value (int kint64 n) = some (lib.float_of_int n)
  numeric_value (float32 x) = some (lib.float_of_float32 x)
  numeric_value (float64 x) = some x
  numeric_value _ = none

  unfoldable pub number_in : Event → Text → Option ℕ
  unfolding numeric_value
  number_in e field = elim (get_field e field) [ none ↦ none | some v ↦ numeric_value v ]

  -- the switch on the function of an aggregation
  unfoldable pub update_state : Function → ℕ → AggregateState → AggregateState
  update_state sum x s = record s { sum = lib.float_add s.sum x; count = s.count + 1 }
  update_state avg x s = record s { sum = lib.float_add s.sum x; count = s.count + 1 }
  update_state count x s = record s { count = s.count + 1 }
  update_state min x s = elim s.min [
    | none ↦ record s { min = some x }
    | some m ↦ if lib.float_lt x m then record s { min = some x } else s
  ]
  update_state max x s = elim s.max [
    | none ↦ record s { max = some x }
    | some m ↦ if lib.float_lt m x then record s { max = some x } else s
  ]

  -- one aggregation of the loop of `updateAggregationsIncremental`
  unfoldable pub update_one :
      Aggregation → Event → Dict AggregateState → Option (Dict AggregateState)
  update_one agg e m = elim (number_in e agg.field) [
    | none ↦ some m
    | some x ↦ elim (function_of agg.function) [
      | none ↦ some m
      | some f ↦ elim (lookup agg.as_field m) [
        | none ↦ none
        | some s ↦ some (insert agg.as_field (update_state f x s) m)
      ]
    ]
  ]

  unfoldable pub update :
      List Aggregation → Event → Dict AggregateState → Option (Dict AggregateState)
  unfolding update_one
  update [] e m = some m
  update (agg ∷ aggs) e m = elim (update_one agg e m) [ none ↦ none | some m' ↦ update aggs e m' ]

  -- the value that is written for an aggregation, where there is one
  unfoldable pub result_value : Option Function → AggregateState → Option Value
  result_value none s = none
  result_value (some sum) s = some (float64 s.sum)
  result_value (some count) s = some (int kint (pos s.count))
  result_value (some avg) s =
      if ltb 0 s.count
      then some (float64 (lib.float_div s.sum (lib.float_of_int (pos s.count))))
      else some (float64 0)
  result_value (some min) s = elim s.min [ none ↦ none | some x ↦ some (float64 x) ]
  result_value (some max) s = elim s.max [ none ↦ none | some x ↦ some (float64 x) ]

  abbrev set_result : Text → Option Value → Event → Event
  set_result name none e = e
  set_result name (some v) e = set_field e name v

  -- the loop that writes the aggregations
  unfoldable pub add_results : List Aggregation → Dict AggregateState → Event → Event
  unfolding result_value
  add_results [] m e = e
  add_results (agg ∷ aggs) m e = elim (lookup agg.as_field m) [
    | none ↦ add_results aggs m e
    | some s ↦
        add_results aggs m (set_result agg.as_field (result_value (function_of agg.function) s) e)
  ]

  -- the event of a window, when `e` has made it full
  unfoldable pub result_event : Config → Text → Event → WindowState → Event
  unfolding add_results
  result_event cfg key e state =
      let empty : Event = record {
        payload = make_map no_fields;
        metadata = record { topic = []; partition = pos 0; offset = pos 0; key = none };
        timestamp = e.timestamp;
        headers = none;
      } in
      let named = set_field empty (codes "window_key") (str key) in
      let dated = set_field named (codes "window_start") (time state.start_time) in
      let counted = set_field dated (codes "event_count") (int kint (pos state.event_count)) in
      add_results cfg.aggregations state.aggregates counted

  -- the window of a key, made where there is none
  unfoldable pub window_of : Config → Event → Option WindowState → WindowState
  window_of cfg e (some state) = state
  window_of cfg e none = record {
    start_time = e.timestamp;
    event_count = 0;
    aggregates = new_aggregates cfg.aggregations [];
    last_seen = 0;
  }

  -- what follows the update of the aggregates
  unfoldable pub finish : Config → Text → Event → WindowState → Windows → Result × Windows
  finish cfg key e state ws =
      if leb_ℤ cfg.count (pos state.event_count)
      then (ok (one (result_event cfg key e state)), remove key (insert key state ws))
      else (ok nothing, insert key state ws)

  unfoldable pub count_event : Config → ℕ → Event → Text → Windows → Option (Result × Windows)
  unfolding update window_of finish
  count_event cfg now e key ws =
      let state = window_of cfg e (lookup key ws) in
      elim (update cfg.aggregations e state.aggregates) [
        | none ↦ none
        | some m ↦ some (
            finish cfg key e
              (record state {
                event_count = state.event_count + 1;
                aggregates = m;
                last_seen = now;
              })
              ws)
      ]

  unfoldable pub execute : Config → ℕ → Payload → Windows → Option (Result × Windows)
  unfolding count_event
  execute cfg now (one e) ws = elim (get_field e cfg.key_field) [
    | none ↦ some (err (failure (codes "key field not found in event")), ws)
    | some v ↦ count_event cfg now e (lib.sprint v) ws
  ]
  execute cfg now _ ws = some (err (failure (codes "unexpected payload type")), ws)

-- one tick of `evictionLoop`
unfoldable pub evict : Config → ℕ → Windows → Windows
evict cfg now [] = []
evict cfg now ((key, state) ∷ ws) =
    let rest = evict cfg now ws in
    if ltb_ℤ cfg.idle_timeout (sub_ℕ now state.last_seen) then rest else (key, state) ∷ rest
