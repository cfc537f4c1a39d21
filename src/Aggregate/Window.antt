-- ===== src/Aggregate/Window.antt =====
-- internal/transform/aggregate/window.go: aggregating the events of a key until there are enough of
-- them or a timer goes off. `Execute` gives up the lock before it emits a full window; here the two
-- parts, `add_event` and `emit_window_results`, follow one another. A timer is known by the context
-- that its function asks; the events that are handed to the function for results are a list.
pub mod Calls
pub mod Limits
pub mod Bounded
use ggt.Prelude.{
  ℕ, Bool, true, false, not, ◌&&◌, Option, none, some, List, [], ◌∷◌, ◌++◌, ◌+◌, ◌==◌, Text, codes,
  text_eq, ltb, length, if◌then◌else◌,
}
use ggt.Prelude.Int.{ℤ, pos, pos_part, neg_part, leb_ℤ, ltb_ℤ, sub_ℕ}
use ggt.Prelude.Dict.{Dict, lookup, insert, remove}
use ggt.Value.{
  Value, null, int, float32, float64, float64_ptr, str, time, make_map, no_fields, kint, kint32,
  kint64, kuint, kuint32, kuint64,
}
use ggt.Event.{Event, get_field, set_field}
use ggt.Pipeline.{Payload, nothing, one, Result, ok, err, failure, drop}
use ggt.Transforms.{Raw, empty_raw, undecodable, decoded, Configured, refused, configured}
use ggt.Aggregate.{
  Aggregation, AggregateState, Library, Function, sum, count, avg, min, max, function_of, normalize,
  all_valid,
}

pub record Config : Type 0 where
  pub key_field : Text
  pub max_events : ℤ
  pub max_duration : ℤ
  pub aggregations : List Aggregation

pub record WindowState : Type 0 where
  pub start_time : ℕ
  pub end_time : ℕ
  pub events : List Event
  pub aggregates : Dict AggregateState

-- The windows, the context of the timer of each key, whether there is a function for results, and
-- what it was given.
pub record Transform : Type 0 where
  pub windows : Dict WindowState
  pub entries : Dict ℕ
  pub has_emit : Bool
  pub emitted : List Event

abbrev pub positive : ℤ → Bool
positive n = ltb_ℤ (pos 0) n

unfoldable pub stop : Transform → Transform
stop t = record t { entries = [] }

unfoldable pub set_emit_func : Bool → Transform → Transform
set_emit_func given t = record t { has_emit = given }

module _ (lib : Library) where
  unfoldable pub configure : Raw Config → Configured Config
  configure empty_raw = refused (codes "window aggregation configuration required")
  configure (undecodable e) = refused e
  configure (decoded cfg) =
      let aggs = normalize lib.to_lower cfg.aggregations in
      if text_eq cfg.key_field []
      then refused (codes "key_field is required")
      else if not (positive cfg.max_events) && not (positive cfg.max_duration)
      then refused (codes "either max_events or max_duration must be positive")
      else if length cfg.aggregations == 0
      then refused (codes "at least one aggregation is required")
      else if all_valid aggs
      then configured (record cfg { aggregations = aggs })
      else refused (codes "invalid aggregation function(s)")

  unfoldable pub to_float64 : Value → Option ℕ
  to_float64 (float32 x) = some (lib.float_of_float32 x)
  to_float64 (float64 x) = some x
  to_float64 (int kint n) = some (lib.float_of_int n)
  to_float64 (int kint32 n) = some (lib.float_of_int n)
  to_float64 (int kint64 n) = some (lib.float_of_int n)
  to_float64 (int kuint n) = some (lib.float_of_int n)
  to_float64 (int kuint32 n) = some (lib.float_of_int n)
  to_float64 (int kuint64 n) = some (lib.float_of_int n)
  to_float64 _ = none

  unfoldable pub number_in : Event → Text → Option ℕ
  unfolding to_float64
  number_in e field = elim (get_field e field) [ none ↦ none | some v ↦ to_float64 v ]

  abbrev pub first_state : ℕ → AggregateState
  first_state x = record { sum = x; count = 1; min = some x; max = some x }

  -- the switch on the function of an aggregation
  unfoldable pub update_state : Function → ℕ → AggregateState → AggregateState
  update_state count x s = record s { count = s.count + 1 }
  update_state sum x s = record s { sum = lib.float_add s.sum x; count = s.count + 1 }
  update_state avg x s = record s { sum = lib.float_add s.sum x; count = s.count + 1 }
  update_state min x s = elim s.min [
    | none ↦ record s { min = some x; count = s.count + 1 }
    | some m ↦ record s { min = some (if lib.float_lt x m then x else m); count = s.count + 1 }
  ]
  update_state max x s = elim s.max [
    | none ↦ record s { max = some x; count = s.count + 1 }
    | some m ↦ record s { max = some (if lib.float_lt m x then x else m); count = s.count + 1 }
  ]

  -- one aggregation of the loop of `updateAggregations`; `none` is an unknown function
  unfoldable pub update_one :
      Aggregation → Event → Dict AggregateState → Option (Dict AggregateState)
  unfolding number_in update_state
  update_one agg e m = elim (number_in e agg.field) [
    | none ↦ some m
    | some x ↦ elim (lookup agg.as_field m) [
      | none ↦ some (insert agg.as_field (first_state x) m)
      | some s ↦ elim (function_of agg.function) [
        | none ↦ none
        | some f ↦ some (insert agg.as_field (update_state f x s) m)
      ]
    ]
  ]

  -- whether every function is known, and the states; at an unknown one the loop ends
  unfoldable pub update_aggregations :
      List Aggregation → Event → Dict AggregateState → Bool × Dict AggregateState
  unfolding update_one
  update_aggregations [] e m = (true, m)
  update_aggregations (agg ∷ aggs) e m = elim (update_one agg e m) [
    | none ↦ (false, m)
    | some m' ↦ update_aggregations aggs e m'
  ]
