-- ===== src/Aggregate/Window/Calls.antt =====
-- The results of windows, and the calls and timers that lead to them
-- (internal/transform/aggregate/window.go).
use ggt.Prelude.{
  ℕ, Bool, ◌&&◌, Option, none, some, List, [], ◌∷◌, ◌++◌, ◌+◌, Text, codes, ltb, length,
  if◌then◌else◌,
}
use ggt.Prelude.Int.{ℤ, pos, pos_part, neg_part, leb_ℤ, sub_ℕ}
use ggt.Prelude.Dict.{Dict, lookup, insert, remove}
use ggt.Value.{Value, null, int, float64, float64_ptr, str, time, make_map, no_fields, kint}
use ggt.Event.{Event, get_field, set_field}
use ggt.Pipeline.{Payload, nothing, one, Result, ok, err, failure, drop}
use ggt.Aggregate.{
  Aggregation, AggregateState, Library, Function, sum, count, avg, min, max, function_of,
}
use ggt.Aggregate.Window.{Config, WindowState, Transform, positive, update_aggregations}

-- a time and a duration, not before the zero time
abbrev add_time : ℕ → ℤ → ℕ
add_time now d = pos_part (sub_ℕ (now + pos_part d) (neg_part d))

module _ (lib : Library) where
  -- the switch of `emitWindowResults`, which writes the pointers to the least and greatest number
  unfoldable pub emitted_value : Option Function → AggregateState → Value
  emitted_value none s = null
  emitted_value (some count) s = int kint (pos s.count)
  emitted_value (some sum) s = float64 s.sum
  emitted_value (some avg) s = float64 (lib.float_div s.sum (lib.float_of_int (pos s.count)))
  emitted_value (some min) s = float64_ptr s.min
  emitted_value (some max) s = float64_ptr s.max

  abbrev behind : Option ℕ → Value
  behind none = null
  behind (some x) = float64 x

  -- the switch of `ForceEmitAllWindows`, which writes what they point to
  unfoldable pub forced_value : Option Function → AggregateState → Value
  unfolding emitted_value
  forced_value (some min) s = behind s.min
  forced_value (some max) s = behind s.max
  forced_value f s = emitted_value f s

  unfoldable pub add_results :
      (Option Function → AggregateState → Value)
      → List Aggregation
      → Dict AggregateState
      → Event
      → Event
  add_results val [] m e = e
  add_results val (agg ∷ aggs) m e = elim (lookup agg.as_field m) [
    | none ↦ add_results val aggs m e
    | some s ↦
        add_results val aggs m
          (if ltb 0 s.count then set_field e agg.as_field (val (function_of agg.function) s) else e)
  ]

  unfoldable pub result_event :
      (Option Function → AggregateState → Value) → Config → ℕ → Text → WindowState → Event
  unfolding add_results
  result_event val cfg now key state =
      let empty : Event = record {
        payload = make_map no_fields;
        metadata = record { topic = []; partition = pos 0; offset = pos 0; key = none };
        timestamp = now;
        headers = none;
      } in
      let named = set_field empty (codes "window_key") (str key) in
      let begun = set_field named (codes "window_start") (time state.start_time) in
      let ended = set_field begun (codes "window_end") (time state.end_time) in
      let counted = set_field ended (codes "event_count") (int kint (pos (length state.events))) in
      add_results val cfg.aggregations state.aggregates counted

  abbrev hand_over : List Event → Transform → Transform
  hand_over es t = record t { emitted = if t.has_emit then t.emitted ++ es else t.emitted }

  unfoldable pub emit_window_results : Config → ℕ → Text → Transform → Transform
  unfolding result_event emitted_value
  emit_window_results cfg now key t = elim (lookup key t.windows) [
    | none ↦ t
    | some state ↦
        hand_over (result_event emitted_value cfg now key state ∷ [])
          (record t { windows = remove key t.windows; entries = remove key t.entries })
  ]

  -- a timer goes off: its function asks whether the context of the call that set it is done
  unfoldable pub timeout : (ℕ → Bool) → Config → ℕ → Text → Transform → Transform
  unfolding emit_window_results
  timeout is_done cfg now key t = elim (lookup key t.entries) [
    | none ↦ t
    | some ctx ↦ if is_done ctx then t else emit_window_results cfg now key t
  ]

  unfoldable pub result_events : Config → ℕ → Dict WindowState → List Event
  unfolding result_event forced_value
  result_events cfg now [] = []
  result_events cfg now ((key, state) ∷ ws) =
      result_event forced_value cfg now key state ∷ result_events cfg now ws

  unfoldable pub force_emit_all_windows : Config → ℕ → Transform → Transform
  unfolding result_events
  force_emit_all_windows cfg now t =
      hand_over (result_events cfg now t.windows) (record t { windows = []; entries = [] })

  -- the window of a key, made with its timer where there is none
  unfoldable pub open_window : Config → ℕ → ℕ → Text → Transform → WindowState × Transform
  open_window cfg ctx now key t = elim (lookup key t.windows) [
    | some state ↦ (state, t)
    | none ↦ (
      record {
        start_time = now;
        end_time = add_time now cfg.max_duration;
        events = [];
        aggregates = [];
      },
      if positive cfg.max_duration then record t { entries = insert key ctx t.entries } else t,
    )
  ]

  -- the part of `Execute` under the lock; `none` where a function is unknown
  unfoldable pub add_event :
      Config → ℕ → ℕ → Text → Event → Transform → Option WindowState × Transform
  unfolding open_window
  add_event cfg ctx now key e t =
      let opened = open_window cfg ctx now key t in
      let updated = update_aggregations lib cfg.aggregations e opened.0.aggregates in
      let grown = record opened.0 { events = opened.0.events ++ e ∷ []; aggregates = updated.1 } in
      (
        if updated.0 then some grown else none,
        record opened.1 { windows = insert key grown opened.1.windows },
      )

  abbrev pub is_full : Config → WindowState → Bool
  is_full cfg w = positive cfg.max_events && leb_ℤ cfg.max_events (pos (length w.events))

  -- what follows, by the window that the event was added to
  unfoldable pub after_adding :
      Config → ℕ → Text → Option WindowState × Transform → Result × Transform
  unfolding emit_window_results
  after_adding cfg now key (none, t) = (err (failure (codes "failed to update aggregations")), t)
  after_adding cfg now key (some w, t) =
      if is_full cfg w then (err drop, emit_window_results cfg now key t) else (ok nothing, t)

  unfoldable pub execute_keyed : Config → ℕ → ℕ → Text → Event → Transform → Result × Transform
  unfolding add_event after_adding
  execute_keyed cfg ctx now key e t = after_adding cfg now key (add_event cfg ctx now key e t)

  abbrev pub as_text : Value → Option Text
  as_text (str s) = some s
  as_text _ = none

  unfoldable pub execute : Config → ℕ → ℕ → Payload → Transform → Result × Transform
  unfolding execute_keyed
  execute cfg ctx now (one e) t = elim (get_field e cfg.key_field) [
    | none ↦ (err (failure (codes "key field not found in event")), t)
    | some v ↦ elim (as_text v) [
      | none ↦ (err (failure (codes "key field must be a string")), t)
      | some key ↦ execute_keyed cfg ctx now key e t
    ]
  ]
  execute cfg ctx now _ t = (err (failure (codes "unexpected payload type")), t)
