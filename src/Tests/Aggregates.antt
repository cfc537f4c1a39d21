-- ===== src/Tests/Aggregates.antt =====
-- Counting aggregations on concrete events (internal/transform/aggregate). Floats are numbers that
-- stand for themselves.
use ggt.Prelude.{
  ℕ, zero, suc, Bool, true, false, Option, none, some, List, [], ◌∷◌, ◌++◌, ◌+◌, ◌*◌, ◌/◌, ◌<◌, ◌≡◌,
  refl, Text, codes, text_eq, ltb, length,
}
use ggt.Prelude.Int.{pos, pos_part}
use ggt.Prelude.Dict.{lookup}
use ggt.Value.{Value, int, kint, str, make_map, no_fields, field}
use ggt.Event.{Event, get_field, path_keys}
use ggt.Pipeline.{one, Result}
use ggt.Transforms.{decoded, configured}
use ggt.Aggregate.{Library, Aggregation, Function, sum, function_of}
use ggt.Aggregate.Window as Window
use ggt.Aggregate.Window.{Transform}
use ggt.Aggregate.Window.Calls as Calls
use ggt.Aggregate.Window.Bounded.{Reach, start, next, executed, Reach-bounded_windows}
use ggt.Aggregate.Count.{Config, Windows, configure, execute, evict}
use ggt.Aggregate.Count.Step.{Represents, Takes, Others, execute-Takes}
use ggt.Aggregate.Count.Runs.{
  Input, arrival, tick, arrivals, run_inputs, NothingIdle, received, emitted, pending, run-Totals,
}

abbrev plain : Value → Text
plain (str t) = t
plain _ = codes "<value>"

abbrev same_text : Text → Text
same_text t = t

abbrev same : ℕ → ℕ
same n = n

abbrev sum_of : ℕ → ℕ → ℕ
sum_of m n = m + n

abbrev quotient : ℕ → ℕ → ℕ
quotient m n = m / n

abbrev lib : Library
lib = record {
  to_lower = same_text;
  sprint = plain;
  float_add = sum_of;
  float_div = quotient;
  float_lt = ltb;
  float_of_int = pos_part;
  float_of_float32 = same;
}

abbrev summing : Aggregation
summing = record { field = codes "n"; function = codes "sum"; as_field = codes "total" }

abbrev raw : Config
raw = record {
  key_field = codes "k";
  count = pos 2;
  aggregations = summing ∷ [];
  idle_timeout = pos 100;
}

abbrev event : Text → ℕ → Event
event key n = record {
  payload = make_map (field (codes "k") (str key) (field (codes "n") (int kint (pos n)) no_fields));
  metadata = record { topic = codes "in"; partition = pos 0; offset = pos 7; key = none };
  timestamp = 5;
  headers = none;
}

abbrev x : Text
x = codes "x"

abbrev y : Text
y = codes "y"

raw-configured : configure lib (decoded raw) ≡ configured raw
unfolding configure text_eq ggt.Aggregate.all_valid ggt.Aggregate.normalize
raw-configured = refl

abbrev inputs : List Input
inputs = arrival 1 (event x 3) ∷ arrival 2 (event y 4) ∷ tick 25 ∷ arrival 30 (event x 5) ∷ []

inputs-NothingIdle : NothingIdle lib raw inputs []
unfolding NothingIdle ggt.Aggregate.Count.execute ggt.Aggregate.Count.count_event get_field
    ggt.Event.get_keys ggt.Event.split ggt.Value.lookup_key ggt.Value.lookup_fields lookup text_eq
    ggt.Prelude.Dict.insert ggt.Aggregate.Count.evict ggt.Aggregate.Count.update
    ggt.Aggregate.Count.number_in ggt.Aggregate.Count.update_state function_of
inputs-NothingIdle = (refl, tt)

run-Totals_example :
    (rs : List Result) × (ws : Windows) × (run_inputs lib raw inputs [] ≡ some (rs, ws))
    × ((key : Text)
        → Represents lib raw key ws (pending lib raw key [] (arrivals inputs))
          × (length (pending lib raw key [] (arrivals inputs)) < pos_part raw.count)
          × (pos_part raw.count * emitted lib raw key (arrivals inputs) rs
                + length (pending lib raw key [] (arrivals inputs))
              ≡ received lib raw key (arrivals inputs)))
run-Totals_example = run-Totals lib raw raw inputs raw-configured inputs-NothingIdle

abbrev after_first : Windows
after_first =
    (
      x,
      record {
        start_time = 5;
        event_count = 1;
        aggregates = (codes "total", record { sum = 3; count = 1; min = none; max = none }) ∷ [];
        last_seen = 1;
      },
    )
    ∷ []

first-Represents : Represents lib raw x after_first (event x 3 ∷ [])
unfolding lookup text_eq ggt.Aggregate.Count.Aggregates.aggregates_of ggt.Aggregate.Count.update
    ggt.Aggregate.Count.number_in get_field ggt.Event.get_keys ggt.Event.split ggt.Value.lookup_key
    ggt.Value.lookup_fields function_of ggt.Prelude.Dict.insert ggt.Aggregate.Count.update_state
first-Represents = (_, refl, record { started = refl; counted = refl; aggregated = refl })

execute-Takes_example :
    (r : Result) × (ws' : Windows) × (execute lib raw 3 (one (event x 5)) after_first
      ≡ some (r, ws'))
    × Takes lib true raw x (event x 5) (event x 3 ∷ []) r ws'
    × Others lib x after_first ws'
unfolding get_field ggt.Event.get_keys ggt.Event.split ggt.Value.lookup_key ggt.Value.lookup_fields
    text_eq
execute-Takes_example =
    execute-Takes lib raw 3 (event x 5) (str x) after_first (event x 3 ∷ []) refl first-Represents

abbrev window_raw : Window.Config
window_raw = record {
  key_field = codes "k";
  max_events = pos 2;
  max_duration = pos 50;
  aggregations = summing ∷ [];
}

abbrev never_done : ℕ → Bool
never_done ctx = false

abbrev no_windows : Transform
no_windows = record { windows = []; entries = []; has_emit = false; emitted = [] }

abbrev one_window : Transform
one_window = (Calls.execute lib window_raw 0 1 (one (event x 3)) no_windows).1

abbrev x_window : Window.WindowState
x_window = record {
  start_time = 1;
  end_time = 51;
  events = event x 3 ∷ [];
  aggregates = (codes "total", record { sum = 3; count = 1; min = some 3; max = some 3 }) ∷ [];
}

window-configured : Window.configure lib (decoded window_raw) ≡ configured window_raw
unfolding Window.configure text_eq ggt.Aggregate.all_valid ggt.Aggregate.normalize
window-configured = refl

one_window-x : lookup x one_window.windows ≡ some x_window
unfolding lookup Calls.execute get_field ggt.Event.get_keys ggt.Event.split ggt.Value.lookup_key
    ggt.Value.lookup_fields text_eq Window.update_aggregations ggt.Prelude.Dict.insert
one_window-x = refl

one_window-Reach : Reach lib never_done window_raw one_window
one_window-Reach = next start (executed 0 1 (one (event x 3)) no_windows)

Reach-bounded_windows_example : length x_window.events < 2
Reach-bounded_windows_example =
    Reach-bounded_windows lib never_done window_raw window_raw 1 one_window x x_window
      window-configured refl one_window-Reach one_window-x
