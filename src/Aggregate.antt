-- ===== src/Aggregate.antt =====
-- internal/transform/aggregate: aggregating the events that share a key. What the two transforms
-- share is here: an aggregation and the names of its functions. Floats are bit patterns; their
-- arithmetic, `strings.ToLower` and `fmt.Sprintf` with `%v` are arguments. A count of events is a
-- number that stays below the largest `int`.
pub mod Count
pub mod Window
use ggt.Prelude.{
  ℕ, Bool, true, false, ◌&&◌, Option, none, some, List, [], ◌∷◌, Text, codes, text_eq,
  if◌then◌else◌,
}
use ggt.Prelude.Int.{ℤ}
use ggt.Value.{Value}

pub record Aggregation : Type 0 where
  pub field : Text
  pub function : Text
  pub as_field : Text

pub record AggregateState : Type 0 where
  pub sum : ℕ
  pub count : ℕ
  pub min : Option ℕ
  pub max : Option ℕ

pub record Library : Type 0 where
  pub to_lower : Text → Text
  pub sprint : Value → Text
  pub float_add : ℕ → ℕ → ℕ
  pub float_div : ℕ → ℕ → ℕ
  pub float_lt : ℕ → ℕ → Bool
  pub float_of_int : ℤ → ℕ
  pub float_of_float32 : ℕ → ℕ

pub data Function : Type 0 where
  sum count avg min max : Function

-- `validFunctions`, and the cases of the switches on the name of a function
unfoldable pub function_of : Text → Option Function
function_of t =
    if text_eq t (codes "sum")
    then some sum
    else if text_eq t (codes "count")
    then some count
    else if text_eq t (codes "avg")
    then some avg
    else if text_eq t (codes "min")
    then some min
    else if text_eq t (codes "max")
    then some max
    else none

-- the loop that writes the names in lower case
unfoldable pub normalize : (Text → Text) → List Aggregation → List Aggregation
normalize lower [] = []
normalize lower (agg ∷ aggs) = record agg { function = lower agg.function } ∷ normalize lower aggs

-- `len(invalidFunctions) == 0`
unfoldable pub all_valid : List Aggregation → Bool
unfolding function_of
all_valid [] = true
all_valid (agg ∷ aggs) = elim (function_of agg.function) [ none ↦ false | some f ↦ all_valid aggs ]
