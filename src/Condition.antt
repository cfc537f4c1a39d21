-- ===== src/Condition.antt =====
-- internal/condition/condition.go: the language of conditions on an event. Condition/Scan walks
-- through the text of an expression, Condition/Parse makes a condition of it, Condition/Eval
-- applies one to an event. Regular expressions, the text of a value (`fmt.Sprintf` with `%v`) and
-- the reading and the order of floats are arguments.
pub mod Scan
pub mod Parse
pub mod Eval
pub mod Runnable
use ggt.Prelude.{ℕ, Bool, Option, Text}
use ggt.Value.{Value}

pub data Operator : Type 0 where
  eq ne lt lte gt gte match notmatch contains startswith endswith in_list : Operator

-- A comparison has a field, an operator, a value, and the pattern that was compiled for it.
mutual
  pub data Condition : Type 0 where
    and : Conditions → Condition
    or : Conditions → Condition
    not : Condition → Condition
    comparison : Text → Operator → Text → Option Text → Condition

  pub data Conditions : Type 0 where
    no_conditions : Conditions
    condition : Condition → Conditions → Conditions

pub record Library : Type 0 where
  pub compiles : Text → Bool
  pub matches : Text → Text → Bool
  pub sprint : Value → Text
  pub parse_float : Text → Option ℕ
  pub float_lt : ℕ → ℕ → Bool
  pub float_le : ℕ → ℕ → Bool
