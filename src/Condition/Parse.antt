-- ===== src/Condition/Parse.antt =====
-- Making a condition of an expression (`Parse` of internal/condition/condition.go). `Parse` and
-- `parseUnary` call one another; they are one function here, on fuel, that is told which of the two
-- it is.
pub mod Total
use ggt.Prelude.{
  ℕ, zero, suc, Bool, true, false, Option, none, some, List, [], ◌∷◌, ◌+◌, ◌*◌, Text, codes,
  text_eq, length, if◌then◌else◌,
}
use ggt.Prelude.Trim.{trim_space}
use ggt.Condition.{
  Operator, eq, ne, lt, lte, gt, gte, match, notmatch, contains, startswith, endswith, in_list,
  Condition, and, or, not, comparison, Conditions, no_conditions, condition,
}
use ggt.Condition.Scan.{
  has_prefix, drop_bytes, split_outside_parens, find_operator, unquote_value, strip_outer_parens,
}

pub data ParseError : Type 0 where
  empty_expression operand_missing invalid_expression invalid_pattern : ParseError

pub data Parsed {ℓ} (A : Type ℓ) : Type ℓ where
  parsed : A → Parsed A
  refused : ParseError → Parsed A
  out_of_fuel : Parsed A

pub data Stage : Type 0 where
  full unary : Stage

-- the operators of `parseComparisonCondition`, in the order in which they are looked for
abbrev pub operators : List (Text × Operator)
operators =
    (codes "!~", notmatch)
    ∷ (codes "=~", match)
    ∷ (codes "!=", ne)
    ∷ (codes "<=", lte)
    ∷ (codes ">=", gte)
    ∷ (codes "<", lt)
    ∷ (codes ">", gt)
    ∷ (codes "==", eq)
    ∷ (codes "=", eq)
    ∷ (codes "contains", contains)
    ∷ (codes "startswith", startswith)
    ∷ (codes "endswith", endswith)
    ∷ (codes "in", in_list)
    ∷ []

pub record Split : Type 0 where
  pub operator : Operator
  pub before : Text
  pub behind : Text

-- the two loops over the operators
unfoldable pub find_first : List (Text × Operator) → Text → Option Split
find_first [] expr = none
find_first ((op, kind) ∷ ops) expr = elim (find_operator expr op) [
  | some (before, behind) ↦ some (record { operator = kind; before = before; behind = behind })
  | none ↦ find_first ops expr
]

abbrev pub is_pattern : Operator → Bool
is_pattern match = true
is_pattern notmatch = true
is_pattern _ = false

-- the loop over the parts, which ends at the first error
unfoldable pub parse_all : (Text → Parsed Condition) → List Text → Parsed Conditions
parse_all p [] = parsed no_conditions
parse_all p (t ∷ ts) = elim (p t) [
  | refused e ↦ refused e
  | out_of_fuel ↦ out_of_fuel
  | parsed c ↦ elim (parse_all p ts) [
    | refused e ↦ refused e
    | out_of_fuel ↦ out_of_fuel
    | parsed cs ↦ parsed (condition c cs)
  ]
]

abbrev pub map_parsed {ℓ κ} : {A : Type ℓ} {B : Type κ} → (A → B) → Parsed A → Parsed B
map_parsed f (parsed a) = parsed (f a)
map_parsed f (refused e) = refused e
map_parsed f out_of_fuel = out_of_fuel

unfoldable pub parse_and : (Stage → Text → Parsed Condition) → Text → Parsed Condition
unfolding parse_all
parse_and p expr = elim (split_outside_parens expr (codes " AND ")) [
  | a ∷ b ∷ parts ↦ map_parsed and (parse_all (p full) (a ∷ b ∷ parts))
  | _ ↦ p unary expr
]

unfoldable pub parse_full : (Stage → Text → Parsed Condition) → Text → Parsed Condition
unfolding parse_all parse_and
parse_full p text =
    let expr = trim_space text in
    if text_eq expr []
    then refused empty_expression
    else elim (split_outside_parens expr (codes " OR ")) [
      | a ∷ b ∷ parts ↦ map_parsed or (parse_all (p full) (a ∷ b ∷ parts))
      | _ ↦ parse_and p expr
    ]

module _ (compiles : Text → Bool) where
  unfoldable pub make_comparison : Text → Operator → Text → Parsed Condition
  make_comparison field op value =
      if text_eq field []
      then refused invalid_expression
      else if text_eq value []
      then refused invalid_expression
      else let unquoted = unquote_value value in
        if is_pattern op
        then (if compiles unquoted
            then parsed (comparison field op unquoted (some unquoted))
            else refused invalid_pattern)
        else parsed (comparison field op unquoted none)

  unfoldable pub parse_comparison : Text → Parsed Condition
  unfolding make_comparison
  parse_comparison text =
      let expr = trim_space text in
      if text_eq expr [] then refused empty_expression else elim (find_first operators expr) [
        | none ↦ refused invalid_expression
        | some s ↦ make_comparison (trim_space s.before) s.operator (trim_space s.behind)
      ]

  unfoldable pub parse_unary : (Stage → Text → Parsed Condition) → Text → Parsed Condition
  unfolding parse_comparison
  parse_unary p text =
      let expr = trim_space text in
      if text_eq expr []
      then refused empty_expression
      else if has_prefix expr (codes "NOT ")
      then (let operand = trim_space (drop_bytes 4 expr) in
          if text_eq operand [] then refused operand_missing else map_parsed not (p unary operand))
      else (let stripped = strip_outer_parens expr in
          if text_eq stripped expr then parse_comparison expr else p full stripped)

  unfoldable pub parse_stage : ℕ → Stage → Text → Parsed Condition
  unfolding parse_full parse_unary
  parse_stage zero stage text = out_of_fuel
  parse_stage (suc n) full text = parse_full (parse_stage n) text
  parse_stage (suc n) unary text = parse_unary (parse_stage n) text

  -- `Parse`. A step to `parseUnary` keeps the text, any other makes it shorter.
  unfoldable pub parse : Text → Parsed Condition
  parse text = parse_stage (2 * length text + 2) full text
