-- ===== src/Condition/Eval.antt =====
-- Applying a condition to an event (`Evaluate` of internal/condition/condition.go).
pub mod Laws
use ggt.Prelude.{
  ℕ, zero, suc, Bool, true, false, ◌||◌, ◌==◌, Option, none, some, List, [], ◌∷◌, ◌++◌, Text, codes,
  text_eq, if◌then◌else◌,
}
use mathlib.Core.Bool as Bool
use ggt.Prelude.Trim.{trim_space}
use ggt.Value.{Value}
use ggt.Event.{Event, get_field, split}
use ggt.Condition.{
  Operator, eq, ne, lt, lte, gt, gte, match, notmatch, contains, startswith, endswith, in_list,
  Condition, and, or, not, comparison, Conditions, no_conditions, condition, Library,
}
use ggt.Condition.Scan.{has_prefix, has_suffix, contains_text, unquote_value}

pub data EvalError : Type 0 where
  field_missing not_numeric pattern_missing : EvalError

pub data Outcome : Type 0 where
  truth : Bool → Outcome
  failed : EvalError → Outcome

-- what is returned for a field that the event lacks
abbrev pub without_field : Operator → Bool
without_field ne = true
without_field notmatch = true
without_field _ = false

-- `strings.ReplaceAll(s, "\\q", "q")`, for a quote `q`
unfoldable pub unescape : ℕ → Text → Text
unescape q [] = []
unescape q (c ∷ []) = c ∷ []
unescape q (c ∷ d ∷ s) =
    let kept = c ∷ unescape q (d ∷ s) in
    let replaced = q ∷ unescape q s in
    if c == b'\\' then (if d == q then replaced else kept) else kept

unfoldable pub candidate : Text → Text
unfolding unescape
candidate v = unquote_value (unescape b'\'' (unescape b'"' (trim_space v)))

-- the loop over the values of the operator `in`
unfoldable pub any_candidate : Text → List Text → Bool
unfolding candidate
any_candidate field [] = false
any_candidate field (v ∷ vs) =
    let rest = any_candidate field vs in
    if text_eq (trim_space v) [] then rest else if text_eq (candidate v) field then true else rest

module _ (lib : Library) where
  unfoldable pub compare_numbers : Text → Text → (ℕ → ℕ → Bool) → Outcome
  compare_numbers a b cmp = elim (lib.parse_float a) [
    | none ↦ failed not_numeric
    | some x ↦ elim (lib.parse_float b) [ none ↦ failed not_numeric | some y ↦ truth (cmp x y) ]
  ]

  unfoldable pub match_pattern : Text → Option Text → (Bool → Bool) → Outcome
  match_pattern field none f = failed pattern_missing
  match_pattern field (some pattern) f = truth (f (lib.matches pattern field))

  abbrev same : Bool → Bool
  same b = b

  unfoldable pub compare_text : Operator → Text → Text → Option Text → Outcome
  unfolding compare_numbers match_pattern
  compare_text eq field value pattern = truth (text_eq field value)
  compare_text ne field value pattern = truth (Bool.not (text_eq field value))
  compare_text lt field value pattern = compare_numbers field value lib.float_lt
  compare_text lte field value pattern = compare_numbers field value lib.float_le
  compare_text gt field value pattern = compare_numbers field value (λ x y. lib.float_lt y x)
  compare_text gte field value pattern = compare_numbers field value (λ x y. lib.float_le y x)
  compare_text match field value pattern = match_pattern field pattern same
  compare_text notmatch field value pattern = match_pattern field pattern Bool.not
  compare_text contains field value pattern = truth (contains_text field value)
  compare_text startswith field value pattern = truth (has_prefix field value)
  compare_text endswith field value pattern = truth (has_suffix field value)
  compare_text in_list field value pattern = truth (any_candidate field (split b',' value))

  unfoldable pub compare_field : Text → Operator → Text → Option Text → Event → Outcome
  unfolding compare_text
  compare_field field op value pattern e =
      if text_eq field [] then failed field_missing else elim (get_field e field) [
        | none ↦ truth (without_field op)
        | some v ↦ compare_text op (lib.sprint v) value pattern
      ]

  abbrev negate : Outcome → Outcome
  negate (failed e) = failed e
  negate (truth b) = truth (Bool.not b)

  unfoldable mutual
    unfolding compare_field

    pub evaluate : Condition → Event → Outcome
    evaluate (and cs) e = evaluate_all cs e
    evaluate (or cs) e = evaluate_any cs e
    evaluate (not c) e = negate (evaluate c e)
    evaluate (comparison field op value pattern) e = compare_field field op value pattern e

    pub evaluate_all : Conditions → Event → Outcome
    evaluate_all no_conditions e = truth true
    evaluate_all (condition c cs) e =
        let rest = evaluate_all cs e in
        elim (evaluate c e) [ failed x ↦ failed x | truth b ↦ if b then rest else truth false ]

    pub evaluate_any : Conditions → Event → Outcome
    evaluate_any no_conditions e = truth false
    evaluate_any (condition c cs) e =
        let rest = evaluate_any cs e in
        elim (evaluate c e) [ failed x ↦ failed x | truth b ↦ if b then truth true else rest ]
