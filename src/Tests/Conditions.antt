-- ===== src/Tests/Conditions.antt =====
-- Conditions on a concrete event (internal/condition). The library is one on whose numbers and
-- patterns the tests do not depend: a number is one digit, and a pattern matches itself.
use mathlib.Core.List.Perm
use ggt.Prelude.{
  ℕ, Bool, true, false, Option, none, some, [], ◌∷◌, ◌++◌, ◌+◌, ◌-◌, ◌≡◌, refl, Text, codes,
  text_eq, ltb, leb, if◌then◌else◌,
}
use ggt.Prelude.Int.{pos}
use ggt.Value.{Value, str, make_map, no_fields, field}
use ggt.Event.{Event}
use ggt.Pipeline.{one}
use ggt.Transforms.{decoded, configured}
use ggt.Transforms.Route as Route
use ggt.Transforms.Condition.{configure, execute}
use ggt.Transforms.Condition.Expressions.{as_test, parse_test, execute-evaluate, verdict}
use ggt.Transforms.Rules as Rules
use ggt.Transforms.Rules.{Rules}
use ggt.Transforms.Rules.Order.{Agrees, execute-perm}
use ggt.Condition.{
  Operator, eq, ne, lt, lte, gt, gte, match, notmatch, contains, startswith, endswith, in_list,
  Condition, and, or, not, comparison, Conditions, no_conditions, condition, Library,
}
use ggt.Condition.Parse.{Parsed, parsed, refused, parse}
use ggt.Condition.Parse.Total.{Ensures, parse-Ensures}
use ggt.Condition.Runnable.{IsRunnable}
use ggt.Condition.Eval.{truth, evaluate}
use ggt.Condition.Eval.Laws.{Evaluates, evaluate-denied, denied}

abbrev digit : Text → Option ℕ
digit (c ∷ []) = if ltb c 48 then none else if ltb 57 c then none else some (c - 48)
digit _ = none

abbrev plain : Value → Text
plain (str t) = t
plain _ = codes "<value>"

abbrev lib : Library
lib = record {
  compiles = λ p. true;
  matches = text_eq;
  sprint = plain;
  parse_float = digit;
  float_lt = ltb;
  float_le = leb;
}

abbrev text : Text
text = codes "a == \"x\" AND NOT b > 3"

abbrev a_is_x : Condition
a_is_x = comparison (codes "a") eq (codes "x") none

abbrev b_above_3 : Condition
b_above_3 = comparison (codes "b") gt (codes "3") none

abbrev meaning : Condition
meaning = and (condition a_is_x (condition (not b_above_3) no_conditions))

text-parsed : parse lib.compiles text ≡ parsed meaning
unfolding parse ggt.Condition.Parse.parse_stage text_eq ggt.Prelude.Trim.trim_space
    ggt.Condition.Scan.split_outside_parens ggt.Condition.Scan.split_scan
    ggt.Condition.Scan.strip_outer_parens ggt.Condition.Parse.find_first
    ggt.Condition.Scan.find_operator ggt.Condition.Scan.find_scan ggt.Condition.Scan.unquote_value
text-parsed = refl

abbrev x_and : Text → Event
x_and b = record {
  payload = make_map (field (codes "a") (str (codes "x")) (field (codes "b") (str b) no_fields));
  metadata = record { topic = codes "in"; partition = pos 0; offset = pos 7; key = none };
  timestamp = 5;
  headers = none;
}

low-evaluate : evaluate lib meaning (x_and (codes "2")) ≡ truth true
unfolding evaluate text_eq ggt.Event.get_field ggt.Event.get_keys ggt.Event.split
    ggt.Value.lookup_key ggt.Value.lookup_fields
low-evaluate = refl

high-evaluate : evaluate lib meaning (x_and (codes "5")) ≡ truth false
unfolding evaluate text_eq ggt.Event.get_field ggt.Event.get_keys ggt.Event.split
    ggt.Value.lookup_key ggt.Value.lookup_fields
high-evaluate = refl

parse-Ensures_example : Ensures IsRunnable (parse lib.compiles text)
parse-Ensures_example = parse-Ensures lib.compiles text

evaluate-denied_example :
    evaluate lib (not meaning) (x_and (codes "5"))
    ≡ evaluate lib
        (or (denied (condition a_is_x (condition (not b_above_3) no_conditions))))
        (x_and (codes "5"))
evaluate-denied_example =
    evaluate-denied lib (condition a_is_x (condition (not b_above_3) no_conditions))
      (x_and (codes "5"))

text-configured : configure (parse_test lib) (decoded text) ≡ configured (as_test lib meaning)
unfolding configure text_eq parse_test parse ggt.Condition.Parse.parse_stage
    ggt.Prelude.Trim.trim_space ggt.Condition.Scan.split_outside_parens
    ggt.Condition.Scan.split_scan ggt.Condition.Scan.strip_outer_parens
    ggt.Condition.Parse.find_first ggt.Condition.Scan.find_operator ggt.Condition.Scan.find_scan
    ggt.Condition.Scan.unquote_value
text-configured = refl

execute-evaluate_example :
    (c : Condition) × (parse lib.compiles text ≡ parsed c)
    × ((e : Event)
        → (execute (as_test lib meaning) (one e) ≡ verdict (evaluate lib c e) e)
          × Evaluates lib (evaluate lib c e))
execute-evaluate_example = execute-evaluate lib text (as_test lib meaning) text-configured

-- A parenthesis in quotes is taken for one that closes.
quoted_parenthesis-kept :
    parse lib.compiles (codes "(a == \")\")")
    ≡ parsed (comparison (codes "(a") eq (codes "\")\")") none)
unfolding parse ggt.Condition.Parse.parse_stage text_eq ggt.Prelude.Trim.trim_space
    ggt.Condition.Scan.split_outside_parens ggt.Condition.Scan.split_scan
    ggt.Condition.Scan.strip_outer_parens ggt.Condition.Parse.find_first
    ggt.Condition.Scan.find_operator ggt.Condition.Scan.find_scan ggt.Condition.Scan.unquote_value
quoted_parenthesis-kept = refl

abbrev x_rule : Text × Route.Condition
x_rule = (codes "x", as_test lib a_is_x)

abbrev b_rule : Text × Route.Condition
b_rule = (codes "b", as_test lib b_above_3)

abbrev rules : Rules
rules = record { on_error = codes "dlq"; rules = x_rule ∷ b_rule ∷ [] }

execute-perm_example :
    Agrees rules.rules
      (b_rule ∷ x_rule ∷ [])
      (x_and (codes "2"))
      (Rules.execute rules (one (x_and (codes "2"))))
      (Rules.execute
        (record { on_error = codes "dlq"; rules = b_rule ∷ x_rule ∷ [] })
        (one (x_and (codes "2"))))
execute-perm_example =
    execute-perm rules (b_rule ∷ x_rule ∷ []) (x_and (codes "2")) (Perm.swap b_rule x_rule [])
