-- ===== src/Transforms/Rules.antt =====
-- internal/transform/validate/rules.go: named conditions that an event must meet. A map of rules is
-- an association list, whose order is that of the range loop; the language of conditions is an
-- argument, as in Transforms/Route.
pub mod Order
use ggt.Prelude.{
  Bool, true, false, not, ◌||◌, ◌&&◌, Option, none, some, List, [], ◌∷◌, ◌++◌, Text, codes, text_eq,
  if◌then◌else◌,
}
use ggt.Prelude.Dict.{Dict}
use ggt.Prelude.Sort.{sort_strings}
use ggt.Event.{Event}
use ggt.Pipeline.{Payload, one, Result, ok, err, failure, drop}
use ggt.Transforms.{
  Raw, empty_raw, undecodable, decoded, Configured, refused, configured, set_header,
}
use ggt.Transforms.Route.{Condition}

pub record RulesConfig : Type 0 where
  pub rules : Dict Text
  pub on_error : Text

pub record Rules : Type 0 where
  pub on_error : Text
  pub rules : Dict Condition

abbrev is_mode : Text → Bool
is_mode m = text_eq m (codes "drop") || text_eq m (codes "dlq") || text_eq m (codes "fail")

-- the loop that parses the rules
unfoldable pub parse_rules : (Text → Option Condition) → Dict Text → Option (Dict Condition)
parse_rules parse [] = some []
parse_rules parse ((name, expr) ∷ rules) = elim (parse expr) [
  | none ↦ none
  | some c ↦ elim (parse_rules parse rules) [ none ↦ none | some cs ↦ some ((name, c) ∷ cs) ]
]

unfoldable pub configure : (Text → Option Condition) → Raw RulesConfig → Configured Rules
unfolding parse_rules
configure parse empty_raw = refused (codes "rules validation configuration required")
configure parse (undecodable e) = refused e
configure parse (decoded cfg) = elim cfg.rules [
  | [] ↦ refused (codes "at least one rule must be specified")
  | rule ∷ rules ↦
      let mode = if text_eq cfg.on_error [] then codes "drop" else cfg.on_error in
      if is_mode mode
      then elim (parse_rules parse (rule ∷ rules)) [
        | none ↦ refused (codes "invalid rule")
        | some compiled ↦ configured (record { on_error = mode; rules = compiled })
      ]
      else refused (codes "on_error must be 'drop', 'dlq', or 'fail'")
]

-- What the loop over the rules ends with: the names of those that fail, or the name of the first one
-- that cannot be evaluated.
pub data Verdict : Type 0 where
  evaluated : List Text → Verdict
  not_evaluated : Text → Verdict

-- one rule, by what it evaluates to
abbrev pub add_failed : Text → Option Bool → Verdict → Verdict
add_failed name none rest = not_evaluated name
add_failed name (some match) (not_evaluated other) = not_evaluated other
add_failed name (some true) (evaluated names) = evaluated names
add_failed name (some false) (evaluated names) = evaluated (name ∷ names)

-- the loop over the rules
unfoldable pub failed_rules : Dict Condition → Event → Verdict
failed_rules [] e = evaluated []
failed_rules ((name, condition) ∷ rules) e = add_failed name (condition e) (failed_rules rules e)

-- `fmt.Errorf("rule evaluation failed for '%s': %w", ruleName, err)`, without the cause, which is that
-- of the rule's condition
unfoldable pub evaluation_failed : Text → Result
evaluation_failed name = err (failure (codes "rule evaluation failed for '" ++ name ++ codes "'"))

abbrev words : List Text → Text
words [] = []
words (w ∷ []) = w
words (w ∷ v ∷ ws) = w ++ codes " " ++ words (v ∷ ws)

-- `fmt.Sprintf("validation rules failed: %v", failedRules)`
unfoldable pub failed_message : List Text → Text
failed_message names = codes "validation rules failed: [" ++ words names ++ codes "]"

unfoldable pub on_failed : Text → List Text → Event → Result
unfolding failed_message
on_failed mode names e =
    if text_eq mode (codes "drop")
    then err drop
    else if text_eq mode (codes "dlq")
    then ok (
        one (
          set_header (codes "_dlq_transform") (codes "validate.rules")
            (set_header (codes "_dlq_reason") (failed_message names) e)))
    else if text_eq mode (codes "fail")
    then err (failure (failed_message names))
    else ok (one e)

unfoldable pub execute : Rules → Payload → Result
unfolding failed_rules evaluation_failed
execute cfg (one e) = elim (failed_rules cfg.rules e) [
  | not_evaluated name ↦ evaluation_failed name
  | evaluated [] ↦ ok (one e)
  | evaluated (name ∷ names) ↦ on_failed cfg.on_error (sort_strings (name ∷ names)) e
]
execute cfg _ = err (failure (codes "unexpected payload type"))
