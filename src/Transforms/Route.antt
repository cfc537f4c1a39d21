-- ===== src/Transforms/Route.antt =====
-- internal/transform/filter/route.go: choosing a topic for an event. The language of conditions
-- (internal/condition) is an argument: a parser, that gives a condition or none, and a condition
-- is a test that fails or gives a Boolean.
pub mod Chosen
use ggt.Prelude.{
  ℕ, Bool, true, false, ◌||◌, Option, none, some, List, [], ◌∷◌, Text, codes, text_eq, ltb, length,
  ◌==◌, if◌then◌else◌,
}
use ggt.Event.{Event}
use ggt.Pipeline.{Payload, one, Result, ok, err, failure}
use ggt.Transforms.{
  Raw, empty_raw, undecodable, decoded, Configured, refused, configured, set_header,
}

abbrev pub Condition : Type 0
Condition = Event → Option Bool

pub record ConditionRoute : Type 0 where
  pub condition : Text
  pub topic : Text

pub record RouteConfig : Type 0 where
  pub conditions : List ConditionRoute
  pub default_topic : Text

pub record CompiledRoute : Type 0 where
  pub cond : Condition
  pub topic : Text

pub record Routes : Type 0 where
  pub rules : List CompiledRoute
  pub default_topic : Text

validate_topic_characters : Text → Bool
validate_topic_characters [] = true
validate_topic_characters (c ∷ s) =
    let rest = validate_topic_characters s in if c == 0 || c == 10 || c == 13 then false else rest

starts_with_dot : Text → Bool
starts_with_dot [] = false
starts_with_dot (c ∷ s) = c == b'.'

ends_with_dot : Text → Bool
ends_with_dot [] = false
ends_with_dot (c ∷ []) = c == b'.'
ends_with_dot (c ∷ d ∷ s) = ends_with_dot (d ∷ s)

-- what is wrong with the name of a topic that is not empty
unfoldable pub topic_error : Text → Option Text
unfolding validate_topic_characters starts_with_dot ends_with_dot
topic_error t =
    if ltb 249 (length t)
    then some (codes "topic name too long")
    else if starts_with_dot t || ends_with_dot t
    then some (codes "topic name cannot start or end with a dot")
    else if validate_topic_characters t
    then none
    else some (codes "topic name contains invalid character")

module _ (parse : Text → Option Condition) where
  unfoldable pub compile_entry : ConditionRoute → Configured CompiledRoute
  compile_entry entry =
      if text_eq entry.condition []
      then refused (codes "expression cannot be empty")
      else if text_eq entry.topic []
      then refused (codes "topic cannot be empty")
      else elim (topic_error entry.topic) [
        | some e ↦ refused e
        | none ↦ elim (parse entry.condition) [
          | none ↦ refused (codes "invalid expression")
          | some c ↦ configured (record { cond = c; topic = entry.topic })
        ]
      ]

  unfoldable pub compile : List ConditionRoute → Configured (List CompiledRoute)
  compile [] = configured []
  compile (entry ∷ entries) = elim (compile_entry entry) [
    | refused e ↦ refused e
    | configured rule ↦ elim (compile entries) [
      | refused e ↦ refused e
      | configured rules ↦ configured (rule ∷ rules)
    ]
  ]

  abbrev default_error : Text → Option Text
  default_error [] = none
  default_error (c ∷ t) = topic_error (c ∷ t)

  abbrev no_conditions : RouteConfig → Bool
  no_conditions cfg = if length cfg.conditions == 0 then text_eq cfg.default_topic [] else false

  unfoldable pub configure : Raw RouteConfig → Configured Routes
  configure empty_raw = refused (codes "route conditions required")
  configure (undecodable e) = refused e
  configure (decoded cfg) =
      if no_conditions cfg
      then refused (codes "at least one condition or a default topic is required")
      else elim (default_error cfg.default_topic) [
        | some e ↦ refused e
        | none ↦ elim (compile cfg.conditions) [
          | refused e ↦ refused e
          | configured rules ↦
              configured (record { rules = rules; default_topic = cfg.default_topic })
        ]
      ]

-- the headers of an event, made where they are nil
unfoldable pub with_headers : Event → Event
with_headers e = record e { headers = some (elim e.headers [ none ↦ [] | some m ↦ m ]) }

-- the loop over the rules; `none` if no rule and no default applies
unfoldable pub route : List CompiledRoute → Text → Event → Result
route [] t e =
    if text_eq t []
    then err (failure (codes "no matching route found and no default topic specified"))
    else ok (one (set_header (codes "_route_target") t e))
route (r ∷ rules) t e =
    let rest = route rules t e in
    elim (r.cond e) [
      | none ↦ err (failure (codes "condition evaluation failed"))
      | some match ↦ if match then ok (one (set_header (codes "_route_target") r.topic e)) else rest
    ]

unfoldable pub execute : Routes → Payload → Result
execute cfg (one e) = route cfg.rules cfg.default_topic (with_headers e)
execute cfg _ = err (failure (codes "unexpected payload type"))
