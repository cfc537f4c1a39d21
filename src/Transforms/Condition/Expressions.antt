-- ===== src/Transforms/Condition/Expressions.antt =====
-- The filter on the language of conditions (internal/transform/filter/condition.go,
-- internal/condition/condition.go).
use ggt.Prelude.{
  Bool, true, false, Option, none, some, [], ◌≡◌, refl, Text, codes, text_eq, Bool-cases, inl, inr,
}
use ggt.Event.{Event}
use ggt.Pipeline.{Result, one, ok, err, failure, drop}
use ggt.Transforms.{decoded, Configured, refused, configured}
use ggt.Transforms.Route as Route
use ggt.Transforms.Condition.{configure, execute}
use ggt.Condition.{Condition, Library}
use ggt.Condition.Parse.{ParseError, Parsed, parsed, out_of_fuel, parse}
use ggt.Condition.Parse as Parse
use ggt.Condition.Eval.{Outcome, truth, failed, evaluate}
use ggt.Condition.Eval.Laws.{Evaluates, parse-Evaluates}

-- a condition as the transforms see it
unfoldable pub as_test : Library → Condition → Event → Option Bool
as_test lib c e = elim (evaluate lib c e) [ truth b ↦ some b | failed x ↦ none ]

unfoldable pub tested : Library → Parsed Condition → Option Route.Condition
tested lib (parsed c) = some (as_test lib c)
tested lib (Parse.refused x) = none
tested lib out_of_fuel = none

unfoldable pub parse_test : Library → Text → Option Route.Condition
unfolding tested
parse_test lib text = tested lib (parse lib.compiles text)

-- What the filter makes of an event of which the condition is known.
abbrev pub verdict : Outcome → Event → Result
verdict (truth true) e = ok (one e)
verdict (truth false) e = err drop
verdict (failed x) e = err (failure (codes "condition evaluation failed"))

execute-as_test :
    (lib : Library) (c : Condition) (e : Event)
    → execute (as_test lib c) (one e) ≡ verdict (evaluate lib c e) e
unfolding execute as_test
execute-as_test lib c e = go (evaluate lib c e) refl
  where
    go :
        (o : Outcome)
        → evaluate lib c e ≡ o
        → execute (as_test lib c) (one e) ≡ verdict (evaluate lib c e) e
    go (truth true) h = rw (h, as_test, execute) refl
    go (truth false) h = rw (h, as_test, execute) refl
    go (failed x) h = rw (h, as_test, execute) refl

configured_test : Option Route.Condition → Configured Route.Condition
configured_test none = refused (codes "invalid condition expression")
configured_test (some c) = configured c

abbrev Made : Library → Route.Condition → Parsed Condition → Type 0
Made lib test p = (c : Condition) × (p ≡ parsed c) × (test ≡ as_test lib c)

tested-Made :
    (lib : Library) (test : Route.Condition) (p : Parsed Condition)
    → configured_test (tested lib p) ≡ configured test
    → Made lib test p
unfolding tested configured_test
tested-Made lib test (parsed c) h = (c, refl, cc)
tested-Made lib test (Parse.refused x) h = absurd cc
tested-Made lib test out_of_fuel h = absurd cc

configure-Made :
    (lib : Library) (text : Text) (test : Route.Condition)
    → configure (parse_test lib) (decoded text) ≡ configured test
    → Made lib test (parse lib.compiles text)
unfolding configure parse_test configured_test
configure-Made lib text test h = elim (Bool-cases (text_eq text [])) [
  | inl q ↦ absurd (go (rw q at h))
  | inr q ↦ tested-Made lib test (parse lib.compiles text) (rw q at h)
]
  where
    go : {x : Text} → refused x ≡ configured test → ⊥
    go k = cc

-- A filter that was accepted has a condition that the parser made of its text. It lets an event
-- through unchanged where the condition is true of it, drops it where the condition is false, and
-- fails otherwise, which happens only for operands that are no numbers.
pub execute-evaluate :
    (lib : Library) (text : Text) (test : Route.Condition)
    → configure (parse_test lib) (decoded text) ≡ configured test
    → (c : Condition) × (parse lib.compiles text ≡ parsed c)
      × ((e : Event)
          → (execute test (one e) ≡ verdict (evaluate lib c e) e)
            × Evaluates lib (evaluate lib c e))
execute-evaluate lib text test h =
    let (c, q, same) = configure-Made lib text test h in
    (c, q, λ e. (rw same (execute-as_test lib c e), parse-Evaluates lib text c e q))
