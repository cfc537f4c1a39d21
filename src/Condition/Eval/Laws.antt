-- ===== src/Condition/Eval/Laws.antt =====
-- What conditions evaluate to (internal/condition/condition.go).
use ggt.Prelude.{
  ℕ, Bool, true, false, Option, none, some, [], ◌≡◌, refl, Text, text_eq, if◌then◌else◌,
}
use ggt.Event.{Event, get_field}
use ggt.Value.{Value}
use ggt.Condition.{
  Operator, eq, ne, lt, lte, gt, gte, match, notmatch, contains, startswith, endswith, in_list,
  Condition, and, or, not, comparison, Conditions, no_conditions, condition, Library,
}
use ggt.Condition.Parse.{parsed, parse}
use ggt.Condition.Parse.Total.{parse-Ensures}
use ggt.Condition.Runnable.{IsRunnable, AllRunnable, HasPattern}
use ggt.Condition.Eval.{
  not_numeric, Outcome, truth, failed, without_field, compare_text, compare_numbers, match_pattern,
  compare_field, evaluate, evaluate_all, evaluate_any, negate,
}

-- The denials of a list of conditions.
unfoldable pub denied : Conditions → Conditions
denied no_conditions = no_conditions
denied (condition c cs) = condition (not c) (denied cs)

module _ (lib : Library) where
  negate_all :
      (cs : Conditions) (e : Event)
      → negate lib (evaluate_all lib cs e) ≡ evaluate_any lib (denied cs) e
  unfolding evaluate denied
  negate_all no_conditions e = refl
  negate_all (condition c cs) e = go (evaluate lib c e) (negate_all cs e)
    where
      go :
          (o : Outcome)
          → negate lib (evaluate_all lib cs e) ≡ evaluate_any lib (denied cs) e
          → negate lib (elim o [
            | failed x ↦ failed x
            | truth b ↦ if b then evaluate_all lib cs e else truth false
          ])
            ≡ elim (negate lib o) [
              | failed x ↦ failed x
              | truth b ↦ if b then truth true else evaluate_any lib (denied cs) e
            ]
      go (failed x) h = refl
      go (truth true) h = h
      go (truth false) h = refl

  -- The denial of a conjunction is the disjunction of the denials, on every event, errors and the
  -- order in which they arise included.
  pub evaluate-denied :
      (cs : Conditions) (e : Event)
      → evaluate lib (not (and cs)) e ≡ evaluate lib (or (denied cs)) e
  unfolding evaluate
  evaluate-denied cs e = negate_all cs e

  -- A truth value, or the error of operands that are no numbers.
  abbrev pub Evaluates : Outcome → Type 0
  Evaluates (truth b) = Unit
  Evaluates (failed not_numeric) = Unit
  Evaluates (failed _) = ⊥

  true≢false : true ≡ false → ⊥
  true≢false h = cc

  compare_numbers-Evaluates :
      (a b : Text) (cmp : ℕ → ℕ → Bool) → Evaluates (compare_numbers lib a b cmp)
  unfolding compare_numbers
  compare_numbers-Evaluates a b cmp = go (lib.parse_float a) (lib.parse_float b)
    where
      go :
          (x y : Option ℕ)
          → Evaluates (elim x [
            | none ↦ failed not_numeric
            | some m ↦ elim y [ none ↦ failed not_numeric | some n ↦ truth (cmp m n) ]
          ])
      go none y = tt
      go (some m) none = tt
      go (some m) (some n) = tt

  compare_text-Evaluates :
      (op : Operator) (field value : Text) (pattern : Option Text)
      → HasPattern op pattern
      → Evaluates (compare_text lib op field value pattern)
  unfolding compare_text match_pattern
  compare_text-Evaluates eq field value pattern h = tt
  compare_text-Evaluates ne field value pattern h = tt
  compare_text-Evaluates lt field value pattern h =
      compare_numbers-Evaluates field value lib.float_lt
  compare_text-Evaluates lte field value pattern h =
      compare_numbers-Evaluates field value lib.float_le
  compare_text-Evaluates gt field value pattern h =
      compare_numbers-Evaluates field value (λ x y. lib.float_lt y x)
  compare_text-Evaluates gte field value pattern h =
      compare_numbers-Evaluates field value (λ x y. lib.float_le y x)
  compare_text-Evaluates match field value (some p) h = tt
  compare_text-Evaluates match field value none h = absurd (true≢false h)
  compare_text-Evaluates notmatch field value (some p) h = tt
  compare_text-Evaluates notmatch field value none h = absurd (true≢false h)
  compare_text-Evaluates contains field value pattern h = tt
  compare_text-Evaluates startswith field value pattern h = tt
  compare_text-Evaluates endswith field value pattern h = tt
  compare_text-Evaluates in_list field value pattern h = tt

  compare_field-Evaluates :
      (field : Text) (op : Operator) (value : Text) (pattern : Option Text) (e : Event)
      → text_eq field [] ≡ false
      → HasPattern op pattern
      → Evaluates (compare_field lib field op value pattern e)
  unfolding compare_field
  compare_field-Evaluates field op value pattern e named h = rw named (go (get_field e field))
    where
      go :
          (found : Option Value)
          → Evaluates (elim found [
            | none ↦ truth (without_field op)
            | some v ↦ compare_text lib op (lib.sprint v) value pattern
          ])
      go none = tt
      go (some v) = compare_text-Evaluates op (lib.sprint v) value pattern h

  and_then-Evaluates :
      (o r : Outcome)
      → Evaluates o
      → Evaluates r
      → Evaluates (elim o [ failed x ↦ failed x | truth b ↦ if b then r else truth false ])
  and_then-Evaluates (failed x) r ho hr = ho
  and_then-Evaluates (truth true) r ho hr = hr
  and_then-Evaluates (truth false) r ho hr = tt

  or_else-Evaluates :
      (o r : Outcome)
      → Evaluates o
      → Evaluates r
      → Evaluates (elim o [ failed x ↦ failed x | truth b ↦ if b then truth true else r ])
  or_else-Evaluates (failed x) r ho hr = ho
  or_else-Evaluates (truth true) r ho hr = tt
  or_else-Evaluates (truth false) r ho hr = hr

  negate-Evaluates : (o : Outcome) → Evaluates o → Evaluates (negate lib o)
  negate-Evaluates (failed x) h = h
  negate-Evaluates (truth b) h = tt

  mutual
    unfolding IsRunnable evaluate

    evaluate-Evaluates : (c : Condition) (e : Event) → IsRunnable c → Evaluates (evaluate lib c e)
    evaluate-Evaluates (and cs) e h = evaluate_all-Evaluates cs e h
    evaluate-Evaluates (or cs) e h = evaluate_any-Evaluates cs e h
    evaluate-Evaluates (not c) e h = negate-Evaluates (evaluate lib c e) (evaluate-Evaluates c e h)
    evaluate-Evaluates (comparison field op value pattern) e (named, h) =
        compare_field-Evaluates field op value pattern e named h

    evaluate_all-Evaluates :
        (cs : Conditions) (e : Event) → AllRunnable cs → Evaluates (evaluate_all lib cs e)
    evaluate_all-Evaluates no_conditions e h = tt
    evaluate_all-Evaluates (condition c cs) e (h, hs) =
        and_then-Evaluates (evaluate lib c e) (evaluate_all lib cs e) (evaluate-Evaluates c e h)
          (evaluate_all-Evaluates cs e hs)

    evaluate_any-Evaluates :
        (cs : Conditions) (e : Event) → AllRunnable cs → Evaluates (evaluate_any lib cs e)
    evaluate_any-Evaluates no_conditions e h = tt
    evaluate_any-Evaluates (condition c cs) e (h, hs) =
        or_else-Evaluates (evaluate lib c e) (evaluate_any lib cs e) (evaluate-Evaluates c e h)
          (evaluate_any-Evaluates cs e hs)

-- `Parse` and `Evaluate` together: what the parser has accepted evaluates, on any event, to a truth
-- value or to the error of an operand that is no number. The errors of a missing field name and of
-- a pattern that is not compiled never arise.
pub parse-Evaluates :
    (lib : Library) (text : Text) (c : Condition) (e : Event)
    → parse lib.compiles text ≡ parsed c
    → Evaluates lib (evaluate lib c e)
parse-Evaluates lib text c e h =
    evaluate-Evaluates lib c e (rw h at (parse-Ensures lib.compiles text))
