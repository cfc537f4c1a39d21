-- ===== src/Transforms/Rules/Order.antt =====
-- The order in which a map of rules is gone through does not matter
-- (internal/transform/validate/rules.go).
use mathlib.Core.List.{foldr, Perm}
use mathlib.Core.List.Perm
use ggt.Prelude.{
  Bool, true, false, Option, none, some, List, [], ◌∷◌, ◌≡◌, refl, sym, ap, ◌∙◌, Text, Bool-cases,
  inl, inr, ◌⊎◌,
}
use ggt.Prelude.Dict.{Dict}
use ggt.Prelude.Sort.{sort_strings, insert_text, text_le}
use ggt.Prelude.Order.{insert_comm}
use ggt.Event.{Event}
use ggt.Pipeline.{one, Result, ok}
use ggt.Transforms.Route.{Condition}
use ggt.Transforms.Rules.{
  Verdict, evaluated, not_evaluated, evaluation_failed, Rules, add_failed, failed_rules, on_failed,
  execute,
}

-- The names of the rules that fail, if every rule can be evaluated.
abbrev names_of : Verdict → Option (List Text)
names_of (evaluated names) = some names
names_of (not_evaluated name) = none

abbrev add_name : Text → Option Bool → Option (List Text) → Option (List Text)
add_name name none names = none
add_name name (some match) none = none
add_name name (some true) (some names) = some names
add_name name (some false) (some names) = some (name ∷ names)

names_of-add_failed :
    (name : Text) (x : Option Bool) (v : Verdict)
    → names_of (add_failed name x v) ≡ add_name name x (names_of v)
names_of-add_failed name none v = refl
names_of-add_failed name (some a) (not_evaluated n) = refl
names_of-add_failed name (some true) (evaluated l) = refl
names_of-add_failed name (some false) (evaluated l) = refl

-- A rule adds its name to the sorted names of the rules that fail.
abbrev join : Text → Option Bool → Option (List Text) → Option (List Text)
join name none names = none
join name (some match) none = none
join name (some true) (some names) = some names
join name (some false) (some names) = some (insert_text name names)

judge : Event → Text × Condition → Option (List Text) → Option (List Text)
judge e rule names = join rule.0 (rule.1 e) names

join_comm :
    (n m : Text) (x y : Option Bool) (names : Option (List Text))
    → join n x (join m y names) ≡ join m y (join n x names)
join_comm n m none none names = refl
join_comm n m none (some b) names = refl
join_comm n m (some a) none names = refl
join_comm n m (some a) (some b) none = refl
join_comm n m (some true) (some true) (some l) = refl
join_comm n m (some true) (some false) (some l) = refl
join_comm n m (some false) (some true) (some l) = refl
join_comm n m (some false) (some false) (some l) = ap some (insert_comm n m l)

judge_comm :
    (e : Event) (r s : Text × Condition) (names : Option (List Text))
    → judge e r (judge e s names) ≡ judge e s (judge e r names)
unfolding judge
judge_comm e r s names = join_comm r.0 s.0 (r.1 e) (s.1 e) names

abbrev sorted : Option (List Text) → Option (List Text)
sorted none = none
sorted (some l) = some (sort_strings l)

sorted-add_name :
    (name : Text) (x : Option Bool) (names : Option (List Text))
    → sorted (add_name name x names) ≡ join name x (sorted names)
unfolding sort_strings
sorted-add_name name none names = refl
sorted-add_name name (some a) none = refl
sorted-add_name name (some true) (some l) = refl
sorted-add_name name (some false) (some l) = refl

sorted-failed_rules :
    (rules : Dict Condition) (e : Event)
    → sorted (names_of (failed_rules rules e)) ≡ foldr (judge e) (some []) rules
unfolding failed_rules judge sort_strings
sorted-failed_rules [] e = refl
sorted-failed_rules ((name, c) ∷ rules) e =
    ap sorted (names_of-add_failed name (c e) (failed_rules rules e))
    ∙ sorted-add_name name (c e) (names_of (failed_rules rules e))
    ∙ ap (join name (c e)) (sorted-failed_rules rules e)

names_set : IsSet (Option (List Text))
names_set = hlevel

sorted-failed_rules-perm :
    (rules rules' : Dict Condition) (e : Event)
    → Perm rules rules'
    → sorted (names_of (failed_rules rules e)) ≡ sorted (names_of (failed_rules rules' e))
sorted-failed_rules-perm rules rules' e p =
    sorted-failed_rules rules e
    ∙ Perm.foldr-eq names_set (judge e) (judge_comm e) p (some [])
    ∙ sym (sorted-failed_rules rules' e)

abbrev answer : Text → Event → List Text → Result
answer mode e [] = ok (one e)
answer mode e (name ∷ names) = on_failed mode (name ∷ names) e

insert-cons :
    (x : Text) (l : List Text) → (y : Text) × (l' : List Text) × (insert_text x l ≡ y ∷ l')
unfolding insert_text
insert-cons x [] = (x, [], refl)
insert-cons x (y ∷ l) = elim (Bool-cases (text_le x y)) [
  | inl p ↦ (x, y ∷ l, rw (p, insert_text) refl)
  | inr p ↦ (y, insert_text x l, rw (p, insert_text) refl)
]

answered :
    (mode : Text) (e : Event) (x : Text) (l : List Text)
    → on_failed mode (sort_strings (x ∷ l)) e ≡ answer mode e (sort_strings (x ∷ l))
unfolding sort_strings
answered mode e x l = let (y, l', p) = insert-cons x (sort_strings l) in rw p refl

execute_evaluated :
    (cfg : Rules) (e : Event) (names : List Text)
    → failed_rules cfg.rules e ≡ evaluated names
    → execute cfg (one e) ≡ answer cfg.on_error e (sort_strings names)
unfolding execute
execute_evaluated cfg e [] h = rw (h, execute) (unfold sort_strings in refl)
execute_evaluated cfg e (x ∷ l) h = rw (h, execute) (answered cfg.on_error e x l)

execute_not_evaluated :
    (cfg : Rules) (e : Event) (name : Text)
    → failed_rules cfg.rules e ≡ not_evaluated name
    → execute cfg (one e) ≡ evaluation_failed name
unfolding execute
execute_not_evaluated cfg e name h = rw (h, execute) refl

-- A rule of the name is among the rules and cannot be evaluated.
abbrev pub IsBroken : Text → Dict Condition → Event → Type 0
IsBroken n [] e = ⊥
IsBroken n ((name, c) ∷ rules) e = ((name ≡ n) × (c e ≡ none)) ⊎ IsBroken n rules e

not_evaluated_inj : {n m : Text} → not_evaluated n ≡ not_evaluated m → n ≡ m
not_evaluated_inj h = cc

add_failed-not_evaluated :
    (name n : Text) (x : Option Bool) (v : Verdict)
    → add_failed name x v ≡ not_evaluated n
    → ((name ≡ n) × (x ≡ none)) ⊎ (v ≡ not_evaluated n)
add_failed-not_evaluated name n none v h = inl (not_evaluated_inj h, refl)
add_failed-not_evaluated name n (some b) (not_evaluated m) h = inr h
add_failed-not_evaluated name n (some true) (evaluated l) h = cc
add_failed-not_evaluated name n (some false) (evaluated l) h = cc

failed_rules-IsBroken :
    (rules : Dict Condition) (e : Event) (n : Text)
    → failed_rules rules e ≡ not_evaluated n
    → IsBroken n rules e
unfolding failed_rules
failed_rules-IsBroken [] e n h = cc
failed_rules-IsBroken ((name, c) ∷ rules) e n h =
    elim (add_failed-not_evaluated name n (c e) (failed_rules rules e) h) [
      | inl p ↦ inl p
      | inr p ↦ inr (failed_rules-IsBroken rules e n p)
    ]

-- What two orders of the rules come to: the same, or an error each for a rule that cannot be
-- evaluated.
pub data Agrees (rules rules' : Dict Condition) (e : Event) (r r' : Result) : Type 0 where
  same : r ≡ r' → Agrees rules rules' e r r'
  broken :
      (n n' : Text)
      → IsBroken n rules e
      → IsBroken n' rules' e
      → r ≡ evaluation_failed n
      → r' ≡ evaluation_failed n'
      → Agrees rules rules' e r r'

some_inj : {a b : List Text} → some a ≡ some b → a ≡ b
some_inj h = cc

none≢some : {a : List Text} → none ≡ some a → ⊥
none≢some h = cc

-- Whatever the order in which the rules of a map come, an event is answered in the same way: it is
-- let through, dropped, marked with the same message, or refused with the same error; except that,
-- where rules cannot be evaluated, the order chooses the one of them that the error names.
pub execute-perm :
    (cfg : Rules) (rules : Dict Condition) (e : Event)
    → Perm cfg.rules rules
    → Agrees cfg.rules rules e
        (execute cfg (one e))
        (execute (record cfg { rules = rules }) (one e))
execute-perm cfg rules e p =
    go (failed_rules cfg.rules e) (failed_rules rules e) refl refl
      (sorted-failed_rules-perm cfg.rules rules e p)
  where
    go :
        (v v' : Verdict)
        → failed_rules cfg.rules e ≡ v
        → failed_rules rules e ≡ v'
        → sorted (names_of (failed_rules cfg.rules e)) ≡ sorted (names_of (failed_rules rules e))
        → Agrees cfg.rules rules e
            (execute cfg (one e))
            (execute (record cfg { rules = rules }) (one e))
    go (evaluated l) (evaluated l') h h' s =
        let names : sort_strings l ≡ sort_strings l' = some_inj (rw (h, h') at s) in
        same (
          execute_evaluated cfg e l h
          ∙ ap (answer cfg.on_error e) names
          ∙ sym (execute_evaluated (record cfg { rules = rules }) e l' h'))
    go (not_evaluated n) (not_evaluated n') h h' s =
        broken n n' (failed_rules-IsBroken cfg.rules e n h) (failed_rules-IsBroken rules e n' h')
          (execute_not_evaluated cfg e n h)
          (execute_not_evaluated (record cfg { rules = rules }) e n' h')
    go (evaluated l) (not_evaluated n') h h' s = absurd (none≢some (sym (rw (h, h') at s)))
    go (not_evaluated n) (evaluated l') h h' s = absurd (none≢some (rw (h, h') at s))
