-- ===== src/Condition/Parse/Total.antt =====
-- The parser ends: the fuel is enough for every text (internal/condition/condition.go).
use ggt.Prelude.{
  ℕ, zero, suc, Bool, true, false, Option, none, some, List, [], ◌∷◌, ◌+◌, ◌*◌, ◌≤◌, ◌<◌, ◌≡◌, refl,
  sym, ap, ◌∙◌, Text, codes, text_eq, text_eq_refl, length, arith, if◌then◌else◌, inl, inr,
}
use ggt.Prelude.Trim.{trim_space, length-trim_space-le, trim_cases}
use ggt.Condition.{Operator, Condition, Conditions, and, or, not, condition}
use ggt.Condition.Runnable.{IsRunnable, AllRunnable}
use ggt.Condition.Scan.{
  split_outside_parens, drop_bytes, unquote_value, strip_outer_parens, has_prefix,
}
use ggt.Condition.Scan.Sizes.{Below, split-Below, length-drop_bytes, strip_cases}
use ggt.Condition.Parse.{
  invalid_expression, Split, Parsed, parsed, refused, out_of_fuel, Stage, full, unary, parse_all,
  map_parsed, parse_and, parse_full, parse_unary, parse_comparison, make_comparison, find_first,
  operators, parse_stage, parse, is_pattern,
}

-- The parser has come to a result, and what it has made has the property.
abbrev pub Ensures {ℓ} : {A : Type ℓ} → (A → Type 0) → Parsed A → Type 0
Ensures P (parsed a) = P a
Ensures P (refused e) = Unit
Ensures P out_of_fuel = ⊥

-- The fuel that a text needs at each stage.
abbrev pub need : Stage → ℕ → ℕ
need full n = 2 * n + 2
need unary n = 2 * n + 1

if-Ensures {ℓ} :
    {A : Type ℓ} (P : A → Type 0) (b : Bool) (x y : Parsed A)
    → (b ≡ true → Ensures P x)
    → (b ≡ false → Ensures P y)
    → Ensures P (if b then x else y)
if-Ensures P true x y f g = f refl
if-Ensures P false x y f g = g refl

map_parsed-Ensures {ℓ κ} :
    {A : Type ℓ} {B : Type κ} (P : A → Type 0) (Q : B → Type 0) (f : A → B) (x : Parsed A)
    → ((a : A) → P a → Q (f a))
    → Ensures P x
    → Ensures Q (map_parsed f x)
map_parsed-Ensures P Q f (parsed a) k h = k a h
map_parsed-Ensures P Q f (refused e) k h = tt
map_parsed-Ensures P Q f out_of_fuel k h = elim h [ ]

parse_all-Ensures :
    (p : Text → Parsed Condition) (n : ℕ) (ts : List Text)
    → ((t : Text) → length t < n → Ensures IsRunnable (p t))
    → Below n ts
    → Ensures AllRunnable (parse_all p ts)
unfolding parse_all AllRunnable
parse_all-Ensures p n [] h b = tt
parse_all-Ensures p n (t ∷ ts) h b =
    go (p t) (h t b.0) (parse_all p ts) (parse_all-Ensures p n ts h b.1)
  where
    go :
        (x : Parsed Condition)
        → Ensures IsRunnable x
        → (y : Parsed Conditions) → Ensures AllRunnable y
        → Ensures AllRunnable (elim x [
          | refused e ↦ refused e
          | out_of_fuel ↦ out_of_fuel
          | parsed c ↦ elim y [
            | refused e ↦ refused e
            | out_of_fuel ↦ out_of_fuel
            | parsed cs ↦ parsed (condition c cs)
          ]
        ])
    go (parsed c) f (parsed cs) g = (f, g)
    go (parsed c) f (refused e) g = tt
    go (parsed c) f out_of_fuel g = elim g [ ]
    go (refused e) f y g = tt
    go out_of_fuel f y g = elim f [ ]

-- What the calls with one unit of fuel less do.
abbrev Ready : ℕ → (Stage → Text → Parsed Condition) → Type 0
Ready n p = (stage : Stage) (t : Text) → need stage (length t) ≤ n → Ensures IsRunnable (p stage t)

parts-Ensures :
    (p : Stage → Text → Parsed Condition) (n : ℕ) (wrap : Conditions → Condition)
    (expr sep a b : Text) (parts : List Text)
    → ((cs : Conditions) → AllRunnable cs → IsRunnable (wrap cs))
    → Ready n p
    → need full (length expr) ≤ suc n
    → split_outside_parens expr sep ≡ a ∷ b ∷ parts
    → Ensures IsRunnable (map_parsed wrap (parse_all (p full) (a ∷ b ∷ parts)))
parts-Ensures p n wrap expr sep a b parts k h l e =
    map_parsed-Ensures AllRunnable IsRunnable wrap (parse_all (p full) (a ∷ b ∷ parts)) k (
      parse_all-Ensures (p full) (length expr) (a ∷ b ∷ parts) (λ t m. h full t (omega arith))
        (split-Below expr sep a b parts e))

parse_and-Ensures :
    (p : Stage → Text → Parsed Condition) (n : ℕ) (expr : Text)
    → Ready n p
    → need full (length expr) ≤ suc n
    → Ensures IsRunnable (parse_and p expr)
unfolding parse_and
parse_and-Ensures p n expr h l = go (split_outside_parens expr (codes " AND ")) refl
  where
    go :
        (ts : List Text)
        → split_outside_parens expr (codes " AND ") ≡ ts
        → Ensures IsRunnable (elim ts [
          | a ∷ b ∷ parts ↦ map_parsed and (parse_all (p full) (a ∷ b ∷ parts))
          | _ ↦ p unary expr
        ])
    go [] e = h unary expr (omega arith)
    go (a ∷ []) e = h unary expr (omega arith)
    go (a ∷ b ∷ parts) e =
        parts-Ensures p n and expr (codes " AND ") a b parts (λ cs r. unfold IsRunnable in r) h l e

parse_full-Ensures :
    (p : Stage → Text → Parsed Condition) (n : ℕ) (text : Text)
    → Ready n p
    → need full (length text) ≤ suc n
    → Ensures IsRunnable (parse_full p text)
unfolding parse_full
parse_full-Ensures p n text h l =
    if-Ensures IsRunnable (text_eq (trim_space text) []) _ _ (λ t. tt)
      (λ t. go (split_outside_parens (trim_space text) (codes " OR ")) refl)
  where
    short : need full (length (trim_space text)) ≤ suc n
    short = omega (arith, length-trim_space-le text)

    go :
        (ts : List Text)
        → split_outside_parens (trim_space text) (codes " OR ") ≡ ts
        → Ensures IsRunnable (elim ts [
          | a ∷ b ∷ parts ↦ map_parsed or (parse_all (p full) (a ∷ b ∷ parts))
          | _ ↦ parse_and p (trim_space text)
        ])
    go [] e = parse_and-Ensures p n (trim_space text) h short
    go (a ∷ []) e = parse_and-Ensures p n (trim_space text) h short
    go (a ∷ b ∷ parts) e =
        parts-Ensures p n or (trim_space text) (codes " OR ") a b parts
          (λ cs r. unfold IsRunnable in r) h short e

module _ (compiles : Text → Bool) where
  make_comparison-Ensures :
      (field : Text) (op : Operator) (value : Text)
      → Ensures IsRunnable (make_comparison compiles field op value)
  unfolding make_comparison IsRunnable
  make_comparison-Ensures field op value =
      if-Ensures IsRunnable (text_eq field []) _ _ (λ t. tt)
        (λ t.
          if-Ensures IsRunnable (text_eq value []) _ _ (λ t'. tt)
            (λ t'.
              if-Ensures IsRunnable (is_pattern op) _ _
                (λ t''.
                  if-Ensures IsRunnable (compiles (unquote_value value)) _ _ (λ u. (t, tt))
                    (λ u. tt))
                (λ t''. (t, t''))))

  parse_comparison-Ensures : (text : Text) → Ensures IsRunnable (parse_comparison compiles text)
  unfolding parse_comparison
  parse_comparison-Ensures text =
      if-Ensures IsRunnable (text_eq (trim_space text) []) _ _ (λ t. tt)
        (λ t. go (find_first operators (trim_space text)))
    where
      go :
          (o : Option Split)
          → Ensures IsRunnable (elim o [
            | none ↦ refused invalid_expression
            | some s ↦
                make_comparison compiles (trim_space s.before) s.operator (trim_space s.behind)
          ])
      go none = tt
      go (some s) = make_comparison-Ensures (trim_space s.before) s.operator (trim_space s.behind)

  stripped_shorter :
      (expr : Text)
      → text_eq (strip_outer_parens expr) expr ≡ false
      → length (strip_outer_parens expr) < length expr
  stripped_shorter expr h = elim (strip_cases expr) [
    | inr l ↦ l
    | inl e ↦ elim (trim_cases expr) [
      | inr l ↦ omega (arith, ap length e)
      | inl e' ↦ absurd (true≢false (sym (rw (e ∙ e') (text_eq_refl expr)) ∙ h))
    ]
  ]
    where
      true≢false : true ≡ false → ⊥
      true≢false q = cc

  nonempty_length : (s : Text) → text_eq s [] ≡ false → 0 < length s
  unfolding text_eq
  nonempty_length [] h = cc
  nonempty_length (c ∷ s) h = omega arith

  parse_unary-Ensures :
      (p : Stage → Text → Parsed Condition) (n : ℕ) (text : Text)
      → Ready n p
      → need unary (length text) ≤ suc n
      → Ensures IsRunnable (parse_unary compiles p text)
  unfolding parse_unary
  parse_unary-Ensures p n text h l =
      let expr = trim_space text in
      let operand = trim_space (drop_bytes 4 expr) in
      let short = length-trim_space-le text in
      let short' = length-trim_space-le (drop_bytes 4 expr) in
      if-Ensures IsRunnable (text_eq expr []) _ _ (λ t. tt)
        (λ t.
          if-Ensures IsRunnable (has_prefix expr (codes "NOT ")) _ _
            (λ u.
              if-Ensures IsRunnable (text_eq operand []) _ _ (λ v. tt)
                (λ v.
                  map_parsed-Ensures IsRunnable IsRunnable not (p unary operand)
                    (λ c r. unfold IsRunnable in r)
                    (h unary operand
                      (omega (arith, length-drop_bytes 4 expr, nonempty_length expr t)))))
            (λ u.
              if-Ensures IsRunnable (text_eq (strip_outer_parens expr) expr) _ _
                (λ v. parse_comparison-Ensures expr)
                (λ v. h full (strip_outer_parens expr) (omega (arith, stripped_shorter expr v)))))

  parse_stage-Ensures : (n : ℕ) → Ready n (parse_stage compiles n)
  unfolding parse_stage
  parse_stage-Ensures zero full t l = absurd (omega arith)
  parse_stage-Ensures zero unary t l = absurd (omega arith)
  parse_stage-Ensures (suc n) full t l =
      parse_full-Ensures (parse_stage compiles n) n t (parse_stage-Ensures n) l
  parse_stage-Ensures (suc n) unary t l =
      parse_unary-Ensures (parse_stage compiles n) n t (parse_stage-Ensures n) l

  -- `Parse` ends on every text, with an error or with a condition each of whose comparisons names a
  -- field and has a compiled pattern where its operator wants one.
  pub parse-Ensures : (text : Text) → Ensures IsRunnable (parse compiles text)
  unfolding parse
  parse-Ensures text = parse_stage-Ensures (2 * length text + 2) full text (omega arith)
