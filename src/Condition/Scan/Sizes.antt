-- ===== src/Condition/Scan/Sizes.antt =====
-- How long what a scan returns can be (internal/condition/condition.go).
use ggt.Prelude.{
  ℕ, zero, suc, Bool, true, false, not, ◌&&◌, Option, none, List, [], ◌∷◌, ◌++◌, ◌+◌, ◌-◌, ◌≤◌, ◌<◌,
  ◌==◌, ◌≡◌, refl, Text, ltb, length, length-append, arith, if◌then◌else◌, Bool-cases, inl, inr,
  ◌⊎◌,
}
use ggt.Prelude.Trim.{trim_space, length-trim_space-le}
use ggt.Condition.Scan.{
  drop_bytes, add_part, escapes, update_quote, is_open, has_prefix, depth_behind, split_scan,
  split_outside_parens, but_last, strip_trimmed, strip_outer_parens, last_byte, is_zero,
  outer_depth,
}

-- The bytes of all parts together.
abbrev pub total : List Text → ℕ
total [] = 0
total (t ∷ ts) = length t + total ts

size-add_part :
    (part : Text) (rest : List Text)
    → total (add_part part rest) + length (add_part part rest)
      ≤ length part + 1 + total rest + length rest
size-add_part part rest = go (trim_space part) (length-trim_space-le part)
  where
    go :
        (t : Text)
        → length t ≤ length part
        → total (elim t [ [] ↦ rest | c ∷ s ↦ (c ∷ s) ∷ rest ])
            + length (elim t [ [] ↦ rest | c ∷ s ↦ (c ∷ s) ∷ rest ])
          ≤ length part + 1 + total rest + length rest
    go [] h = omega arith
    go (c ∷ s) h = omega arith

size_step :
    (short hit : Bool) (part : Text) (c : ℕ) (s : Text) (rest : List Text)
    → total rest + length rest ≤ length (if hit then [] else part ++ c ∷ []) + length s + 1
    → let parts =
        if short then add_part (part ++ c ∷ s) [] else if hit then add_part part rest else rest in
      total parts + length parts ≤ length part + length (c ∷ s) + 1
size_step true hit part c s rest h =
    omega (arith, size-add_part (part ++ c ∷ s) [], length-append part (c ∷ s))
size_step false true part c s rest h = omega (arith, size-add_part part rest)
size_step false false part c s rest h = omega (arith, length-append part (c ∷ []))

size-split_scan :
    (sep : Text) (skip : ℕ) (escaped : Bool) (quote : Option ℕ) (depth : ℕ) (part s : Text)
    → total (split_scan sep skip escaped quote depth part s)
        + length (split_scan sep skip escaped quote depth part s)
      ≤ length part + length s + 1
unfolding split_scan
size-split_scan sep skip escaped quote depth part [] = omega (arith, size-add_part part [])
size-split_scan sep (suc skip) escaped quote depth part (c ∷ s) =
    omega (arith, size-split_scan sep skip (escapes c escaped) quote depth part s)
size-split_scan sep zero escaped quote depth part (c ∷ s) =
    let quote' = update_quote c escaped quote in
    let hit = not (is_open quote') && depth == 0 && has_prefix (c ∷ s) sep in
    size_step (ltb (length (c ∷ s)) (length sep)) hit part c s _ (
      size-split_scan sep (if hit then length sep - 1 else 0) (escapes c escaped) quote'
        (if is_open quote' then depth else depth_behind c depth)
        (if hit then [] else part ++ c ∷ []) s)

-- The parts are no longer than the text, and where there are two of them each one is shorter.
abbrev pub Below : ℕ → List Text → Type 0
Below n [] = Unit
Below n (t ∷ ts) = (length t < n) × Below n ts

Below-total : (n : ℕ) (ts : List Text) → total ts < n → Below n ts
Below-total n [] h = tt
Below-total n (t ∷ ts) h = (omega arith, Below-total n ts (omega arith))

pub split-Below :
    (expr sep a b : Text) (parts : List Text)
    → split_outside_parens expr sep ≡ a ∷ b ∷ parts
    → Below (length expr) (a ∷ b ∷ parts)
unfolding split_outside_parens
split-Below expr sep a b parts h =
    let size = size-split_scan sep 0 false none 0 [] expr in
    let size' = rw h at size in Below-total (length expr) (a ∷ b ∷ parts) (omega arith)

pub length-drop_bytes : (n : ℕ) (s : Text) → length (drop_bytes n s) ≡ length s - n
unfolding drop_bytes
length-drop_bytes zero s = omega arith
length-drop_bytes (suc n) [] = omega arith
length-drop_bytes (suc n) (c ∷ s) = omega (arith, length-drop_bytes n s)

length-but_last-le : (s : Text) → length (but_last s) ≤ length s - 1
unfolding but_last
length-but_last-le [] = omega arith
length-but_last-le (c ∷ []) = omega arith
length-but_last-le (c ∷ d ∷ s) = omega (arith, length-but_last-le (d ∷ s))

strip_trimmed_cases : (s : Text) → (strip_trimmed s ≡ s) ⊎ (length (strip_trimmed s) < length s)
unfolding strip_trimmed
strip_trimmed_cases [] = inl refl
strip_trimmed_cases (c ∷ []) = inl refl
strip_trimmed_cases (c ∷ d ∷ s) =
    elim (Bool-cases
      (c == b'(' && last_byte (d ∷ s) == b')' && is_zero (outer_depth 0 (c ∷ d ∷ s)))) [
        | inl t ↦ inr (rw t (omega (arith, length-but_last-le (d ∷ s))))
        | inr t ↦ inl (rw t refl)
      ]

-- Stripping the outer parentheses of a trimmed text changes nothing or makes it shorter.
pub strip_cases :
    (s : Text) → (strip_outer_parens s ≡ trim_space s) ⊎ (length (strip_outer_parens s) < length s)
unfolding strip_outer_parens
strip_cases s = elim (strip_trimmed_cases (trim_space s)) [
  | inl e ↦ inl e
  | inr l ↦ inr (omega (arith, length-trim_space-le s))
]
