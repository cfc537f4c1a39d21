-- ===== src/Aggregate/Count/Folds.antt =====
-- The running aggregate of a list of numbers, and the function that it stands for
-- (internal/transform/aggregate/count.go).
use ggt.Prelude.{
  ℕ, suc, Option, none, some, List, [], ◌∷◌, ◌+◌, ◌≡◌, refl, ap, Text, length, arith, if◌then◌else◌,
  Option-cases, inl, inr,
}
use ggt.Prelude.Int.{pos}
use ggt.Value.{Value, int, float64, kint}
use ggt.Event.{Event}
use ggt.Aggregate.{
  Aggregation, AggregateState, Library, Function, sum, count, avg, min, max, function_of,
}
use ggt.Aggregate.Count.{new_state, number_in, update_state, result_value}
use ggt.Aggregate.Count.Updates.{states, step_state}

module _ (lib : Library) where
  -- The numbers that the events have in a field.
  abbrev pub numbers : Text → List Event → List ℕ
  numbers name [] = []
  numbers name (e ∷ es) = elim (number_in lib e name) [
    | none ↦ numbers name es
    | some x ↦ x ∷ numbers name es
  ]

  abbrev fold : Function → List ℕ → AggregateState → AggregateState
  fold f [] s = s
  fold f (x ∷ xs) s = fold f xs (update_state lib f x s)

  pub states-fold :
      (agg : Aggregation) (f : Function) (es : List Event) (s : AggregateState)
      → function_of agg.function ≡ some f
      → states lib agg es s ≡ fold f (numbers agg.field es) s
  states-fold agg f [] s h = refl
  states-fold agg f (e ∷ es) s h = elim (Option-cases (number_in lib e agg.field)) [
    | inl p ↦ rw (p, step_state, numbers) (states-fold agg f es s h)
    | inr (x, p) ↦ rw (p, h, step_state, numbers) (states-fold agg f es (update_state lib f x s) h)
  ]

  abbrev pub total : ℕ → List ℕ → ℕ
  total n [] = n
  total n (x ∷ xs) = total (lib.float_add n x) xs

  abbrev pub least : ℕ → List ℕ → ℕ
  least m [] = m
  least m (x ∷ xs) = least (if lib.float_lt x m then x else m) xs

  abbrev pub greatest : ℕ → List ℕ → ℕ
  greatest m [] = m
  greatest m (x ∷ xs) = greatest (if lib.float_lt m x then x else m) xs

  -- The functions, of a list of numbers.
  abbrev pub value_of : Function → List ℕ → Option Value
  value_of sum xs = some (float64 (total 0 xs))
  value_of count xs = some (int kint (pos (length xs)))
  value_of avg [] = some (float64 0)
  value_of avg (x ∷ xs) =
      some (float64 (lib.float_div (total 0 (x ∷ xs)) (lib.float_of_int (pos (length (x ∷ xs))))))
  value_of min [] = none
  value_of min (x ∷ xs) = some (float64 (least x xs))
  value_of max [] = none
  value_of max (x ∷ xs) = some (float64 (greatest x xs))

  fold_counted : (xs : List ℕ) (s : AggregateState) → (fold count xs s).count ≡ s.count + length xs
  unfolding update_state
  fold_counted [] s = omega arith
  fold_counted (x ∷ xs) s = omega (arith, fold_counted xs (record s { count = s.count + 1 }))

  abbrev summed : ℕ → AggregateState → AggregateState
  summed x s = record s { sum = lib.float_add s.sum x; count = s.count + 1 }

  fold_summed : (xs : List ℕ) (s : AggregateState) → ((fold sum xs s).sum ≡ total s.sum xs)
  unfolding update_state
  fold_summed [] s = refl
  fold_summed (x ∷ xs) s = fold_summed xs (summed x s)

  fold_averaged :
      (xs : List ℕ) (s : AggregateState)
      → ((fold avg xs s).sum ≡ total s.sum xs) × ((fold avg xs s).count ≡ s.count + length xs)
  unfolding update_state
  fold_averaged [] s = (refl, omega arith)
  fold_averaged (x ∷ xs) s =
      let rest = fold_averaged xs (summed x s) in (rest.0, omega (arith, rest.1))

  update_least :
      (x m : ℕ) (s : AggregateState)
      → s.min ≡ some m
      → (update_state lib min x s).min ≡ some (if lib.float_lt x m then x else m)
  unfolding update_state
  update_least x m s h = ground arith

  fold-least :
      (xs : List ℕ) (m : ℕ) (s : AggregateState)
      → s.min ≡ some m
      → (fold min xs s).min ≡ some (least m xs)
  fold-least [] m s h = h
  fold-least (x ∷ xs) m s h =
      fold-least xs (if lib.float_lt x m then x else m) (update_state lib min x s)
        (update_least x m s h)

  update_greatest :
      (x m : ℕ) (s : AggregateState)
      → s.max ≡ some m
      → (update_state lib max x s).max ≡ some (if lib.float_lt m x then x else m)
  unfolding update_state
  update_greatest x m s h = ground arith

  fold-greatest :
      (xs : List ℕ) (m : ℕ) (s : AggregateState)
      → s.max ≡ some m
      → (fold max xs s).max ≡ some (greatest m xs)
  fold-greatest [] m s h = h
  fold-greatest (x ∷ xs) m s h =
      fold-greatest xs (if lib.float_lt m x then x else m) (update_state lib max x s)
        (update_greatest x m s h)

  pub result-fold :
      (f : Function) (xs : List ℕ) → result_value lib (some f) (fold f xs new_state) ≡ value_of f xs
  unfolding result_value update_state
  result-fold sum xs = ap (λ n. some (float64 n)) (fold_summed xs new_state)
  result-fold count xs =
      let n : (fold count xs new_state).count ≡ length xs =
        omega (arith, fold_counted xs new_state) in
      ap (λ n. some (int kint (pos n))) n
  result-fold avg [] = refl
  result-fold avg (x ∷ xs) =
      let (p, q) = fold_averaged xs (summed x new_state) in
      let n : (fold avg (x ∷ xs) new_state).count ≡ suc (length xs) = omega (arith, q) in
      rw (p, n) (ground arith)
  result-fold min [] = refl
  result-fold min (x ∷ xs) = rw (fold-least xs x (update_state lib min x new_state) refl) refl
  result-fold max [] = refl
  result-fold max (x ∷ xs) = rw (fold-greatest xs x (update_state lib max x new_state) refl) refl
