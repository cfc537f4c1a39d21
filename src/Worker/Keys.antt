-- ===== src/Worker/Keys.antt =====
-- The keys of the events of one record (cmd/transform/main.go, `appendIndexToKey`).
use ggt.Prelude.{
  ℕ, zero, suc, Option, none, some, List, [], ◌∷◌, ◌++◌, ◌+◌, ◌-◌, ◌*◌, ◌/◌, ◌<◌, ◌≡◌, refl, sym,
  ap, ◌∙◌, codes, ltb, arith, Bool-cases, inl, inr,
}
use ggt.Worker.{decimal_digits, decimal, append_index_to_key}

-- The number that decimal digits stand for, behind what was read before.
number_from : ℕ → List ℕ → ℕ
number_from acc [] = acc
number_from acc (d ∷ ds) = number_from (acc * 10 + (d - 48)) ds

number_from-append :
    (acc : ℕ) (ds es : List ℕ) → number_from acc (ds ++ es) ≡ number_from (number_from acc ds) es
unfolding number_from
number_from-append acc [] es = refl
number_from-append acc (d ∷ ds) es = number_from-append (acc * 10 + (d - 48)) ds es

number_from_one : (acc d : ℕ) → number_from acc (d ∷ []) ≡ acc * 10 + (d - 48)
unfolding number_from
number_from_one acc d = refl

number_from-digits : (fuel n : ℕ) → n < fuel → number_from 0 (decimal_digits fuel n) ≡ n
unfolding decimal_digits
number_from-digits zero n h = absurd (omega arith)
number_from-digits (suc fuel) n h = elim (Bool-cases (ltb n 10)) [
  | inl small ↦ rw small (rw number_from_one (omega arith))
  | inr large ↦
      rw (large, number_from-append)
        (rw (number_from-digits fuel (n / 10) (ground arith), number_from_one) (omega arith))
]

-- The fuel is enough: the digits of a number stand for it.
pub decimal_inj : (m n : ℕ) → decimal m ≡ decimal n → m ≡ n
unfolding decimal
decimal_inj m n h =
    sym (number_from-digits (m + 1) m (omega arith))
    ∙ ap (number_from 0) h
    ∙ number_from-digits (n + 1) n (omega arith)

append_cancel : (s t u : List ℕ) → s ++ t ≡ s ++ u → t ≡ u
append_cancel [] t u h = h
append_cancel (x ∷ s) t u h = append_cancel s t u (tail_eq h)
  where
    tail_eq : {a b : List ℕ} → (x ∷ a) ≡ (x ∷ b) → a ≡ b
    tail_eq q = cc

some_eq : {s t : List ℕ} → some s ≡ some t → s ≡ t
some_eq h = cc

-- Two events of one record have different keys, whatever the key of the record is, nil too.
pub append_index_to_key_inj :
    (key : Option (List ℕ)) (i j : ℕ)
    → append_index_to_key key i ≡ append_index_to_key key j
    → i ≡ j
unfolding append_index_to_key
append_index_to_key_inj none i j h =
    decimal_inj i j (append_cancel (codes "multi-") (decimal i) (decimal j) (some_eq h))
append_index_to_key_inj (some base) i j h =
    decimal_inj i j
      (append_cancel (b'-' ∷ []) (decimal i) (decimal j) (append_cancel base _ _ (some_eq h)))
