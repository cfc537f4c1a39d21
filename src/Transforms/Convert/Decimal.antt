-- ===== src/Transforms/Convert/Decimal.antt =====
-- Decimal numbers, as strconv and `%d` write and read them, for internal/transform/data/convert.go.
use ggt.Prelude.{
  ℕ, zero, suc, Bool, false, ◌&&◌, Option, none, some, [], ◌∷◌, ◌++◌, ◌+◌, ◌-◌, ◌*◌, ◌/◌, ◌%◌, ◌<◌,
  ◌≡◌, ◌≢◌, refl, ◌∙◌, ap, Text, ◌==◌, ltb, leb, arith, if◌then◌else◌, Bool-cases, inl, inr,
}
use ggt.Prelude.Int.{ℤ, pos, negsuc, ◌≤ℤ◌, ltb_ℤ}
use ggt.Worker.{decimal_digits, decimal}

-- `%d` of an integer, and `strconv.FormatInt`
unfoldable pub format_int : ℤ → Text
unfolding decimal
format_int (pos n) = decimal n
format_int (negsuc n) = 45 ∷ decimal (suc n)

abbrev pub is_digit : ℕ → Bool
is_digit c = leb 48 c && leb c 57

-- the number that the digits make, after what was read; `none` where one is no digit
unfoldable pub read_digits : ℕ → Text → Option ℕ
read_digits n [] = some n
read_digits n (c ∷ s) = if is_digit c then read_digits (n * 10 + (c - 48)) s else none

unfoldable pub read_number : Text → Option ℕ
unfolding read_digits
read_number [] = none
read_number (c ∷ s) = read_digits 0 (c ∷ s)

abbrev pub max_int64 : ℕ
max_int64 = 9223372036854775807

abbrev pub in_range : Option ℕ → Option ℤ
in_range none = none
in_range (some n) = if leb n max_int64 then some (pos n) else none

abbrev pub negated : Option ℕ → Option ℤ
negated none = none
negated (some zero) = some (pos 0)
negated (some (suc n)) = if leb n max_int64 then some (negsuc n) else none

-- `strconv.ParseInt(s, 10, 64)`; `none` is its error.
unfoldable pub parse_int : Text → Option ℤ
unfolding read_number
parse_int [] = none
parse_int (c ∷ s) =
    if c == 45
    then negated (read_number s)
    else if c == 43
    then in_range (read_number s)
    else in_range (read_number (c ∷ s))

read_digits-append :
    (n m : ℕ) (s : Text) (d : ℕ)
    → d < 10
    → read_digits n s ≡ some m
    → read_digits n (s ++ (d + 48) ∷ []) ≡ some (m * 10 + d)
unfolding read_digits
read_digits-append n m [] d h p = ground arith
read_digits-append n m (c ∷ s) d h p =
    ground (arith, read_digits-append (n * 10 + (c - 48)) m s d h)

read_digits-decimal : (fuel n : ℕ) → n < fuel → read_digits 0 (decimal_digits fuel n) ≡ some n
unfolding decimal_digits
read_digits-decimal zero n h = absurd (omega arith)
read_digits-decimal (suc fuel) n h = elim (Bool-cases (ltb n 10)) [
  | inl small ↦ rw small (unfold read_digits in ground arith)
  | inr big ↦ rw big (
      read_digits-append 0 (n / 10) (decimal_digits fuel (n / 10)) (n % 10) (omega arith)
        (read_digits-decimal fuel (n / 10) (ground arith))
      ∙ ap some (omega arith))
]

read_decimal : (n : ℕ) → read_digits 0 (decimal n) ≡ some n
unfolding decimal
read_decimal n = read_digits-decimal (n + 1) n (omega arith)

append_nonempty : (s : Text) (c : ℕ) → s ++ c ∷ [] ≢ []
append_nonempty [] c e = cc
append_nonempty (d ∷ s) c e = cc

digits_nonempty : (fuel n : ℕ) → 0 < fuel → decimal_digits fuel n ≢ []
unfolding decimal_digits
digits_nonempty zero n h = absurd (omega arith)
digits_nonempty (suc fuel) n h = elim (Bool-cases (ltb n 10)) [
  | inl small ↦ rw (small, decimal_digits) (λ e. cc)
  | inr big ↦ rw (big, decimal_digits) (append_nonempty _ _)
]

decimal_nonempty : (n : ℕ) → decimal n ≢ []
unfolding decimal
decimal_nonempty n = digits_nonempty (n + 1) n (omega arith)

none≢some {ℓ} : {A : Type ℓ} {a : A} → none ≡ some a → ⊥
none≢some e = cc

-- A text of digits is read as a number, without a sign.
parse_int-digits :
    (s : Text) (n : ℕ) → s ≢ [] → read_digits 0 s ≡ some n → parse_int s ≡ in_range (some n)
unfolding parse_int read_number
parse_int-digits [] n e p = absurd (e refl)
parse_int-digits (c ∷ s) n e p = elim (Bool-cases (is_digit c)) [
  | inr other ↦ absurd (none≢some (unfold read_digits in rw (other, read_digits) at p))
  | inl digit ↦
      let minus : (c == 45) ≡ false = ground arith in
      let plus : (c == 43) ≡ false = ground arith in rw (minus, plus, p) refl
]

read_number-digits : (s : Text) (n : ℕ) → s ≢ [] → read_digits 0 s ≡ some n → read_number s ≡ some n
unfolding read_number
read_number-digits [] n e p = absurd (e refl)
read_number-digits (c ∷ s) n e p = p

-- An integer is read back from what is written for it, unless it is too great for an int64.
pub parse_int-format_int :
    (z : ℤ)
    → negsuc max_int64 ≤ℤ z
    → parse_int (format_int z) ≡ (if ltb_ℤ (pos max_int64) z then none else some z)
unfolding format_int
parse_int-format_int (pos n) lo =
    parse_int-digits (decimal n) n (decimal_nonempty n) (read_decimal n) ∙ ground arith
parse_int-format_int (negsuc n) lo =
    unfold parse_int in
    rw
      (read_number-digits (decimal (suc n)) (suc n) (decimal_nonempty (suc n))
        (read_decimal (suc n)))
      (ground arith)
