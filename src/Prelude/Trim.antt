-- ===== src/Prelude/Trim.antt =====
-- `strings.TrimSpace`, on texts that have no white space outside ASCII at their ends, and what it
-- leaves of a text.
use Prim.Native.Nat.{ℕ, ◌≤◌, ◌<◌}
use mathlib.Core.Path.{◌≡◌, refl, ap, ◌∙◌}
use mathlib.Core.Logic.{inl, inr, ◌⊎◌}
use mathlib.Core.Bool.{Bool, ◌&&◌, ◌||◌}
use mathlib.Core.List.{List, [], ◌∷◌, reverse, reverse-cons, reverse-reverse}
use native.Mathlib.Omega.{arith}
use ggt.Prelude.Tests.{Bool-cases, leb, ◌==◌, if◌then◌else◌}
use ggt.Prelude.Lists.{length, length-append}
use ggt.Prelude.Strings.{Text}

abbrev pub is_space : ℕ → Bool
is_space c = c == 32 || (leb 9 c && leb c 13)

unfoldable pub trim_left : Text → Text
trim_left [] = []
trim_left (c ∷ s) = let rest = trim_left s in if is_space c then rest else c ∷ s

unfoldable pub trim_space : Text → Text
unfolding trim_left
trim_space s = reverse (trim_left (reverse (trim_left s)))

pub length-reverse {ℓ} : {A : Type ℓ} (l : List A) → length (reverse l) ≡ length l
length-reverse [] = refl
length-reverse (x ∷ l) =
    ap length (reverse-cons x l)
    ∙ omega (arith, length-append (reverse l) (x ∷ []), length-reverse l)

pub length-trim_left-le : (s : Text) → length (trim_left s) ≤ length s
unfolding trim_left
length-trim_left-le [] = omega arith
length-trim_left-le (c ∷ s) = ground (arith, length-trim_left-le s)

pub length-trim_space-le : (s : Text) → length (trim_space s) ≤ length s
unfolding trim_space
length-trim_space-le s = omega (
  arith,
  length-reverse (trim_left (reverse (trim_left s))),
  length-trim_left-le (reverse (trim_left s)),
  length-reverse (trim_left s),
  length-trim_left-le s,
)

trim_left_cases : (s : Text) → (trim_left s ≡ s) ⊎ (length (trim_left s) < length s)
unfolding trim_left
trim_left_cases [] = inl refl
trim_left_cases (c ∷ s) = elim (Bool-cases (is_space c)) [
  | inl t ↦ inr (rw t (omega (arith, length-trim_left-le s)))
  | inr t ↦ inl (rw t refl)
]

-- Trimming changes nothing or makes a text shorter.
pub trim_cases : (s : Text) → (trim_space s ≡ s) ⊎ (length (trim_space s) < length s)
unfolding trim_space
trim_cases s = elim (trim_left_cases s) [
  | inr l ↦ inr (
      omega (
        arith,
        length-reverse (trim_left (reverse (trim_left s))),
        length-trim_left-le (reverse (trim_left s)),
        length-reverse (trim_left s),
      ))
  | inl e ↦ elim (trim_left_cases (reverse (trim_left s))) [
    | inr l ↦ inr (
        omega (
          arith,
          length-reverse (trim_left (reverse (trim_left s))),
          length-reverse (trim_left s),
          length-trim_left-le s,
        ))
    | inl e' ↦ inl (ap reverse e' ∙ reverse-reverse (trim_left s) ∙ e)
  ]
]
