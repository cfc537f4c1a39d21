-- ===== src/Transforms/Template.antt =====
-- `interpolateTemplate` of internal/enrichment/http/enrichment.go: the placeholders `{{.name}}` of a
-- text, by the pattern `\{\{\.\w+\}\}`, and the fields of an event in their place. The text of a
-- value (`fmt.Sprintf` with `%v`) is an argument.
use ggt.Prelude.{
  ℕ, zero, suc, Bool, true, false, not, ◌&&◌, ◌||◌, Option, none, some, List, [], ◌∷◌, ◌++◌, ◌+◌,
  ◌==◌, ◌≡◌, refl, ap, ◌∙◌, Text, text_eq, codes, leb, length, length-append, arith, if◌then◌else◌,
  All, Option-cases, inl, inr,
}
use mathlib.Core.Option
use ggt.Condition.Scan.{has_prefix, drop_bytes}
use ggt.Value.{Value}
use ggt.Event.{Event, get_field}

-- `\w`
abbrev pub is_word : ℕ → Bool
is_word c = (leb 48 c && leb c 57) || (leb 65 c && leb c 90) || (c == 95) || (leb 97 c && leb c 122)

-- `\w*`, at the head of a text, and what follows
unfoldable pub word : Text → Text × Text
word [] = ([], [])
word (c ∷ s) = let (w, rest) = word s in if is_word c then (c ∷ w, rest) else ([], c ∷ s)

-- the name in the placeholder at the head of a text
unfoldable pub placeholder : Text → Option Text
unfolding word has_prefix drop_bytes
placeholder s =
    let (name, rest) = word (drop_bytes 3 s) in
    if has_prefix s (codes "{{.") && not (text_eq name []) && has_prefix rest (codes "}}")
    then some name
    else none

-- `none` stands for the error that names the missing fields.
abbrev all_found : Text × List Text → Option Text
all_found (text, []) = some text
all_found (text, _ ∷ _) = none

module _ (format : Value → Text) (e : Event) where
  -- What comes in place of a name, and the names that are missing.
  unfoldable pub replacement : Text → Text × List Text
  replacement name = elim (get_field e name) [
    | none ↦ (codes "{{." ++ name ++ codes "}}", name ∷ [])
    | some v ↦ (format v, [])
  ]

  -- `ReplaceAllStringFunc`: `skip` bytes of a placeholder are still to be passed over.
  unfoldable pub replace_from : ℕ → Text → Text × List Text
  unfolding placeholder replacement
  replace_from skip [] = ([], [])
  replace_from (suc skip) (c ∷ s) = replace_from skip s
  replace_from zero (c ∷ s) =
      let hit = placeholder (c ∷ s) in
      let (text, missing) = replace_from (elim hit [ none ↦ 0 | some name ↦ length name + 4 ]) s in
      elim hit [
        | none ↦ (c ∷ text, missing)
        | some name ↦ let (r, m) = replacement name in (r ++ text, m ++ missing)
      ]

  unfoldable pub interpolate : Text → Option Text
  unfolding replace_from
  interpolate template = all_found (replace_from 0 template)

-- A template by its pieces.
pub data Piece : Type 0 where
  literal : Text → Piece
  field : Text → Piece

abbrev pub AllBytes : (ℕ → Bool) → Text → Type 0
AllBytes p s = All (λ c. p c ≡ true) s

-- A literal has no brace, and a name is a word.
abbrev pub IsPiece : Piece → Type 0
IsPiece (literal s) = AllBytes (λ c. not (c == 123)) s
IsPiece (field name) = (text_eq name [] ≡ false) × AllBytes is_word name

abbrev pub template_of : List Piece → Text
template_of [] = []
template_of (literal s ∷ ps) = s ++ template_of ps
template_of (field name ∷ ps) = codes "{{." ++ name ++ codes "}}" ++ template_of ps

-- what the pieces are to become, if no field is missing
abbrev pub render : (Value → Text) → Event → List Piece → Option Text
render format e [] = some []
render format e (literal s ∷ ps) = Option.map (λ t. s ++ t) (render format e ps)
render format e (field name ∷ ps) = elim (get_field e name) [
  | none ↦ none
  | some v ↦ Option.map (λ t. format v ++ t) (render format e ps)
]

word-append : (w s : Text) → AllBytes is_word w → word (w ++ codes "}}" ++ s) ≡ (w, codes "}}" ++ s)
unfolding word
word-append [] s h = refl
word-append (c ∷ w) s (h, hs) = rw (word-append w s hs, h) refl

placeholder-field :
    (name s : Text)
    → text_eq name [] ≡ false
    → AllBytes is_word name
    → placeholder (codes "{{." ++ name ++ codes "}}" ++ s) ≡ some name
unfolding placeholder
placeholder-field name s p h = unfold has_prefix drop_bytes in rw (word-append name s h, p) refl

no_brace : (c : ℕ) (s : Text) → not (c == 123) ≡ true → placeholder (c ∷ s) ≡ none
unfolding placeholder has_prefix
no_brace c s h = ground arith

tail_length : (name : Text) → length (codes "{." ++ name ++ codes "}}") ≡ length name + 4
tail_length name = omega (arith, length-append name (codes "}}"))

all_found-append :
    (s : Text) (r : Text × List Text)
    → all_found (s ++ r.0, r.1) ≡ Option.map (λ u. s ++ u) (all_found r)
all_found-append s (u, []) = refl
all_found-append s (u, m ∷ ms) = refl

module _ (format : Value → Text) (e : Event) where
  replace_from-append :
      (p s : Text) → replace_from format e (length p) (p ++ s) ≡ replace_from format e 0 s
  unfolding replace_from
  replace_from-append [] s = refl
  replace_from-append (c ∷ p) s = replace_from-append p s

  replace_from_miss :
      (c : ℕ) (s : Text)
      → placeholder (c ∷ s) ≡ none
      → replace_from format e 0 (c ∷ s)
        ≡ (c ∷ (replace_from format e 0 s).0, (replace_from format e 0 s).1)
  unfolding replace_from
  replace_from_miss c s p = rw (p, replace_from) (rw p refl)

  replace_from_hit :
      (c : ℕ) (s name : Text)
      → placeholder (c ∷ s) ≡ some name
      → let rest = replace_from format e (length name + 4) s in
        replace_from format e 0 (c ∷ s)
        ≡ ((replacement format e name).0 ++ rest.0, (replacement format e name).1 ++ rest.1)
  unfolding replace_from
  replace_from_hit c s name p = rw (p, replace_from) (rw p refl)

  replace_from-literal :
      (s t : Text)
      → AllBytes (λ c. not (c == 123)) s
      → replace_from format e 0 (s ++ t)
        ≡ (s ++ (replace_from format e 0 t).0, (replace_from format e 0 t).1)
  replace_from-literal [] t h = refl
  replace_from-literal (c ∷ s) t (h, hs) =
      rw (replace_from_miss c (s ++ t) (no_brace c (s ++ t) h), replace_from-literal s t hs) refl

  replace_from-field :
      (name t : Text)
      → text_eq name [] ≡ false
      → AllBytes is_word name
      → let rest = replace_from format e 0 t in
        let (r, m) = replacement format e name in
        replace_from format e 0 (codes "{{." ++ name ++ codes "}}" ++ t)
        ≡ (r ++ rest.0, m ++ rest.1)
  replace_from-field name t p h =
      let tail = codes "{." ++ name ++ codes "}}" in
      let skipped : replace_from format e (length name + 4) (tail ++ t)
          ≡ replace_from format e 0 t =
        rw (← tail_length name) (replace_from-append tail t) in
      rw (← skipped) (replace_from_hit 123 (tail ++ t) name (placeholder-field name t p h))

  -- A template made of literals without a brace and of placeholders of words becomes its literals
  -- with the texts of the fields in between, in order, and an error exactly where one of the fields
  -- is missing.
  pub interpolate-template_of :
      (ps : List Piece)
      → All IsPiece ps
      → interpolate format e (template_of ps) ≡ render format e ps
  unfolding interpolate replacement
  interpolate-template_of [] h = refl
  interpolate-template_of (literal s ∷ ps) (h, hs) =
      rw
        (
          replace_from-literal s (template_of ps) h,
          all_found-append s (replace_from format e 0 (template_of ps)),
        )
        (ap (λ o. Option.map (λ t. s ++ t) o) (interpolate-template_of ps hs))
  interpolate-template_of (field name ∷ ps) ((p, h), hs) = elim (Option-cases (get_field e name)) [
    | inl q ↦
        rw (replace_from-field name (template_of ps) p h, q, replacement) (rw (q, render) refl)
    | inr (v, q) ↦
        rw (replace_from-field name (template_of ps) p h, q, replacement)
          (rw (q, render)
            (all_found-append (format v) (replace_from format e 0 (template_of ps))
              ∙ ap (λ o. Option.map (λ t. format v ++ t) o) (interpolate-template_of ps hs)))
  ]
