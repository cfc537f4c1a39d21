-- ===== src/Transforms/Mask.antt =====
-- internal/transform/data/mask.go: masking a text. The runes of a text, their encoding, and how a
-- regular expression divides a text into matches and what is between are arguments. `none` stands
-- for the panic of a slice with a negative bound.
pub mod Hidden
use ggt.Prelude.{
  ℕ, zero, suc, Bool, true, false, not, ◌&&◌, Option, none, some, List, [], ◌∷◌, ◌++◌, ◌-◌, ◌==◌,
  Text, codes, text_eq, length, if◌then◌else◌,
}
use ggt.Prelude.Int.{ℤ, pos, negsuc, leb_ℤ}
use ggt.Value.{Value, str}
use ggt.Event.{Event, get_field, set_field}
use ggt.HttpClient.{cached_text}
use ggt.Pipeline.{Payload, one, Result, ok, err, failure}
use ggt.Transforms.{Raw, empty_raw, undecodable, decoded, Configured, refused, configured}

pub record Config : Type 0 where
  pub source_field : Text
  pub target_field : Text
  pub pattern : Text
  pub keep_prefix : ℤ
  pub mask_char : Text

-- A text in pieces, with the matches marked.
abbrev pub Pattern : Type 0
Pattern = Text → List (Bool × Text)

pub record Library : Type 0 where
  pub runes : Text → List ℕ
  pub encode : List ℕ → Text
  pub compile : Text → Option Pattern

pub record Mask : Type 0 where
  pub source_field : Text
  pub target_field : Text
  pub pattern : Option Pattern
  pub keep_prefix : ℤ
  pub mask_char : Text

abbrev is_zero : ℤ → Bool
is_zero (pos n) = n == 0
is_zero (negsuc n) = false

abbrev mask_of : Config → Text → Option Pattern → Mask
mask_of cfg char p = record {
  source_field = cfg.source_field;
  target_field = if text_eq cfg.target_field [] then cfg.source_field else cfg.target_field;
  pattern = p;
  keep_prefix = cfg.keep_prefix;
  mask_char = char;
}

unfoldable pub configure : Library → Raw Config → Configured Mask
configure lib empty_raw = refused (codes "unexpected end of JSON input")
configure lib (undecodable e) = refused e
configure lib (decoded cfg) =
    let char = if text_eq cfg.mask_char [] then codes "*" else cfg.mask_char in
    if text_eq cfg.source_field []
    then refused (codes "source_field is required")
    else if text_eq cfg.pattern [] && is_zero cfg.keep_prefix
    then refused (codes "either pattern or keep_prefix must be specified")
    else if not (length (lib.runes char) == 1)
    then refused (codes "mask_char must be a single character")
    else if text_eq cfg.pattern []
    then configured (mask_of cfg char none)
    else elim (lib.compile cfg.pattern) [
      | none ↦ refused (codes "invalid regex pattern")
      | some p ↦ configured (mask_of cfg char (some p))
    ]

-- `runes[:n]`
abbrev pub take : ℕ → List ℕ → List ℕ
take zero l = []
take (suc n) [] = []
take (suc n) (c ∷ l) = c ∷ take n l

-- `strings.Repeat`
abbrev pub repeat : Text → ℕ → Text
repeat s zero = []
repeat s (suc n) = s ++ repeat s n

unfoldable pub mask_string : Library → Mask → Text → Option Text
mask_string lib t s =
    let rs = lib.runes s in
    if leb_ℤ (pos (length rs)) t.keep_prefix then some s else elim t.keep_prefix [
      | negsuc n ↦ none
      | pos k ↦ some (lib.encode (take k rs) ++ repeat t.mask_char (length rs - k))
    ]

abbrev joined : Option Text → Option Text → Option Text
joined none rest = none
joined (some s) none = none
joined (some s) (some rest) = some (s ++ rest)

-- `ReplaceAllStringFunc` over the pieces
unfoldable pub mask_pieces : Library → Mask → List (Bool × Text) → Option Text
unfolding mask_string
mask_pieces lib t [] = some []
mask_pieces lib t ((is_match, s) ∷ ps) =
    joined (if is_match then mask_string lib t s else some s) (mask_pieces lib t ps)

unfoldable pub mask_text : Library → Mask → Text → Option Text
unfolding mask_string mask_pieces
mask_text lib t s = elim t.pattern [ none ↦ mask_string lib t s | some p ↦ mask_pieces lib t (p s) ]

unfoldable pub execute : Library → Mask → Payload → Option Result
unfolding mask_text
execute lib t (one e) = elim (get_field e t.source_field) [
  | none ↦ some (err (failure (codes "field does not exist")))
  | some v ↦ elim (cached_text v) [
    | none ↦ some (err (failure (codes "field must be a string")))
    | some s ↦ elim (mask_text lib t s) [
      | none ↦ none
      | some masked ↦ some (ok (one (set_field e t.target_field (str masked))))
    ]
  ]
]
execute lib t _ = some (err (failure (codes "expected event.Event")))
