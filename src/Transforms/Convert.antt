-- ===== src/Transforms/Convert.antt =====
-- internal/transform/data/convert.go: converting a field. Arithmetic on floats, times and their
-- layouts, `strings.ToLower` and the text of other values are arguments; integers are written and
-- read here. A float is its bit pattern.
pub mod Decimal
pub mod Exact
use ggt.Prelude.{
  ℕ, Bool, true, false, not, ◌||◌, Option, none, some, List, [], ◌∷◌, Text, codes, text_eq, leb,
  ◌==◌, if◌then◌else◌,
}
use ggt.Prelude.Int.{ℤ, pos, negsuc, ltb_ℤ}
use ggt.Value.{
  Value, IntKind, kint, kint8, kint16, kint32, kint64, kuint, kuint8, kuint16, kuint32, kuint64,
  bool, int, float32, float64, str, time, null, float64_ptr, strings, slice, object,
}
use ggt.Event.{Event, get_field, set_field}
use ggt.Pipeline.{Payload, one, Result, ok, err, failure}
use ggt.Transforms.{Raw, empty_raw, undecodable, decoded, Configured, refused, configured}
use Decimal.{format_int, parse_int, max_int64}

pub record Config : Type 0 where
  pub field : Text
  pub to : Text
  pub format : Text

unfoldable pub configure : Raw Config → Configured Config
configure empty_raw = refused (codes "config required")
configure (undecodable e) = refused e
configure (decoded cfg) = configured cfg

-- `%g` and the conversions of floats, the layouts of times, and the rest of what the library does.
pub record Library : Type 0 where
  pub format_float32 : ℕ → Text
  pub format_float64 : ℕ → Text
  pub int_of_float32 : ℕ → ℤ
  pub int_of_float64 : ℕ → ℤ
  pub widen : ℕ → ℕ
  pub float_of_int : ℤ → ℕ
  pub is_zero32 : ℕ → Bool
  pub is_zero64 : ℕ → Bool
  pub parse_float : Text → Option ℕ
  pub format_time : Text → ℕ → Text
  pub parse_time : Text → Text → Option ℕ
  pub unix : ℤ → ℕ
  pub unix_of_float : ℕ → ℕ
  pub to_lower : Text → Text
  pub sprint : Value → Text

abbrev or_rfc3339 : Text → Text
or_rfc3339 [] = codes "2006-01-02T15:04:05Z07:00"
or_rfc3339 (c ∷ s) = c ∷ s

abbrev pub format_bool : Bool → Text
format_bool true = codes "true"
format_bool false = codes "false"

unfoldable pub to_string : Library → Config → Value → Text
unfolding format_int
to_string lib cfg (str s) = s
to_string lib cfg (int k z) = format_int z
to_string lib cfg (float32 x) = lib.format_float32 x
to_string lib cfg (float64 x) = lib.format_float64 x
to_string lib cfg (bool b) = format_bool b
to_string lib cfg (time t) = lib.format_time (or_rfc3339 cfg.format) t
to_string lib cfg v = lib.sprint v

-- the kinds whose values may be greater than an int64
abbrev pub is_wide : IntKind → Bool
is_wide kuint = true
is_wide kuint64 = true
is_wide _ = false

unfoldable pub to_int : Library → Value → Option ℤ
unfolding parse_int
to_int lib (int k z) =
    if is_wide k then (if ltb_ℤ (pos max_int64) z then none else some z) else some z
to_int lib (float32 x) = some (lib.int_of_float32 x)
to_int lib (float64 x) = some (lib.int_of_float64 x)
to_int lib (bool true) = some (pos 1)
to_int lib (bool false) = some (pos 0)
to_int lib (str s) = parse_int s
to_int lib v = none

unfoldable pub to_float : Library → Value → Option ℕ
to_float lib (float32 x) = some (lib.widen x)
to_float lib (float64 x) = some x
to_float lib (int k z) = some (lib.float_of_int z)
to_float lib (str s) = lib.parse_float s
to_float lib (bool true) = some (lib.float_of_int (pos 1))
to_float lib (bool false) = some (lib.float_of_int (pos 0))
to_float lib v = none

abbrev pub is_zero : ℤ → Bool
is_zero (pos n) = n == 0
is_zero (negsuc n) = false

-- `strconv.ParseBool`, of a text in lower case
unfoldable pub parse_bool : Text → Option Bool
parse_bool s =
    if text_eq s (codes "1") || text_eq s (codes "t") || text_eq s (codes "true")
    then some true
    else if text_eq s (codes "0") || text_eq s (codes "f") || text_eq s (codes "false")
    then some false
    else none

unfoldable pub to_bool : Library → Value → Option Bool
unfolding parse_bool
to_bool lib (bool b) = some b
to_bool lib (int k z) = some (not (is_zero z))
to_bool lib (float32 x) = some (not (lib.is_zero32 x))
to_bool lib (float64 x) = some (not (lib.is_zero64 x))
to_bool lib (str s) = parse_bool (lib.to_lower s)
to_bool lib v = none

abbrev pub layouts : List Text
layouts =
    codes "2006-01-02T15:04:05Z07:00"
    ∷ codes "2006-01-02T15:04:05.999999999Z07:00"
    ∷ codes "2006-01-02T15:04:05"
    ∷ codes "2006-01-02"
    ∷ codes "3:04PM"
    ∷ codes "Jan _2 15:04:05"
    ∷ []

unfoldable pub parse_any : Library → List Text → Text → Option ℕ
parse_any lib [] s = none
parse_any lib (f ∷ fs) s = elim (lib.parse_time f s) [ none ↦ parse_any lib fs s | some t ↦ some t ]

unfoldable pub to_timestamp : Library → Config → Value → Option ℕ
unfolding parse_any
to_timestamp lib cfg (time t) = some t
to_timestamp lib cfg (str s) = elim cfg.format [
  | [] ↦ parse_any lib layouts s
  | c ∷ f ↦ lib.parse_time (c ∷ f) s
]
to_timestamp lib cfg (int kint64 z) = some (lib.unix z)
to_timestamp lib cfg (float64 x) = some (lib.unix_of_float x)
to_timestamp lib cfg v = none

abbrev wrapped {ℓ} : {A : Type ℓ} → (A → Value) → Option A → Option Value
wrapped f none = none
wrapped f (some a) = some (f a)

unfoldable pub convert_value : Library → Config → Value → Option Value
unfolding to_string to_int to_float to_bool to_timestamp
convert_value lib cfg v =
    if text_eq cfg.to (codes "string")
    then some (str (to_string lib cfg v))
    else if text_eq cfg.to (codes "int")
    then wrapped (λ z. int kint64 z) (to_int lib v)
    else if text_eq cfg.to (codes "float")
    then wrapped (λ x. float64 x) (to_float lib v)
    else if text_eq cfg.to (codes "bool")
    then wrapped (λ b. bool b) (to_bool lib v)
    else if text_eq cfg.to (codes "timestamp")
    then wrapped (λ t. time t) (to_timestamp lib cfg v)
    else none

unfoldable pub execute : Library → Config → Payload → Result
unfolding convert_value
execute lib cfg (one e) = elim (get_field e cfg.field) [
  | none ↦ ok (one e)
  | some v ↦ elim (convert_value lib cfg v) [
    | none ↦ err (failure (codes "failed to convert field"))
    | some w ↦ ok (one (set_field e cfg.field w))
  ]
]
execute lib cfg _ = err (failure (codes "unexpected payload type"))
