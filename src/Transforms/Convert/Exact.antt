-- ===== src/Transforms/Convert/Exact.antt =====
-- Integers through data.convert (internal/transform/data/convert.go).
use ggt.Prelude.{
  true, false, Option, none, some, [], ◌≡◌, ◌≢◌, refl, ◌∙◌, ap, Text, codes, text_eq, arith,
  if◌then◌else◌, inl, inr, ◌⊎◌,
}
use ggt.Prelude.Int.{ℤ, pos, negsuc, ◌≤ℤ◌, ltb_ℤ}
use ggt.Value.{
  Value, IntKind, kint, kint8, kint16, kint32, kint64, kuint, kuint8, kuint16, kuint32, kuint64,
  int, str,
}
use ggt.Event.{Event, get_field, set_field}
use ggt.Event.Laws.{get-set_field_self, set-set_field}
use ggt.Pipeline.{one, Result, ok, err, failure}
use ggt.Transforms.Convert.{Config, Library, to_string, to_int, is_wide, convert_value, execute}
use ggt.Transforms.Convert.Decimal.{format_int, max_int64, parse_int-format_int}

-- The least and the greatest value of a kind.
abbrev least : IntKind → ℤ
least kint = negsuc max_int64
least kint8 = negsuc 127
least kint16 = negsuc 32767
least kint32 = negsuc 2147483647
least kint64 = negsuc max_int64
least _ = pos 0

abbrev greatest : IntKind → ℤ
greatest kint = pos max_int64
greatest kint8 = pos 127
greatest kint16 = pos 32767
greatest kint32 = pos 2147483647
greatest kint64 = pos max_int64
greatest kuint = pos 18446744073709551615
greatest kuint8 = pos 255
greatest kuint16 = pos 65535
greatest kuint32 = pos 4294967295
greatest kuint64 = pos 18446744073709551615

abbrev pub HasKind : IntKind → ℤ → Type 0
HasKind k z = (least k ≤ℤ z) × (z ≤ℤ greatest k)

IsInt64 : ℤ → Type 0
IsInt64 z = (negsuc max_int64 ≤ℤ z) × (z ≤ℤ pos max_int64)

kind_cases :
    (k : IntKind) (z : ℤ)
    → HasKind k z
    → (negsuc max_int64 ≤ℤ z) × ((is_wide k ≡ true) ⊎ ((is_wide k ≡ false) × (z ≤ℤ pos max_int64)))
kind_cases kint z h = (ground arith, ground arith)
kind_cases kint8 z h = (ground arith, ground arith)
kind_cases kint16 z h = (ground arith, ground arith)
kind_cases kint32 z h = (ground arith, ground arith)
kind_cases kint64 z h = (ground arith, ground arith)
kind_cases kuint z h = (ground arith, ground arith)
kind_cases kuint8 z h = (ground arith, ground arith)
kind_cases kuint16 z h = (ground arith, ground arith)
kind_cases kuint32 z h = (ground arith, ground arith)
kind_cases kuint64 z h = (ground arith, ground arith)

to_int_kind :
    (lib : Library) (k : IntKind) (z : ℤ)
    → HasKind k z
    → to_int lib (int k z) ≡ (if ltb_ℤ (pos max_int64) z then none else some z)
unfolding to_int
to_int_kind lib k z h = elim (kind_cases k z h).1 [
  | inl wide ↦ rw wide refl
  | inr (narrow, fits) ↦ rw (narrow, fits_lt z fits) refl
]
  where
    fits_lt : (z : ℤ) → z ≤ℤ pos max_int64 → ltb_ℤ (pos max_int64) z ≡ false
    fits_lt z p = ground arith

abbrev pub as_int64 : ℤ → Option ℤ
as_int64 z = if ltb_ℤ (pos max_int64) z then none else some z

abbrev pub int_or_error : Event → Text → Option ℤ → Result
int_or_error e field none = err (failure (codes "failed to convert field"))
int_or_error e field (some z) = ok (one (set_field e field (int kint64 z)))

module _ (lib : Library) (field format : Text) where
  abbrev pub to : Text → Config
  to name = record { field = field; to = name; format = format }

  execute_to_int :
      (e : Event) (v : Value) (r : Option ℤ)
      → get_field e field ≡ some v
      → to_int lib v ≡ r
      → execute lib (to (codes "int")) (one e) ≡ int_or_error e field r
  unfolding execute convert_value text_eq
  execute_to_int e v none p q = rw (p, execute) (rw q refl)
  execute_to_int e v (some z) p q = rw (p, execute) (rw q refl)

  execute_to_string :
      (e : Event) (k : IntKind) (z : ℤ)
      → get_field e field ≡ some (int k z)
      → execute lib (to (codes "string")) (one e)
        ≡ ok (one (set_field e field (str (format_int z))))
  unfolding execute convert_value text_eq to_string
  execute_to_string e k z p = rw (p, execute) refl

  same_event :
      (e : Event) (t : Text) (r : Option ℤ)
      → int_or_error (set_field e field (str t)) field r ≡ int_or_error e field r
  same_event e t none = refl
  same_event e t (some z) = ap (λ x. ok (one x)) (set-set_field e field (str t) (int kint64 z))

  -- An integer of any kind becomes the int64 of the same value, or an error exactly if it is greater
  -- than any of them; and what is converted to a string and then to an integer comes to the same
  -- event, or error, as at once.
  pub execute-Exact :
      (e : Event) (k : IntKind) (z : ℤ)
      → field ≢ []
      → HasKind k z
      → get_field e field ≡ some (int k z)
      → (execute lib (to (codes "int")) (one e) ≡ int_or_error e field (as_int64 z))
        × ((written : Event) × (execute lib (to (codes "string")) (one e) ≡ ok (one written))
            × (get_field written field ≡ some (str (format_int z)))
            × (execute lib (to (codes "int")) (one written) ≡ int_or_error e field (as_int64 z)))
  unfolding to_int
  execute-Exact e k z n h p =
      let written = set_field e field (str (format_int z)) in
      let there : get_field written field ≡ some (str (format_int z)) =
        get-set_field_self e field (str (format_int z)) n in
      (
        execute_to_int e (int k z) (as_int64 z) p (to_int_kind lib k z h),
        (
          written,
          execute_to_string e k z p,
          there,
          execute_to_int written (str (format_int z)) (as_int64 z) there
                (parse_int-format_int z (kind_cases k z h).0)
              ∙ same_event e (format_int z) (as_int64 z),
        ),
      )
