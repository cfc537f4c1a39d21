-- ===== src/Tests/Converted.antt =====
-- An integer through data.convert (internal/transform/data/convert.go), and an event from a builder
-- (pkg/event/builder.go).
use ggt.Prelude.{true, none, some, List, [], ◌∷◌, ◌≡◌, ◌≢◌, refl, Text, codes, text_eq, arith}
use ggt.Prelude.Int.{ℤ, pos, negsuc}
use ggt.Value.{Value, kint16, int, str, make_map, field, no_fields, lookup_key, lookup_fields, null}
use ggt.Event.{Event, get_field, get_keys, split, set_field}
use ggt.Event.Builder.{Builder, new_builder, build}
use ggt.Event.Builder.Built.{with_fields, set_fields, build-with_fields}
use ggt.Pipeline.{one, ok}
use ggt.Transforms.Convert.{Library, execute}
use ggt.Transforms.Convert.Decimal.{format_int}
use ggt.Transforms.Convert.Exact.{to, int_or_error, as_int64, execute-Exact}

-- a library for an event without floats and times
abbrev lib : Library
lib = record {
  format_float32 = λ x. [];
  format_float64 = λ x. [];
  int_of_float32 = λ x. pos x;
  int_of_float64 = λ x. pos x;
  widen = λ x. x;
  float_of_int = λ z. 0;
  is_zero32 = λ x. true;
  is_zero64 = λ x. true;
  parse_float = λ s. none;
  format_time = λ f t. f;
  parse_time = λ f s. none;
  unix = λ z. 0;
  unix_of_float = λ x. 0;
  to_lower = λ s. s;
  sprint = λ v. [];
}

abbrev a : Text
a = codes "a"

abbrev minus_twelve : ℤ
minus_twelve = negsuc 11

abbrev event : Event
event = record {
  payload = make_map (field a (int kint16 minus_twelve) no_fields);
  metadata = record { topic = codes "in"; partition = pos 0; offset = pos 7; key = none };
  timestamp = 5;
  headers = none;
}

written : format_int minus_twelve ≡ codes "-12"
unfolding format_int
written = refl

nonempty : a ≢ []
nonempty e = cc

execute-Exact_example :
    (execute lib (to lib a [] (codes "int")) (one event)
      ≡ int_or_error event a (as_int64 minus_twelve))
    × ((out : Event) × (execute lib (to lib a [] (codes "string")) (one event) ≡ ok (one out))
        × (get_field out a ≡ some (str (codes "-12")))
        × (execute lib (to lib a [] (codes "int")) (one out)
            ≡ int_or_error event a (as_int64 minus_twelve)))
unfolding get_field get_keys split lookup_key lookup_fields text_eq format_int
execute-Exact_example =
    execute-Exact lib a [] event kint16 minus_twelve nonempty (omega arith, omega arith) refl

abbrev fields : List (Text × Value)
fields = (codes "a.b", str (codes "x")) ∷ (codes "a.c", null) ∷ []

build-with_fields_example :
    (b : Builder) × (with_fields fields (new_builder 5) ≡ some b)
    × (build b ≡ set_fields fields (new_builder 5).event)
unfolding split ggt.Event.Builder.Built.IsNoMap
build-with_fields_example =
    build-with_fields 5 fields (((λ e. cc, refl), tt, tt), (((λ e. cc, refl), tt, tt), tt))
