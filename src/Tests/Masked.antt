-- ===== src/Tests/Masked.antt =====
-- Two texts through data.mask (internal/transform/data/mask.go).
use ggt.Prelude.{none, some, ◌++◌, ◌≡◌, ◌≢◌, refl, Text, codes, text_eq, arith}
use ggt.Prelude.Int.{pos}
use ggt.Value.{str, make_map, field, no_fields, lookup_key, lookup_fields}
use ggt.Event.{Event, get_field, get_keys, split}
use ggt.Pipeline.{one, ok}
use ggt.Transforms.Mask.{Library, Mask, execute}
use ggt.Transforms.Mask.Hidden.{execute-Hides}

-- a library for texts of one byte a rune
abbrev lib : Library
lib = record { runes = λ s. s; encode = λ l. l; compile = λ p. none }

abbrev mask : Mask
mask = record {
  source_field = codes "a";
  target_field = codes "m";
  pattern = none;
  keep_prefix = pos 1;
  mask_char = codes "*";
}

abbrev holding : Text → Event
holding s = record {
  payload = make_map (field (codes "a") (str s) no_fields);
  metadata = record { topic = codes "in"; partition = pos 0; offset = pos 7; key = none };
  timestamp = 5;
  headers = none;
}

nonempty : codes "m" ≢ codes ""
nonempty e = cc

execute-Hides_example :
    (out : Text) × (a : Event) × (b : Event) × (execute lib mask (one (holding (codes "key")))
      ≡ some (ok (one a)))
    × (execute lib mask (one (holding (codes "kit"))) ≡ some (ok (one b)))
    × (get_field a (codes "m") ≡ some (str (codes "k" ++ out)))
    × (get_field b (codes "m") ≡ some (str (codes "k" ++ out)))
unfolding get_field get_keys split lookup_key lookup_fields text_eq
execute-Hides_example =
    execute-Hides lib mask 1 (holding (codes "key")) (holding (codes "kit")) (codes "key")
      (codes "kit") refl refl nonempty refl refl (omega arith) refl refl
