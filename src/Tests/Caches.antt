-- ===== src/Tests/Caches.antt =====
-- Calls on a small cache (internal/enrichment/cache.go).
use ggt.Prelude.{ℕ, Option, none, some, List, [], ◌∷◌, ◌≡◌, refl, arith, Text, codes}
use ggt.Prelude.Int.{pos, ◌≤ℤ◌}
use ggt.Value.{Value, null, str}
use ggt.Cache.{Cache, new_lru_cache, size}
use ggt.Cache.Spec.{recent_get, recent_set}
use ggt.Cache.Refinement.{Represents, new-Represents}
use ggt.Cache.Calls.{Call, get_call, set_call, run, recent_run, run-Represents, run_bounded}

abbrev a : Text
a = codes "a"

abbrev b : Text
b = codes "b"

abbrev c : Text
c = codes "c"

abbrev x : Value
x = str (codes "x")

abbrev y : Value
y = str (codes "y")

-- a third key evicts the least recently used one
abbrev calls : List Call
calls =
    set_call 0 a x (pos 50)
    ∷ set_call 1 b y (pos 50)
    ∷ get_call 2 a
    ∷ set_call 3 c y (pos 50)
    ∷ get_call 4 b
    ∷ get_call 5 a
    ∷ get_call 90 a
    ∷ []

returned : (recent_run (pos 2) calls []).1 ≡ x ∷ null ∷ x ∷ null ∷ []
unfolding recent_run recent_get recent_set ggt.Prelude.Dict.lookup ggt.Prelude.text_eq
    ggt.Prelude.Dict.remove
returned = refl

run-Represents_example :
    (c' : Cache) × (run calls (new_lru_cache (pos 2) (pos 100))
      ≡ some (c', (recent_run (pos 2) calls []).1))
    × Represents c' (recent_run (pos 2) calls []).0
    × (c'.max_size ≡ pos 2)
unfolding new_lru_cache
run-Represents_example = run-Represents (pos 2) (pos 100) calls

run_bounded_example :
    (c' : Cache) × (vs : List Value) × (run calls (new_lru_cache (pos 2) (pos 100)) ≡ some (c', vs))
    × (pos (size c') ≤ℤ c'.max_size)
run_bounded_example = run_bounded (pos 2) (pos 100) calls

empty : Represents (new_lru_cache (pos 2) (pos 100)) []
empty = (new-Represents (pos 2) (pos 100)).0
