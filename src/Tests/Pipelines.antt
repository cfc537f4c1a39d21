-- ===== src/Tests/Pipelines.antt =====
-- Small pipelines and a small registry (internal/transform).
use ggt.Prelude.{
  ℕ, Bool, true, false, Option, none, some, List, [], ◌∷◌, ◌++◌, ◌≡◌, ◌≢◌, refl, Text, codes,
  text_eq,
}
use ggt.Pipeline.{
  Payload, nothing, one, many, value, Error, drop, failure, failed_in, Result, ok, err, is_drop,
  Transform, run_transforms, execute, round, after_ok,
}
use ggt.Pipeline.Execute.{background, TakesEvents, drop_is_exact, many_then_fails}
use ggt.Pipeline.Registry.{Created, made, Registry, create}
use ggt.Pipeline.Build.{
  Descriptor, built, build_one, build_all, new_pipeline, MadeBy, new_pipeline-MadeBy,
}
use ggt.Value.{Object, nil_map}
use ggt.Tests.Events.{user}

abbrev takes_one : Payload → Result
takes_one (one e) = ok (one e)
takes_one _ = err (failure (codes "unexpected payload type"))

abbrev twice_of : Payload → Result
twice_of (one e) = ok (many (e ∷ e ∷ []))
twice_of _ = err (failure (codes "unexpected payload type"))

abbrev none_of : Payload → Result
none_of p = ok nothing

abbrev keep : Transform
keep = record { name = codes "keep"; execute = takes_one }

abbrev twice : Transform
twice = record { name = codes "twice"; execute = twice_of }

abbrev discard : Transform
discard = record { name = codes "discard"; execute = none_of }

dropped : run_transforms background 0 (keep ∷ discard ∷ []) (one user) ≡ err drop
unfolding run_transforms round after_ok
dropped = refl

drop_is_drop : is_drop drop ≡ true
unfolding is_drop
drop_is_drop = refl

drop_is_exact_example : drop ≡ drop
drop_is_exact_example =
    drop_is_exact background 0 (keep ∷ discard ∷ []) (one user) drop dropped drop_is_drop

keep-TakesEvents : TakesEvents keep
unfolding is_drop
keep-TakesEvents nothing h = (_, refl, refl)
keep-TakesEvents (one e) h = absurd (h e refl)
keep-TakesEvents (many es) h = (_, refl, refl)
keep-TakesEvents (value v) h = (_, refl, refl)

many_then_fails_example :
    (m : Error) × (execute background (twice ∷ keep ∷ []) (one user)
      ≡ err (failed_in (codes "keep") m))
many_then_fails_example = many_then_fails twice keep [] user user (user ∷ []) refl keep-TakesEvents

abbrev factory : Text → Created
factory cfg = made keep

abbrev both : Registry
both = (codes "b", factory) ∷ (codes "a", factory) ∷ []

abbrev braces : Object → Option Text
braces m = some (codes "{}")

abbrev wanted : List Descriptor
wanted = record { type_name = codes "a"; config = nil_map } ∷ []

built_one : new_pipeline braces both (codes "p") wanted ≡ built (keep ∷ [])
unfolding new_pipeline build_all build_one create text_eq ggt.Prelude.Dict.lookup
built_one = refl

new_pipeline-MadeBy_example :
    (text_eq (codes "p") [] ≡ false) × MadeBy braces both wanted (keep ∷ [])
new_pipeline-MadeBy_example =
    new_pipeline-MadeBy braces both (codes "p") wanted (keep ∷ []) built_one
