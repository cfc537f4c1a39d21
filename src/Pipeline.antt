-- ===== src/Pipeline.antt =====
-- internal/transform: what a transform is, the registry of factories (registry.go) and the
-- pipeline (pipeline.go). A transform is a state and a function of it; what it is handed and what
-- it returns is an `interface{}`: an event, a slice of events or another value.
pub mod Registry
pub mod Execute
pub mod Build
use ggt.Prelude.{ℕ, Bool, true, false, Option, none, some, List, [], ◌∷◌, Text, ◌+◌, if◌then◌else◌}
use ggt.Event.{Event, clone}
use ggt.Value.{Value}

pub data Payload : Type 0 where
  nothing : Payload
  one : Event → Payload
  many : List Event → Payload
  value : Value → Payload

-- `ErrDrop`, an error that a context gives, and any other, by its message
pub data Error : Type 0 where
  drop : Error
  context_done : ℕ → Error
  failure : Text → Error
  failed_in : Text → Error → Error

pub data Result : Type 0 where
  ok : Payload → Result
  err : Error → Result

-- `errors.Is(err, ErrDrop)`: an error wraps the one that it was made from
unfoldable pub is_drop : Error → Bool
is_drop drop = true
is_drop (context_done e) = false
is_drop (failure m) = false
is_drop (failed_in name e) = is_drop e

pub record Transform : Type 0 where
  pub name : Text
  pub execute : Payload → Result

-- `ctx.Err()` is asked before each transform: an error, or none.
abbrev pub Context : Type 0
Context = ℕ → Option ℕ

-- what one round of the loop makes of a transform's result
pub data Round : Type 0 where
  stop : Error → Round
  go_on : Payload → Round

unfoldable pub after_ok : Payload → Round
after_ok nothing = stop drop
after_ok (one e) = go_on (one e)
after_ok (many []) = stop drop
after_ok (many (e ∷ es)) = go_on (many (e ∷ es))
after_ok (value v) = go_on (value v)

unfoldable pub round : Transform → Payload → Round
unfolding is_drop after_ok
round t p = elim (t.execute p) [
  | err e ↦ if is_drop e then stop drop else stop (failed_in t.name e)
  | ok out ↦ after_ok out
]

unfoldable pub run_transforms : Context → ℕ → List Transform → Payload → Result
run_transforms ctx idx [] p = ok p
run_transforms ctx idx (t ∷ ts) p = elim (ctx idx) [
  | some e ↦ err (context_done e)
  | none ↦ elim (round t p) [ stop e ↦ err e | go_on p' ↦ run_transforms ctx (idx + 1) ts p' ]
]

unfoldable pub clone_event : Payload → Payload
clone_event (one e) = one (clone e)
clone_event p = p

-- `Execute`
unfoldable pub execute : Context → List Transform → Payload → Result
execute ctx transforms p = run_transforms ctx 0 transforms (clone_event p)
