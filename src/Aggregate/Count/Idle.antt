-- ===== src/Aggregate/Count/Idle.antt =====
-- Windows that are idle for too long (internal/transform/aggregate/count.go).
use ggt.Prelude.{
  ℕ, Bool, Option, none, some, [], ◌∷◌, ◌≡◌, refl, Text, text_eq_iff, arith, if◌then◌else◌,
}
use ggt.Prelude.Int.{ltb_ℤ, sub_ℕ}
use ggt.Prelude.Dict.{lookup, NodupKeys}
use ggt.Aggregate.Count.{Config, WindowState, Windows, evict}

abbrev is_idle : Config → ℕ → WindowState → Bool
is_idle cfg now w = ltb_ℤ cfg.idle_timeout (sub_ℕ now w.last_seen)

abbrev pub unless_idle : Config → ℕ → Option WindowState → Option WindowState
unless_idle cfg now none = none
unless_idle cfg now (some w) = if is_idle cfg now w then none else some w

evict_absent :
    (cfg : Config) (now : ℕ) (key : Text) (ws : Windows)
    → lookup key ws ≡ none
    → lookup key (evict cfg now ws) ≡ none
unfolding lookup evict
evict_absent cfg now key [] h = refl
evict_absent cfg now key ((j, w) ∷ ws) h = ground (arith, evict_absent cfg now key ws)

-- A tick removes exactly the windows that have had no event for longer than the timeout, and
-- leaves the others as they are.
pub lookup-evict :
    (cfg : Config) (now : ℕ) (key : Text) (ws : Windows)
    → NodupKeys ws
    → lookup key (evict cfg now ws) ≡ unless_idle cfg now (lookup key ws)
unfolding lookup evict
lookup-evict cfg now key [] h = refl
lookup-evict cfg now key ((j, w) ∷ ws) h =
    ground (arith, text_eq_iff j key, lookup-evict cfg now key ws h.1, evict_absent cfg now key ws)
