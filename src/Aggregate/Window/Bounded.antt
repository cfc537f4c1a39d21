-- ===== src/Aggregate/Window/Bounded.antt =====
-- No window outgrows its limit (internal/transform/aggregate/window.go).
use ggt.Prelude.{ℕ, suc, Bool, true, false, some, [], ◌<◌, ◌≡◌, sym, ◌∙◌, Text, length, arith}
use ggt.Prelude.Int.{pos}
use ggt.Prelude.Dict.{lookup}
use ggt.Pipeline.{Payload}
use ggt.Transforms.{decoded, configured}
use ggt.Aggregate.{Library, all_valid}
use ggt.Aggregate.Window.{Config, WindowState, Transform, stop, set_emit_func, configure}
use ggt.Aggregate.Window.Calls.{timeout, force_emit_all_windows, execute}
use ggt.Aggregate.Window.Limits.{Below, some≢none, timeout-Below, execute-Below}

-- What happens to the windows: a call under a context, a timer that goes off, a request to emit
-- them all, the stop of the timers, or another function for the results.
pub data Step (lib : Library) (is_done : ℕ → Bool) (cfg : Config)
    : Transform → Transform → Type 0 where
  executed :
      (ctx now : ℕ) (p : Payload) (t : Transform)
      → Step lib is_done cfg t (execute lib cfg ctx now p t).1
  timed_out :
      (now : ℕ) (key : Text) (t : Transform)
      → Step lib is_done cfg t (timeout lib is_done cfg now key t)
  forced : (now : ℕ) (t : Transform) → Step lib is_done cfg t (force_emit_all_windows lib cfg now t)
  stopped : (t : Transform) → Step lib is_done cfg t (stop t)
  given : (there : Bool) (t : Transform) → Step lib is_done cfg t (set_emit_func there t)

pub data Reach (lib : Library) (is_done : ℕ → Bool) (cfg : Config) : Transform → Type 0 where
  start :
      Reach lib is_done cfg (record { windows = []; entries = []; has_emit = false; emitted = [] })
  next :
      {t t' : Transform}
      → Reach lib is_done cfg t
      → Step lib is_done cfg t t'
      → Reach lib is_done cfg t'

Reach-Below :
    (lib : Library) (is_done : ℕ → Bool) (cfg : Config) (n : ℕ)
    → cfg.max_events ≡ pos (suc n)
    → all_valid cfg.aggregations ≡ true
    → {t : Transform} → Reach lib is_done cfg t
    → Below (suc n) t.windows
unfolding force_emit_all_windows stop set_emit_func Below lookup
Reach-Below lib is_done cfg n m v start = λ key w h. absurd (some≢none (sym h))
Reach-Below lib is_done cfg n m v (next r (executed ctx now p t)) =
    execute-Below lib n cfg m v ctx now p t (Reach-Below lib is_done cfg n m v r)
Reach-Below lib is_done cfg n m v (next r (timed_out now key t)) =
    timeout-Below lib (suc n) is_done cfg now key t (Reach-Below lib is_done cfg n m v r)
Reach-Below lib is_done cfg n m v (next r (forced now t)) = λ key w h. absurd (some≢none (sym h))
Reach-Below lib is_done cfg n m v (next r (stopped t)) = Reach-Below lib is_done cfg n m v r
Reach-Below lib is_done cfg n m v (next r (given there t)) = Reach-Below lib is_done cfg n m v r

configure-all_valid :
    (lib : Library) (raw cfg : Config)
    → configure lib (decoded raw) ≡ configured cfg
    → (all_valid cfg.aggregations ≡ true) × (cfg.max_events ≡ raw.max_events)
unfolding configure
configure-all_valid lib raw cfg h = ground arith

-- Under an accepted configuration with a limit on the events of a window, every window that there
-- is after any calls, timers and requests to emit has fewer events than the limit.
pub Reach-bounded_windows :
    (lib : Library) (is_done : ℕ → Bool) (raw cfg : Config) (n : ℕ) (t : Transform) (key : Text)
    (w : WindowState)
    → configure lib (decoded raw) ≡ configured cfg
    → raw.max_events ≡ pos (suc n)
    → Reach lib is_done cfg t
    → lookup key t.windows ≡ some w
    → length w.events < suc n
unfolding Below
Reach-bounded_windows lib is_done raw cfg n t key w h m r p =
    let (v, same) = configure-all_valid lib raw cfg h in
    Reach-Below lib is_done cfg n (same ∙ m) v r key w p
