-- ===== src/Aggregate/Count/Runs.antt =====
-- Any events in any order: each key has its own count (internal/transform/aggregate/count.go).
use ggt.Prelude.{
  ℕ, zero, suc, Bool, true, false, Option, none, some, List, [], ◌∷◌, ◌++◌, ◌+◌, ◌*◌, ◌<◌, ◌≡◌,
  refl, sym, ap, ◌∙◌, Text, codes, text_eq, text_eq_iff, text_eq_refl, length, length-append, arith,
  if◌then◌else◌, Option-cases, Bool-cases, inl, inr,
}
use ggt.Prelude.Int.{ℤ, pos, negsuc, pos_part, leb_ℤ}
use ggt.Event.{Event, get_field}
use ggt.Pipeline.{one, Result, ok, err, failure}
use ggt.Prelude.Dict.{lookup}
use ggt.Transforms.{decoded, configured}
use ggt.Aggregate.{Library}
use ggt.Aggregate.Count.{Config, Windows, configure, execute, evict}
use ggt.Aggregate.Count.Step.{Takes, Represents, execute-Takes}

abbrev is_event : Result → Bool
is_event (ok (one e)) = true
is_event _ = false

add_up :
    (m a b p l q s c : ℕ) → m * a + p ≡ l + s → m * b + q ≡ p + c → m * (a + b) + q ≡ l + (s + c)
add_up m a b p l q s c h g = grind arith

total_at : (m k a b c : ℕ) → m ≡ k → k * a + b ≡ 0 + c → m * a + b ≡ c
total_at m k a b c h g = rw h (omega (arith, g))

module _ (lib : Library) (cfg : Config) where
  -- The calls for events that come at given times, from the state of the windows before them.
  unfoldable pub run : List (ℕ × Event) → Windows → Option (List Result × Windows)
  run [] ws = some ([], ws)
  run ((now, e) ∷ es) ws = elim (execute lib cfg now (one e) ws) [
    | none ↦ none
    | some (r, ws') ↦ elim (run es ws') [ none ↦ none | some (rs, ws'') ↦ some (r ∷ rs, ws'') ]
  ]

  abbrev pub has_key : Text → Event → Bool
  has_key key e = elim (get_field e cfg.key_field) [
    | none ↦ false
    | some v ↦ text_eq (lib.sprint v) key
  ]

  -- How many events have the key.
  abbrev pub received : Text → List (ℕ × Event) → ℕ
  received key [] = 0
  received key ((now, e) ∷ es) = (if has_key key e then 1 else 0) + received key es

  -- How many of them have made a window full.
  abbrev pub emitted : Text → List (ℕ × Event) → List Result → ℕ
  emitted key ((now, e) ∷ es) (r ∷ rs) =
      (if has_key key e then (if is_event r then 1 else 0) else 0) + emitted key es rs
  emitted key _ _ = 0

  abbrev pending_after : Text → Event → List Event → List Event
  pending_after key e acc =
      if has_key key e
      then (if leb_ℤ cfg.count (pos (length acc + 1)) then [] else acc ++ e ∷ [])
      else acc

  -- The events of the key since its last full window, after those that are pending already.
  abbrev pub pending : Text → List Event → List (ℕ × Event) → List Event
  pending key acc [] = acc
  pending key acc ((now, e) ∷ es) = pending key (pending_after key e acc) es

  Tracks : Windows → (Text → List Event) → Type 0
  Tracks ws rep = (key : Text) → Represents lib cfg key ws (rep key)

  module _ (n : ℕ) (h : cfg.count ≡ pos (suc n)) where
    abbrev Moves : Text → Event → List Event → Result → Windows → Type 0
    Moves key e acc r ws' =
        Represents lib cfg key ws' (pending_after key e acc)
        × (length (pending_after key e acc) < suc n)
        × (suc n * (if has_key key e then (if is_event r then 1 else 0) else 0)
              + length (pending_after key e acc)
            ≡ length acc + (if has_key key e then 1 else 0))

    Takes-Moves :
        (key : Text) (e : Event) (acc : List Event) (r : Result) (ws' : Windows)
        → has_key key e ≡ true
        → length acc < suc n
        → Takes lib (leb_ℤ cfg.count (pos (length acc + 1))) cfg key e acc r ws'
        → Moves key e acc r ws'
    Takes-Moves key e acc r ws' k short t =
        go (leb_ℤ cfg.count (pos (length acc + 1))) refl (rw h refl) t
      where
        exact : leb_ℤ (pos (suc n)) (pos (length acc + 1)) ≡ true → suc n * 1 + 0 ≡ length acc + 1
        exact f = ground (arith, short)

        below : leb_ℤ (pos (suc n)) (pos (length acc + 1)) ≡ false → length (acc ++ e ∷ []) < suc n
        below f = ground (arith, length-append acc (e ∷ []))

        grown : suc n * 0 + length (acc ++ e ∷ []) ≡ length acc + 1
        grown = omega (arith, length-append acc (e ∷ []))

        go :
            (full : Bool)
            → leb_ℤ cfg.count (pos (length acc + 1)) ≡ full
            → leb_ℤ cfg.count (pos (length acc + 1)) ≡ leb_ℤ (pos (suc n)) (pos (length acc + 1))
            → Takes lib full cfg key e acc r ws'
            → Moves key e acc r ws'
        go true q l (w, s, p, c) = rw (k, q, p) (c, omega arith, exact (sym l ∙ q))
        go false q l (p, c) = rw (k, q, p) (c, below (sym l ∙ q), grown)

    Others-Moves :
        (key : Text) (e : Event) (acc : List Event) (r : Result) (ws ws' : Windows)
        → has_key key e ≡ false
        → length acc < suc n
        → Represents lib cfg key ws acc
        → lookup key ws' ≡ lookup key ws
        → Moves key e acc r ws'
    Others-Moves key e [] r ws ws' k short t same = rw k (same ∙ t, short, omega arith)
    Others-Moves key e (d ∷ acc) r ws ws' k short (w, t, s) same =
        rw k ((w, same ∙ t, s), short, omega arith)

    Step : Event → Windows → (Text → List Event) → Option (Result × Windows) → Type 0
    Step e ws rep out =
        (r : Result) × (ws' : Windows) × (out ≡ some (r, ws'))
        × ((key : Text) → Moves key e (rep key) r ws')

    execute-Step :
        (now : ℕ) (e : Event) (ws : Windows) (rep : Text → List Event)
        → Tracks ws rep
        → ((key : Text) → length (rep key) < suc n)
        → Step e ws rep (execute lib cfg now (one e) ws)
    unfolding Step Tracks execute
    execute-Step now e ws rep t short = elim (Option-cases (get_field e cfg.key_field)) [
      | inl k ↦ (
        err (failure (codes "key field not found in event")),
        ws,
        rw (k, execute) refl,
        λ key.
            Others-Moves key e (rep key) (err (failure (codes "key field not found in event"))) ws
              ws (rw (k, has_key) refl) (short key) (t key) refl,
      )
      | inr (v, k) ↦
          let (r, ws', x, took, others) =
            execute-Takes lib cfg now e v ws (rep (lib.sprint v)) k (t (lib.sprint v)) in
          (
            r,
            ws',
            x,
            λ key. elim (Bool-cases (text_eq (lib.sprint v) key)) [
              | inl q ↦
                  let p = (text_eq_iff (lib.sprint v) key).0 q in
                  rw (← p) (
                    Takes-Moves (lib.sprint v) e (rep (lib.sprint v)) r ws'
                      (rw (k, has_key) (text_eq_refl (lib.sprint v))) (short (lib.sprint v)) took)
              | inr q ↦
                  Others-Moves key e (rep key) r ws ws' (rw (k, has_key) q) (short key) (t key)
                    (others key (λ p. ground (arith, text_eq_iff (lib.sprint v) key)))
            ],
          )
    ]

    Totals : Text → List Event → List (ℕ × Event) → List Result → Type 0
    Totals key acc es rs =
        (length (pending key acc es) < suc n)
        × (suc n * emitted key es rs + length (pending key acc es) ≡ length acc + received key es)

    Totals-cons :
        (key : Text) (now : ℕ) (e : Event) (es : List (ℕ × Event)) (acc : List Event) (r : Result)
        (rs : List Result) (ws' : Windows)
        → Moves key e acc r ws'
        → Totals key (pending_after key e acc) es rs
        → Totals key acc ((now, e) ∷ es) (r ∷ rs)
    unfolding Totals
    Totals-cons key now e es acc r rs ws' (rep, short, step) (short', rest) = (
      short',
      add_up (suc n) (if has_key key e then (if is_event r then 1 else 0) else 0)
          (emitted key es rs) (length (pending_after key e acc)) (length acc)
          (length (pending key (pending_after key e acc) es)) (if has_key key e then 1 else 0)
          (received key es) step rest,
    )

    run-Tracks :
        (es : List (ℕ × Event)) (ws : Windows) (rep : Text → List Event)
        → Tracks ws rep
        → ((key : Text) → length (rep key) < suc n)
        → (rs : List Result) × (ws' : Windows) × (run es ws ≡ some (rs, ws'))
          × Tracks ws' (λ key. pending key (rep key) es)
          × ((key : Text) → Totals key (rep key) es rs)
    unfolding Step Tracks Totals run
    run-Tracks [] ws rep t short = ([], ws, refl, t, λ key. (short key, omega arith))
    run-Tracks ((now, e) ∷ es) ws rep t short =
        let (r, ws', x, moved) = execute-Step now e ws rep t short in
        let (rs, ws'', y, t', totals) =
          run-Tracks es ws' (λ key. pending_after key e (rep key)) (λ key. (moved key).0)
            (λ key. (moved key).1) in
        (
          r ∷ rs,
          ws'',
          rw (x, y, run) refl,
          t',
          λ key. Totals-cons key now e es (rep key) r rs ws' (moved key) (totals key),
        )

positive_count :
    (lib : Library) (raw cfg : Config)
    → configure lib (decoded raw) ≡ configured cfg
    → (n : ℕ) × (cfg.count ≡ pos (suc n))
unfolding configure
positive_count lib raw cfg h = go cfg.count (ground arith)
  where
    go : (c : ℤ) → leb_ℤ c (pos 0) ≡ false → (n : ℕ) × (c ≡ pos (suc n))
    go (pos zero) q = ground arith
    go (pos (suc n)) q = (n, refl)
    go (negsuc n) q = ground arith

arrivals-Totals :
    (lib : Library) (raw cfg : Config) (es : List (ℕ × Event))
    → configure lib (decoded raw) ≡ configured cfg
    → (rs : List Result) × (ws : Windows) × (run lib cfg es [] ≡ some (rs, ws))
      × ((key : Text)
          → Represents lib cfg key ws (pending lib cfg key [] es)
            × (length (pending lib cfg key [] es) < pos_part cfg.count)
            × (pos_part cfg.count * emitted lib cfg key es rs + length (pending lib cfg key [] es)
                ≡ received lib cfg key es))
unfolding Tracks Totals
arrivals-Totals lib raw cfg es h =
    let (n, p) = positive_count lib raw cfg h in
    let (rs, ws, x, t, totals) =
      run-Tracks lib cfg n p es [] (λ key. []) (λ key. unfold lookup in refl)
        (λ key. omega arith) in
    (
      rs,
      ws,
      x,
      λ key. (
        t key,
        rw (ap pos_part p) (totals key).0,
        total_at (pos_part cfg.count) (suc n) (emitted lib cfg key es rs)
            (length (pending lib cfg key [] es)) (received lib cfg key es) (ap pos_part p)
            (totals key).1,
      ),
    )

-- What the transform meets: an event that arrives at a time, or a tick of the eviction loop.
pub data Input : Type 0 where
  arrival : ℕ → Event → Input
  tick : ℕ → Input

abbrev pub arrivals : List Input → List (ℕ × Event)
arrivals [] = []
arrivals (arrival now e ∷ is) = (now, e) ∷ arrivals is
arrivals (tick now ∷ is) = arrivals is

module _ (lib : Library) (cfg : Config) where
  unfoldable pub run_inputs : List Input → Windows → Option (List Result × Windows)
  run_inputs [] ws = some ([], ws)
  run_inputs (arrival now e ∷ is) ws = elim (execute lib cfg now (one e) ws) [
    | none ↦ none
    | some (r, ws') ↦ elim (run_inputs is ws') [
      | none ↦ none
      | some (rs, ws'') ↦ some (r ∷ rs, ws'')
    ]
  ]
  run_inputs (tick now ∷ is) ws = run_inputs is (evict cfg now ws)

  -- No tick finds a window that has been idle for too long.
  unfoldable pub NothingIdle : List Input → Windows → Type 0
  NothingIdle [] ws = Unit
  NothingIdle (arrival now e ∷ is) ws = elim (execute lib cfg now (one e) ws) [
    | none ↦ Unit
    | some (r, ws') ↦ NothingIdle is ws'
  ]
  NothingIdle (tick now ∷ is) ws = (evict cfg now ws ≡ ws) × NothingIdle is ws

  run_inputs-arrivals :
      (is : List Input) (ws : Windows)
      → NothingIdle is ws
      → run_inputs is ws ≡ run lib cfg (arrivals is) ws
  unfolding run_inputs NothingIdle run
  run_inputs-arrivals [] ws h = refl
  run_inputs-arrivals (arrival now e ∷ is) ws h =
      elim (Option-cases (execute lib cfg now (one e) ws)) [
        | inl p ↦ rw (p, run_inputs) (rw (p, run) refl)
        | inr ((r, ws'), p) ↦
            rw (p, run_inputs)
              (rw (p, run) (rw (run_inputs-arrivals is ws' (rw (p, NothingIdle) at h)) refl))
      ]
  run_inputs-arrivals (tick now ∷ is) ws (same, h) =
      ap (run_inputs is) same ∙ run_inputs-arrivals is ws h

-- Under an accepted configuration, no sequence of events and ticks of the eviction loop, of which no
-- tick finds a window idle for too long, makes a call of `Execute` panic. Each key is counted apart,
-- whatever comes in between: in the end its window holds the events that came since it was last
-- full, which are fewer than the count, and the events that were emitted for the key, times the
-- count, and those that are pending are all that were received.
pub run-Totals :
    (lib : Library) (raw cfg : Config) (is : List Input)
    → configure lib (decoded raw) ≡ configured cfg
    → NothingIdle lib cfg is []
    → (rs : List Result) × (ws : Windows) × (run_inputs lib cfg is [] ≡ some (rs, ws))
      × ((key : Text)
          → Represents lib cfg key ws (pending lib cfg key [] (arrivals is))
            × (length (pending lib cfg key [] (arrivals is)) < pos_part cfg.count)
            × (pos_part cfg.count * emitted lib cfg key (arrivals is) rs
                  + length (pending lib cfg key [] (arrivals is))
                ≡ received lib cfg key (arrivals is)))
run-Totals lib raw cfg is h quiet =
    let (rs, ws, x, totals) = arrivals-Totals lib raw cfg (arrivals is) h in
    (rs, ws, run_inputs-arrivals lib cfg is [] quiet ∙ x, totals)
