-- ===== src/Aggregate/Count/Step.antt =====
-- One call of the counting aggregation: what a window holds, and that it never panics
-- (internal/transform/aggregate/count.go).
use ggt.Prelude.{
  ℕ, Bool, true, false, Option, none, some, List, [], ◌∷◌, ◌++◌, ◌+◌, ◌≡◌, ◌≢◌, refl, sym, ap, ◌∙◌,
  Text, text_eq_iff, text_eq_refl, length, length-append, arith,
}
use ggt.Prelude.Int.{pos, leb_ℤ}
use ggt.Prelude.Dict.{Dict, lookup, insert, remove, lookup-insert, lookup-remove}
use ggt.Value.{Value}
use ggt.Event.{Event, get_field}
use ggt.Pipeline.{nothing, one, Result, ok}
use ggt.Aggregate.{AggregateState, Library}
use ggt.Aggregate.Count.{
  Config, WindowState, Windows, new_aggregates, update, window_of, finish, count_event, execute,
  result_event,
}
use ggt.Aggregate.Count.Aggregates.{
  new_aggregates-Ready, aggregates_of, aggregates, aggregates_of-Ready, aggregates_of-snoc,
}

lookup_stored :
    (key : Text) (w : WindowState) (ws : Windows) → lookup key (insert key w ws) ≡ some w
lookup_stored key w ws = ground (arith, lookup-insert key key w ws, text_eq_refl key)

lookup_kept :
    (key other : Text) (w : WindowState) (ws : Windows)
    → other ≢ key
    → lookup other (insert key w ws) ≡ lookup other ws
lookup_kept key other w ws n = ground (arith, lookup-insert key other w ws, text_eq_iff key other)

lookup_removed :
    (key other : Text) (ws : Windows) → other ≢ key → lookup other (remove key ws) ≡ lookup other ws
lookup_removed key other ws n = ground (arith, lookup-remove key other ws, text_eq_iff key other)

closed :
    (key : Text) (w : WindowState) (ws : Windows) → lookup key (remove key (insert key w ws)) ≡ none
closed key w ws = ground (arith, lookup-remove key key (insert key w ws), text_eq_refl key)

module _ (lib : Library) where
  abbrev pub first_time : List Event → ℕ
  first_time [] = 0
  first_time (e ∷ es) = e.timestamp

  -- A window that has taken these events, and no others.
  pub record Summarises (cfg : Config) (es : List Event) (w : WindowState) : Type 0 where
    pub started : w.start_time ≡ first_time es
    pub counted : w.event_count ≡ length es
    pub aggregated : aggregates lib cfg es ≡ some w.aggregates

  -- The window of a key is that of these events; there is none where there are no events.
  abbrev pub Represents : Config → Text → Windows → List Event → Type 0
  Represents cfg key ws [] = lookup key ws ≡ none
  Represents cfg key ws (e ∷ es) =
      (w : WindowState) × (lookup key ws ≡ some w) × Summarises cfg (e ∷ es) w

  abbrev grown : Config → ℕ → Event → Option WindowState → Dict AggregateState → WindowState
  grown cfg now e found m =
      let state = window_of lib cfg e found in
      record state { event_count = state.event_count + 1; aggregates = m; last_seen = now }

  Grows : Config → ℕ → Event → Option WindowState → List Event → Type 0
  Grows cfg now e found es =
      (m : Dict AggregateState) × (update lib cfg.aggregations e
          (window_of lib cfg e found).aggregates
        ≡ some m)
      × Summarises cfg (es ++ e ∷ []) (grown cfg now e found m)

  aggregates-snoc :
      (cfg : Config) (es : List Event) (e : Event) (m : Dict AggregateState)
      → aggregates lib cfg es ≡ some m
      → (m' : Dict AggregateState) × (update lib cfg.aggregations e m ≡ some m')
        × (aggregates lib cfg (es ++ e ∷ []) ≡ some m')
  aggregates-snoc cfg es e m h =
      let start = new_aggregates cfg.aggregations [] in
      let (m', p, g) =
        aggregates_of-Ready lib cfg.aggregations (es ++ e ∷ []) start
          (new_aggregates-Ready cfg.aggregations []) in
      (m', sym (aggregates_of-snoc lib cfg.aggregations es e start m h) ∙ p, p)

  Represents-Grows :
      (cfg : Config) (now : ℕ) (e : Event) (key : Text) (ws : Windows) (es : List Event)
      → Represents cfg key ws es
      → Grows cfg now e (lookup key ws) es
  unfolding Grows window_of
  Represents-Grows cfg now e key ws [] h =
      let (m', p, q) =
        aggregates-snoc cfg [] e (new_aggregates cfg.aggregations [])
          (unfold aggregates_of in refl) in
      rw h (m', p, record { started = refl; counted = refl; aggregated = q })
  Represents-Grows cfg now e key ws (d ∷ es) (w, h, s) =
      let (m', p, q) = aggregates-snoc cfg (d ∷ es) e w.aggregates s.aggregated in
      rw h (
        m',
        p,
        record {
          started = s.started;
          counted = omega (arith, s.counted, length-append (d ∷ es) (e ∷ []));
          aggregated = q;
        },
      )

  represent :
      (cfg : Config) (key : Text) (ws : Windows) (es : List Event) (e : Event) (w : WindowState)
      → lookup key ws ≡ some w
      → Summarises cfg (es ++ e ∷ []) w
      → Represents cfg key ws (es ++ e ∷ [])
  represent cfg key ws [] e w h s = (w, h, s)
  represent cfg key ws (d ∷ es) e w h s = (w, h, s)

  -- What comes of an event of a key, by whether it makes the window full: the event of the window,
  -- which is closed, or nothing, and the window has the event.
  abbrev pub Takes : Bool → Config → Text → Event → List Event → Result → Windows → Type 0
  Takes true cfg key e es r ws' =
      (w : WindowState) × Summarises cfg (es ++ e ∷ []) w
      × (r ≡ ok (one (result_event lib cfg key e w)))
      × Represents cfg key ws' []
  Takes false cfg key e es r ws' = (r ≡ ok nothing) × Represents cfg key ws' (es ++ e ∷ [])

  -- The windows of the other keys are as before.
  abbrev pub Others : Text → Windows → Windows → Type 0
  Others key ws ws' = (other : Text) → other ≢ key → lookup other ws' ≡ lookup other ws

  finish-Takes :
      (cfg : Config) (key : Text) (e : Event) (es : List Event) (w : WindowState) (ws : Windows)
      → Summarises cfg (es ++ e ∷ []) w
      → Takes
          (leb_ℤ cfg.count (pos (length es + 1)))
          cfg
          key
          e
          es
          (finish lib cfg key e w ws).0
          (finish lib cfg key e w ws).1
        × Others key ws (finish lib cfg key e w ws).1
  unfolding finish
  finish-Takes cfg key e es w ws s =
      let n : w.event_count ≡ length es + 1 = omega (arith, s.counted, length-append es (e ∷ [])) in
      go (leb_ℤ cfg.count (pos (length es + 1))) (ap (λ k. leb_ℤ cfg.count (pos k)) n)
    where
      go :
          (full : Bool)
          → leb_ℤ cfg.count (pos w.event_count) ≡ full
          → Takes full cfg key e es (finish lib cfg key e w ws).0 (finish lib cfg key e w ws).1
            × Others key ws (finish lib cfg key e w ws).1
      go true h =
          rw (h, finish)
            (
              (w, s, refl, closed key w ws),
              λ other n.
                  rw (lookup_removed key other (insert key w ws) n) (lookup_kept key other w ws n),
            )
      go false h =
          rw (h, finish)
            (
              (refl, represent cfg key (insert key w ws) es e w (lookup_stored key w ws) s),
              λ other n. lookup_kept key other w ws n,
            )

  -- One call for an event whose key has a window that is that of some events: it does not panic,
  -- and it emits the event of the window, and closes the window, exactly when it completes the
  -- count; otherwise the window has the event too. The windows of the other keys stay.
  pub execute-Takes :
      (cfg : Config) (now : ℕ) (e : Event) (v : Value) (ws : Windows) (es : List Event)
      → get_field e cfg.key_field ≡ some v
      → Represents cfg (lib.sprint v) ws es
      → (r : Result) × (ws' : Windows) × (execute lib cfg now (one e) ws ≡ some (r, ws'))
        × Takes (leb_ℤ cfg.count (pos (length es + 1))) cfg (lib.sprint v) e es r ws'
        × Others (lib.sprint v) ws ws'
  unfolding execute count_event Grows
  execute-Takes cfg now e v ws es k h =
      let key = lib.sprint v in
      let (m, p, s) = Represents-Grows cfg now e key ws es h in
      let w = grown cfg now e (lookup key ws) m in
      let (t, o) = finish-Takes cfg key e es w ws s in
      (
        (finish lib cfg key e w ws).0,
        (finish lib cfg key e w ws).1,
        rw (k, p, execute, count_event) refl,
        t,
        o,
      )
