-- ===== src/Aggregate/Window/Limits.antt =====
-- Every operation keeps the windows below their limit
-- (internal/transform/aggregate/window.go).
use ggt.Prelude.{
  ℕ, zero, suc, Bool, true, false, ◌&&◌, none, some, List, [], ◌∷◌, ◌++◌, ◌<◌, ◌≡◌, ◌≢◌, refl, sym,
  ◌∙◌, Text, text_eq, text_eq_refl, length, arith, Option-cases, Bool-cases, inl, inr,
}
use ggt.Prelude.Int.{ℤ, pos, negsuc, leb_ℤ}
use ggt.Prelude.Dict.{Dict, lookup, insert, remove, lookup-insert, lookup-remove}
use ggt.Event.{Event, get_field}
use ggt.Pipeline.{Payload, one, nothing, many, value}
use ggt.Aggregate.{Aggregation, AggregateState, Library, function_of, all_valid}
use ggt.Aggregate.Window.{
  Config, WindowState, Transform, positive, number_in, first_state, update_state, update_one,
  update_aggregations,
}
use ggt.Aggregate.Window.Calls.{
  is_full, emit_window_results, timeout, open_window, add_event, after_adding, execute_keyed,
  as_text, execute,
}

-- Every window has fewer events than the limit.
unfoldable pub Below : ℕ → Dict WindowState → Type 0
Below n ws = (key : Text) (w : WindowState) → lookup key ws ≡ some w → length w.events < n

some_inj {ℓ} : {A : Type ℓ} {a b : A} → some a ≡ some b → a ≡ b
some_inj h = cc

pub some≢none {ℓ} : {A : Type ℓ} {a : A} → some a ≡ none → ⊥
some≢none h = cc

false≢true : false ≡ true → ⊥
false≢true k = cc

remove-Below : (n : ℕ) (key : Text) (ws : Dict WindowState) → Below n ws → Below n (remove key ws)
unfolding Below
remove-Below n key ws b other w h = ground (arith, lookup-remove key other ws, b other w)

insert-Below :
    (n : ℕ) (key : Text) (v : WindowState) (ws : Dict WindowState)
    → length v.events < n
    → Below n ws
    → Below n (insert key v ws)
unfolding Below
insert-Below n key v ws l b other w h = elim (Bool-cases (text_eq key other)) [
  | inr p ↦ b other w (sym (rw p at (lookup-insert key other v ws)) ∙ h)
  | inl p ↦ rw (← some_inj (sym (rw p at (lookup-insert key other v ws)) ∙ h)) l
]

closed-Below :
    (n : ℕ) (key : Text) (v : WindowState) (ws : Dict WindowState)
    → Below n ws
    → Below n (remove key (insert key v ws))
unfolding Below
closed-Below n key v ws b other w h =
    ground
      (arith, lookup-remove key other (insert key v ws), lookup-insert key other v ws, b other w)

module _ (lib : Library) where
  update_one-some :
      (agg : Aggregation) (e : Event) (m : Dict AggregateState)
      → function_of agg.function ≢ none
      → (m' : Dict AggregateState) × (update_one lib agg e m ≡ some m')
  unfolding update_one
  update_one-some agg e m n = elim (Option-cases (number_in lib e agg.field)) [
    | inl p ↦ (m, rw (p, update_one) refl)
    | inr (x, p) ↦ elim (Option-cases (lookup agg.as_field m)) [
      | inl q ↦ (insert agg.as_field (first_state lib x) m, rw (p, q, update_one) refl)
      | inr (s, q) ↦ elim (Option-cases (function_of agg.function)) [
        | inl r ↦ absurd (n r)
        | inr (f, r) ↦
            (insert agg.as_field (update_state lib f x s) m, rw (p, q, r, update_one) refl)
      ]
    ]
  ]

  update_aggregations-valid :
      (aggs : List Aggregation) (e : Event) (m : Dict AggregateState)
      → all_valid aggs ≡ true
      → (update_aggregations lib aggs e m).0 ≡ true
  unfolding update_aggregations all_valid
  update_aggregations-valid [] e m h = refl
  update_aggregations-valid (agg ∷ aggs) e m h = elim (Option-cases (function_of agg.function)) [
    | inl p ↦ absurd (false≢true (rw (p, all_valid) at h))
    | inr (f, p) ↦
        let (m', q) = update_one-some agg e m (λ r. some≢none (sym p ∙ r)) in
        rw (q, update_aggregations) (update_aggregations-valid aggs e m' (rw (p, all_valid) at h))
  ]

  emit-Below :
      (n : ℕ) (cfg : Config) (now : ℕ) (key : Text) (t : Transform)
      → Below n t.windows
      → Below n (emit_window_results lib cfg now key t).windows
  unfolding emit_window_results
  emit-Below n cfg now key t b = elim (Option-cases (lookup key t.windows)) [
    | inl p ↦ rw (p, emit_window_results) b
    | inr (w, p) ↦ rw (p, emit_window_results) (remove-Below n key t.windows b)
  ]

  pub timeout-Below :
      (n : ℕ) (is_done : ℕ → Bool) (cfg : Config) (now : ℕ) (key : Text) (t : Transform)
      → Below n t.windows
      → Below n (timeout lib is_done cfg now key t).windows
  unfolding timeout
  timeout-Below n is_done cfg now key t b = elim (Option-cases (lookup key t.entries)) [
    | inl p ↦ rw (p, timeout) b
    | inr (ctx, p) ↦ elim (Bool-cases (is_done ctx)) [
      | inl q ↦ rw (p, q, timeout) b
      | inr q ↦ rw (p, q, timeout) (emit-Below n cfg now key t b)
    ]
  ]

  module _ (n : ℕ) (cfg : Config) (h : cfg.max_events ≡ pos (suc n))
      (valid : all_valid cfg.aggregations ≡ true) where
    open-Below :
        (ctx now : ℕ) (key : Text) (t : Transform)
        → Below (suc n) t.windows
        → (length (open_window lib cfg ctx now key t).0.events < suc n)
          × Below (suc n) (open_window lib cfg ctx now key t).1.windows
    unfolding open_window Below
    open-Below ctx now key t b = elim (Option-cases (lookup key t.windows)) [
      | inr (w, p) ↦ rw (p, open_window) (b key w p, b)
      | inl p ↦ elim (Bool-cases (positive cfg.max_duration)) [
        | inl q ↦ rw (p, q, open_window) (omega arith, b)
        | inr q ↦ rw (p, q, open_window) (omega arith, b)
      ]
    ]

    not_full : (w : WindowState) → is_full lib cfg w ≡ false → length w.events < suc n
    not_full w q = limit cfg.max_events h q
      where
        pos_inj : {i j : ℕ} → pos i ≡ pos j → i ≡ j
        pos_inj k = cc

        limit :
            (m : ℤ)
            → m ≡ pos (suc n)
            → (positive m && leb_ℤ m (pos (length w.events))) ≡ false
            → length w.events < suc n
        limit (pos zero) same k = ground arith
        limit (pos (suc i)) same k = ground (arith, pos_inj same)
        limit (negsuc i) same k = absurd cc

    after_adding-Below :
        (now : ℕ) (key : Text) (w : WindowState) (t : Transform)
        → Below (suc n) t.windows
        → Below
            (suc n)
            (after_adding lib cfg now key
              (some w, record t { windows = insert key w t.windows })).1.windows
    unfolding after_adding emit_window_results
    after_adding-Below now key w t b = elim (Bool-cases (is_full lib cfg w)) [
      | inr q ↦ rw (q, after_adding) (insert-Below (suc n) key w t.windows (not_full w q) b)
      | inl q ↦
          rw (q, stored key w t, after_adding, emit_window_results)
            (closed-Below (suc n) key w t.windows b)
    ]
      where
        stored :
            (key : Text) (w : WindowState) (t : Transform)
            → lookup key (insert key w t.windows) ≡ some w
        stored key w t = ground (arith, lookup-insert key key w t.windows, text_eq_refl key)

    execute_keyed-Below :
        (ctx now : ℕ) (key : Text) (e : Event) (t : Transform)
        → Below (suc n) t.windows
        → Below (suc n) (execute_keyed lib cfg ctx now key e t).1.windows
    unfolding execute_keyed add_event
    execute_keyed-Below ctx now key e t b =
        let opened = open_window lib cfg ctx now key t in
        let (l, b') = open-Below ctx now key t b in
        let p = update_aggregations-valid cfg.aggregations e opened.0.aggregates valid in
        let m = (update_aggregations lib cfg.aggregations e opened.0.aggregates).1 in
        rw (p, execute_keyed, add_event)
          (after_adding-Below now key
            (record opened.0 { events = opened.0.events ++ e ∷ []; aggregates = m }) opened.1 b')

    pub execute-Below :
        (ctx now : ℕ) (p : Payload) (t : Transform)
        → Below (suc n) t.windows
        → Below (suc n) (execute lib cfg ctx now p t).1.windows
    unfolding execute
    execute-Below ctx now nothing t b = b
    execute-Below ctx now (many es) t b = b
    execute-Below ctx now (value v) t b = b
    execute-Below ctx now (one e) t b = elim (Option-cases (get_field e cfg.key_field)) [
      | inl p ↦ rw (p, execute) b
      | inr (v, p) ↦ elim (Option-cases (as_text lib v)) [
        | inl q ↦ rw (p, q, execute) b
        | inr (key, q) ↦ rw (p, q, execute) (execute_keyed-Below ctx now key e t b)
      ]
    ]
