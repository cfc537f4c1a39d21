-- ===== src/Aggregate/Count/Updates.antt =====
-- One aggregation among others in the aggregates of a window
-- (internal/transform/aggregate/count.go).
use ggt.Prelude.{
  true, false, none, some, List, [], ◌∷◌, ◌≡◌, ◌≢◌, refl, sym, ap, ◌∙◌, Text, text_eq_iff,
  text_eq_refl, arith, Option-cases, inl, inr, All,
}
use ggt.Prelude.Dict.{Dict, lookup, insert, lookup-insert}
use ggt.Event.{Event, path_keys}
use ggt.Event.Paths.{diverges}
use ggt.Aggregate.{Aggregation, AggregateState, Library, function_of}
use ggt.Aggregate.Count.{new_state, new_aggregates, number_in, update_state, update_one, update}
use ggt.Aggregate.Count.Aggregates.{aggregates_of}

-- The field that an aggregation writes parts from that of another.
abbrev pub Apart : Aggregation → Aggregation → Type 0
Apart agg other = diverges (path_keys other.as_field) (path_keys agg.as_field) ≡ true

-- The aggregation is there, and the fields of all others part from its own.
pub data Only (agg : Aggregation) : List Aggregation → Type 0 where
  here : {aggs : List Aggregation} → All (Apart agg) aggs → Only agg (agg ∷ aggs)
  there :
      {other : Aggregation} {aggs : List Aggregation}
      → Apart agg other
      → Only agg aggs
      → Only agg (other ∷ aggs)

diverges_self : (ks : List Text) → diverges ks ks ≡ false
unfolding diverges
diverges_self [] = refl
diverges_self (k ∷ ks) = ground (arith, text_eq_refl k, diverges_self ks)

Apart-ne : (agg other : Aggregation) → Apart agg other → other.as_field ≢ agg.as_field
Apart-ne agg other a same = true≢false (
    sym a
    ∙ ap (λ k. diverges (path_keys k) (path_keys agg.as_field)) same
    ∙ diverges_self (path_keys agg.as_field))
  where
    true≢false : true ≡ false → ⊥
    true≢false h = cc

some_inj {ℓ} : {A : Type ℓ} {a b : A} → some a ≡ some b → a ≡ b
some_inj h = cc

none≢some {ℓ} : {A : Type ℓ} {a : A} → none ≡ some a → ⊥
none≢some h = cc

new_aggregates_fresh :
    (k : Text) (aggs : List Aggregation) (m : Dict AggregateState)
    → lookup k m ≡ some new_state
    → lookup k (new_aggregates aggs m) ≡ some new_state
new_aggregates_fresh k [] m h = h
new_aggregates_fresh k (agg ∷ aggs) m h =
    new_aggregates_fresh k aggs (insert agg.as_field new_state m)
      (ground (arith, lookup-insert agg.as_field k new_state m))

pub new_aggregates-Only :
    (agg : Aggregation) (aggs : List Aggregation) (m : Dict AggregateState)
    → Only agg aggs
    → lookup agg.as_field (new_aggregates aggs m) ≡ some new_state
new_aggregates-Only agg [] m o = elim o [ ]
new_aggregates-Only agg (agg' ∷ aggs) m (here a) =
    new_aggregates_fresh agg.as_field aggs (insert agg.as_field new_state m) (
      ground
        (arith, lookup-insert agg.as_field agg.as_field new_state m, text_eq_refl agg.as_field))
new_aggregates-Only agg (other ∷ aggs) m (there n o) =
    new_aggregates-Only agg aggs (insert other.as_field new_state m) o

module _ (lib : Library) where
  abbrev pub step_state : Aggregation → Event → AggregateState → AggregateState
  step_state agg e s = elim (number_in lib e agg.field) [
    | none ↦ s
    | some x ↦ elim (function_of agg.function) [ none ↦ s | some f ↦ update_state lib f x s ]
  ]

  update_one_apart :
      (other : Aggregation) (k : Text) (e : Event) (m m' : Dict AggregateState)
      → other.as_field ≢ k
      → update_one lib other e m ≡ some m'
      → lookup k m' ≡ lookup k m
  unfolding update_one
  update_one_apart other k e m m' n h = elim (Option-cases (number_in lib e other.field)) [
    | inl p ↦ ap (lookup k) (sym (some_inj (rw (p, update_one) at h)))
    | inr (x, p) ↦ elim (Option-cases (function_of other.function)) [
      | inl q ↦ ap (lookup k) (sym (some_inj (rw (p, q, update_one) at h)))
      | inr (f, q) ↦ elim (Option-cases (lookup other.as_field m)) [
        | inl r ↦ absurd (none≢some (rw (p, q, r, update_one) at h))
        | inr (s, r) ↦
            ap (lookup k) (sym (some_inj (rw (p, q, r, update_one) at h)))
            ∙ ground (
              arith,
              lookup-insert other.as_field k (update_state lib f x s) m,
              text_eq_iff other.as_field k,
            )
      ]
    ]
  ]

  update_one_own :
      (agg : Aggregation) (e : Event) (m m' : Dict AggregateState) (s : AggregateState)
      → lookup agg.as_field m ≡ some s
      → update_one lib agg e m ≡ some m'
      → lookup agg.as_field m' ≡ some (step_state agg e s)
  unfolding update_one
  update_one_own agg e m m' s r h = elim (Option-cases (number_in lib e agg.field)) [
    | inl p ↦
        rw (p, step_state) (ap (lookup agg.as_field) (sym (some_inj (rw (p, update_one) at h))) ∙ r)
    | inr (x, p) ↦ elim (Option-cases (function_of agg.function)) [
      | inl q ↦
          rw (p, q, step_state)
            (ap (lookup agg.as_field) (sym (some_inj (rw (p, q, update_one) at h))) ∙ r)
      | inr (f, q) ↦
          rw (p, q, step_state)
            (ap (lookup agg.as_field) (sym (some_inj (rw (p, q, r, update_one) at h)))
              ∙ ground (
                arith,
                lookup-insert agg.as_field agg.as_field (update_state lib f x s) m,
                text_eq_refl agg.as_field,
              ))
    ]
  ]

  update-Apart :
      (mine : Aggregation) (aggs : List Aggregation) (e : Event) (m m' : Dict AggregateState)
      → All (Apart mine) aggs
      → update lib aggs e m ≡ some m'
      → lookup mine.as_field m' ≡ lookup mine.as_field m
  unfolding update
  update-Apart mine [] e m m' a h = ap (lookup mine.as_field) (sym (some_inj h))
  update-Apart mine (agg ∷ aggs) e m m' a h = elim (Option-cases (update_one lib agg e m)) [
    | inl p ↦ absurd (none≢some (rw (p, update) at h))
    | inr (m'', p) ↦
        update-Apart mine aggs e m'' m' a.1 (rw (p, update) at h)
        ∙ update_one_apart agg mine.as_field e m m'' (Apart-ne mine agg a.0) p
  ]

  update-cons :
      (agg : Aggregation) (aggs : List Aggregation) (e : Event) (m m' : Dict AggregateState)
      → update lib (agg ∷ aggs) e m ≡ some m'
      → (m'' : Dict AggregateState) × (update_one lib agg e m ≡ some m'')
        × (update lib aggs e m'' ≡ some m')
  unfolding update
  update-cons agg aggs e m m' h = elim (Option-cases (update_one lib agg e m)) [
    | inl p ↦ absurd (none≢some (rw (p, update) at h))
    | inr (m'', p) ↦ (m'', p, rw (p, update) at h)
  ]

  update-Only :
      (agg : Aggregation) (aggs : List Aggregation) (e : Event) (m m' : Dict AggregateState)
      (s : AggregateState)
      → Only agg aggs
      → lookup agg.as_field m ≡ some s
      → update lib aggs e m ≡ some m'
      → lookup agg.as_field m' ≡ some (step_state agg e s)
  update-Only agg [] e m m' s o r h = elim o [ ]
  update-Only agg (first ∷ aggs) e m m' s (here a) r h =
      let (m'', p, q) = update-cons first aggs e m m' h in
      update-Apart agg aggs e m'' m' a q ∙ update_one_own agg e m m'' s r p
  update-Only agg (first ∷ aggs) e m m' s (there n o) r h =
      let (m'', p, q) = update-cons first aggs e m m' h in
      update-Only agg aggs e m'' m' s o
        (update_one_apart first agg.as_field e m m'' (Apart-ne agg first n) p ∙ r) q

  abbrev pub states : Aggregation → List Event → AggregateState → AggregateState
  states agg [] s = s
  states agg (e ∷ es) s = states agg es (step_state agg e s)

  pub aggregates_of-Only :
      (agg : Aggregation) (aggs : List Aggregation) (es : List Event) (m m' : Dict AggregateState)
      (s : AggregateState)
      → Only agg aggs
      → lookup agg.as_field m ≡ some s
      → aggregates_of lib aggs es m ≡ some m'
      → lookup agg.as_field m' ≡ some (states agg es s)
  unfolding aggregates_of
  aggregates_of-Only agg aggs [] m m' s o r h = ap (lookup agg.as_field) (sym (some_inj h)) ∙ r
  aggregates_of-Only agg aggs (e ∷ es) m m' s o r h = elim (Option-cases (update lib aggs e m)) [
    | inl p ↦ absurd (none≢some (rw (p, aggregates_of) at h))
    | inr (m'', p) ↦
        aggregates_of-Only agg aggs es m'' m' (step_state agg e s) o
          (update-Only agg aggs e m m'' s o r p) (rw (p, aggregates_of) at h)
  ]
