-- ===== src/Aggregate/Count/Aggregates.antt =====
-- The aggregates of a list of events: there is a state for every aggregation, so nothing panics
-- (internal/transform/aggregate/count.go).
use ggt.Prelude.{
  Bool, true, false, Option, none, some, List, [], ◌∷◌, ◌++◌, ◌≡◌, refl, ap, ◌∙◌, Text,
  text_eq_refl, arith, Option-cases, inl, inr,
}
use ggt.Prelude.Dict.{Dict, lookup, insert, lookup-insert}
use ggt.Event.{Event}
use ggt.Aggregate.{Aggregation, AggregateState, Library, function_of}
use ggt.Aggregate.Count.{
  Config, new_state, new_aggregates, number_in, update_state, update_one, update,
}

abbrev is_some {ℓ} : {A : Type ℓ} → Option A → Bool
is_some none = false
is_some (some a) = true

-- Every aggregation has its state.
abbrev pub Ready : List Aggregation → Dict AggregateState → Type 0
Ready [] m = Unit
Ready (agg ∷ aggs) m = (is_some (lookup agg.as_field m) ≡ true) × Ready aggs m

-- No state is lost.
abbrev Keeps : Dict AggregateState → Dict AggregateState → Type 0
Keeps m m' = (k : Text) → is_some (lookup k m) ≡ true → is_some (lookup k m') ≡ true

insert-Keeps : (j : Text) (s : AggregateState) (m : Dict AggregateState) → Keeps m (insert j s m)
insert-Keeps j s m k h = ground (arith, lookup-insert j k s m)

new_aggregates-Keeps :
    (aggs : List Aggregation) (m : Dict AggregateState) → Keeps m (new_aggregates aggs m)
new_aggregates-Keeps [] m k h = h
new_aggregates-Keeps (agg ∷ aggs) m k h =
    new_aggregates-Keeps aggs (insert agg.as_field new_state m) k
      (insert-Keeps agg.as_field new_state m k h)

insert_there :
    (j : Text) (s : AggregateState) (m : Dict AggregateState)
    → is_some (lookup j (insert j s m)) ≡ true
insert_there j s m = ground (arith, lookup-insert j j s m, text_eq_refl j)

pub new_aggregates-Ready :
    (aggs : List Aggregation) (m : Dict AggregateState) → Ready aggs (new_aggregates aggs m)
new_aggregates-Ready [] m = tt
new_aggregates-Ready (agg ∷ aggs) m = (
  new_aggregates-Keeps aggs (insert agg.as_field new_state m) agg.as_field
      (insert_there agg.as_field new_state m),
  new_aggregates-Ready aggs (insert agg.as_field new_state m),
)

Ready-Keeps :
    (aggs : List Aggregation) (m m' : Dict AggregateState)
    → Keeps m m'
    → Ready aggs m
    → Ready aggs m'
Ready-Keeps [] m m' k h = tt
Ready-Keeps (agg ∷ aggs) m m' k h = (k agg.as_field h.0, Ready-Keeps aggs m m' k h.1)

module _ (lib : Library) where
  update_one-Keeps :
      (agg : Aggregation) (e : Event) (m : Dict AggregateState)
      → is_some (lookup agg.as_field m) ≡ true
      → (m' : Dict AggregateState) × (update_one lib agg e m ≡ some m') × Keeps m m'
  unfolding update_one
  update_one-Keeps agg e m h = elim (Option-cases (number_in lib e agg.field)) [
    | inl p ↦ (m, rw (p, update_one) refl, λ k q. q)
    | inr (x, p) ↦ elim (Option-cases (function_of agg.function)) [
      | inl q ↦ (m, rw (p, q, update_one) refl, λ k r. r)
      | inr (f, q) ↦ elim (Option-cases (lookup agg.as_field m)) [
        | inl r ↦ absurd (none_there (rw r at h))
        | inr (s, r) ↦ (
          insert agg.as_field (update_state lib f x s) m,
          rw (p, q, r, update_one) refl,
          insert-Keeps agg.as_field (update_state lib f x s) m,
        )
      ]
    ]
  ]
    where
      none_there : false ≡ true → ⊥
      none_there h = cc

  update-Ready :
      (aggs all : List Aggregation) (e : Event) (m : Dict AggregateState)
      → Ready aggs m
      → Ready all m
      → (m' : Dict AggregateState) × (update lib aggs e m ≡ some m') × Ready all m'
  unfolding update
  update-Ready [] all e m h g = (m, refl, g)
  update-Ready (agg ∷ aggs) all e m h g =
      let (m', p, k) = update_one-Keeps agg e m h.0 in
      let (m'', q, g') =
        update-Ready aggs all e m' (Ready-Keeps aggs m m' k h.1) (Ready-Keeps all m m' k g) in
      (m'', rw (p, update) q, g')

  -- The aggregates of a list of events, computed from them alone.
  unfoldable pub aggregates_of :
      List Aggregation → List Event → Dict AggregateState → Option (Dict AggregateState)
  aggregates_of aggs [] m = some m
  aggregates_of aggs (e ∷ es) m = elim (update lib aggs e m) [
    | none ↦ none
    | some m' ↦ aggregates_of aggs es m'
  ]

  abbrev pub aggregates : Config → List Event → Option (Dict AggregateState)
  aggregates cfg es = aggregates_of cfg.aggregations es (new_aggregates cfg.aggregations [])

  pub aggregates_of-Ready :
      (aggs : List Aggregation) (es : List Event) (m : Dict AggregateState)
      → Ready aggs m
      → (m' : Dict AggregateState) × (aggregates_of aggs es m ≡ some m') × Ready aggs m'
  unfolding aggregates_of
  aggregates_of-Ready aggs [] m h = (m, refl, h)
  aggregates_of-Ready aggs (e ∷ es) m h =
      let (m', p, g) = update-Ready aggs aggs e m h h in
      let (m'', q, g') = aggregates_of-Ready aggs es m' g in (m'', rw (p, aggregates_of) q, g')

  pub aggregates_of-snoc :
      (aggs : List Aggregation) (es : List Event) (e : Event) (m m' : Dict AggregateState)
      → aggregates_of aggs es m ≡ some m'
      → aggregates_of aggs (es ++ e ∷ []) m ≡ update lib aggs e m'
  unfolding aggregates_of
  aggregates_of-snoc aggs [] e m m' h =
      same (update lib aggs e m) ∙ ap (update lib aggs e) (some_inj h)
    where
      same :
          (x : Option (Dict AggregateState))
          → elim x as (λ y. Option (Dict AggregateState)) [ none ↦ none | some n ↦ some n ] ≡ x
      same none = refl
      same (some n) = refl

      some_inj : some m ≡ some m' → m ≡ m'
      some_inj q = cc
  aggregates_of-snoc aggs (d ∷ es) e m m' h = elim (Option-cases (update lib aggs d m)) [
    | inl p ↦ absurd (go (rw (p, aggregates_of) at h))
    | inr (m'', p) ↦
        rw (p, aggregates_of) (aggregates_of-snoc aggs es e m'' m' (rw (p, aggregates_of) at h))
  ]
    where
      go : none ≡ some m' → ⊥
      go h = cc
