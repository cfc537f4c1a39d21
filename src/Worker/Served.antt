-- ===== src/Worker/Served.antt =====
-- Which pipeline serves a topic once the worker has started (cmd/transform/main.go).
use ggt.Prelude.{
  Option, none, some, List, [], ◌∷◌, ◌≡◌, refl, sym, ap, ◌∙◌, Text, text_eq_iff, arith,
  Option-cases, inl, inr, ◌⊎◌,
}
use ggt.Prelude.Dict.{Dict, lookup, insert, lookup-insert}
use ggt.Worker.Start.{
  PipelineConfig, StartError, duplicate_topic, not_built, Indexed, failed, indexed, index_topics,
  index_pipelines,
}

module _ {ℓ} {P : Type ℓ} where
  -- What a map holds, the other one holds too.
  abbrev pub Extends : Dict P → Dict P → Type ℓ
  Extends m m' = (t : Text) (v : P) → lookup t m ≡ some v → lookup t m' ≡ some v

  abbrev pub Serves : Dict P → P → List Text → Type ℓ
  Serves m p [] = Unit
  Serves m p (t ∷ ts) = (lookup t m ≡ some p) × Serves m p ts

  -- Every pipeline is built, and serves each of its input topics.
  abbrev pub Served : (PipelineConfig → Option P) → Dict P → List PipelineConfig → Type ℓ
  Served build m [] = Unit
  Served build m (c ∷ cs) =
      ((p : P) × (build c ≡ some p) × Serves m p c.input_topics) × Served build m cs

  failed≢indexed : {e : StartError} {m : Dict P} → failed e ≡ indexed m → ⊥
  failed≢indexed h = cc

  indexed_inj : {m m' : Dict P} → indexed m ≡ indexed m' → m ≡ m'
  indexed_inj h = cc

  index_topics_taken :
      (p v : P) (t : Text) (ts : List Text) (m : Dict P)
      → lookup t m ≡ some v
      → index_topics p (t ∷ ts) m ≡ failed (duplicate_topic t)
  unfolding index_topics
  index_topics_taken p v t ts m h = rw (h, index_topics) refl

  index_topics_free :
      (p : P) (t : Text) (ts : List Text) (m : Dict P)
      → lookup t m ≡ none
      → index_topics p (t ∷ ts) m ≡ index_topics p ts (insert t p m)
  unfolding index_topics
  index_topics_free p t ts m h = rw (h, index_topics) refl

  insert-Extends : (p : P) (t : Text) (m : Dict P) → lookup t m ≡ none → Extends m (insert t p m)
  insert-Extends p t m h s v q = rw lookup-insert (ground (arith, text_eq_iff t s))

  lookup_inserted : (p : P) (t : Text) (m : Dict P) → lookup t (insert t p m) ≡ some p
  lookup_inserted p t m = rw lookup-insert (ground (arith, text_eq_iff t t))

  index_topics-Serves :
      (p : P) (ts : List Text) (m m' : Dict P)
      → index_topics p ts m ≡ indexed m'
      → Extends m m' × Serves m' p ts
  index_topics-Serves p [] m m' h =
      let same : m ≡ m' = unfold index_topics in indexed_inj h in
      (λ t v q. ap (lookup t) (sym same) ∙ q, tt)
  index_topics-Serves p (t ∷ ts) m m' h = elim (Option-cases (lookup t m)) [
    | inr (v, q) ↦ absurd (failed≢indexed (sym (index_topics_taken p v t ts m q) ∙ h))
    | inl q ↦
        let (more, rest) =
          index_topics-Serves p ts (insert t p m) m' (sym (index_topics_free p t ts m q) ∙ h) in
        (λ s v k. more s v (insert-Extends p t m q s v k), (more t p (lookup_inserted p t m), rest))
  ]

  Serves-Extends :
      (m m' : Dict P) (p : P) (ts : List Text) → Extends m m' → Serves m p ts → Serves m' p ts
  Serves-Extends m m' p [] x s = tt
  Serves-Extends m m' p (t ∷ ts) x s = (x t p s.0, Serves-Extends m m' p ts x s.1)

  Indexed-cases :
      (x : Indexed P) → ((e : StartError) × (x ≡ failed e)) ⊎ ((m : Dict P) × (x ≡ indexed m))
  Indexed-cases (failed e) = inl (e, refl)
  Indexed-cases (indexed m) = inr (m, refl)

  index_pipelines_unbuilt :
      (build : PipelineConfig → Option P) (c : PipelineConfig) (cs : List PipelineConfig)
      (m : Dict P)
      → build c ≡ none
      → index_pipelines build (c ∷ cs) m ≡ failed (not_built c.name)
  unfolding index_pipelines
  index_pipelines_unbuilt build c cs m h = rw (h, index_pipelines) refl

  index_pipelines-failed :
      (build : PipelineConfig → Option P) (c : PipelineConfig) (cs : List PipelineConfig)
      (m : Dict P) (p : P) (e : StartError)
      → build c ≡ some p
      → index_topics p c.input_topics m ≡ failed e
      → index_pipelines build (c ∷ cs) m ≡ failed e
  unfolding index_pipelines
  index_pipelines-failed build c cs m p e h k =
      rw (h, index_pipelines) (rw (k, index_pipelines) refl)

  index_pipelines_next :
      (build : PipelineConfig → Option P) (c : PipelineConfig) (cs : List PipelineConfig)
      (m n : Dict P) (p : P)
      → build c ≡ some p
      → index_topics p c.input_topics m ≡ indexed n
      → index_pipelines build (c ∷ cs) m ≡ index_pipelines build cs n
  unfolding index_pipelines
  index_pipelines_next build c cs m n p h k = rw (h, index_pipelines) (rw (k, index_pipelines) refl)

  index_pipelines-Extends :
      (build : PipelineConfig → Option P) (cs : List PipelineConfig) (m m' : Dict P)
      → index_pipelines build cs m ≡ indexed m'
      → Extends m m' × Served build m' cs
  index_pipelines-Extends build [] m m' h =
      let same : m ≡ m' = unfold index_pipelines in indexed_inj h in
      (λ t v q. ap (lookup t) (sym same) ∙ q, tt)
  index_pipelines-Extends build (c ∷ cs) m m' h = elim (Option-cases (build c)) [
    | inl q ↦ absurd (failed≢indexed (sym (index_pipelines_unbuilt build c cs m q) ∙ h))
    | inr (p, q) ↦ elim (Indexed-cases (index_topics p c.input_topics m)) [
      | inl (e, k) ↦ absurd (failed≢indexed (sym (index_pipelines-failed build c cs m p e q k) ∙ h))
      | inr (n, k) ↦
          let (x, s) = index_topics-Serves p c.input_topics m n k in
          let (y, r) =
            index_pipelines-Extends build cs n m'
              (sym (index_pipelines_next build c cs m n p q k) ∙ h) in
          (λ t v g. y t v (x t v g), ((p, q, Serves-Extends n m' p c.input_topics y s), r))
    ]
  ]

  -- If the worker starts, every configured pipeline was built, and every one of its input topics
  -- is served by it.
  pub index_pipelines-Served :
      (build : PipelineConfig → Option P) (cs : List PipelineConfig) (m : Dict P)
      → index_pipelines build cs [] ≡ indexed m
      → Served build m cs
  index_pipelines-Served build cs m h = (index_pipelines-Extends build cs [] m h).1
