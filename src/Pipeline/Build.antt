-- ===== src/Pipeline/Build.antt =====
-- `NewPipeline` of internal/transform/pipeline.go: the transforms of a pipeline, made by the
-- registry. Encoding a configuration as JSON is an argument.
use ggt.Prelude.{
  true, false, Option, none, some, List, [], ◌∷◌, ◌≡◌, refl, sym, ◌∙◌, arith, Text, text_eq,
  if◌then◌else◌, Option-cases, Bool-cases, inl, inr, ◌⊎◌,
}
use ggt.Value.{Object}
use ggt.Pipeline.{Transform}
use ggt.Pipeline.Registry.{CreateError, Created, made, refused, Registry, create}

pub record Descriptor : Type 0 where
  pub type_name : Text
  pub config : Object

pub data BuildError : Type 0 where
  id_empty : BuildError
  no_descriptors : BuildError
  config_not_encoded : BuildError
  not_created : CreateError → BuildError

pub data Built : Type 0 where
  build_failed : BuildError → Built
  built : List Transform → Built

module _ (marshal : Object → Option Text) (reg : Registry) where
  unfoldable pub build_one : Descriptor → Created ⊎ BuildError
  build_one d = elim (marshal d.config) [
    | none ↦ inr config_not_encoded
    | some cfg ↦ inl (create d.type_name cfg reg)
  ]

  unfoldable pub build_all : List Descriptor → Built
  build_all [] = built []
  build_all (d ∷ ds) =
      let rest = build_all ds in
      elim (build_one d) [
        | inr e ↦ build_failed e
        | inl (refused e) ↦ build_failed (not_created e)
        | inl (made t) ↦ elim rest [ build_failed e ↦ build_failed e | built ts ↦ built (t ∷ ts) ]
      ]

  unfoldable pub new_pipeline : Text → List Descriptor → Built
  new_pipeline id [] = if text_eq id [] then build_failed id_empty else build_failed no_descriptors
  new_pipeline id (d ∷ ds) = if text_eq id [] then build_failed id_empty else build_all (d ∷ ds)

  -- Each transform is what the registry makes of the descriptor at its place.
  abbrev pub MadeBy : List Descriptor → List Transform → Type 0
  MadeBy [] [] = Unit
  MadeBy (d ∷ ds) (t ∷ ts) =
      ((cfg : Text) × (marshal d.config ≡ some cfg) × (create d.type_name cfg reg ≡ made t))
      × MadeBy ds ts
  MadeBy _ _ = ⊥

  build_failed≢built : {e : BuildError} {ts : List Transform} → build_failed e ≡ built ts → ⊥
  build_failed≢built h = cc

  built_inj : {ts us : List Transform} → built ts ≡ built us → ts ≡ us
  built_inj h = cc

  build_all_failed :
      (d : Descriptor) (ds : List Descriptor) (e : BuildError)
      → build_one d ≡ inr e
      → build_all (d ∷ ds) ≡ build_failed e
  unfolding build_all
  build_all_failed d ds e h = rw (h, build_all) refl

  build_all_refused :
      (d : Descriptor) (ds : List Descriptor) (e : CreateError)
      → build_one d ≡ inl (refused e)
      → build_all (d ∷ ds) ≡ build_failed (not_created e)
  unfolding build_all
  build_all_refused d ds e h = rw (h, build_all) refl

  build_all_rest :
      (d : Descriptor) (ds : List Descriptor) (t : Transform) (e : BuildError)
      → build_one d ≡ inl (made t)
      → build_all ds ≡ build_failed e
      → build_all (d ∷ ds) ≡ build_failed e
  unfolding build_all
  build_all_rest d ds t e h r = rw (h, build_all) (rw (r, build_all) refl)

  build_all_cons :
      (d : Descriptor) (ds : List Descriptor) (t : Transform) (ts : List Transform)
      → build_one d ≡ inl (made t)
      → build_all ds ≡ built ts
      → build_all (d ∷ ds) ≡ built (t ∷ ts)
  unfolding build_all
  build_all_cons d ds t ts h r = rw (h, build_all) (rw (r, build_all) refl)

  build_one-none : (d : Descriptor) → marshal d.config ≡ none → build_one d ≡ inr config_not_encoded
  unfolding build_one
  build_one-none d q = rw (q, build_one) refl

  build_one-some :
      (d : Descriptor) (cfg : Text)
      → marshal d.config ≡ some cfg
      → build_one d ≡ inl (create d.type_name cfg reg)
  unfolding build_one
  build_one-some d cfg q = rw (q, build_one) refl

  build_one-made :
      (d : Descriptor) (t : Transform)
      → build_one d ≡ inl (made t)
      → (cfg : Text) × (marshal d.config ≡ some cfg) × (create d.type_name cfg reg ≡ made t)
  build_one-made d t h = elim (Option-cases (marshal d.config)) [
    | inl q ↦ absurd (inr≢inl (sym (build_one-none d q) ∙ h))
    | inr (cfg, q) ↦ (cfg, q, inl_inj (sym (build_one-some d cfg q) ∙ h))
  ]
    where
      inr≢inl : {e : BuildError} {c : Created} → inr e ≡ inl c → ⊥
      inr≢inl p = cc

      inl_inj : {c c' : Created} → ◌≡◌ {A = Created ⊎ BuildError} (inl c) (inl c') → c ≡ c'
      inl_inj p = cc

  build_all-MadeBy :
      (ds : List Descriptor) (ts : List Transform) → build_all ds ≡ built ts → MadeBy ds ts
  build_all-MadeBy [] ts h =
      let same : [] ≡ ts = built_inj (unfold build_all in h) in rw (← same) tt
  build_all-MadeBy (d ∷ ds) ts h =
      step (λ us q. build_all-MadeBy ds us q) (build_one d) refl (build_all ds) refl
    where
      step :
          ((us : List Transform) → build_all ds ≡ built us → MadeBy ds us)
          → (x : Created ⊎ BuildError) → build_one d ≡ x
          → (b : Built) → build_all ds ≡ b
          → MadeBy (d ∷ ds) ts
      step rec (inr e) p b q = absurd (build_failed≢built (sym (build_all_failed d ds e p) ∙ h))
      step rec (inl (refused e)) p b q =
          absurd (build_failed≢built (sym (build_all_refused d ds e p) ∙ h))
      step rec (inl (made t)) p (build_failed e) q =
          absurd (build_failed≢built (sym (build_all_rest d ds t e p q) ∙ h))
      step rec (inl (made t)) p (built us) q =
          let same : t ∷ us ≡ ts = built_inj (sym (build_all_cons d ds t us p q) ∙ h) in
          rw (← same) (build_one-made d t p, rec us q)

  new_pipeline_none : (id : Text) (ts : List Transform) → new_pipeline id [] ≡ built ts → ⊥
  unfolding new_pipeline
  new_pipeline_none id ts h = ground arith

  new_pipeline_unnamed :
      (id : Text) (d : Descriptor) (ds : List Descriptor)
      → text_eq id [] ≡ true
      → new_pipeline id (d ∷ ds) ≡ build_failed id_empty
  unfolding new_pipeline
  new_pipeline_unnamed id d ds t = rw t refl

  new_pipeline_named :
      (id : Text) (d : Descriptor) (ds : List Descriptor)
      → text_eq id [] ≡ false
      → new_pipeline id (d ∷ ds) ≡ build_all (d ∷ ds)
  unfolding new_pipeline
  new_pipeline_named id d ds t = rw t refl

  -- A pipeline that is made has a name, and one transform for each descriptor, in order: what the
  -- registry makes of its type and its encoded configuration.
  pub new_pipeline-MadeBy :
      (id : Text) (ds : List Descriptor) (ts : List Transform)
      → new_pipeline id ds ≡ built ts
      → (text_eq id [] ≡ false) × MadeBy ds ts
  new_pipeline-MadeBy id [] ts h = absurd (new_pipeline_none id ts h)
  new_pipeline-MadeBy id (d ∷ ds) ts h = elim (Bool-cases (text_eq id [])) [
    | inl t ↦ absurd (build_failed≢built (sym (new_pipeline_unnamed id d ds t) ∙ h))
    | inr t ↦ (t, build_all-MadeBy (d ∷ ds) ts (sym (new_pipeline_named id d ds t) ∙ h))
  ]
