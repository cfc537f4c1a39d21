-- ===== src/Worker/Start.antt =====
-- `startPipelineWorker` of cmd/transform/main.go: the input topics, and the pipeline of each. What
-- `NewPipeline` makes of a configuration is an argument; an error of it ends the start.
use ggt.Prelude.{Option, none, some, List, [], ◌∷◌, Text}
use ggt.Prelude.Dict.{Dict, lookup, insert}

pub record PipelineConfig : Type 0 where
  pub name : Text
  pub input_topics : List Text

pub data StartError : Type 0 where
  not_built : Text → StartError
  duplicate_topic : Text → StartError

pub data Indexed {ℓ} (P : Type ℓ) : Type ℓ where
  failed : StartError → Indexed P
  indexed : Dict P → Indexed P

module _ {ℓ} {P : Type ℓ} where
  -- the loop over the input topics of one pipeline
  unfoldable pub index_topics : P → List Text → Dict P → Indexed P
  index_topics p [] m = indexed m
  index_topics p (t ∷ ts) m = elim (lookup t m) [
    | some _ ↦ failed (duplicate_topic t)
    | none ↦ index_topics p ts (insert t p m)
  ]

  unfoldable pub index_pipelines :
      (PipelineConfig → Option P) → List PipelineConfig → Dict P → Indexed P
  index_pipelines build [] m = indexed m
  index_pipelines build (c ∷ cs) m = elim (build c) [
    | none ↦ failed (not_built c.name)
    | some p ↦ elim (index_topics p c.input_topics m) [
      | failed e ↦ failed e
      | indexed m' ↦ index_pipelines build cs m'
    ]
  ]
