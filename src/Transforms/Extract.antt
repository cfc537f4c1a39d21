-- ===== src/Transforms/Extract.antt =====
-- internal/transform/field/extract.go: moving a field.
use ggt.Prelude.{
  Bool, true, none, some, List, [], ◌∷◌, ◌++◌, ◌≡◌, ◌≢◌, refl, ◌∙◌, Text, codes, text_eq,
  text_eq_iff, arith, if◌then◌else◌, Bool-cases, inl, inr, ◌⊎◌,
}
use ggt.Value.{Value}
use ggt.Event.{Event, path_keys, get_field, set_field, remove_field}
use ggt.Event.Paths.{diverges}
use ggt.Event.Absent.{get_field-below}
use ggt.Event.Laws.{
  get-set_field_self, get-remove_field_self, get-remove_field_ne, get-set_field_ne,
}
use ggt.Pipeline.{Payload, one, Result, ok, err, failure}
use ggt.Transforms.{Raw, empty_raw, undecodable, decoded, Configured, refused, configured}

pub record Config : Type 0 where
  pub source : Text
  pub target : Text
  pub overwrite : Bool

unfoldable pub configure : Raw Config → Configured Config
configure empty_raw = refused (codes "configuration required: source and target must be specified")
configure (undecodable e) = refused e
configure (decoded cfg) =
    if text_eq cfg.source []
    then refused (codes "source field must be specified")
    else if text_eq cfg.target []
    then refused (codes "target field must be specified")
    else if text_eq cfg.source cfg.target
    then refused (codes "source and target must be different")
    else configured cfg

unfoldable pub move : Config → Value → Event → Event
move cfg v e = remove_field (set_field e cfg.target v) cfg.source

unfoldable pub execute_event : Config → Event → Result
execute_event cfg e = elim (get_field e cfg.source) [
  | none ↦ ok (one e)
  | some v ↦ elim (if cfg.overwrite then none else get_field e cfg.target) [
    | some _ ↦ err (failure (codes "target field already exists and overwrite is not enabled"))
    | none ↦ ok (one (move cfg v e))
  ]
]

unfoldable pub execute : Config → Payload → Result
execute cfg (one e) = execute_event cfg e
execute cfg _ = err (failure (codes "unexpected payload type"))

execute_moves :
    (cfg : Config) (e : Event) (v : Value)
    → get_field e cfg.source ≡ some v
    → (cfg.overwrite ≡ true) ⊎ (get_field e cfg.target ≡ none)
    → execute cfg (one e) ≡ ok (one (move cfg v e))
unfolding execute execute_event move
execute_moves cfg e v s (inl t) = rw (s, execute_event) (rw t refl)
execute_moves cfg e v s (inr t) =
    rw (s, execute_event)
      (rw t (elim (Bool-cases cfg.overwrite) [ inl b ↦ rw b refl | inr b ↦ rw b refl ]))

source_nonempty : (cfg : Config) → configure (decoded cfg) ≡ configured cfg → cfg.source ≢ []
unfolding configure
source_nonempty cfg c h = ground (arith, text_eq_iff cfg.source [])

-- A field that is there moves, if its target is free or may be overwritten and the two paths part:
-- the target holds its value, the source is gone, and every field that parts from both stays.
pub execute_moved :
    (cfg : Config) (e : Event) (v : Value)
    → get_field e cfg.source ≡ some v
    → (cfg.overwrite ≡ true) ⊎ (get_field e cfg.target ≡ none)
    → cfg.target ≢ []
    → diverges (path_keys cfg.source) (path_keys cfg.target) ≡ true
    → (e' : Event) × (execute cfg (one e) ≡ ok (one e'))
      × (get_field e' cfg.target ≡ some v)
      × (get_field e' cfg.source ≡ none)
      × ((other : Text)
          → diverges (path_keys cfg.source) (path_keys other) ≡ true
          → diverges (path_keys cfg.target) (path_keys other) ≡ true
          → get_field e' other ≡ get_field e other)
unfolding move
execute_moved cfg e v s free n d =
    let e1 = set_field e cfg.target v in
    (
      move cfg v e,
      execute_moves cfg e v s free,
      get-remove_field_ne e1 cfg.source cfg.target d ∙ get-set_field_self e cfg.target v n,
      get-remove_field_self e1 cfg.source,
      λ other p q.
          get-remove_field_ne e1 cfg.source other p ∙ get-set_field_ne e cfg.target other v q,
    )

-- If the target lies below the source, which `Configure` allows, the value is lost: the transform
-- succeeds, and afterwards neither path holds anything.
pub execute_below_lost :
    (cfg : Config) (e : Event) (v : Value) (j : Text) (js : List Text)
    → configure (decoded cfg) ≡ configured cfg
    → get_field e cfg.source ≡ some v
    → (cfg.overwrite ≡ true) ⊎ (get_field e cfg.target ≡ none)
    → path_keys cfg.target ≡ path_keys cfg.source ++ j ∷ js
    → (e' : Event) × (execute cfg (one e) ≡ ok (one e'))
      × (get_field e' cfg.source ≡ none)
      × (get_field e' cfg.target ≡ none)
unfolding move
execute_below_lost cfg e v j js c s free below =
    let gone = get-remove_field_self (set_field e cfg.target v) cfg.source in
    (
      move cfg v e,
      execute_moves cfg e v s free,
      gone,
      get_field-below (move cfg v e) cfg.source cfg.target j js (source_nonempty cfg c) below gone,
    )
