-- ===== src/Transforms/Required/Missing.antt =====
-- Where validate.required sends an event (internal/transform/validate/required.go,
-- cmd/transform/main.go).
use ggt.Prelude.{
  true, false, not, none, some, List, [], ◌∷◌, ◌≡◌, ◌≢◌, refl, sym, ◌∙◌, Text, codes, text_eq,
  Option-cases, inl, inr, ◌⊎◌,
}
use ggt.Value.{Value}
use ggt.Event.{Event, get_field}
use ggt.Pipeline.{one, ok}
use ggt.Worker.{PipelineInfo, header, wants_dlq, is_empty}
use ggt.Transforms.{set_header}
use ggt.Transforms.Headers.{header-set_header, header-set_header_ne}
use ggt.Transforms.Required.{Config, missing_fields, missing_message, on_missing, execute}

-- Every field of a list is there.
abbrev pub Present : Event → List Text → Type 0
Present e [] = Unit
Present e (f ∷ fs) = ((v : Value) × (get_field e f ≡ some v)) × Present e fs

missing_fields_found :
    (f : Text) (fs : List Text) (e : Event) (v : Value)
    → get_field e f ≡ some v
    → missing_fields (f ∷ fs) e ≡ missing_fields fs e
unfolding missing_fields
missing_fields_found f fs e v h = rw (h, missing_fields) refl

missing_fields-none :
    (f : Text) (fs : List Text) (e : Event)
    → get_field e f ≡ none
    → missing_fields (f ∷ fs) e ≡ f ∷ missing_fields fs e
unfolding missing_fields
missing_fields-none f fs e h = rw (h, missing_fields) refl

missing-cases :
    (fs : List Text) (e : Event)
    → ((missing_fields fs e ≡ []) × Present e fs)
      ⊎ ((f : Text) × (gs : List Text) × (missing_fields fs e ≡ f ∷ gs) × (Present e fs → ⊥))
missing-cases [] e = inl (unfold missing_fields in refl, tt)
missing-cases (f ∷ fs) e = elim (Option-cases (get_field e f)) [
  | inl h ↦
      inr (f, missing_fields fs e, missing_fields-none f fs e h, λ p. none≢some (sym h ∙ p.0.1))
  | inr (v, h) ↦ elim (missing-cases fs e) [
    | inl (q, p) ↦ inl (missing_fields_found f fs e v h ∙ q, ((v, h), p))
    | inr (g, gs, q, n) ↦ inr (g, gs, missing_fields_found f fs e v h ∙ q, λ p. n p.1)
  ]
]
  where
    none≢some : {v : Value} → none ≡ some v → ⊥
    none≢some q = cc

missing_message_nonempty : (fs : List Text) → is_empty (missing_message fs) ≡ false
unfolding missing_message
missing_message_nonempty fs = refl

marked : List Text → Event → Event
marked fs e =
    set_header (codes "_dlq_transform") (codes "validate.required")
      (set_header (codes "_dlq_reason") (missing_message fs) e)

reason-marked :
    (fs : List Text) (e : Event)
    → header (codes "_dlq_reason") (marked fs e).headers ≡ missing_message fs
unfolding marked text_eq
reason-marked fs e =
    let e1 = set_header (codes "_dlq_reason") (missing_message fs) e in
    header-set_header_ne (codes "_dlq_transform") (codes "_dlq_reason") (codes "validate.required")
      e1 refl
    ∙ header-set_header (codes "_dlq_reason") (missing_message fs) e

wants_dlq-marked :
    (info : PipelineInfo) (fs : List Text) (e : Event)
    → info.dlq_topic ≢ []
    → wants_dlq info (marked fs e) ≡ true
unfolding wants_dlq
wants_dlq-marked info fs e n =
    rw (reason-marked fs e) (rw (missing_message_nonempty fs) (go info.dlq_topic n))
  where
    go : (t : Text) → t ≢ [] → not (is_empty t) ≡ true
    go [] m = absurd (m refl)
    go (c ∷ t) m = refl

on_missing-marked :
    (cfg : Config) (fs : List Text) (e : Event)
    → cfg.on_error ≡ codes "dlq"
    → on_missing cfg fs e ≡ ok (one (marked fs e))
unfolding on_missing marked text_eq
on_missing-marked cfg fs e h = rw (h, on_missing) refl

payload-marked : (fs : List Text) (e : Event) → (marked fs e).payload ≡ e.payload
unfolding marked set_header
payload-marked fs e = refl

on_missing_dlq :
    (cfg : Config) (info : PipelineInfo) (fs : List Text) (e : Event)
    → cfg.on_error ≡ codes "dlq"
    → info.dlq_topic ≢ []
    → (e' : Event) × (on_missing cfg fs e ≡ ok (one e'))
      × (e'.payload ≡ e.payload)
      × (wants_dlq info e' ≡ true)
on_missing_dlq cfg info fs e h n =
    (marked fs e, on_missing-marked cfg fs e h, payload-marked fs e, wants_dlq-marked info fs e n)

execute_nil :
    (cfg : Config) (e : Event) → missing_fields cfg.fields e ≡ [] → execute cfg (one e) ≡ ok (one e)
unfolding execute
execute_nil cfg e h = rw (h, execute) refl

execute_cons :
    (cfg : Config) (e : Event) (f : Text) (fs : List Text)
    → missing_fields cfg.fields e ≡ f ∷ fs
    → execute cfg (one e) ≡ on_missing cfg (f ∷ fs) e
unfolding execute
execute_cons cfg e f fs h = rw (h, execute) refl

-- In the mode `dlq` the transform lets an event with all the required fields through as it is, and
-- marks any other one, its payload untouched, such that the worker's test for the dead letter
-- topic holds of it, if the pipeline has such a topic.
pub execute_dlq :
    (cfg : Config) (info : PipelineInfo) (e : Event)
    → cfg.on_error ≡ codes "dlq"
    → info.dlq_topic ≢ []
    → (Present e cfg.fields × (execute cfg (one e) ≡ ok (one e)))
      ⊎ ((Present e cfg.fields → ⊥)
          × ((e' : Event) × (execute cfg (one e) ≡ ok (one e'))
              × (e'.payload ≡ e.payload)
              × (wants_dlq info e' ≡ true)))
execute_dlq cfg info e m n = elim (missing-cases cfg.fields e) [
  | inl (q, p) ↦ inl (p, execute_nil cfg e q)
  | inr (f, fs, q, p) ↦
      let (e', x, y, z) = on_missing_dlq cfg info (f ∷ fs) e m n in
      inr (p, (e', execute_cons cfg e f fs q ∙ x, y, z))
]
