-- ===== src/Worker/Many.antt =====
-- What the handler promises for a record that gives several events (cmd/transform/main.go).
use ggt.Prelude.{
  ℕ, zero, suc, codes, Bool, true, false, Option, none, some, List, [], ◌∷◌, ◌++◌, ◌+◌, ◌≡◌, refl,
  sym, ap, ◌∙◌, Option-cases, inl, inr, Text, arith, if◌then◌else◌, length, ltb,
}
use mathlib.Core.List.{append_assoc, append-nil}
use ggt.Prelude.Dict.{lookup}
use ggt.Value.{Object}
use ggt.Event.{Event}
use ggt.Pipeline.{one, many, ok}
use ggt.Prelude.Trim.{trim_space}
use ggt.Worker.{
  Record, PipelineInfo, Message, Env, World, send, count_routed, deliver_nth, event_key,
  append_index_to_key, decimal, deliver_from, deliver_many, deliver, record_event, handle,
}
use ggt.Worker.Destination.{destination, destination_lem}
use ggt.Worker.Single.{handle_ok}

-- The key of the event at index `i` of `count`: that of the record if the event is alone, else the
-- key of the record, "multi" where it has none, with a dash and the index.
abbrev pub key_of : Record → ℕ → ℕ → Option (List ℕ)
key_of r zero i = r.key
key_of r (suc zero) i = r.key
key_of r (suc (suc n)) i =
    some (elim r.key [ none ↦ codes "multi" | some key ↦ key ] ++ b'-' ∷ decimal i)

event_key-of : (r : Record) (count i : ℕ) → event_key r count i ≡ key_of r count i
unfolding event_key append_index_to_key
event_key-of r zero i = refl
event_key-of r (suc zero) i = refl
event_key-of r (suc (suc n)) i =
    let several : ltb 1 (suc (suc n)) ≡ true = ground arith in
    elim (Option-cases r.key) [ inl p ↦ rw (several, p) refl | inr (key, p) ↦ rw (several, p) refl ]

-- The messages of the events from index `i` on, of `count` events; `none` if a payload cannot be
-- encoded.
unfoldable pub messages : Env → PipelineInfo → Record → ℕ → ℕ → List Event → Option (List Message)
messages env info r count i [] = some []
messages env info r count i (e ∷ es) = elim (env.marshal e.payload) [
  | none ↦ none
  | some content ↦ elim (messages env info r count (i + 1) es) [
    | none ↦ none
    | some ms ↦
        some (record { topic = destination info e; key = key_of r count i; content = content } ∷ ms)
  ]
]

deliver_nth_sent :
    (env : Env) (info : PipelineInfo) (key : Option (List ℕ)) (e : Event) (w : World)
    → (deliver_nth env info (trim_space info.output_topic) key e w).0 ≡ true
    → (content : List ℕ) × (env.marshal e.payload ≡ some content)
      × ((deliver_nth env info (trim_space info.output_topic) key e w).1.sent
          ≡ w.sent ++ record { topic = destination info e; key = key; content = content } ∷ [])
unfolding deliver_nth send count_routed
deliver_nth_sent env info key e w h = elim (Option-cases (env.marshal e.payload)) [
  | inl bad ↦ absurd (ground arith)
  | inr (content, good) ↦ (content, good, rw (← (destination_lem info e)) (ground arith))
]

messages_cons :
    (env : Env) (info : PipelineInfo) (r : Record) (count i : ℕ) (e : Event) (es : List Event)
    (content : List ℕ) (ms : List Message)
    → env.marshal e.payload ≡ some content
    → messages env info r count (i + 1) es ≡ some ms
    → messages env info r count i (e ∷ es)
      ≡ some (record { topic = destination info e; key = key_of r count i; content = content } ∷ ms)
unfolding messages
messages_cons env info r count i e es content ms m k = rw (m, messages) (rw (k, messages) refl)

deliver_from_nil :
    (env : Env) (info : PipelineInfo) (output : Text) (r : Record) (count i : ℕ) (e : Event)
    (es : List Event) (w : World)
    → (deliver_from env info output r count i (e ∷ es) w).0 ≡ []
    → let d = deliver_nth env info output (event_key r count i) e w in
      (d.0 ≡ true) × ((deliver_from env info output r count (i + 1) es d.1).0 ≡ [])
unfolding deliver_from
deliver_from_nil env info output r count i e es w h =
    both (deliver_nth env info output (event_key r count i) e w).0 i _ h
  where
    both : (b : Bool) (j : ℕ) (l : List ℕ) → (if b then l else j ∷ l) ≡ [] → (b ≡ true) × (l ≡ [])
    both true j l q = (refl, q)
    both false j l q = cc

deliver_from_world :
    (env : Env) (info : PipelineInfo) (output : Text) (r : Record) (count i : ℕ) (e : Event)
    (es : List Event) (w : World)
    → (deliver_from env info output r count i (e ∷ es) w).1.sent
      ≡ (deliver_from env info output r count
          (i + 1)
          es
          (deliver_nth env info output (event_key r count i) e w).1).1.sent
unfolding deliver_from
deliver_from_world env info output r count i e es w = refl

deliver_from_sent :
    (env : Env) (info : PipelineInfo) (r : Record) (count i : ℕ) (es : List Event) (w : World)
    → (deliver_from env info (trim_space info.output_topic) r count i es w).0 ≡ []
    → (ms : List Message) × (messages env info r count i es ≡ some ms)
      × ((deliver_from env info (trim_space info.output_topic) r count i es w).1.sent
          ≡ w.sent ++ ms)
deliver_from_sent env info r count i [] w h =
    ([], unfold messages in refl, unfold deliver_from in sym (append-nil w.sent))
deliver_from_sent env info r count i (e ∷ es) w h =
    let key = event_key r count i in
    let w' = (deliver_nth env info (trim_space info.output_topic) key e w).1 in
    let (sent, rest) =
      deliver_from_nil env info (trim_space info.output_topic) r count i e es w h in
    let (content, m, s) = deliver_nth_sent env info key e w sent in
    let (ms, k, t) = deliver_from_sent env info r count (i + 1) es w' rest in
    let msg : Message = record {
      topic = destination info e;
      key = key_of r count i;
      content = content;
    } in
    (
      msg ∷ ms,
      messages_cons env info r count i e es content ms m k,
      deliver_from_world env info (trim_space info.output_topic) r count i e es w
          ∙ t
          ∙ ap (λ x. x ++ ms) s
          ∙ ap
              (λ k.
                (w.sent ++ record { topic = destination info e; key = k; content = content } ∷ [])
                ++ ms)
              (event_key-of r count i)
          ∙ append_assoc w.sent (msg ∷ []) ms,
    )

deliver_all :
    (env : Env) (info : PipelineInfo) (r : Record) (es : List Event) (w : World)
    → (deliver env info r (many es) w).0 ≡ none
    → let d = deliver_from env info (trim_space info.output_topic) r (length es) 0 es w in
      (d.0 ≡ []) × ((deliver env info r (many es) w).1.sent ≡ d.1.sent)
unfolding deliver deliver_many
deliver_all env info r es w h = ground arith

-- If the pipeline gives several events and the handler succeeds, every event was sent, in order:
-- its encoded payload, to the event's destination, and under the record's key alone if there is one
-- event, else under that key, or "multi", with a dash and the event's index from 0, in decimal.
pub handle_many_sent :
    (env : Env) (r : Record) (info : PipelineInfo) (w : World) (m : Object) (es : List Event)
    → lookup r.topic env.pipelines ≡ some info
    → env.unmarshal r.value_bytes ≡ some m
    → info.execute (one (record_event r m)) ≡ ok (many es)
    → (handle env r w).0 ≡ none
    → (ms : List Message) × (messages env info r (length es) 0 es ≡ some ms)
      × ((handle env r w).1.sent ≡ w.sent ++ ms)
handle_many_sent env r info w m es k u x h =
    let same = handle_ok env r info w m (many es) k u x in
    let done : (deliver env info r (many es) w).0 ≡ none = rw same at h in
    let (a, b) = deliver_all env info r es w done in
    let (ms, p, q) = deliver_from_sent env info r (length es) 0 es w a in (ms, p, rw same (b ∙ q))
