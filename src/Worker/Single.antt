-- ===== src/Worker/Single.antt =====
-- What the handler promises for a record that gives one event or none (cmd/transform/main.go).
use ggt.Prelude.{
  ℕ, false, not, Option, none, some, List, [], ◌∷◌, ◌++◌, ◌+◌, ◌≡◌, ◌≢◌, refl, sym, ap, ◌∙◌,
  Option-cases, Bool-cases, inl, inr, Text, codes, arith, if◌then◌else◌,
}
use ggt.Prelude.Dict.{lookup}
use ggt.Value.{Object}
use ggt.Event.{Event}
use ggt.Pipeline.{
  Payload, one, many, nothing, value, ok, err, Result, drop, failure, context_done, failed_in,
}
use ggt.Worker.Destination.{said, destination, destination_lem, wants_dlq-said}
use ggt.Prelude.Trim.{trim_space}
use ggt.Worker.{
  Record, PipelineInfo, Env, World, HandlerError, marshal_failed, send, reject, count_routed,
  wants_dlq, deliver_one, deliver, record_event, process, handle, is_empty,
}

-- What the counters say of a record.
pub data Fate : Type 0 where
  is_processed : Fate
  is_dropped : Fate
  is_dead : Fate

-- A record that cannot be processed: dead if there is a dead letter topic.
unfoldable pub rejected : PipelineInfo → Fate
rejected info = if is_empty (trim_space info.dlq_topic) then is_dropped else is_dead

-- An event: dead if it says why, and there is a dead letter topic.
unfoldable pub event_fate : PipelineInfo → Event → Fate
event_fate info e = elim (said (codes "_dlq_reason") e.headers) [
  | none ↦ is_processed
  | some why ↦ if is_empty info.dlq_topic then is_processed else is_dead
]

unfoldable pub result_fate : PipelineInfo → Result → Fate
result_fate info (err drop) = is_dropped
result_fate info (err _) = rejected info
result_fate info (ok (one e)) = event_fate info e
result_fate info (ok _) = is_processed

-- What becomes of a record if nothing fails: by its payload, and by what the pipeline makes of it.
unfoldable pub fate : Env → PipelineInfo → Record → Fate
fate env info r = elim (env.unmarshal r.value_bytes) [
  | none ↦ rejected info
  | some m ↦ result_fate info (info.execute (one (record_event r m)))
]

abbrev pub Counted : Fate → World → World → Type 0
Counted is_processed w w' =
    (w'.processed ≡ w.processed + 1) × (w'.dropped ≡ w.dropped) × (w'.sent_to_dlq ≡ w.sent_to_dlq)
Counted is_dropped w w' =
    (w'.processed ≡ w.processed) × (w'.dropped ≡ w.dropped + 1) × (w'.sent_to_dlq ≡ w.sent_to_dlq)
Counted is_dead w w' =
    (w'.processed ≡ w.processed) × (w'.dropped ≡ w.dropped) × (w'.sent_to_dlq ≡ w.sent_to_dlq + 1)

-- A success counts the record under its fate alone, an error under none.
abbrev pub Counts : Fate → World → Option HandlerError × World → Type 0
Counts f w (none, w') = Counted f w w'
Counts f w (some e, w') =
    (w'.processed ≡ w.processed) × (w'.dropped ≡ w.dropped) × (w'.sent_to_dlq ≡ w.sent_to_dlq)

reject-Counts :
    (env : Env) (info : PipelineInfo) (r : Record) (w : World)
    → Counts (rejected info) w (reject env info r w)
unfolding reject rejected send
reject-Counts env info r w = ground arith

event_fate_lem :
    (info : PipelineInfo) (e : Event)
    → event_fate info e ≡ (if wants_dlq info e then is_dead else is_processed)
unfolding event_fate
event_fate_lem info e = rw (wants_dlq-said info e) (go (said (codes "_dlq_reason") e.headers))
  where
    go :
        (o : Option Text)
        → elim o [
          | none ↦ is_processed
          | some why ↦ (if is_empty info.dlq_topic then is_processed else is_dead)
        ]
          ≡ (if elim o [ none ↦ false | some why ↦ not (is_empty info.dlq_topic) ]
              then is_dead
              else is_processed)
    go none = refl
    go (some why) = ground arith

deliver_one-Counts :
    (env : Env) (info : PipelineInfo) (output : Text) (r : Record) (e : Event) (w : World)
    → Counts (event_fate info e) w (deliver_one env info output r e w)
unfolding deliver_one send count_routed
deliver_one-Counts env info output r e w = rw (event_fate_lem info e) (ground arith)

deliver-Counts :
    (env : Env) (info : PipelineInfo) (r : Record) (p : Payload) (w : World)
    → ((es : List Event) → p ≢ many es)
    → Counts (result_fate info (ok p)) w (deliver env info r p w)
unfolding deliver result_fate
deliver-Counts env info r (one e) w h =
    elim (Bool-cases (is_empty (trim_space info.output_topic))) [
      | inl t ↦ rw t (refl, refl, refl)
      | inr t ↦ rw t (deliver_one-Counts env info (trim_space info.output_topic) r e w)
    ]
deliver-Counts env info r (many es) w h = absurd (h es refl)
deliver-Counts env info r nothing w h =
    elim (Bool-cases (is_empty (trim_space info.output_topic))) [
      | inl t ↦ rw t (refl, refl, refl)
      | inr t ↦ rw t (refl, refl, refl)
    ]
deliver-Counts env info r (value v) w h =
    elim (Bool-cases (is_empty (trim_space info.output_topic))) [
      | inl t ↦ rw t (refl, refl, refl)
      | inr t ↦ rw t (refl, refl, refl)
    ]

handle_known :
    (env : Env) (r : Record) (info : PipelineInfo) (w : World)
    → lookup r.topic env.pipelines ≡ some info
    → handle env r w ≡ elim (env.unmarshal r.value_bytes) [
      | none ↦ reject env info r w
      | some payload ↦ process env info r payload w
    ]
unfolding handle
handle_known env r info w k = rw (k, handle) refl

process-Counts :
    (env : Env) (info : PipelineInfo) (r : Record) (m : Object) (w : World)
    → ((es : List Event) → info.execute (one (record_event r m)) ≢ ok (many es))
    → Counts (result_fate info (info.execute (one (record_event r m)))) w (process env info r m w)
process-Counts env info r m w h = go (info.execute (one (record_event r m))) refl
  where
    go :
        (x : Result)
        → info.execute (one (record_event r m)) ≡ x
        → Counts
            (result_fate info (info.execute (one (record_event r m))))
            w
            (process env info r m w)
    go (err drop) q = unfold process result_fate in rw (q, process) (refl, refl, refl)
    go (err (failure e)) q =
        unfold process result_fate in rw (q, process) (reject-Counts env info r w)
    go (err (context_done e)) q =
        unfold process result_fate in rw (q, process) (reject-Counts env info r w)
    go (err (failed_in i e)) q =
        unfold process result_fate in rw (q, process) (reject-Counts env info r w)
    go (ok p) q =
        unfold process in
        rw (q, process) (deliver-Counts env info r p w (λ es s. h es (q ∙ ap ok s)))

-- A record of a known topic whose pipeline does not give several events is counted by its fate. If
-- the handler succeeds: a record that cannot be decoded or whose pipeline fails counts as dead if
-- there is a dead letter topic and as dropped if not; one that the pipeline drops as dropped; one
-- event as dead if it has a `_dlq_reason` and there is a dead letter topic, else as processed. That
-- counter grows by one and the other two stay. If the handler returns an error all three stay.
pub handle-Counts :
    (env : Env) (r : Record) (info : PipelineInfo) (w : World)
    → lookup r.topic env.pipelines ≡ some info
    → ((m : Object) (es : List Event) → info.execute (one (record_event r m)) ≢ ok (many es))
    → Counts (fate env info r) w (handle env r w)
unfolding fate
handle-Counts env r info w k h = elim (Option-cases (env.unmarshal r.value_bytes)) [
  | inl bad ↦ rw (handle_known env r info w k) (rw (bad, fate) (reject-Counts env info r w))
  | inr (m, good) ↦
      rw (handle_known env r info w k) (rw (good, fate) (process-Counts env info r m w (h m)))
]

deliver_one_sent :
    (env : Env) (info : PipelineInfo) (r : Record) (e : Event) (w : World) (content : List ℕ)
    → env.marshal e.payload ≡ some content
    → (deliver_one env info (trim_space info.output_topic) r e w).0 ≡ none
    → (deliver_one env info (trim_space info.output_topic) r e w).1.sent
      ≡ w.sent ++ record { topic = destination info e; key = r.key; content = content } ∷ []
unfolding deliver_one send count_routed
deliver_one_sent env info r e w content m ok_ = rw (← (destination_lem info e)) (ground arith)

deliver_one_marshal :
    (env : Env) (info : PipelineInfo) (output : Text) (r : Record) (e : Event) (w : World)
    → env.marshal e.payload ≡ none
    → (deliver_one env info output r e w).0 ≡ some marshal_failed
unfolding deliver_one
deliver_one_marshal env info output r e w m = ground arith

pub handle_ok :
    (env : Env) (r : Record) (info : PipelineInfo) (w : World) (m : Object) (p : Payload)
    → lookup r.topic env.pipelines ≡ some info
    → env.unmarshal r.value_bytes ≡ some m
    → info.execute (one (record_event r m)) ≡ ok p
    → handle env r w ≡ deliver env info r p w
handle_ok env r info w m p k u x =
    handle_known env r info w k ∙ rw u (unfold process in rw (x, process) refl)

deliver_output :
    (env : Env) (info : PipelineInfo) (r : Record) (e : Event) (w : World)
    → (deliver env info r (one e) w).0 ≡ none
    → deliver env info r (one e) w ≡ deliver_one env info (trim_space info.output_topic) r e w
unfolding deliver
deliver_output env info r e w h = elim (Bool-cases (is_empty (trim_space info.output_topic))) [
  | inl t ↦ absurd (some≢none (rw t at h))
  | inr t ↦ rw t refl
]
  where
    some≢none : {x : HandlerError} → some x ≡ none → ⊥
    some≢none q = cc

-- If the pipeline gives one event and the handler succeeds, exactly one message was sent: the
-- encoded payload, under the key of the record, to the event's destination.
pub handle_one_sent :
    (env : Env) (r : Record) (info : PipelineInfo) (w : World) (m : Object) (e : Event)
    → lookup r.topic env.pipelines ≡ some info
    → env.unmarshal r.value_bytes ≡ some m
    → info.execute (one (record_event r m)) ≡ ok (one e)
    → (handle env r w).0 ≡ none
    → (content : List ℕ) × (env.marshal e.payload ≡ some content)
      × ((handle env r w).1.sent
          ≡ w.sent ++ record { topic = destination info e; key = r.key; content = content } ∷ [])
handle_one_sent env r info w m e k u x h =
    let all = handle_ok env r info w m (one e) k u x in
    let same = all ∙ deliver_output env info r e w (rw all at h) in
    let done : (deliver_one env info (trim_space info.output_topic) r e w).0 ≡ none =
      rw same at h in
    elim (Option-cases (env.marshal e.payload)) [
      | inl bad ↦ absurd (none≢some (sym done ∙ deliver_one_marshal env info _ r e w bad))
      | inr (content, good) ↦
          (content, good, rw same (deliver_one_sent env info r e w content good done))
    ]
  where
    none≢some : {y : HandlerError} → none ≡ some y → ⊥
    none≢some q = cc
