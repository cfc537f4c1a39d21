-- ===== src/Worker/Destination.antt =====
-- Where the handler sends an event, told from its headers alone (cmd/transform/main.go).
use ggt.Prelude.{
  true, false, not, ◌&&◌, Option, none, some, [], ◌∷◌, ◌≡◌, refl, Text, codes, arith, if◌then◌else◌,
}
use ggt.Prelude.Dict.{Dict, lookup}
use ggt.Event.{Event}
use ggt.Prelude.Trim.{trim_space}
use ggt.Worker.{PipelineInfo, is_empty, header, wants_dlq, route_target, send_topic}

-- A header that is there and not empty.
abbrev non_empty : Option Text → Option Text
non_empty none = none
non_empty (some []) = none
non_empty (some (c ∷ t)) = some (c ∷ t)

unfoldable pub said : Text → Option (Dict Text) → Option Text
said k none = none
said k (some m) = non_empty (lookup k m)

-- Where an event goes: to the dead letter topic if it says why and there is one, else to the topic
-- that a route chose, else to the output topic.
unfoldable pub routed : PipelineInfo → Event → Text
unfolding said
routed info e = elim (said (codes "_route_target") e.headers) [
  | some t ↦ t
  | none ↦ trim_space info.output_topic
]

unfoldable pub destination : PipelineInfo → Event → Text
unfolding said
destination info e = elim (said (codes "_dlq_reason") e.headers) [
  | none ↦ routed info e
  | some why ↦ if is_empty info.dlq_topic then routed info e else info.dlq_topic
]

text_of : Option Text → Text
text_of none = []
text_of (some t) = t

header-said : (k : Text) (h : Option (Dict Text)) → header k h ≡ text_of (said k h)
unfolding header said text_of
header-said k none = refl
header-said k (some m) = go (lookup k m) refl
  where
    go :
        (o : Option Text)
        → lookup k m ≡ o
        → elim (lookup k m) [ none ↦ [] | some v ↦ v ] ≡ text_of (non_empty (lookup k m))
    go none q = rw q refl
    go (some []) q = rw q refl
    go (some (c ∷ t)) q = rw q refl

said_empty :
    (k : Text) (h : Option (Dict Text))
    → is_empty (text_of (said k h)) ≡ elim (said k h) [ none ↦ true | some _ ↦ false ]
unfolding said text_of
said_empty k none = refl
said_empty k (some m) = go (lookup k m)
  where
    go :
        (o : Option Text)
        → is_empty (text_of (non_empty o)) ≡ elim (non_empty o) [ none ↦ true | some _ ↦ false ]
    go none = refl
    go (some []) = refl
    go (some (c ∷ t)) = refl

routed_lem :
    (info : PipelineInfo) (e : Event) → routed info e ≡ send_topic (trim_space info.output_topic) e
unfolding routed send_topic route_target text_of
routed_lem info e =
    rw (header-said (codes "_route_target") e.headers)
      (rw said_empty (go (said (codes "_route_target") e.headers)))
  where
    go :
        (o : Option Text)
        → elim o [ some t ↦ t | none ↦ trim_space info.output_topic ] ≡ (
            if elim o [ none ↦ true | some _ ↦ false ]
            then trim_space info.output_topic
            else text_of o)
    go none = refl
    go (some t) = refl

-- The handler's test for the dead letter topic, told from the header.
pub wants_dlq-said :
    (info : PipelineInfo) (e : Event)
    → wants_dlq info e ≡ elim (said (codes "_dlq_reason") e.headers) [
      | none ↦ false
      | some why ↦ not (is_empty info.dlq_topic)
    ]
unfolding wants_dlq
wants_dlq-said info e =
    rw (header-said (codes "_dlq_reason") e.headers)
      (rw said_empty (go (said (codes "_dlq_reason") e.headers)))
  where
    go :
        (o : Option Text)
        → (not (elim o [ none ↦ true | some _ ↦ false ]) && not (is_empty info.dlq_topic))
          ≡ elim o [ none ↦ false | some why ↦ not (is_empty info.dlq_topic) ]
    go none = refl
    go (some t) = refl

pub destination_lem :
    (info : PipelineInfo) (e : Event)
    → (if wants_dlq info e then info.dlq_topic else send_topic (trim_space info.output_topic) e)
      ≡ destination info e
unfolding destination wants_dlq
destination_lem info e =
    rw (← (routed_lem info e), header-said (codes "_dlq_reason") e.headers)
      (rw said_empty (go (said (codes "_dlq_reason") e.headers)))
  where
    go :
        (o : Option Text)
        → (if not (elim o [ none ↦ true | some _ ↦ false ]) && not (is_empty info.dlq_topic)
            then info.dlq_topic
            else routed info e)
          ≡ elim o [
            | none ↦ routed info e
            | some why ↦ if is_empty info.dlq_topic then routed info e else info.dlq_topic
          ]
    go none = refl
    go (some t) = ground arith
