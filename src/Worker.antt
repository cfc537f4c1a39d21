-- ===== src/Worker.antt =====
-- cmd/transform/main.go: the handler that the worker runs on each record. Decoding and encoding
-- JSON, and the outcome of the n-th send (internal/producer/kafka.go), are arguments; the world
-- holds what was sent and the counters of internal/metrics.
pub mod Keys
pub mod Destination
pub mod Single
pub mod Served
pub mod Start
pub mod Many
use ggt.Prelude.{
  ℕ, zero, suc, Bool, true, false, not, ◌&&◌, ◌||◌, Option, none, some, List, [], ◌∷◌, ◌++◌, ◌+◌,
  ◌-◌, ◌/◌, ◌%◌, ◌==◌, Text, codes, text_eq, ltb, leb, reverse, length, if◌then◌else◌,
}
use ggt.Prelude.Int.{ℤ}
use ggt.Prelude.Dict.{Dict, lookup}
use ggt.Prelude.Trim.{trim_space}
use ggt.Value.{Object}
use ggt.Event.{Event, Metadata}
use ggt.Pipeline.{Payload, one, many, nothing, value, Error, drop, Result, ok, err}

pub record Record : Type 0 where
  pub topic : Text
  pub partition : ℤ
  pub offset : ℤ
  pub key : Option (List ℕ)
  pub value_bytes : List ℕ
  pub timestamp : ℕ

pub record PipelineInfo : Type 0 where
  pub execute : Payload → Result
  pub output_topic : Text
  pub dlq_topic : Text

pub record Message : Type 0 where
  pub topic : Text
  pub key : Option (List ℕ)
  pub content : List ℕ

pub record Env : Type 0 where
  pub pipelines : Dict PipelineInfo
  pub unmarshal : List ℕ → Option Object
  pub marshal : Object → Option (List ℕ)
  pub send_error : ℕ → Option ℕ

pub record World : Type 0 where
  pub sent : List Message
  pub sends : ℕ
  pub processed : ℕ
  pub dropped : ℕ
  pub sent_to_dlq : ℕ
  pub routed : ℕ

pub data HandlerError : Type 0 where
  send_failed : ℕ → HandlerError
  marshal_failed : HandlerError
  output_topic_missing : HandlerError
  unexpected_result : HandlerError
  send_failures : List ℕ → HandlerError

abbrev pub is_empty : Text → Bool
is_empty [] = true
is_empty (c ∷ s) = false

-- `w.prod.Send`
unfoldable pub send : Env → Text → Option (List ℕ) → List ℕ → World → Option ℕ × World
send env topic key content w = elim (env.send_error w.sends) [
  | some e ↦ (some e, record w { sends = w.sends + 1 })
  | none ↦ (
    none,
    record w {
      sends = w.sends + 1;
      sent = w.sent ++ record { topic = topic; key = key; content = content } ∷ [];
    },
  )
]

-- a record that cannot be processed: to the dead letter topic if there is one, or dropped
unfoldable pub reject : Env → PipelineInfo → Record → World → Option HandlerError × World
unfolding send
reject env info r w =
    let dlq_topic = trim_space info.dlq_topic in
    if is_empty dlq_topic
    then (none, record w { dropped = w.dropped + 1 })
    else let (e, w') = send env dlq_topic r.key r.value_bytes w in
      elim e [
        | some x ↦ (some (send_failed x), w')
        | none ↦ (none, record w' { sent_to_dlq = w'.sent_to_dlq + 1 })
      ]

-- a header of an event, "" where it is missing
unfoldable pub header : Text → Option (Dict Text) → Text
header k none = []
header k (some m) = elim (lookup k m) [ none ↦ [] | some v ↦ v ]

-- the event asks for the dead letter topic, and there is one
unfoldable pub wants_dlq : PipelineInfo → Event → Bool
unfolding header
wants_dlq info e =
    not (is_empty (header (codes "_dlq_reason") e.headers)) && not (is_empty info.dlq_topic)

unfoldable pub route_target : Event → Text
unfolding header
route_target e = header (codes "_route_target") e.headers

-- the topic of an event that is sent on; a routed event is counted
unfoldable pub send_topic : Text → Event → Text
send_topic output e = if is_empty (route_target e) then output else route_target e

unfoldable pub count_routed : Event → World → World
count_routed e w = if is_empty (route_target e) then w else record w { routed = w.routed + 1 }

unfoldable pub deliver_one :
    Env → PipelineInfo → Text → Record → Event → World → Option HandlerError × World
deliver_one env info output r e w =
    if wants_dlq info e
    then elim (env.marshal e.payload) [
      | none ↦ (some marshal_failed, w)
      | some content ↦
          let (x, w') = send env info.dlq_topic r.key content w in
          elim x [
            | some y ↦ (some (send_failed y), w')
            | none ↦ (none, record w' { sent_to_dlq = w'.sent_to_dlq + 1 })
          ]
    ]
    else elim (env.marshal e.payload) [
      | none ↦ (some marshal_failed, w)
      | some content ↦
          let (x, w') = send env (send_topic output e) r.key content (count_routed e w) in
          elim x [
            | some y ↦ (some (send_failed y), w')
            | none ↦ (none, record w' { processed = w'.processed + 1 })
          ]
    ]

-- `strconv.AppendInt(_, n, 10)`: a number has at most as many digits as its value and one
unfoldable pub decimal_digits : ℕ → ℕ → List ℕ
decimal_digits zero n = []
decimal_digits (suc fuel) n =
    let more = decimal_digits fuel (n / 10) ++ (n % 10 + 48) ∷ [] in
    if ltb n 10 then (n + 48) ∷ [] else more

unfoldable pub decimal : ℕ → List ℕ
unfolding decimal_digits
decimal n = decimal_digits (n + 1) n

unfoldable pub append_index_to_key : Option (List ℕ) → ℕ → Option (List ℕ)
append_index_to_key none idx = some (codes "multi-" ++ decimal idx)
append_index_to_key (some base) idx = some (base ++ b'-' ∷ decimal idx)

-- one event of several; `false` where its index is put among the failed ones
unfoldable pub deliver_nth :
    Env → PipelineInfo → Text → Option (List ℕ) → Event → World → Bool × World
deliver_nth env info output key e w = elim (env.marshal e.payload) [
  | none ↦ (false, w)
  | some content ↦
      if wants_dlq info e
      then (let (x, w') = send env info.dlq_topic key content w in
          elim x [
            | some y ↦ (false, w')
            | none ↦ (true, record w' { sent_to_dlq = w'.sent_to_dlq + 1 })
          ])
      else (let (x, w') = send env (send_topic output e) key content (count_routed e w) in
          elim x [
            | some y ↦ (
              false,
              if is_empty info.dlq_topic then w' else (send env info.dlq_topic key content w').1,
            )
            | none ↦ (true, w')
          ])
]

unfoldable pub event_key : Record → ℕ → ℕ → Option (List ℕ)
event_key r count i = if ltb 1 count then append_index_to_key r.key i else r.key

-- the loop over the events, from index `i`; the failed indices
unfoldable pub deliver_from :
    Env → PipelineInfo → Text → Record → ℕ → ℕ → List Event → World → List ℕ × World
deliver_from env info output r count i [] w = ([], w)
deliver_from env info output r count i (e ∷ es) w =
    let (sent, w') = deliver_nth env info output (event_key r count i) e w in
    let (failed, w'') = deliver_from env info output r count (i + 1) es w' in
    (if sent then failed else i ∷ failed, w'')

unfoldable pub deliver_many :
    Env → PipelineInfo → Text → Record → List Event → World → Option HandlerError × World
deliver_many env info output r es w =
    let (failed, w') = deliver_from env info output r (length es) 0 es w in
    elim failed [
      | [] ↦ (none, record w' { processed = w'.processed + 1 })
      | i ∷ is ↦ (some (send_failures (i ∷ is)), w')
    ]

unfoldable pub record_event : Record → Object → Event
record_event r payload = record {
  payload = payload;
  metadata = record { topic = r.topic; partition = r.partition; offset = r.offset; key = r.key };
  timestamp = r.timestamp;
  headers = some [];
}

unfoldable pub deliver : Env → PipelineInfo → Record → Payload → World → Option HandlerError × World
deliver env info r result w =
    let output = trim_space info.output_topic in
    if is_empty output then (some output_topic_missing, w) else elim result [
      | one e ↦ deliver_one env info output r e w
      | many es ↦ deliver_many env info output r es w
      | nothing ↦ (some unexpected_result, w)
      | value v ↦ (some unexpected_result, w)
    ]

abbrev is_err_drop : Error → Bool
is_err_drop drop = true
is_err_drop _ = false

unfoldable pub process : Env → PipelineInfo → Record → Object → World → Option HandlerError × World
process env info r payload w = elim (info.execute (one (record_event r payload))) [
  | err e ↦
      if is_err_drop e then (none, record w { dropped = w.dropped + 1 }) else reject env info r w
  | ok result ↦ deliver env info r result w
]

-- the handler
unfoldable pub handle : Env → Record → World → Option HandlerError × World
handle env r w = elim (lookup r.topic env.pipelines) [
  | none ↦ (none, w)
  | some info ↦ elim (env.unmarshal r.value_bytes) [
    | none ↦ reject env info r w
    | some payload ↦ process env info r payload w
  ]
]
