-- ===== src/Tests/Workers.antt =====
-- Records through the worker (cmd/transform/main.go).
use ggt.Prelude.{
  ℕ, Bool, true, false, Option, none, some, List, [], ◌∷◌, ◌++◌, ◌≡◌, refl, Text, codes, length,
}
use ggt.Prelude.Int.{pos}
use ggt.Prelude.Dict.{Dict, lookup}
use ggt.Value.{Object, make_map, no_fields}
use ggt.Event.{Event}
use ggt.Pipeline.{Payload, one, many, failure, Result, ok, err}
use ggt.Prelude.Trim.{trim_space}
use ggt.Worker.{
  Record, PipelineInfo, Message, Env, World, send, header, wants_dlq, deliver_one,
  append_index_to_key, deliver_nth, event_key, deliver_from, deliver_many, record_event, deliver,
  process, handle,
}
use ggt.Worker.Start.{PipelineConfig, indexed, index_pipelines, index_topics}
use ggt.Worker.Served.{Served, index_pipelines-Served}
use ggt.Worker.Destination.{said, destination}
use ggt.Worker.Single.{
  fate, result_fate, event_fate, is_processed, Counts, handle-Counts, handle_one_sent,
}
use ggt.Worker.Many.{messages, handle_many_sent}

abbrev same : Payload → Result
same (one e) = ok (one e)
same _ = err (failure (codes "unexpected payload type"))

abbrev twice : Payload → Result
twice (one e) = ok (many (e ∷ e ∷ []))
twice _ = err (failure (codes "unexpected payload type"))

abbrev single : PipelineInfo
single = record { execute = same; output_topic = codes "out"; dlq_topic = codes "dlq" }

abbrev multi : PipelineInfo
multi = record { execute = twice; output_topic = codes "out"; dlq_topic = codes "dlq" }

abbrev some_object : List ℕ → Option Object
some_object bytes = some (make_map no_fields)

abbrev braces : Object → Option (List ℕ)
braces m = some (codes "{}")

abbrev sent_fine : ℕ → Option ℕ
sent_fine n = none

abbrev env : Env
env = record {
  pipelines = (codes "one", single) ∷ (codes "two", multi) ∷ [];
  unmarshal = some_object;
  marshal = braces;
  send_error = sent_fine;
}

abbrev start : World
start = record { sent = []; sends = 0; processed = 0; dropped = 0; sent_to_dlq = 0; routed = 0 }

abbrev from : Text → Record
from topic = record {
  topic = topic;
  partition = pos 0;
  offset = pos 3;
  key = some (codes "k");
  value_bytes = codes "{}";
  timestamp = 9;
}

abbrev made : Text → Event
made topic = record {
  payload = make_map no_fields;
  metadata = record { topic = topic; partition = pos 0; offset = pos 3; key = some (codes "k") };
  timestamp = 9;
  headers = some [];
}

known_one : lookup (codes "one") env.pipelines ≡ some single
unfolding lookup ggt.Prelude.text_eq
known_one = refl

known_two : lookup (codes "two") env.pipelines ≡ some multi
unfolding lookup ggt.Prelude.text_eq
known_two = refl

handle-Counts_example : Counts is_processed start (handle env (from (codes "one")) start)
unfolding fate result_fate event_fate said lookup record_event ggt.Prelude.text_eq
handle-Counts_example =
    handle-Counts env (from (codes "one")) single start known_one (λ m es h. ok_ne h)
  where
    one≢many : {e : Event} {es : List Event} → one e ≡ many es → ⊥
    one≢many q = cc

    ok_ne : {e : Event} {es : List Event} → ok (one e) ≡ ok (many es) → ⊥
    ok_ne q = cc

fine_one : (handle env (from (codes "one")) start).0 ≡ none
unfolding handle process deliver deliver_one send wants_dlq header trim_space lookup record_event
    ggt.Prelude.text_eq
fine_one = refl

made_one :
    single.execute (one (record_event (from (codes "one")) (make_map no_fields)))
    ≡ ok (one (made (codes "one")))
unfolding record_event
made_one = refl

handle_one_sent_example :
    (content : List ℕ) × (some (codes "{}") ≡ some content)
    × ((handle env (from (codes "one")) start).1.sent
        ≡ []
          ++ record {
            topic = destination single (made (codes "one"));
            key = some (codes "k");
            content = content;
          }
            ∷ [])
handle_one_sent_example =
    handle_one_sent env (from (codes "one")) single start (make_map no_fields) (made (codes "one"))
      known_one refl made_one fine_one

made_two :
    multi.execute (one (record_event (from (codes "two")) (make_map no_fields)))
    ≡ ok (many (made (codes "two") ∷ made (codes "two") ∷ []))
unfolding record_event
made_two = refl

fine_two : (handle env (from (codes "two")) start).0 ≡ none
unfolding handle process deliver deliver_many deliver_from deliver_nth send wants_dlq header
    trim_space lookup record_event event_key append_index_to_key ggt.Prelude.text_eq
fine_two = refl

abbrev pair : List Event
pair = made (codes "two") ∷ made (codes "two") ∷ []

handle_many_sent_example :
    (ms : List Message) × (messages env multi (from (codes "two")) 2 0 pair ≡ some ms)
    × ((handle env (from (codes "two")) start).1.sent ≡ [] ++ ms)
handle_many_sent_example =
    handle_many_sent env (from (codes "two")) multi start (make_map no_fields) pair known_two refl
      made_two fine_two

same_key : append_index_to_key none 3 ≡ append_index_to_key none 3
same_key = refl

abbrev three : ℕ
three = 3

abbrev length_of : PipelineConfig → Option ℕ
length_of c = some (length c.input_topics)

abbrev configs : List PipelineConfig
configs =
    record { name = codes "p"; input_topics = codes "a" ∷ codes "b" ∷ [] }
    ∷ record { name = codes "q"; input_topics = codes "c" ∷ [] }
    ∷ []

abbrev served : Dict ℕ
served = (codes "a", 2) ∷ (codes "b", 2) ∷ (codes "c", 1) ∷ []

started : index_pipelines length_of configs [] ≡ indexed served
unfolding index_pipelines index_topics lookup ggt.Prelude.Dict.insert ggt.Prelude.text_eq
started = refl

index_pipelines-Served_example : Served length_of served configs
index_pipelines-Served_example = index_pipelines-Served length_of configs served started
