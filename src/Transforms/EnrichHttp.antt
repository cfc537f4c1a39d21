-- ===== src/Transforms/EnrichHttp.antt =====
-- internal/enrichment/http/enrichment.go: a field from the answer to an HTTP request. Decoding JSON
-- and the text of a value are arguments; the timeout is part of what the world does. `none` stands
-- for a panic of the client.
pub mod Again
pub mod Outcomes
use ggt.Prelude.{
  ℕ, Bool, true, false, Option, none, some, [], ◌≡◌, ◌≢◌, ◌⊎◌, inl, inr, refl, Text, codes, text_eq,
  text_eq_iff, arith, if◌then◌else◌, Option-cases, Bool-cases,
}
use ggt.Prelude.Int.{ℤ, pos}
use ggt.Value.{Value}
use ggt.Event.{Event, set_field}
use ggt.Pipeline.{Payload, one, Result, ok, err, drop, failure, Error}
use ggt.Transforms.{Raw, empty_raw, undecodable, decoded, Configured, refused, configured}
use ggt.Transforms.Template.{interpolate}
use ggt.HttpClient.{Client, World, Reply, get_json, body_of}
use ggt.HttpClient.Post.{post}

-- The defaults of `method`, `timeout` and `cache_ttl` come with the decoding.
pub record Config : Type 0 where
  pub url : Text
  pub method : Text
  pub body : Text
  pub timeout : ℤ
  pub target_field : Text
  pub cache_ttl : ℤ
  pub drop_on_error : Bool

unfoldable pub configure : Raw Config → Configured Config
configure empty_raw = refused (codes "unexpected end of JSON input")
configure (undecodable e) = refused e
configure (decoded cfg) =
    if text_eq cfg.url []
    then refused (codes "url required")
    else if text_eq cfg.target_field []
    then refused (codes "target_field required")
    else if text_eq cfg.method (codes "GET")
    then configured cfg
    else if text_eq cfg.method (codes "POST")
    then configured cfg
    else refused (codes "method must be GET or POST")

-- the error, or `ErrDrop` where the configuration says so
unfoldable pub give_up : Config → Text → Result
give_up cfg message = err (if cfg.drop_on_error then drop else failure message)

-- the text of the request's body; a template that is empty is not interpolated
unfoldable pub request_body : (Value → Text) → Config → Event → Option Text
request_body format cfg e = if text_eq cfg.body [] then some [] else interpolate format e cfg.body

-- what becomes of the client's answer
unfoldable pub finish : (Text → Option Value) → Config → Event → Reply → Result
unfolding give_up
finish unmarshal cfg e r = elim (body_of r.answer) [
  | none ↦ give_up cfg (codes "execute")
  | some body ↦ elim (unmarshal body) [
    | none ↦ give_up cfg (codes "json parse failed")
    | some v ↦ ok (one (set_field e cfg.target_field v))
  ]
]

abbrev pub answered :
    (Text → Option Value) → Config → Event → Option Reply → Option (Client × Result)
answered unmarshal cfg e none = none
answered unmarshal cfg e (some r) = some (r.client, finish unmarshal cfg e r)

-- `Execute`, on an event
unfoldable pub execute_event :
    (Value → Text)
    → (Text → Option Value)
    → World
    → Config
    → Event
    → Client
    → Option (Client × Result)
unfolding give_up request_body finish
execute_event format unmarshal w cfg e c = elim (interpolate format e cfg.url) [
  | none ↦ some (c, give_up cfg (codes "template interpolation failed"))
  | some url ↦
      if text_eq cfg.method (codes "POST")
      then elim (request_body format cfg e) [
        | none ↦ some (c, give_up cfg (codes "body interpolation failed"))
        | some body ↦ answered unmarshal cfg e (post w url (codes "application/json") body c)
      ]
      else answered unmarshal cfg e (get_json w url c)
]

-- A configuration that is missing stands for a transform that was not configured.
unfoldable pub execute :
    (Value → Text)
    → (Text → Option Value)
    → World
    → Option Config
    → Payload
    → Client
    → Option (Client × Result)
unfolding execute_event
execute format unmarshal w none p c = some (c, err (failure (codes "not configured")))
execute format unmarshal w (some cfg) (one e) c = execute_event format unmarshal w cfg e c
execute format unmarshal w (some cfg) _ c =
    some (c, err (failure (codes "payload is not an event")))
