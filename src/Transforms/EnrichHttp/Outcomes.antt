-- ===== src/Transforms/EnrichHttp/Outcomes.antt =====
-- What enrich.http comes to (internal/enrichment/http/enrichment.go).
use ggt.Prelude.{true, false, Option, none, some, ◌⊎◌, ◌≡◌, ◌≢◌, Text, codes}
use ggt.Value.{Value}
use ggt.Event.{Event, get_field, path_keys}
use ggt.Event.Paths.{diverges}
use ggt.Pipeline.{one, Result, ok, err, drop, failure}
use ggt.Transforms.Template.{interpolate}
use ggt.HttpClient.{Client, World, Reply, get_json, body_of}
use ggt.HttpClient.Post.{post}
use ggt.HttpClient.Cached.{IsValid}
use ggt.Transforms.EnrichHttp.{Config, request_body}

-- An event that has a value in the target field, and the fields that part from it as they were; or,
-- where there is no value, an error, which is `ErrDrop` exactly if the configuration says so.
pub Enriches : Config → Event → Option Value → Result → Type 0
Enriches cfg e (some v) r =
    (e' : Event) × (r ≡ ok (one e'))
    × (get_field e' cfg.target_field ≡ some v)
    × ((other : Text)
        → diverges (path_keys cfg.target_field) (path_keys other) ≡ true
        → get_field e' other ≡ get_field e other)
Enriches cfg e none r =
    ((cfg.drop_on_error ≡ true) × (r ≡ err drop))
    ⊎ ((m : Text) × (cfg.drop_on_error ≡ false) × (r ≡ err (failure m)))

module _ (format : Value → Text) (unmarshal : Text → Option Value) (w : World) where
  -- The decoded body of an answer, if it has one that can be decoded.
  abbrev pub decoded_body : Option Text → Option Value
  decoded_body none = none
  decoded_body (some body) = unmarshal body

  -- What the network has for an event, and the client after it: nothing if the URL or the body of a
  -- POST cannot be made, else the decoded body of the client's answer to a POST or a GET.
  pub data Obtains (cfg : Config) (e : Event) (c : Client) : Option Value → Client → Type 0 where
    no_url : interpolate format e cfg.url ≡ none → Obtains cfg e c none c
    no_body : cfg.method ≡ codes "POST" → request_body format cfg e ≡ none → Obtains cfg e c none c
    by_post :
        (url body : Text) (r : Reply)
        → cfg.method ≡ codes "POST"
        → interpolate format e cfg.url ≡ some url
        → request_body format cfg e ≡ some body
        → post w url (codes "application/json") body c ≡ some r
        → Obtains cfg e c (decoded_body (body_of r.answer)) r.client
    by_get :
        (url : Text) (r : Reply)
        → cfg.method ≢ codes "POST"
        → interpolate format e cfg.url ≡ some url
        → get_json w url c ≡ some r
        → Obtains cfg e c (decoded_body (body_of r.answer)) r.client

  -- The transform comes to a result like that, and leaves the client valid.
  pub Returns : Config → Event → Client → Option (Client × Result) → Type 0
  Returns cfg e c o =
      (c' : Client) × (r : Result) × (found : Option Value) × (o ≡ some (c', r))
      × Obtains cfg e c found c'
      × Enriches cfg e found r
      × IsValid c'
