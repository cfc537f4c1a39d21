-- ===== src/Transforms/EnrichHttp/Again.antt =====
-- enrich.http and the cache of its client (internal/enrichment/http/enrichment.go).
use ggt.Breaker.{Breaker}
use ggt.Prelude.{false, Option, none, some, [], ◌≡◌, refl, Text, codes, text_eq}
use ggt.Value.{Value}
use ggt.Event.{Event, set_field}
use ggt.Pipeline.{one, ok}
use ggt.Cache as Cache
use ggt.Cache.{add_time, is_after}
use ggt.HttpClient.{text, Client, World, Reply, get_json, json_request, body_of, cached_text}
use ggt.HttpClient.Cached.{IsValid, get_with-Fresh, get_with-again}
use ggt.Transforms.Template.{interpolate}
use ggt.Transforms.EnrichHttp.{Config, finish, execute_event, execute}

module _ (format : Value → Text) (unmarshal : Text → Option Value) where
  execute_get :
      (w : World) (cfg : Config) (e : Event) (url s : Text) (v : Value) (c : Client) (r : Reply)
      → text_eq cfg.method (codes "POST") ≡ false
      → interpolate format e cfg.url ≡ some url
      → get_json w url c ≡ some r
      → body_of r.answer ≡ some s
      → unmarshal s ≡ some v
      → execute format unmarshal w (some cfg) (one e) c
        ≡ some (r.client, ok (one (set_field e cfg.target_field v)))
  unfolding execute execute_event finish
  execute_get w cfg e url s v c r m p q b u =
      rw (p, m, q, execute_event) (rw (b, finish) (rw u refl))

  -- Let a GET configuration make the same URL of two events, and let the cache of a valid client
  -- have no text for it. If the request for the first event brings a body that decodes, both events
  -- get the decoded value in the target field. The second one, for as long as the body has not
  -- expired, gets it from a call with an empty trace of requests and waits, and whatever the state
  -- of the circuit breaker is by then, an open one included, which stays as it is.
  pub execute_again :
      (w w' : World) (cfg : Config) (e e' : Event) (url s : Text) (v : Value) (c : Client)
      (r : Reply)
      → IsValid c
      → text_eq cfg.method (codes "POST") ≡ false
      → interpolate format e cfg.url ≡ some url
      → interpolate format e' cfg.url ≡ some url
      → cached_text (Cache.get w.at_get url c.cache).1 ≡ none
      → get_json w url c ≡ some r
      → body_of r.answer ≡ some s
      → unmarshal s ≡ some v
      → is_after w'.at_get (add_time w.at_set r.client.cache.ttl) ≡ false
      → (execute format unmarshal w (some cfg) (one e) c
          ≡ some (r.client, ok (one (set_field e cfg.target_field v))))
        × ((b : Breaker)
            → let c2 = record r.client { circuit_breaker = b } in
              (c' : Client) × (get_json w' url c2
                ≡ some (record { client = c'; answer = text s; trace = [] }))
              × (execute format unmarshal w' (some cfg) (one e') c2
                  ≡ some (c', ok (one (set_field e' cfg.target_field v))))
              × (c'.circuit_breaker ≡ b))
  unfolding get_json
  execute_again w w' cfg e e' url s v c r (l, h) m p p' miss q b u live =
      let fresh = get_with-Fresh w (json_request url) s c r l h q b miss in
      (
        execute_get w cfg e url s v c r m p q b u,
        λ brk.
            let c2 = record r.client { circuit_breaker = brk } in
            let (c', again, same) = get_with-again w' w.at_set (json_request url) s c2 fresh live in
            (c', again, execute_get w' cfg e' url s v c2 _ m p' again refl u, same),
      )
