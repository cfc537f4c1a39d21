-- ===== src/Tests/Enriched.antt =====
-- Events enriched from a server (internal/enrichment/http/enrichment.go and
-- internal/enrichment/redis/enrichment.go).
use ggt.Prelude.{
  ℕ, Bool, true, false, Option, none, some, List, [], ◌∷◌, ◌≡◌, ◌≢◌, refl, Text, codes, text_eq,
  if◌then◌else◌,
}
use ggt.Prelude.Int.{pos}
use ggt.Value.{Value, str, make_map, field, no_fields, lookup_key, lookup_fields}
use ggt.Event.{Event, get_field, set_field, get_keys, split}
use ggt.Cache.{add_time, is_after}
use ggt.Pipeline.{one, Result, ok}
use ggt.Breaker.{Breaker}
use ggt.Retry.{call}
use ggt.HttpClient.{Reply, text, get_json, Client}
use ggt.RedisClient as RedisClient
use ggt.Transforms.Template as Template
use ggt.Transforms.Template.{Piece, literal, interpolate, interpolate-template_of}
use ggt.Transforms.EnrichHttp as EnrichHttp
use ggt.Transforms.EnrichHttp.Again.{execute_again}
use ggt.Transforms.EnrichRedis as EnrichRedis
use ggt.Transforms.EnrichRedis.Direct.{Outcome, execute-Direct}
use ggt.Tests.Clients.{page, world, serve, fresh_client, fresh-IsValid}
use ggt.Tests.Redis.{server, is_hash, start, client, client-Synced, at}

abbrev user : Text
user = codes "user"

abbrev to : Text
to = codes "to"

abbrev of_user : Text → Event
of_user name = record {
  payload = make_map (field user (str name) no_fields);
  metadata = record { topic = codes "in"; partition = pos 0; offset = pos 7; key = none };
  timestamp = 5;
  headers = none;
}

abbrev format : Value → Text
format v = elim v [ str s ↦ s | _ ↦ codes "?" ]

abbrev unmarshal : Text → Option Value
unmarshal s = some (str s)

interpolate-template_of_example :
    interpolate format (of_user (codes "ann")) (codes "/u/{{.user}}/p") ≡ some (codes "/u/ann/p")
unfolding get_field get_keys split lookup_key lookup_fields text_eq
interpolate-template_of_example =
    interpolate-template_of format (of_user (codes "ann"))
      (literal (codes "/u/") ∷ Template.field user ∷ literal (codes "/p") ∷ [])
      (
        (refl, (refl, (refl, tt))),
        ((refl, (refl, (refl, (refl, (refl, tt))))), ((refl, (refl, tt)), tt)),
      )

abbrev http : EnrichHttp.Config
http = record {
  url = codes "/u/{{.user}}";
  method = codes "GET";
  body = [];
  timeout = pos 10000000000;
  target_field = to;
  cache_ttl = pos 300000000000;
  drop_on_error = true;
}

abbrev redis : EnrichRedis.Enrich
redis = record {
  cfg = record {
    key_field = user;
    target_field = to;
    redis_config = codes "default";
    hash_field = codes "1";
    cache_ttl = [];
    drop_on_error = false;
  };
  cache_ttl = pos 300000000000;
}

some_inj {ℓ} : {A : Type ℓ} {a b : A} → some a ≡ some b → a ≡ b
some_inj h = cc

abbrev users : Event
users = of_user (codes "users")

execute-Direct_example :
    (c' : RedisClient.Client) × (r : Result) × (EnrichRedis.execute server format unmarshal
        (at 1)
        start
        redis
        (one users)
        client
      ≡ some (c', r))
    × Outcome unmarshal redis.cfg users (RedisClient.found (codes "ann")) r
    × ggt.RedisClient.Mirrors.Synced server is_hash start c'
unfolding get_field get_keys split lookup_key lookup_fields text_eq
execute-Direct_example =
    execute-Direct server format unmarshal is_hash (at 1) start redis users client refl
      (λ v p. let q : str (codes "users") ≡ v = some_inj p in rw (← q) (refl, refl)) client-Synced

abbrev ann : Event
ann = of_user (codes "ann")

abbrev later : Event
later = record ann { timestamp = 6 }

abbrev ann_url : Text
ann_url = codes "/u/ann"

abbrev after_get : Client
after_get = record fresh_client {
  cache = record {
    max_size = pos 1000;
    entries = (ann_url, record { value = str page; expiry = pos 300000000005; element = 1 }) ∷ [];
    lru_list = (1, ann_url) ∷ [];
    ttl = pos 300000000000;
    next_element = 2;
  };
}

abbrev reply : Reply
reply = record { client = after_get; answer = text page; trace = call 0 ∷ [] }

url_of_ann : interpolate format ann http.url ≡ some ann_url
unfolding interpolate get_field get_keys split lookup_key lookup_fields text_eq
url_of_ann = refl

url_of_later : interpolate format later http.url ≡ some ann_url
unfolding interpolate get_field get_keys split lookup_key lookup_fields text_eq
url_of_later = refl

fetched : get_json (world 5 serve) ann_url fresh_client ≡ some reply
unfolding get_json ggt.Cache.get ggt.Prelude.Dict.lookup ggt.HttpClient.new_client
    ggt.Cache.new_lru_cache ggt.Breaker.allow ggt.Breaker.new_circuit_breaker ggt.Retry.do_request
    ggt.Retry.attempts ggt.Retry.new_retrier ggt.Cache.set ggt.Cache.set_with_ttl
    ggt.Cache.make_room ggt.Cache.add_entry ggt.Breaker.record_success ggt.Prelude.Dict.insert
fetched = refl

execute_again_example :
    (EnrichHttp.execute format unmarshal (world 5 serve) (some http) (one ann) fresh_client
      ≡ some (after_get, ok (one (set_field ann to (str page)))))
    × ((b : Breaker)
        → let c2 = record after_get { circuit_breaker = b } in
          (c' : Client) × (get_json (world 9 serve) ann_url c2
            ≡ some (record { client = c'; answer = text page; trace = [] }))
          × (EnrichHttp.execute format unmarshal (world 9 serve) (some http) (one later) c2
              ≡ some (c', ok (one (set_field later to (str page)))))
          × (c'.circuit_breaker ≡ b))
unfolding text_eq ggt.Cache.get ggt.Prelude.Dict.lookup ggt.HttpClient.new_client
    ggt.Cache.new_lru_cache
execute_again_example =
    execute_again format unmarshal (world 5 serve) (world 9 serve) http ann later ann_url page
      (str page) fresh_client reply fresh-IsValid refl url_of_ann url_of_later refl fetched refl
      refl refl
