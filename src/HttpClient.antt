-- ===== src/HttpClient.antt =====
-- internal/enrichment/http/client.go: requests through the cache, the circuit breaker and the
-- retrier. What the network does is an argument; a call returns the client after it, an answer and
-- the trace of the retrier. `none` stands for the panic of a nil pointer.
pub mod Answers
pub mod Cached
pub mod Delivered
pub mod Counted
pub mod Post
pub mod Posted
use ggt.Prelude.{
  ℕ, zero, suc, Bool, true, false, not, ◌&&◌, ◌||◌, Option, none, some, List, [], ◌∷◌, ◌+◌, ◌==◌,
  Text, codes, text_eq, ltb, leb, length, if◌then◌else◌,
}
use ggt.Prelude.Int.{ℤ, pos, negsuc, ltb_ℤ, pos_part}
use ggt.Value.{Value, str, null}
use ggt.Cache as Cache
use ggt.Cache.{new_lru_cache}
use ggt.Breaker.{Breaker, new_circuit_breaker, allow, record_success, record_failure}
use ggt.Retry.{
  Error, Response, Outcome, DoError, plain, RetryConfig, new_retrier, Action, call, do_request,
}

pub record ClientConfig : Type 0 where
  pub cache_ttl : ℤ
  pub cache_size : ℤ
  pub max_retries : ℤ
  pub circuit_open_time : ℤ
  pub failure_threshold : ℤ
  pub success_threshold : ℤ
  pub max_response_size : ℤ

pub record Client : Type 0 where
  pub cache : Cache.Cache
  pub retrier : RetryConfig
  pub circuit_breaker : Breaker
  pub max_response_size : ℤ

pub record PostOptions : Type 0 where
  pub allow_retries : Bool
  pub idempotency_key : Text
  pub idempotent_verb_override : Bool

pub record Request : Type 0 where
  pub method : Text
  pub url : Text
  pub body : Text
  pub header : List (Text × Text)

-- What a call meets: the clock at each reading, the product with the float multiplier, what
-- becomes of a request that is made and of each attempt to send it, whether the context is done at
-- a wait, and whether reading a body fails.
pub record World : Type 0 where
  pub at_get : ℕ
  pub at_look : ℕ
  pub at_commit : ℕ
  pub at_failure : ℕ
  pub at_set : ℕ
  pub scale : ℤ → ℤ
  pub new_request : Request → Option Error
  pub send : Request → ℕ → Outcome
  pub done : ℕ → Option Error
  pub read_fails : Response → Bool

pub data Answer : Type 0 where
  text : Text → Answer
  circuit_open key_missing read_failed too_large : Answer
  request_failed : Error → Answer
  exchange_failed : DoError → Answer
  bad_status : ℕ → Answer

pub record Reply : Type 0 where
  pub client : Client
  pub answer : Answer
  pub trace : List Action

unfoldable pub default_client_config : ClientConfig
default_client_config = record {
  cache_ttl = pos 300000000000;
  cache_size = pos 1000;
  max_retries = pos 3;
  circuit_open_time = pos 30000000000;
  failure_threshold = pos 5;
  success_threshold = pos 2;
  max_response_size = pos 10485760;
}

abbrev made : ClientConfig → Client
made cfg = record {
  cache = new_lru_cache cfg.cache_size cfg.cache_ttl;
  retrier = new_retrier (
      some (record {
        max_retries = cfg.max_retries;
        initial_backoff = pos 100000000;
        max_backoff = pos 10000000000;
      }));
  circuit_breaker =
      new_circuit_breaker cfg.circuit_open_time cfg.failure_threshold cfg.success_threshold;
  max_response_size = cfg.max_response_size;
}

unfoldable pub new_client : Option ClientConfig → Client
unfolding default_client_config
new_client none = made default_client_config
new_client (some cfg) = made cfg

-- `n + 1` on an int64
unfoldable pub inc_int64 : ℤ → ℤ
inc_int64 (pos n) = if n == 9223372036854775807 then negsuc 9223372036854775807 else pos (n + 1)
inc_int64 (negsuc zero) = pos 0
inc_int64 (negsuc (suc n)) = negsuc n

-- `io.ReadAll(io.LimitReader(body, n))`
abbrev first_bytes : ℕ → Text → Text
first_bytes zero s = []
first_bytes (suc n) [] = []
first_bytes (suc n) (c ∷ s) = c ∷ first_bytes n s

unfoldable pub read_body : World → Client → Response → Answer
unfolding inc_int64
read_body w c r =
    let body = first_bytes (pos_part (inc_int64 c.max_response_size)) r.body in
    if w.read_fails r
    then read_failed
    else if ltb_ℤ c.max_response_size (pos (length body))
    then too_large
    else text body

abbrev pub failed : World → Client → Client
failed w c = record c { circuit_breaker = record_failure w.at_failure c.circuit_breaker }

abbrev pub succeeded : Client → Client
succeeded c = record c { circuit_breaker = record_success c.circuit_breaker }

abbrev pub is_good : ℕ → Bool
is_good code = leb 200 code && ltb code 300

-- `handlePostResponse`, and the same steps in `Get` and `GetJSON`
unfoldable pub handle_response : World → Client → Response → List Action → Reply
unfolding read_body
handle_response w c r trace =
    if not (is_good r.status_code)
    then record { client = failed w c; answer = bad_status r.status_code; trace = trace }
    else record { client = succeeded c; answer = read_body w (succeeded c) r; trace = trace }

-- the request function that the retrier calls
unfoldable pub attempt : World → Request → ℕ → Outcome
attempt w req i = elim (w.new_request req) [
  | some e ↦ record { resp = none; err = some e }
  | none ↦ w.send req i
]

-- a request through the retrier
unfoldable pub exchange : World → Request → Client → Option Reply
unfolding handle_response attempt
exchange w req c =
    let run = do_request w.scale (attempt w req) w.done c.retrier in
    elim run.err [
      | some e ↦
          some (record { client = failed w c; answer = exchange_failed e; trace = run.trace })
      | none ↦ elim run.resp [ none ↦ none | some r ↦ some (handle_response w c r run.trace) ]
    ]

abbrev pub body_of : Answer → Option Text
body_of (text s) = some s
body_of _ = none

-- `c.cache.Set(url, bodyStr)`, of a body that was read
unfoldable pub store : World → Text → Reply → Option Reply
store w url r = elim (body_of r.answer) [
  | none ↦ some r
  | some s ↦ elim (Cache.set w.at_set url (str s) r.client.cache) [
    | none ↦ none
    | some cache ↦ some (record r { client = record r.client { cache = cache } })
  ]
]

-- `Allow`, with the client after it
unfoldable pub admit : World → Client → Client × Bool
admit w c =
    let (b, allowed) = allow w.at_look w.at_commit c.circuit_breaker in
    (record c { circuit_breaker = b }, allowed)

abbrev pub rejected : Client → Option Reply
rejected c = some (record { client = c; answer = circuit_open; trace = [] })

-- what follows a miss
unfoldable pub fetch : World → Request → Client → Option Reply
unfolding exchange store admit
fetch w req c =
    let (c', allowed) = admit w c in
    elim allowed [
      | false ↦ rejected c'
      | true ↦ elim (exchange w req c') [ none ↦ none | some r ↦ store w req.url r ]
    ]

-- `cached.(string)`
abbrev pub cached_text : Value → Option Text
cached_text (str s) = some s
cached_text _ = none

abbrev pub is_nil : Value → Bool
is_nil null = true
is_nil _ = false

-- what `Get` and `GetJSON` have in common; they differ in the header of the request
unfoldable pub get_with : World → Request → Client → Option Reply
unfolding fetch
get_with w req c =
    let (cache, cached) = Cache.get w.at_get req.url c.cache in
    let c' = record c { cache = cache } in
    elim (cached_text cached) [
      | some s ↦ some (record { client = c'; answer = text s; trace = [] })
      | none ↦
          fetch w req
            (if is_nil cached then c' else record c { cache = Cache.delete req.url cache })
    ]

-- `Get`; its second test of the size of the body repeats the first.
abbrev pub get_request : Text → Request
get_request url = record { method = codes "GET"; url = url; body = []; header = [] }

unfoldable pub get : World → Text → Client → Option Reply
unfolding get_with
get w url c = get_with w (get_request url) c

abbrev pub json_request : Text → Request
json_request url = record {
  method = codes "GET";
  url = url;
  body = [];
  header = (codes "Accept", codes "application/json") ∷ [];
}

unfoldable pub get_json : World → Text → Client → Option Reply
unfolding get_with
get_json w url c = get_with w (json_request url) c

-- `Close`
unfoldable pub close : Client → Client
close c = record c { cache = Cache.clear c.cache }
