-- ===== src/Tests/Clients.antt =====
-- The HTTP client in a concrete world (internal/enrichment/http/client.go): every request comes back
-- with the same page.
use ggt.Prelude.{
  ℕ, zero, suc, Bool, true, false, Option, none, some, [], ◌∷◌, ◌<◌, ◌≡◌, ◌≢◌, refl, Text, codes,
  ◌⊎◌, arith,
}
use ggt.Prelude.Int.{ℤ, pos}
use ggt.Value.{str}
use ggt.Cache.{add_time, is_after}
use ggt.Cache.Refinement.{new-Represents}
use ggt.Retry.{Error, other, Response, Outcome, Action, call, wait}
use ggt.Retry.Attempts.{calls}
use ggt.HttpClient.{Client, World, Request, PostOptions, text, Reply, new_client, get, get_json}
use ggt.HttpClient.Post.{post_with_options}
use ggt.HttpClient.Cached.{IsValid, get_again}
use ggt.HttpClient.Counted.{Documented}
use ggt.HttpClient.Posted.{calls-post_under}

abbrev url : Text
url = codes "/a"

abbrev pub page : Text
page = codes "ok"

abbrev never : ℕ → Option Error
never i = none

abbrev can_make : Request → Option Error
can_make req = none

abbrev pub serve : Request → ℕ → Outcome
serve req i = record { resp = some (record { status_code = 200; body = page }); err = none }

-- the first attempt fails
abbrev serve_late : Request → ℕ → Outcome
serve_late req zero = record { resp = none; err = some (other 1) }
serve_late req (suc i) = serve req i

abbrev pub readable : Response → Bool
readable r = false

abbrev doubled : ℤ → ℤ
doubled b = b

abbrev pub world : ℕ → (Request → ℕ → Outcome) → World
world now sent = record {
  at_get = now;
  at_look = now;
  at_commit = now;
  at_failure = now;
  at_set = now;
  scale = doubled;
  new_request = can_make;
  send = sent;
  done = never;
  read_fails = readable;
}

abbrev pub fresh_client : Client
fresh_client = new_client none

pub fresh-IsValid : IsValid fresh_client
unfolding new_client ggt.Cache.new_lru_cache
fresh-IsValid = ([], (new-Represents (pos 1000) (pos 300000000000)).0)

pub serve-Documented : Documented (world 5 serve)
serve-Documented req i = tt

abbrev pub after_get : Client
after_get = record fresh_client {
  cache = record {
    max_size = pos 1000;
    entries = (url, record { value = str page; expiry = pos 300000000005; element = 1 }) ∷ [];
    lru_list = (1, url) ∷ [];
    ttl = pos 300000000000;
    next_element = 2;
  };
}

fetched :
    get (world 5 serve) url fresh_client
    ≡ some (record { client = after_get; answer = text page; trace = call 0 ∷ [] })
unfolding get ggt.Cache.get ggt.Prelude.Dict.lookup new_client ggt.Cache.new_lru_cache
    ggt.Breaker.allow ggt.Breaker.new_circuit_breaker ggt.Retry.do_request ggt.Retry.attempts
    ggt.Retry.new_retrier ggt.Cache.set ggt.Cache.set_with_ttl ggt.Cache.make_room
    ggt.Cache.add_entry ggt.Breaker.record_success ggt.Prelude.Dict.insert
fetched = refl

get_again_example :
    ((c' : Client) × (get (world 9 serve) url after_get
        ≡ some (record { client = c'; answer = text page; trace = [] }))
      × (c'.circuit_breaker ≡ after_get.circuit_breaker))
    × ((c' : Client) × (get_json (world 9 serve) url after_get
          ≡ some (record { client = c'; answer = text page; trace = [] }))
        × (c'.circuit_breaker ≡ after_get.circuit_breaker))
unfolding ggt.Cache.get ggt.Prelude.Dict.lookup new_client ggt.Cache.new_lru_cache
get_again_example =
    get_again (world 5 serve) (world 9 serve) url page fresh_client
      (record { client = after_get; answer = text page; trace = call 0 ∷ [] }) fresh-IsValid fetched
      refl refl refl

abbrev with_key : PostOptions
with_key = record {
  allow_retries = true;
  idempotency_key = codes "k";
  idempotent_verb_override = false;
}

abbrev posted_late : Reply
posted_late = record {
  client = fresh_client;
  answer = text page;
  trace = call 0 ∷ wait (pos 100000000) ∷ call 1 ∷ [];
}

late_posted :
    post_with_options (world 5 serve_late) url (codes "t") page (some with_key) fresh_client
    ≡ some posted_late
unfolding post_with_options ggt.Prelude.text_eq ggt.Breaker.allow new_client
    ggt.Breaker.new_circuit_breaker ggt.Retry.do_request ggt.Retry.attempts ggt.Retry.new_retrier
    ggt.Breaker.record_success
late_posted = refl

two_calls : 1 < calls posted_late.trace
unfolding calls
two_calls = omega arith

calls-post_under_example :
    (with_key.allow_retries ≡ true)
    × ((with_key.idempotency_key ≢ []) ⊎ (with_key.idempotent_verb_override ≡ true))
calls-post_under_example =
    calls-post_under (world 5 serve_late) url (codes "t") page with_key fresh_client posted_late
      late_posted two_calls
