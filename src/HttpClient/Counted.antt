-- ===== src/HttpClient/Counted.antt =====
-- What a request does to the circuit breaker, and that no pointer is nil
-- (internal/enrichment/http/client.go).
use ggt.Prelude.{
  ℕ, true, false, none, some, List, [], ◌≡◌, refl, sym, Text, arith, Option-cases, Bool-cases, inl,
  inr, ◌⊎◌,
}
use ggt.Value.{str}
use ggt.Cache as Cache
use ggt.Cache.Refinement.{Represents, get-Represents, set-Represents, delete-Represents}
use ggt.Breaker.{Breaker, record_success, record_failure}
use ggt.Retry.{Response, Action, do_request}
use ggt.HttpClient.{
  Client, World, Request, Answer, text, circuit_open, key_missing, read_failed, too_large,
  request_failed, exchange_failed, bad_status, Reply, body_of, is_good, failed, succeeded,
  read_body, handle_response, attempt, exchange, store, admit, fetch, cached_text, is_nil, get_with,
  get,
}
use ggt.HttpClient.Cached.{IsValid}
use ggt.HttpClient.Delivered.{Answered, do_request-Delivers}

-- A request that is sent comes back with a response or with an error, as `Do` of net/http says.
abbrev pub Documented : World → Type 0
Documented w = (req : Request) (i : ℕ) → Answered (w.send req i).err (w.send req i).resp

-- What the breaker is told of an answer.
abbrev pub told : World → Answer → Breaker → Breaker
told w (text s) b = record_success b
told w read_failed b = record_success b
told w too_large b = record_success b
told w (exchange_failed e) b = record_failure w.at_failure b
told w (bad_status code) b = record_failure w.at_failure b
told w circuit_open b = b
told w key_missing b = b
told w (request_failed e) b = b

attempt-Answered :
    (w : World) (req : Request) (i : ℕ)
    → Documented w
    → Answered (attempt w req i).err (attempt w req i).resp
unfolding attempt
attempt-Answered w req i d = elim (Option-cases (w.new_request req)) [
  | inl p ↦ rw (p, attempt) (d req i)
  | inr (e, p) ↦ rw (p, attempt) tt
]

read_body-told :
    (w : World) (c : Client) (r : Response) (b : Breaker)
    → told w (read_body w c r) b ≡ record_success b
unfolding read_body
read_body-told w c r b = ground arith

-- The reply of a request that was let through.
pub record Told (w : World) (c : Client) (r : Reply) : Type 0 where
  pub same_cache : r.client.cache ≡ c.cache
  pub breaker : r.client.circuit_breaker ≡ told w r.answer c.circuit_breaker

pub handle_response-Told :
    (w : World) (c : Client) (r : Response) (trace : List Action)
    → Told w c (handle_response w c r trace)
unfolding handle_response
handle_response-Told w c r trace = elim (Bool-cases (is_good r.status_code)) [
  | inr p ↦ rw (p, handle_response) (record { same_cache = refl; breaker = refl })
  | inl p ↦
      rw (p, handle_response)
        (record {
          same_cache = refl;
          breaker = sym (read_body-told w (succeeded c) r c.circuit_breaker);
        })
]

pub exchange-Told :
    (w : World) (req : Request) (c : Client)
    → Documented w
    → (r : Reply) × (exchange w req c ≡ some r) × Told w c r
unfolding exchange
exchange-Told w req c d =
    let run = do_request w.scale (attempt w req) w.done c.retrier in
    let delivered =
      do_request-Delivers w.scale (attempt w req) w.done c.retrier
        (λ i. attempt-Answered w req i d) in
    elim (Option-cases run.err) [
      | inr (e, p) ↦ (
        record { client = failed w c; answer = exchange_failed e; trace = run.trace },
        rw (p, exchange) refl,
        record { same_cache = refl; breaker = refl },
      )
      | inl p ↦ elim (Option-cases run.resp) [
        | inl q ↦ absurd (rw (p, q) at delivered)
        | inr (o, q) ↦ (
          handle_response w c o run.trace,
          rw (p, q, exchange) refl,
          handle_response-Told w c o run.trace,
        )
      ]
    ]

store-Told :
    (w : World) (url : Text) (c : Client) (r : Reply)
    → IsValid c
    → Told w c r
    → (r' : Reply) × (store w url r ≡ some r')
      × IsValid r'.client
      × (r'.client.circuit_breaker ≡ told w r'.answer c.circuit_breaker)
unfolding store Cache.set
store-Told w url c r (l, h) t =
    let h' : Represents r.client.cache l = rw t.same_cache h in
    elim (Option-cases (body_of r.answer)) [
      | inl p ↦ (r, rw (p, store) refl, (l, h'), t.breaker)
      | inr (s, p) ↦
          let (c', q, g, _, _) =
            set-Represents w.at_set url (str s) r.client.cache.ttl r.client.cache l h' in
          (
            record r { client = record r.client { cache = c' } },
            rw (p, q, store) refl,
            (_, g),
            t.breaker,
          )
    ]

-- What comes of a request that the cache does not serve: the breaker rejects it and nothing is
-- sent, or lets it through and is told of its answer, once.
pub record Asked (w : World) (c : Client) (r : Reply) : Type 0 where
  pub valid : IsValid r.client
  pub counted :
      (((admit w c).1 ≡ false)
        × (r.answer ≡ circuit_open)
        × (r.trace ≡ [])
        × (r.client.circuit_breaker ≡ (admit w c).0.circuit_breaker))
      ⊎ (((admit w c).1 ≡ true)
          × (r.client.circuit_breaker ≡ told w r.answer (admit w c).0.circuit_breaker))

fetch-Asked :
    (w : World) (req : Request) (c : Client)
    → Documented w
    → IsValid c
    → (r : Reply) × (fetch w req c ≡ some r) × Asked w c r
unfolding fetch admit
fetch-Asked w req c d v = elim (Bool-cases (admit w c).1) [
  | inr p ↦ (
    record { client = (admit w c).0; answer = circuit_open; trace = [] },
    rw (p, fetch) refl,
    record { valid = v; counted = inl (p, refl, refl, refl) },
  )
  | inl p ↦
      let (r, q, t) = exchange-Told w req (admit w c).0 d in
      let (r', q', v', b) = store-Told w req.url (admit w c).0 r v t in
      (r', rw (p, q, fetch) q', record { valid = v'; counted = inr (p, b) })
]

-- What comes of a call: the text that the cache has for the URL, or, where it has none, what comes
-- of a request.
pub data Served (w : World) (url : Text) (c : Client) (r : Reply) : Type 0 where
  hit :
      (s : Text)
      → cached_text (Cache.get w.at_get url c.cache).1 ≡ some s
      → r.answer ≡ text s
      → r.trace ≡ []
      → IsValid r.client
      → r.client.circuit_breaker ≡ c.circuit_breaker
      → Served w url c r
  miss :
      cached_text (Cache.get w.at_get url c.cache).1 ≡ none
      → (c' : Client) → c'.circuit_breaker ≡ c.circuit_breaker
      → Asked w c' r
      → Served w url c r

pub get_with_counted :
    (w : World) (req : Request) (c : Client)
    → Documented w
    → IsValid c
    → (r : Reply) × (get_with w req c ≡ some r) × Served w req.url c r
unfolding get_with
get_with_counted w req c d (l, h) =
    let (h', _) = get-Represents w.at_get req.url c.cache l h in
    let (cache, cached) = Cache.get w.at_get req.url c.cache in
    elim (Option-cases (cached_text cached)) [
      | inr (s, p) ↦ (
        record { client = record c { cache = cache }; answer = text s; trace = [] },
        rw (p, get_with) refl,
        hit s p refl refl (_, h') refl,
      )
      | inl p ↦ elim (Bool-cases (is_nil cached)) [
        | inl q ↦
            let (r, x, a) = fetch-Asked w req (record c { cache = cache }) d (_, h') in
            (r, rw (p, q, get_with) x, miss p (record c { cache = cache }) refl a)
        | inr q ↦
            let c' = record c { cache = Cache.delete req.url cache } in
            let (r, x, a) = fetch-Asked w req c' d (_, delete-Represents req.url cache _ h') in
            (r, rw (p, q, get_with) x, miss p c' refl a)
      ]
    ]
