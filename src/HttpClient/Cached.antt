-- ===== src/HttpClient/Cached.antt =====
-- The cache in front of the requests (internal/enrichment/http/client.go).
use ggt.Prelude.{
  ℕ, false, none, some, List, [], ◌≡◌, refl, sym, ap, ◌∙◌, Text, text_eq_refl, arith, Option-cases,
  Bool-cases, inl, inr,
}
use ggt.Prelude.Int.{ℤ}
use ggt.Prelude.Dict.{lookup}
use ggt.Value.{Value, str}
use ggt.Cache as Cache
use ggt.Cache.{add_time, is_after}
use ggt.Cache.Spec.{Recent, recent_get, recent_set}
use ggt.Cache.Refinement.{Represents, get-Represents, set-Represents, delete-Represents}
use ggt.Retry.{do_request, Response, Action}
use ggt.HttpClient.{
  Client, World, Request, Answer, text, Reply, body_of, handle_response, attempt, exchange, store,
  admit, fetch, cached_text, is_nil, get_with, get, get_json,
}

abbrev IsText : Answer → Type 0
IsText (text s) = Unit
IsText _ = ⊥

-- The cache has the text for the key, as it was put there at a time.
pub Fresh : ℕ → Text → Text → Cache.Cache → Type 0
Fresh now key s c =
    (l : Recent) × Represents c l
    × (lookup key l ≡ some (record { value = str s; expiry = add_time now c.ttl }))

pub lookup-recent_set :
    (max_size : ℤ) (now : ℕ) (key : Text) (v : Value) (ttl : ℤ) (l : Recent)
    → lookup key (recent_set max_size now key v ttl l)
      ≡ some (record { value = v; expiry = add_time now ttl })
unfolding recent_set lookup
lookup-recent_set max_size now key v ttl l = elim (Option-cases (lookup key l)) [
  | inl p ↦ rw (p, recent_set) (rw (lookup, text_eq_refl key) refl)
  | inr (i, p) ↦ rw (p, recent_set) (rw (lookup, text_eq_refl key) refl)
]

some_inj {ℓ} : {A : Type ℓ} {a b : A} → some a ≡ some b → a ≡ b
some_inj h = cc

none≢some {ℓ} : {A : Type ℓ} {a : A} → none ≡ some a → ⊥
none≢some h = cc

set-Fresh :
    (now : ℕ) (key s : Text) (c : Cache.Cache) (l : Recent)
    → Represents c l
    → (c' : Cache.Cache) × (Cache.set now key (str s) c ≡ some c') × Fresh now key s c'
unfolding Cache.set Fresh
set-Fresh now key s c l h =
    let (c', e, r, m, t) = set-Represents now key (str s) c.ttl c l h in
    (
      c',
      e,
      (
        recent_set c.max_size now key (str s) c.ttl l,
        r,
        rw t (lookup-recent_set c.max_size now key (str s) c.ttl l),
      ),
    )

get-Fresh :
    (now now' : ℕ) (key s : Text) (c : Cache.Cache)
    → Fresh now key s c
    → is_after now' (add_time now c.ttl) ≡ false
    → (Cache.get now' key c).1 ≡ str s
unfolding Fresh recent_get
get-Fresh now now' key s c (l, h, p) q =
    (get-Represents now' key c l h).1 ∙ rw (p, recent_get, q) refl

handle_response-cache :
    (w : World) (c : Client) (r : Response) (trace : List Action)
    → (handle_response w c r trace).client.cache ≡ c.cache
unfolding handle_response
handle_response-cache w c r trace = ground arith

exchange-cache :
    (w : World) (req : Request) (c : Client) (r : Reply)
    → exchange w req c ≡ some r
    → r.client.cache ≡ c.cache
unfolding exchange
exchange-cache w req c r h =
    let run = do_request w.scale (attempt w req) w.done c.retrier in
    elim (Option-cases run.err) [
      | inr (e, p) ↦ ap (λ x. x.client.cache) (sym (some_inj (rw (p, exchange) at h)))
      | inl p ↦ elim (Option-cases run.resp) [
        | inl q ↦ absurd (none≢some (rw (p, q, exchange) at h))
        | inr (o, q) ↦
            ap (λ x. x.client.cache) (sym (some_inj (rw (p, q, exchange) at h)))
            ∙ handle_response-cache w c o run.trace
      ]
    ]

store-Fresh :
    (w : World) (url s : Text) (r r' : Reply) (l : Recent)
    → Represents r.client.cache l
    → store w url r ≡ some r'
    → body_of r'.answer ≡ some s
    → Fresh w.at_set url s r'.client.cache
unfolding store
store-Fresh w url s r r' l h e a = elim (Option-cases (body_of r.answer)) [
  | inl p ↦
      absurd (none≢some (sym p ∙ ap (λ x. body_of x.answer) (some_inj (rw (p, store) at e)) ∙ a))
  | inr (t, p) ↦
      let (c', q, f) = set-Fresh w.at_set url t r.client.cache l h in
      let same : record r { client = record r.client { cache = c' } } ≡ r' =
        some_inj (rw (p, q, store) at e) in
      let t_is_s : t ≡ s = some_inj (sym p ∙ ap (λ x. body_of x.answer) same ∙ a) in
      rw (← same, ← t_is_s) f
]

fetch-Fresh :
    (w : World) (req : Request) (s : Text) (c : Client) (r : Reply) (l : Recent)
    → Represents c.cache l
    → fetch w req c ≡ some r
    → body_of r.answer ≡ some s
    → Fresh w.at_set req.url s r.client.cache
unfolding fetch admit
fetch-Fresh w req s c r l h e a = elim (Bool-cases (admit w c).1) [
  | inr p ↦ absurd (none≢some (ap (λ x. body_of x.answer) (some_inj (rw (p, fetch) at e)) ∙ a))
  | inl p ↦ elim (Option-cases (exchange w req (admit w c).0)) [
    | inl q ↦ absurd (none≢some (rw (p, q, fetch) at e))
    | inr (r', q) ↦
        store-Fresh w req.url s r' r l (rw (exchange-cache w req (admit w c).0 r' q) h)
          (rw (p, q, fetch) at e) a
  ]
]

-- A body that was fetched, not found in the cache, is cached.
pub get_with-Fresh :
    (w : World) (req : Request) (s : Text) (c : Client) (r : Reply) (l : Recent)
    → Represents c.cache l
    → get_with w req c ≡ some r
    → body_of r.answer ≡ some s
    → cached_text (Cache.get w.at_get req.url c.cache).1 ≡ none
    → Fresh w.at_set req.url s r.client.cache
unfolding get_with
get_with-Fresh w req s c r l h e a miss =
    let (h', _) = get-Represents w.at_get req.url c.cache l h in
    let (cache, cached) = Cache.get w.at_get req.url c.cache in
    elim (Bool-cases (is_nil cached)) [
      | inl p ↦
          fetch-Fresh w req s (record c { cache = cache }) r _ h' (rw (miss, p, get_with) at e) a
      | inr p ↦
          fetch-Fresh w req s (record c { cache = Cache.delete req.url cache }) r _
            (delete-Represents req.url cache _ h') (rw (miss, p, get_with) at e) a
    ]

pub get_with-again :
    (w : World) (now : ℕ) (req : Request) (s : Text) (c : Client)
    → Fresh now req.url s c.cache
    → is_after w.at_get (add_time now c.cache.ttl) ≡ false
    → (c' : Client) × (get_with w req c
        ≡ some (record { client = c'; answer = text s; trace = [] }))
      × (c'.circuit_breaker ≡ c.circuit_breaker)
unfolding get_with
get_with-again w now req s c f q = (
  record c { cache = (Cache.get w.at_get req.url c.cache).0 },
  rw (get-Fresh now w.at_get req.url s c.cache f q, get_with) refl,
  refl,
)

-- A client whose cache was made and used by its operations.
abbrev pub IsValid : Client → Type 0
IsValid c = (l : Recent) × Represents c.cache l

-- If the cache of a client stands for some list of recent entries and has no text for a URL, a body
-- that `get` then fetches is served by the next `get` of the URL, for as long as it has not expired,
-- without a request and without asking the breaker; and `get_json` serves it too, though its own
-- request would have named the media type that it accepts.
pub get_again :
    (w w' : World) (url s : Text) (c : Client) (r : Reply)
    → IsValid c
    → get w url c ≡ some r
    → body_of r.answer ≡ some s
    → cached_text (Cache.get w.at_get url c.cache).1 ≡ none
    → is_after w'.at_get (add_time w.at_set r.client.cache.ttl) ≡ false
    → ((c' : Client) × (get w' url r.client
          ≡ some (record { client = c'; answer = text s; trace = [] }))
        × (c'.circuit_breaker ≡ r.client.circuit_breaker))
      × ((c' : Client) × (get_json w' url r.client
            ≡ some (record { client = c'; answer = text s; trace = [] }))
          × (c'.circuit_breaker ≡ r.client.circuit_breaker))
unfolding get get_json
get_again w w' url s c r (l, h) e a miss q =
    let f = get_with-Fresh w _ s c r l h e a miss in
    (get_with-again w' w.at_set _ s r.client f q, get_with-again w' w.at_set _ s r.client f q)
