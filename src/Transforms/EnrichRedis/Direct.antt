-- ===== src/Transforms/EnrichRedis/Direct.antt =====
-- enrich.redis in front of its cache (internal/enrichment/redis/enrichment.go).
use ggt.Prelude.{
  ℕ, ◌||◌, ◌==◌, ◌⊎◌, ◌≢◌, arith, Bool, true, false, Option, none, some, [], ◌∷◌, ◌≡◌, inl, inr,
  refl, Text, text_eq, if◌then◌else◌, Option-cases, Bool-cases,
}
use ggt.Value.{Value, str}
use ggt.Event.{Event, get_field, set_field}
use ggt.Pipeline.{one, Result, ok, err, drop}
use ggt.RedisClient.{Client, Server, Clock, Answer, found, absent, failed, get_failed, hget_failed}
use ggt.RedisClient.Calls.{IsString, IsHash, read}
use ggt.RedisClient.Mirrors.{Synced, get_with_ttl-Direct, hget_with_ttl-Direct}
use ggt.Transforms.EnrichRedis.{
  Config, Enrich, execute, execute_event, finish, pass, enriched, key_text,
}

-- What the configuration asks the server for.
abbrev pub asked {ℓ} : {S : Type ℓ} → Server S → S → Config → Text → Answer Text
asked server s cfg k =
    if text_eq cfg.hash_field [] then server.get s k else server.hget s k cfg.hash_field

-- The key is one of strings, or of hashes, as the configuration reads it.
abbrev pub Fits : (Text → Bool) → Config → Text → Type 0
Fits is_hash cfg k = if text_eq cfg.hash_field [] then IsString is_hash k else IsHash is_hash k

-- The value that stands for a text: its decoding if it begins with a brace or a bracket and can be
-- decoded, else the text itself.
pub data Reads (unmarshal : Text → Option Value) : Text → Value → Type 0 where
  json :
      (c : ℕ) (s : Text) (v : Value)
      → (c ≡ b'{') ⊎ (c ≡ b'[')
      → unmarshal (c ∷ s) ≡ some v
      → Reads unmarshal (c ∷ s) v
  broken : (s : Text) → unmarshal s ≡ none → Reads unmarshal s (str s)
  plain : (c : ℕ) (s : Text) → c ≢ b'{' → c ≢ b'[' → Reads unmarshal (c ∷ s) (str (c ∷ s))

-- What the event becomes, by what the server holds.
abbrev pub Outcome : (Text → Option Value) → Config → Event → Answer Text → Result → Type 0
Outcome unmarshal cfg e absent r = r ≡ ok (one e)
Outcome unmarshal cfg e (found []) r = r ≡ ok (one e)
Outcome unmarshal cfg e (found (c ∷ s)) r =
    (v : Value) × Reads unmarshal (c ∷ s) v × (r ≡ ok (one (set_field e cfg.target_field v)))
Outcome unmarshal cfg e (failed m) r = r ≡ (if cfg.drop_on_error then err drop else ok (one e))

is_json : (c : ℕ) → ((c == 123) || (c == 91)) ≡ true → (c ≡ 123) ⊎ (c ≡ 91)
is_json c h = elim (Bool-cases (c == 123)) [
  | inl p ↦ inl (ground arith)
  | inr p ↦ inr (ground arith)
]

enriched-Reads :
    (unmarshal : Text → Option Value) (c : ℕ) (s : Text)
    → Reads unmarshal (c ∷ s) (enriched unmarshal (c ∷ s))
unfolding enriched
enriched-Reads unmarshal c s = elim (Bool-cases ((c == 123) || (c == 91))) [
  | inr p ↦ rw p (plain c s (λ q. ground arith) (λ q. ground arith))
  | inl p ↦ elim (Option-cases (unmarshal (c ∷ s))) [
    | inl q ↦ rw (p, q) (broken (c ∷ s) q)
    | inr (v, q) ↦ rw (p, q) (json c s v (is_json c p) q)
  ]
]

finish_get :
    (unmarshal : Text → Option Value) (cfg : Config) (e : Event) (a : Answer Text)
    → Outcome unmarshal cfg e a (finish unmarshal cfg e (read get_failed a))
unfolding finish pass
finish_get unmarshal cfg e absent = refl
finish_get unmarshal cfg e (failed m) = refl
finish_get unmarshal cfg e (found []) = refl
finish_get unmarshal cfg e (found (c ∷ s)) =
    (enriched unmarshal (c ∷ s), enriched-Reads unmarshal c s, refl)

finish_hget :
    (unmarshal : Text → Option Value) (cfg : Config) (e : Event) (a : Answer Text)
    → Outcome unmarshal cfg e a (finish unmarshal cfg e (read hget_failed a))
unfolding finish pass
finish_hget unmarshal cfg e absent = refl
finish_hget unmarshal cfg e (failed m) = refl
finish_hget unmarshal cfg e (found []) = refl
finish_hget unmarshal cfg e (found (c ∷ s)) =
    (enriched unmarshal (c ∷ s), enriched-Reads unmarshal c s, refl)

module _ {ℓ} {S : Type ℓ} (server : Server S) (format : Value → Text)
    (unmarshal : Text → Option Value) (is_hash : Text → Bool) where
  event-Direct :
      (t : Clock) (s : S) (enrich : Enrich) (e : Event) (v : Value) (c : Client)
      → get_field e enrich.cfg.key_field ≡ some v
      → Fits is_hash enrich.cfg (key_text format v)
      → Synced server is_hash s c
      → (c' : Client) × (r : Result) × (execute_event server format unmarshal t s enrich e c
          ≡ some (c', r))
        × Outcome unmarshal enrich.cfg e (asked server s enrich.cfg (key_text format v)) r
        × Synced server is_hash s c'
  unfolding execute_event
  event-Direct t s enrich e v c p fits h = elim (Bool-cases (text_eq enrich.cfg.hash_field [])) [
    | inl text ↦
        let (c', q, h') =
          get_with_ttl-Direct server is_hash t s (key_text format v) enrich.cache_ttl c
            (rw text at fits) h in
        (
          c',
          finish unmarshal enrich.cfg e (read get_failed (server.get s (key_text format v))),
          rw (p, text, q, execute_event) refl,
          rw text (finish_get unmarshal enrich.cfg e (server.get s (key_text format v))),
          h',
        )
    | inr hash ↦
        let (c', q, h') =
          hget_with_ttl-Direct server is_hash t s (key_text format v) enrich.cfg.hash_field
            enrich.cache_ttl c (rw hash at fits) h in
        (
          c',
          finish unmarshal enrich.cfg e
              (read hget_failed (server.hget s (key_text format v) enrich.cfg.hash_field)),
          rw (p, hash, q, execute_event) refl,
          rw hash (
              finish_hget unmarshal enrich.cfg e
                (server.hget s (key_text format v) enrich.cfg.hash_field)),
          h',
        )
  ]

  -- What the event becomes, by the value of its key field.
  abbrev pub Keyed : S → Config → Event → Option Value → Result → Type 0
  Keyed s cfg e none r = r ≡ (if cfg.drop_on_error then err drop else ok (one e))
  Keyed s cfg e (some v) r = Outcome unmarshal cfg e (asked server s cfg (key_text format v)) r

  -- Let the configuration of `enrich.redis` have a key field, let the text of the event's key be a
  -- key of strings, or of hashes if a hash field is configured, without a colon, and let the cache
  -- of the client mirror the server. Then the transform answers as the server alone decides: a
  -- text that is not empty is set in the target field, decoded if it begins with a brace or a
  -- bracket and can be decoded; the
  -- event stays as it is where the server has nothing or an empty text; and where the event has no
  -- key or the server fails, the event is dropped if the configuration says so and stays as it is
  -- if not. It has no other error, and the cache mirrors the server afterwards too.
  pub execute-Direct :
      (t : Clock) (s : S) (enrich : Enrich) (e : Event) (c : Client)
      → text_eq enrich.cfg.key_field [] ≡ false
      → ((v : Value)
          → get_field e enrich.cfg.key_field ≡ some v
          → Fits is_hash enrich.cfg (key_text format v))
      → Synced server is_hash s c
      → (c' : Client) × (r : Result) × (execute server format unmarshal t s enrich (one e) c
          ≡ some (c', r))
        × Keyed s enrich.cfg e (get_field e enrich.cfg.key_field) r
        × Synced server is_hash s c'
  unfolding execute execute_event pass
  execute-Direct t s enrich e c named fits h =
      elim (Option-cases (get_field e enrich.cfg.key_field)) [
        | inl p ↦ (
          c,
          if enrich.cfg.drop_on_error then err drop else ok (one e),
          rw (named, p, execute_event) refl,
          rw p refl,
          h,
        )
        | inr (v, p) ↦
            let (c', r, q, o, h') = event-Direct t s enrich e v c p (fits v p) h in
            (c', r, rw named q, rw p o, h')
      ]
