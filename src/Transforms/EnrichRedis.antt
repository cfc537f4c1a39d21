-- ===== src/Transforms/EnrichRedis.antt =====
-- internal/enrichment/redis/enrichment.go: a field from a Redis server. Decoding JSON, durations and
-- the text of a value are arguments. `none` stands for a panic of the client.
pub mod Direct
use ggt.Prelude.{
  ℕ, Bool, true, false, ◌||◌, Option, none, some, [], ◌∷◌, ◌==◌, Text, codes, text_eq,
  if◌then◌else◌,
}
use ggt.Prelude.Int.{ℤ, pos}
use ggt.Value.{Value, str}
use ggt.Event.{Event, get_field, set_field}
use ggt.Pipeline.{Payload, one, Result, ok, err, drop, failure}
use ggt.Transforms.{Raw, empty_raw, undecodable, decoded, Configured, refused, configured}
use ggt.HttpClient.{cached_text}
use ggt.RedisClient as RedisClient
use ggt.RedisClient.{Client, Server, Clock, zero_to}
use ggt.RedisClient.Commands.{get_with_ttl, hget_with_ttl}

pub record Config : Type 0 where
  pub key_field : Text
  pub target_field : Text
  pub redis_config : Text
  pub hash_field : Text
  pub cache_ttl : Text
  pub drop_on_error : Bool

pub record Enrich : Type 0 where
  pub cfg : Config
  pub cache_ttl : ℤ

-- `time.ParseDuration` is an argument; `none` is its error.
unfoldable pub configure : (Text → Option ℤ) → Raw Config → Configured Enrich
configure parse_duration empty_raw = refused (codes "config required")
configure parse_duration (undecodable e) = refused e
configure parse_duration (decoded cfg) =
    let named = record cfg {
      redis_config = if text_eq cfg.redis_config [] then codes "default" else cfg.redis_config;
    } in
    if text_eq cfg.key_field []
    then refused (codes "key_field required")
    else if text_eq cfg.target_field []
    then refused (codes "target_field required")
    else if text_eq cfg.cache_ttl []
    then configured (record { cfg = named; cache_ttl = pos 300000000000 })
    else elim (parse_duration cfg.cache_ttl) [
      | none ↦ refused (codes "invalid cache_ttl")
      | some ttl ↦ configured (record { cfg = named; cache_ttl = ttl })
    ]

-- a missing key or an error: `ErrDrop`, or the event as it is
unfoldable pub pass : Config → Event → Result
pass cfg e = if cfg.drop_on_error then err drop else ok (one e)

abbrev pub key_text : (Value → Text) → Value → Text
key_text format v = elim (cached_text v) [ some s ↦ s | none ↦ format v ]

-- the text that was read, decoded where it looks like JSON and can be
unfoldable pub enriched : (Text → Option Value) → Text → Value
enriched unmarshal [] = str []
enriched unmarshal (c ∷ s) =
    let text = str (c ∷ s) in
    if (c == 123) || (c == 91) then elim (unmarshal (c ∷ s)) [ none ↦ text | some v ↦ v ] else text

unfoldable pub finish : (Text → Option Value) → Config → Event → RedisClient.Result Text → Result
unfolding pass enriched
finish unmarshal cfg e (RedisClient.err _) = pass cfg e
finish unmarshal cfg e (RedisClient.ok []) = ok (one e)
finish unmarshal cfg e (RedisClient.ok (c ∷ s)) =
    ok (one (set_field e cfg.target_field (enriched unmarshal (c ∷ s))))

abbrev answered :
    (Text → Option Value)
    → Config
    → Event
    → Option (Client × RedisClient.Result Text)
    → Option (Client × Result)
answered unmarshal cfg e none = none
answered unmarshal cfg e (some (c, r)) = some (c, finish unmarshal cfg e r)

module _ {ℓ} {S : Type ℓ} (server : Server S) (format : Value → Text)
    (unmarshal : Text → Option Value) where
  unfoldable pub execute_event : Clock → S → Enrich → Event → Client → Option (Client × Result)
  unfolding pass finish
  execute_event t s enrich e c =
      let cfg = enrich.cfg in
      elim (get_field e cfg.key_field) [
        | none ↦ some (c, pass cfg e)
        | some v ↦
            let key = key_text format v in
            answered unmarshal cfg e (
              if text_eq cfg.hash_field []
              then get_with_ttl server t s key enrich.cache_ttl c
              else hget_with_ttl server t s key cfg.hash_field enrich.cache_ttl c)
      ]

  unfoldable pub execute : Clock → S → Enrich → Payload → Client → Option (Client × Result)
  unfolding execute_event
  execute t s enrich p c =
      if text_eq enrich.cfg.key_field []
      then some (c, err (failure (codes "not configured")))
      else elim p [
        | one e ↦ execute_event t s enrich e c
        | _ ↦ some (c, err (failure (codes "unexpected payload type")))
      ]
