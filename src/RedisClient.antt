-- ===== src/RedisClient.antt =====
-- internal/enrichment/redis/client.go: a client of a Redis server with the LRU cache in front. The
-- server is an argument, by its commands; its state goes from call to call. `none` stands for the
-- panic of a nil pointer in the cache.
pub mod Cached
pub mod Calls
pub mod Commands
pub mod Mirrors
pub mod Reads
pub mod Stale
pub mod Transparent
use ggt.Prelude.{
  ℕ, zero, suc, Bool, Option, none, some, List, [], ◌∷◌, ◌++◌, Text, codes, if◌then◌else◌,
}
use ggt.Prelude.Int.{ℤ, pos, negsuc}
use ggt.Prelude.Dict.{Dict}
use ggt.Value.{Value, str, null}
use ggt.Cache as Cache
use ggt.Cache.{new_lru_cache}
use ggt.HttpClient.{cached_text, is_nil}

-- What a command answers: a value, `redis.Nil`, or another error.
pub data Answer {ℓ} (A : Type ℓ) : Type ℓ where
  found : A → Answer A
  absent : Answer A
  failed : Text → Answer A

-- The commands that the client sends. One that reads leaves the state as it is; one that writes
-- says whether there was an error, which leaves open whether it was applied. The state changes by
-- commands alone, so no key expires in it.
pub record Server {ℓ} (S : Type ℓ) : Type ℓ where
  pub get : S → Text → Answer Text
  pub set : S → Text → Text → ℤ → S × Option Text
  pub del : S → List Text → S × Option Text
  pub exists_count : S → List Text → Answer ℕ
  pub hget : S → Text → Text → Answer Text
  pub hset : S → Text → Text → Text → S × Option Text
  pub hget_all : S → Text → Answer (Dict Text)

pub record ClientConfig : Type 0 where
  pub addr : Text
  pub password : Text
  pub db : ℤ
  pub max_retries : Option ℤ
  pub pool_size : Option ℤ
  pub cache_ttl : Option ℤ
  pub cache_size : ℤ

pub record Options : Type 0 where
  pub addr : Text
  pub password : Text
  pub db : ℤ
  pub max_retries : ℤ
  pub pool_size : ℤ

pub record Client : Type 0 where
  pub cache : Cache.Cache
  pub cache_ttl : ℤ

pub data Error : Type 0 where
  ping_failed get_failed get_json_failed set_failed set_json_failed : Text → Error
  delete_failed exists_failed hget_failed hset_failed hget_all_failed : Text → Error
  unmarshal_failed marshal_failed : Error

pub data Result {ℓ} (A : Type ℓ) : Type ℓ where
  ok : A → Result A
  err : Error → Result A

-- The clock when a call looks into the cache and when it writes to it.
pub record Clock : Type 0 where
  pub at_get : ℕ
  pub at_set : ℕ

abbrev pub default_to {ℓ} : {A : Type ℓ} → Option A → A → A
default_to (some a) b = a
default_to none b = b

abbrev pub zero_to : ℤ → ℤ → ℤ
zero_to (pos zero) b = b
zero_to a b = a

-- a configuration with every field set, and no `nil`
unfoldable pub default_client_config : ClientConfig
default_client_config = record {
  addr = codes "localhost:6379";
  password = [];
  db = pos 0;
  max_retries = some (pos 3);
  pool_size = some (pos 10);
  cache_ttl = some (pos 300000000000);
  cache_size = pos 1000;
}

unfoldable pub with_defaults : Option ClientConfig → ClientConfig
unfolding default_client_config
with_defaults none = default_client_config
with_defaults (some cfg) = record cfg {
  addr = elim cfg.addr [ [] ↦ codes "localhost:6379" | c ∷ s ↦ c ∷ s ];
  max_retries = some (default_to cfg.max_retries (pos 3));
  pool_size = some (default_to cfg.pool_size (pos 10));
  cache_ttl = some (default_to cfg.cache_ttl (pos 300000000000));
  cache_size = zero_to cfg.cache_size (pos 1000);
}

unfoldable pub options : ClientConfig → Options
options cfg = record {
  addr = cfg.addr;
  password = cfg.password;
  db = cfg.db;
  max_retries = default_to cfg.max_retries (pos 0);
  pool_size = default_to cfg.pool_size (pos 0);
}

-- `NewClient`; what the ping at the options comes to is an argument.
unfoldable pub new_client : (Options → Option Text) → Option ClientConfig → Result Client
unfolding with_defaults options
new_client ping config =
    let cfg = with_defaults config in
    let ttl = default_to cfg.cache_ttl (pos 0) in
    elim (ping (options cfg)) [
      | some e ↦ err (ping_failed e)
      | none ↦ ok (record { cache = new_lru_cache cfg.cache_size ttl; cache_ttl = ttl })
    ]

-- The cached text at a key; an entry of another type is dropped.
unfoldable pub look_up : ℕ → Text → Client → Client × Option Text
look_up now key c =
    let (cache, cached) = Cache.get now key c.cache in
    elim (cached_text cached) [
      | some s ↦ (record c { cache = cache }, some s)
      | none ↦ (record c { cache = if is_nil cached then cache else Cache.delete key cache }, none)
    ]

-- a text read from the server, into the cache
unfoldable pub store : ℕ → Text → Text → ℤ → Client → Option (Client × Result Text)
store now key val ttl c = elim (Cache.set_with_ttl now key (str val) ttl c.cache) [
  | none ↦ none
  | some cache ↦ some (record c { cache = cache }, ok val)
]

-- `c.cache.Delete(key)`
abbrev pub invalidate : Text → Client → Client
invalidate key c = record c { cache = Cache.delete key c.cache }

-- `for _, key := range keys { c.cache.Delete(key) }`
unfoldable pub invalidate_all : List Text → Client → Client
invalidate_all [] c = c
invalidate_all (k ∷ ks) c = invalidate_all ks (invalidate k c)

abbrev pub cache_key : Text → Text → Text
cache_key key field = key ++ codes ":" ++ field

-- What `GetWithTTL` and `HGetWithTTL` have in common: the key in the cache, the answer of the
-- server after a miss, and how its error is wrapped.
unfoldable pub read_with_ttl :
    Clock → Text → Answer Text → (Text → Error) → ℤ → Client → Option (Client × Result Text)
unfolding look_up store
read_with_ttl t key answer wrap ttl c =
    let (c', cached) = look_up t.at_get key c in
    elim cached [
      | some s ↦ some (c', ok s)
      | none ↦ elim answer [
        | absent ↦ some (c', ok [])
        | failed e ↦ some (c', err (wrap e))
        | found val ↦ store t.at_set key val ttl c'
      ]
    ]

-- `Close`, the cache's part
unfoldable pub close : Client → Client
close c = record c { cache = Cache.clear c.cache }

-- `CacheStats`
unfoldable pub cache_stats : Client → ℕ
cache_stats c = Cache.size c.cache
