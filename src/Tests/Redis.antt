-- ===== src/Tests/Redis.antt =====
-- A Redis client in front of a server that keeps strings and hashes as functions
-- (internal/enrichment/redis/client.go).
use ggt.Prelude.{
  ℕ, Bool, true, ◌&&◌, Option, none, some, List, [], ◌∷◌, ◌≡◌, refl, Text, codes, text_eq, arith,
  if◌then◌else◌, Bool-cases,
}
use ggt.Prelude.Int.{pos}
use ggt.Value.{str}
use ggt.Cache.{add_time, is_after, new_lru_cache}
use ggt.Cache.Refinement.{new-Represents}
use ggt.RedisClient.{Answer, found, absent, failed, Server, Client, Clock, ok, look_up}
use ggt.RedisClient.Commands.{get_with_ttl, hget_with_ttl, delete}
use ggt.RedisClient.Calls.{
  Call, Json, member, get_call, get_json_call, hget_call, set_call, delete_call, hset_call,
}
use ggt.RedisClient.Stale.{hget-get, hget-delete}
use ggt.RedisClient.Mirrors.{Synced, new-Synced}

abbrev pub State : Type 0
State = (Text → Option Text) × (Text → Text → Option Text)

abbrev answer : Option Text → Answer Text
answer none = absent
answer (some s) = found s

-- A hash cannot be written at the key of a string.
abbrev hset_state : State → Text → Text → Text → State × Option Text
hset_state (m, h) k f v = elim (m k) [
  | some s ↦ ((m, h), some (codes "WRONGTYPE"))
  | none ↦ ((m, λ j g. if text_eq k j && text_eq f g then some v else h j g), none)
]

abbrev pub server : Server State
server = record {
  get = λ (m, h) k. answer (m k);
  set = λ (m, h) k v x. (
    (λ j. if text_eq k j then some v else m j, λ j f. if text_eq k j then none else h j f),
    none,
  );
  del = λ (m, h) ks.
      ((λ j. if member j ks then none else m j, λ j f. if member j ks then none else h j f), none);
  exists_count = λ s ks. failed (codes "unknown command");
  hget = λ (m, h) k f. answer (h k f);
  hset = hset_state;
  hget_all = λ s k. failed (codes "unknown command");
}

none≢some {ℓ} : {A : Type ℓ} {a : A} → none ≡ some a → ⊥
none≢some h = cc

abbrev pub json : Json
json = record { marshal = λ v. elim v [ str s ↦ some s | _ ↦ none ]; unmarshal = λ s. some (str s) }

abbrev pub is_hash : Text → Bool
is_hash k = text_eq k (codes "users")

abbrev pub start : State
start = (
  λ k. none,
  λ k f. if text_eq k (codes "users") && text_eq f (codes "1") then some (codes "ann") else none,
)

abbrev pub client : Client
client = record { cache = new_lru_cache (pos 1) (pos 100); cache_ttl = pos 100 }

abbrev pub at : ℕ → Clock
at now = record { at_get = now; at_set = now }

pub client-Synced : Synced server is_hash start client
client-Synced = new-Synced server is_hash start (pos 1) (pos 100) (pos 100)

-- the second get is served from the cache, the third misses for the hash took its place, and a hash
-- cannot be written at the key of a string
abbrev calls : List Call
calls =
    set_call (codes "a") (codes "x") (pos 0)
    ∷ get_call (at 1) (codes "a") (pos 50)
    ∷ get_call (at 2) (codes "a") (pos 50)
    ∷ hget_call (at 3) (codes "users") (codes "1") (pos 50)
    ∷ hset_call (codes "users") (codes "1") (codes "bob")
    ∷ hget_call (at 4) (codes "users") (codes "1") (pos 50)
    ∷ delete_call (codes "a" ∷ [])
    ∷ get_json_call (at 5) (codes "a")
    ∷ []

abbrev cleared : State
cleared = (λ k. none, λ k f. none)

hget-get_example :
    (c' : Client) × (c'' : Client) × (hget_with_ttl server
        (at 1)
        start
        (codes "users")
        (codes "1")
        (pos 50)
        client
      ≡ some (c', ok (codes "ann")))
    × (get_with_ttl server (at 9) cleared (codes "users:1") (pos 50) c'
        ≡ some (c'', ok (codes "ann")))
unfolding text_eq look_up ggt.Cache.get ggt.Prelude.Dict.lookup new_lru_cache
hget-get_example =
    hget-get server (at 1) (at 9) start cleared (codes "users") (codes "1") (codes "ann") (pos 50)
      (pos 50) client ([], (new-Represents (pos 1) (pos 100)).0) refl refl refl

hget-delete_example :
    (c' : Client) × (c'' : Client) × (d : Client) × (hget_with_ttl server
        (at 1)
        start
        (codes "users")
        (codes "1")
        (pos 50)
        client
      ≡ some (c', ok (codes "ann")))
    × (delete server start (codes "users" ∷ []) c'
        ≡ ((server.del start (codes "users" ∷ [])).0, c'', none))
    × (hget_with_ttl server (at 9) cleared (codes "users") (codes "1") (pos 50) c''
        ≡ some (d, ok (codes "ann")))
unfolding text_eq look_up ggt.Cache.get ggt.Prelude.Dict.lookup new_lru_cache
hget-delete_example =
    hget-delete server (at 1) (at 9) start start cleared (codes "users") (codes "1") (codes "ann")
      (pos 50) (pos 50) client ([], (new-Represents (pos 1) (pos 100)).0) refl refl refl refl
