-- ===== src/RedisClient/Transparent.antt =====
-- The cache in front of the server (internal/enrichment/redis/client.go): callers do not see it.
use ggt.Prelude.{Bool, some, ◌≡◌, Text}
use ggt.RedisClient.{Server, Client}
use ggt.RedisClient.Cached.{Caches}
use ggt.RedisClient.Calls.{Call, Json, step, direct, IsLawful}
use ggt.RedisClient.Mirrors.{Mirrors}

module _ {ℓ} {S : Type ℓ} (server : Server S) (json : Json) (law : IsLawful server)
    (is_hash : Text → Bool) where
  Simulated : Call → S → Client → Type ℓ
  Simulated call s c =
      (c' : Client) × (step server json call s c
        ≡ some ((direct server json call s).0, c', (direct server json call s).1))
      × Caches (Mirrors server is_hash (direct server json call s).0) c'
