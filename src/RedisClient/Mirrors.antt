-- ===== src/RedisClient/Mirrors.antt =====
-- A cache that mirrors the server (internal/enrichment/redis/client.go).
use ggt.Prelude.{
  Bool, true, false, ◌&&◌, none, some, List, [], ◌∷◌, ◌≡◌, inl, inr, refl, Text, text_eq,
  text_eq_iff, All, arith, Bool-cases,
}
use ggt.Prelude.Int.{ℤ}
use ggt.Cache.{new_lru_cache}
use ggt.Cache.Refinement.{new-Represents}
use ggt.Prelude.Dict.{lookup}
use ggt.RedisClient.{
  found, Server, Client, Clock, cache_key, get_failed, hget_failed, invalidate, invalidate_all,
}
use ggt.RedisClient.Cached.{Caches, invalidate-Caches}
use ggt.RedisClient.Commands.{get_with_ttl, hget_with_ttl}
use ggt.RedisClient.Calls.{read, has_colon, member, IsString, IsHash}
use ggt.RedisClient.Reads.{read_with_ttl-Caches, has_colon-cache_key, cache_key_inj}

map-Caches :
    (P Q : Text → Text → Type 0) (c : Client)
    → Caches P c
    → ((j s : Text) → P j s → Q j s)
    → Caches Q c
map-Caches P Q c (l, r, h) f = (l, r, λ k i e. let (s, v, q) = h k i e in (s, v, f k s q))

pub text_eq_sym : (k j : Text) → text_eq k j ≡ false → text_eq j k ≡ false
text_eq_sym k j p = ground (arith, text_eq_iff k j, text_eq_iff j k)

pub invalidate_all-Caches :
    (P Q : Text → Text → Type 0) (ks : List Text) (c : Client)
    → Caches P c
    → ((j s : Text) → member j ks ≡ false → P j s → Q j s)
    → Caches Q (invalidate_all ks c)
unfolding invalidate_all
invalidate_all-Caches P Q [] c h f = map-Caches P Q c h (λ j s. f j s refl)
invalidate_all-Caches P Q (k ∷ ks) c h f =
    let R : Text → Text → Type 0 = λ j s. P j s × (text_eq j k ≡ false) in
    invalidate_all-Caches R Q ks (invalidate k c)
      (invalidate-Caches P R k c h (λ j s other p. (p, text_eq_sym k j other)))
      (λ j s out (p, other). f j s (rw other out) p)

none≢some {ℓ} : {A : Type ℓ} {a : A} → none ≡ some a → ⊥
none≢some e = cc

colons : (k j f : Text) → has_colon k ≡ false → k ≡ cache_key j f → ⊥
colons k j f p e = let q : has_colon (cache_key j f) ≡ true = has_colon-cache_key j f in cc

pub other_field :
    (k f i g j : Text)
    → text_eq (cache_key k f) j ≡ false
    → j ≡ cache_key i g
    → text_eq k i && text_eq f g ≡ false
other_field k f i g j other e =
    ground (arith, text_eq_iff k i, text_eq_iff f g, text_eq_iff (cache_key k f) j)

module _ (is_hash : Text → Bool) where
  pub apart : (k j : Text) → is_hash k ≡ false → is_hash j ≡ true → text_eq k j ≡ false
  apart k j p q = elim (Bool-cases (text_eq k j)) [
    | inr other ↦ other
    | inl same ↦ let e : k ≡ j = (text_eq_iff k j).0 same in cc
  ]

  pub strings-apart :
      (ks : List Text) (j : Text)
      → All (IsString is_hash) ks
      → is_hash j ≡ true
      → member j ks ≡ false
  strings-apart [] j h p = refl
  strings-apart (k ∷ ks) j (h, hs) p =
      rw (text_eq_sym k j (apart k j h.0 p)) (strings-apart ks j hs p)

module _ {ℓ} {S : Type ℓ} (server : Server S) (is_hash : Text → Bool) where
  -- The text is what the server holds at what the key of the cache stands for.
  unfoldable pub Mirrors : S → Text → Text → Type 0
  Mirrors s k t =
      (IsString is_hash k → server.get s k ≡ found t)
      × ((j f : Text) → IsHash is_hash j → k ≡ cache_key j f → server.hget s j f ≡ found t)

  pub get-Mirrors :
      (s : S) (k t : Text) → IsString is_hash k → server.get s k ≡ found t → Mirrors s k t
  unfolding Mirrors
  get-Mirrors s k t (p, q) e = (λ _. e, λ j f _ r. absurd (colons k j f q r))

  pub hget-Mirrors :
      (s : S) (k f t : Text)
      → IsHash is_hash k
      → server.hget s k f ≡ found t
      → Mirrors s (cache_key k f) t
  unfolding Mirrors
  hget-Mirrors s k f t (p, q) e = (
    λ (_, u). absurd (colons _ k f u refl),
    λ j g (_, u) r. let (a, b) = cache_key_inj k j f g q u r in rw (← a, ← b) e,
  )

  -- A client whose cache is new, or was used by these calls, while no one else wrote to the server.
  unfoldable pub Synced : S → Client → Type 0
  Synced s c = Caches (Mirrors s) c

  pub get_with_ttl-Direct :
      (t : Clock) (s : S) (k : Text) (ttl : ℤ) (c : Client)
      → IsString is_hash k
      → Synced s c
      → (c' : Client) × (get_with_ttl server t s k ttl c
          ≡ some (c', read get_failed (server.get s k)))
        × Synced s c'
  unfolding Synced get_with_ttl
  get_with_ttl-Direct t s k ttl c may h =
      read_with_ttl-Caches (Mirrors s) t k (server.get s k) get_failed ttl c h
        (λ v m. unfold Mirrors in m.0 may) (λ v. get-Mirrors s k v may)

  pub hget_with_ttl-Direct :
      (t : Clock) (s : S) (k f : Text) (ttl : ℤ) (c : Client)
      → IsHash is_hash k
      → Synced s c
      → (c' : Client) × (hget_with_ttl server t s k f ttl c
          ≡ some (c', read hget_failed (server.hget s k f)))
        × Synced s c'
  unfolding Synced hget_with_ttl
  hget_with_ttl-Direct t s k f ttl c may h =
      read_with_ttl-Caches (Mirrors s) t (cache_key k f) (server.hget s k f) hget_failed ttl c h
        (λ v m. unfold Mirrors in m.1 k f may refl) (λ v. hget-Mirrors s k f v may)

  pub new-Synced :
      (s : S) (max_size ttl ttl' : ℤ)
      → Synced s (record { cache = new_lru_cache max_size ttl; cache_ttl = ttl' })
  unfolding Synced lookup
  new-Synced s max_size ttl ttl' =
      ([], (new-Represents max_size ttl).0, λ k i p. absurd (none≢some p))
