-- ===== src/RedisClient/Reads.antt =====
-- Reads through the cache, and its keys (internal/enrichment/redis/client.go).
use ggt.Prelude.{
  true, false, Option, some, [], ◌∷◌, ◌≡◌, ◌⊎◌, inl, inr, refl, Text, arith, Option-cases,
}
use ggt.Prelude.Int.{ℤ}
use ggt.Value.{Value}
use ggt.Cache as Cache
use ggt.RedisClient.{
  Answer, found, absent, failed, Server, Client, Error, Clock, look_up, cache_key, read_with_ttl,
}
use ggt.RedisClient.Cached.{Caches, look_up-Caches, set-Caches, store-Caches}
use ggt.RedisClient.Commands.{get_json}
use ggt.RedisClient.Calls.{read, decode, has_colon}

Answer-cases :
    (a : Answer Text)
    → (a ≡ absent) ⊎ (((e : Text) × (a ≡ failed e)) ⊎ ((s : Text) × (a ≡ found s)))
Answer-cases absent = inl refl
Answer-cases (failed e) = inr (inl (e, refl))
Answer-cases (found s) = inr (inr (s, refl))

-- Reading through the cache, where what is cached at the key is what the server answers.
pub read_with_ttl-Caches :
    (P : Text → Text → Type 0) (t : Clock) (key : Text) (a : Answer Text) (wrap : Text → Error)
    (ttl : ℤ) (c : Client)
    → Caches P c
    → ((s : Text) → P key s → a ≡ found s)
    → ((s : Text) → a ≡ found s → P key s)
    → (c' : Client) × (read_with_ttl t key a wrap ttl c ≡ some (c', read wrap a)) × Caches P c'
unfolding read_with_ttl
read_with_ttl-Caches P t key a wrap ttl c h f g =
    let (h', q, _) = look_up-Caches P t.at_get key c h in
    let c' = (look_up t.at_get key c).0 in
    elim (Option-cases (look_up t.at_get key c).1) [
      | inr (s, p) ↦ (c', rw (p, f s (q s p), read_with_ttl) refl, h')
      | inl p ↦ elim (Answer-cases a) [
        | inl e ↦ (c', rw (p, e, read_with_ttl) refl, h')
        | inr (inl (x, e)) ↦ (c', rw (p, e, read_with_ttl) refl, h')
        | inr (inr (s, e)) ↦
            let (d, r, h'') = store-Caches P t.at_set key s ttl c' h' (g s e) in
            (d, rw (p, e, read_with_ttl) r, h'')
      ]
    ]

module _ {ℓ} {S : Type ℓ} (server : Server S) where
  pub get_json-Caches :
      (P : Text → Text → Type 0) (unmarshal : Text → Option Value) (t : Clock) (s : S) (key : Text)
      (c : Client)
      → Caches P c
      → ((v : Text) → P key v → server.get s key ≡ found v)
      → ((v : Text) → server.get s key ≡ found v → P key v)
      → (c' : Client) × (get_json server unmarshal t s key c
          ≡ some (c', decode unmarshal (server.get s key)))
        × Caches P c'
  unfolding get_json Cache.set
  get_json-Caches P unmarshal t s key c h f g =
      let (h', q, _) = look_up-Caches P t.at_get key c h in
      let c' = (look_up t.at_get key c).0 in
      elim (Option-cases (look_up t.at_get key c).1) [
        | inr (v, p) ↦ elim (Option-cases (unmarshal v)) [
          | inl u ↦ (c', rw (p, f v (q v p), u, get_json) (rw (u, decode) refl), h')
          | inr (x, u) ↦ (c', rw (p, f v (q v p), u, get_json) (rw (u, decode) refl), h')
        ]
        | inl p ↦ elim (Answer-cases (server.get s key)) [
          | inl e ↦ (c', rw (p, e, get_json) refl, h')
          | inr (inl (x, e)) ↦ (c', rw (p, e, get_json) refl, h')
          | inr (inr (v, e)) ↦ elim (Option-cases (unmarshal v)) [
            | inl u ↦ (c', rw (p, e, u, get_json) (rw (u, decode) refl), h')
            | inr (x, u) ↦
                let (cache, r, h'') = set-Caches P t.at_set key v c'.cache.ttl c' h' (g v e) in
                (
                  record c' { cache = cache },
                  rw (p, e, u, get_json) (rw (u, r, decode, Cache.set) refl),
                  h'',
                )
          ]
        ]
      ]

pub has_colon-cache_key : (k f : Text) → has_colon (cache_key k f) ≡ true
has_colon-cache_key [] f = refl
has_colon-cache_key (c ∷ k) f = ground (arith, has_colon-cache_key k f)

-- Without a colon in the key of the hash, a key of the cache tells it and the field.
pub cache_key_inj :
    (k j f g : Text)
    → has_colon k ≡ false
    → has_colon j ≡ false
    → cache_key k f ≡ cache_key j g
    → (k ≡ j) × (f ≡ g)
cache_key_inj [] [] f g p q e = ground arith
cache_key_inj [] (d ∷ j) f g p q e = ground arith
cache_key_inj (c ∷ k) [] f g p q e = ground arith
cache_key_inj (c ∷ k) (d ∷ j) f g p q e = ground (arith, cache_key_inj k j f g)
