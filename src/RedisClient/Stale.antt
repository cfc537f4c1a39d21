-- ===== src/RedisClient/Stale.antt =====
-- Where a client of internal/enrichment/redis/client.go answers with what the server no longer
-- holds: fields of hashes in the cache.
use ggt.Prelude.{
  ℕ, false, none, some, [], ◌∷◌, ◌++◌, ◌≡◌, refl, ap, ◌∙◌, Text, codes, text_eq, text_eq_iff,
  length, length-append, arith, Option-cases, Bool-cases, inl, inr,
}
use ggt.Prelude.Int.{ℤ}
use ggt.Prelude.Dict.{lookup, remove, lookup-remove}
use ggt.Value.{str}
use ggt.Cache as Cache
use ggt.Cache.{add_time, is_after}
use ggt.Cache.Spec.{Recent, recent_get}
use ggt.Cache.Refinement.{Represents, get-Represents, set-Represents, delete-Represents}
use ggt.HttpClient.{cached_text, is_nil}
use ggt.HttpClient.Cached.{lookup-recent_set}
use ggt.RedisClient.{
  Answer, found, Server, Client, Error, ok, Clock, look_up, store, cache_key, read_with_ttl,
  invalidate, invalidate_all, get_failed, hget_failed,
}
use ggt.RedisClient.Commands.{get_with_ttl, hget_with_ttl, delete}

-- The cache stands for a list that has the text for the key until the time.
Fresh : ℤ → Text → Text → Client → Type 0
Fresh expiry key s c =
    (l : Recent) × Represents c.cache l
    × (lookup key l ≡ some (record { value = str s; expiry = expiry }))

look_up-Represents :
    (now : ℕ) (k : Text) (c : Client) (l : Recent)
    → Represents c.cache l
    → (l' : Recent) × Represents (look_up now k c).0.cache l'
unfolding look_up
look_up-Represents now k c l r =
    let (r', _) = get-Represents now k c.cache l r in
    elim (Option-cases (cached_text (Cache.get now k c.cache).1)) [
      | inr (s, p) ↦ rw (p, look_up) (_, r')
      | inl p ↦ elim (Bool-cases (is_nil (Cache.get now k c.cache).1)) [
        | inl q ↦ rw (p, q, look_up) (_, r')
        | inr q ↦ rw (p, q, look_up) (_, delete-Represents k _ _ r')
      ]
    ]

store-Fresh :
    (now : ℕ) (key s : Text) (ttl : ℤ) (c : Client) (l : Recent)
    → Represents c.cache l
    → (c' : Client) × (store now key s ttl c ≡ some (c', ok s)) × Fresh (add_time now ttl) key s c'
unfolding store Fresh
store-Fresh now key s ttl c l r =
    let (cache, e, r', _, _) = set-Represents now key (str s) ttl c.cache l r in
    (
      record c { cache = cache },
      rw (e, store) refl,
      (_, r', lookup-recent_set c.cache.max_size now key (str s) ttl l),
    )

-- a read of a fresh key, whatever the server would answer
read-Fresh :
    (t : Clock) (key s : Text) (a : Answer Text) (wrap : Text → Error) (expiry ttl : ℤ) (c : Client)
    → Fresh expiry key s c
    → is_after t.at_get expiry ≡ false
    → (c' : Client) × (read_with_ttl t key a wrap ttl c ≡ some (c', ok s))
unfolding Fresh read_with_ttl look_up recent_get
read-Fresh t key s a wrap expiry ttl c (l, r, p) live =
    let v : (Cache.get t.at_get key c.cache).1 ≡ str s =
      (get-Represents t.at_get key c.cache l r).1 ∙ rw (p, recent_get, live) refl in
    let hit : (look_up t.at_get key c).1 ≡ some s = rw (v, look_up) refl in
    ((look_up t.at_get key c).0, rw (hit, read_with_ttl) refl)

-- a text that the server has, read after a miss
read-store :
    (t : Clock) (key s : Text) (wrap : Text → Error) (ttl : ℤ) (c : Client) (l : Recent)
    → Represents c.cache l
    → (look_up t.at_get key c).1 ≡ none
    → (c' : Client) × (read_with_ttl t key (found s) wrap ttl c ≡ some (c', ok s))
      × Fresh (add_time t.at_set ttl) key s c'
unfolding read_with_ttl
read-store t key s wrap ttl c l r miss =
    let (l', r') = look_up-Represents t.at_get key c l r in
    let (c', e, f) = store-Fresh t.at_set key s ttl (look_up t.at_get key c).0 l' r' in
    (c', rw (miss, read_with_ttl) e, f)

invalidate-Fresh :
    (expiry : ℤ) (key s k : Text) (c : Client)
    → text_eq k key ≡ false
    → Fresh expiry key s c
    → Fresh expiry key s (invalidate k c)
unfolding Fresh
invalidate-Fresh expiry key s k c other (l, r, p) =
    (remove k l, delete-Represents k c.cache l r, rw (lookup-remove k key l, other) p)

longer : (k f : Text) → text_eq k (cache_key k f) ≡ false
longer k f = elim (Bool-cases (text_eq k (cache_key k f))) [
  | inr other ↦ other
  | inl same ↦
      let e : length k ≡ length (cache_key k f) =
        ap length ((text_eq_iff k (cache_key k f)).0 same) in
      absurd (omega (arith, e, length-append (k ++ codes ":") f, length-append k (codes ":")))
]

-- A client whose cache was made and used by its operations.
abbrev pub IsValid : Client → Type 0
IsValid c = (l : Recent) × Represents c.cache l

module _ {ℓ} {S : Type ℓ} (server : Server S) where
  hget-Fresh :
      (t : Clock) (s : S) (k f v : Text) (ttl : ℤ) (c : Client)
      → IsValid c
      → (look_up t.at_get (cache_key k f) c).1 ≡ none
      → server.hget s k f ≡ found v
      → (c' : Client) × (hget_with_ttl server t s k f ttl c ≡ some (c', ok v))
        × Fresh (add_time t.at_set ttl) (cache_key k f) v c'
  unfolding hget_with_ttl
  hget-Fresh t s k f v ttl c (l, r) miss e =
      let (c', e', fresh) = read-store t (cache_key k f) v hget_failed ttl c l r miss in
      (c', rw (e, hget_with_ttl) e', fresh)

  -- If the cache of a valid client misses a field of a hash, a text that `hget_with_ttl` then reads
  -- there is what `get_with_ttl` answers for the plain key `key:field`, for as long as the entry
  -- lives and whatever the server holds at that key: the two share an entry of the cache.
  pub hget-get :
      (t t' : Clock) (s s' : S) (k f v : Text) (ttl ttl' : ℤ) (c : Client)
      → IsValid c
      → (look_up t.at_get (cache_key k f) c).1 ≡ none
      → server.hget s k f ≡ found v
      → is_after t'.at_get (add_time t.at_set ttl) ≡ false
      → (c' : Client) × (c'' : Client) × (hget_with_ttl server t s k f ttl c ≡ some (c', ok v))
        × (get_with_ttl server t' s' (cache_key k f) ttl' c' ≡ some (c'', ok v))
  unfolding get_with_ttl
  hget-get t t' s s' k f v ttl ttl' c h miss e live =
      let (c', e', fresh) = hget-Fresh t s k f v ttl c h miss e in
      let (c'', e'') =
        read-Fresh t' (cache_key k f) v (server.get s' (cache_key k f)) get_failed _ ttl' c' fresh
          live in
      (c', c'', e', e'')

  -- If the cache of a valid client misses a field of a hash, a text that `hget_with_ttl` then reads
  -- there is what it still answers after `delete` has removed the key of the hash from the server,
  -- for as long as the entry lives and whatever the server holds by then.
  pub hget-delete :
      (t t' : Clock) (s s' s'' : S) (k f v : Text) (ttl ttl' : ℤ) (c : Client)
      → IsValid c
      → (look_up t.at_get (cache_key k f) c).1 ≡ none
      → server.hget s k f ≡ found v
      → (server.del s' (k ∷ [])).1 ≡ none
      → is_after t'.at_get (add_time t.at_set ttl) ≡ false
      → (c' : Client) × (c'' : Client) × (d : Client) × (hget_with_ttl server t s k f ttl c
          ≡ some (c', ok v))
        × (delete server s' (k ∷ []) c' ≡ ((server.del s' (k ∷ [])).0, c'', none))
        × (hget_with_ttl server t' s'' k f ttl' c'' ≡ some (d, ok v))
  unfolding hget_with_ttl delete invalidate_all
  hget-delete t t' s s' s'' k f v ttl ttl' c h miss e deleted live =
      let (c', e', fresh) = hget-Fresh t s k f v ttl c h miss e in
      let still = invalidate-Fresh _ (cache_key k f) v k c' (longer k f) fresh in
      let (d, e'') =
        read-Fresh t' (cache_key k f) v (server.hget s'' k f) hget_failed _ ttl' (invalidate k c')
          still live in
      (c', invalidate k c', d, e', rw (deleted, delete) refl, e'')
