-- ===== src/RedisClient/Commands.antt =====
-- The calls of internal/enrichment/redis/client.go, on any server.
use ggt.Prelude.{ℕ, Option, none, some, List, [], ◌∷◌, Text, codes}
use ggt.Prelude.Int.{ℤ}
use ggt.Prelude.Dict.{Dict}
use ggt.Value.{Value, str}
use ggt.Cache as Cache
use ggt.RedisClient.{
  found, absent, failed, Server, Client, Error, Result, ok, err, Clock, look_up, cache_key,
  read_with_ttl, invalidate, invalidate_all, get_failed, get_json_failed, set_failed,
  set_json_failed, delete_failed, exists_failed, hget_failed, hset_failed, hget_all_failed,
  unmarshal_failed, marshal_failed,
}

module _ {ℓ} {S : Type ℓ} (server : Server S) where
  unfoldable pub get_with_ttl : Clock → S → Text → ℤ → Client → Option (Client × Result Text)
  unfolding read_with_ttl
  get_with_ttl t s key ttl c = read_with_ttl t key (server.get s key) get_failed ttl c

  unfoldable pub get : Clock → S → Text → Client → Option (Client × Result Text)
  unfolding get_with_ttl
  get t s key c = get_with_ttl t s key c.cache_ttl c

  unfoldable pub hget_with_ttl :
      Clock → S → Text → Text → ℤ → Client → Option (Client × Result Text)
  unfolding read_with_ttl
  hget_with_ttl t s key field ttl c =
      read_with_ttl t (cache_key key field) (server.hget s key field) hget_failed ttl c

  unfoldable pub hget : Clock → S → Text → Text → Client → Option (Client × Result Text)
  unfolding hget_with_ttl
  hget t s key field c = hget_with_ttl t s key field c.cache_ttl c

  -- `json.Unmarshal` is an argument; `none` is its error. The result is what is written to `dest`,
  -- `none` where nothing is.
  unfoldable pub get_json :
      (Text → Option Value) → Clock → S → Text → Client → Option (Client × Result (Option Value))
  unfolding look_up
  get_json unmarshal t s key c =
      let (c', cached) = look_up t.at_get key c in
      elim cached [
        | some text ↦ elim (unmarshal text) [
          | none ↦ some (c', err unmarshal_failed)
          | some v ↦ some (c', ok (some v))
        ]
        | none ↦ elim (server.get s key) [
          | absent ↦ some (c', ok none)
          | failed e ↦ some (c', err (get_json_failed e))
          | found val ↦ elim (unmarshal val) [
            | none ↦ some (c', err unmarshal_failed)
            | some v ↦ elim (Cache.set t.at_set key (str val) c'.cache) [
              | none ↦ none
              | some cache ↦ some (record c' { cache = cache }, ok (some v))
            ]
          ]
        ]
      ]

  unfoldable pub set : S → Text → Text → ℤ → Client → S × Client × Option Error
  set s key value expiration c =
      let (s', e) = server.set s key value expiration in
      elim e [ some e ↦ (s', c, some (set_failed e)) | none ↦ (s', invalidate key c, none) ]

  -- `json.Marshal` is an argument; `none` is its error.
  unfoldable pub set_json :
      (Value → Option Text) → S → Text → Value → ℤ → Client → S × Client × Option Error
  set_json marshal s key value expiration c = elim (marshal value) [
    | none ↦ (s, c, some marshal_failed)
    | some text ↦
        let (s', e) = server.set s key text expiration in
        elim e [ some e ↦ (s', c, some (set_json_failed e)) | none ↦ (s', invalidate key c, none) ]
  ]

  unfoldable pub delete : S → List Text → Client → S × Client × Option Error
  unfolding invalidate_all
  delete s [] c = (s, c, none)
  delete s (k ∷ ks) c =
      let (s', e) = server.del s (k ∷ ks) in
      elim e [
        | some e ↦ (s', c, some (delete_failed e))
        | none ↦ (s', invalidate_all (k ∷ ks) c, none)
      ]

  unfoldable pub exists_keys : S → List Text → Result ℕ
  exists_keys s keys = elim (server.exists_count s keys) [
    | found n ↦ ok n
    | absent ↦ err (exists_failed (codes "redis: nil"))
    | failed e ↦ err (exists_failed e)
  ]

  unfoldable pub hset : S → Text → Text → Text → Client → S × Client × Option Error
  hset s key field value c =
      let (s', e) = server.hset s key field value in
      elim e [
        | some e ↦ (s', c, some (hset_failed e))
        | none ↦ (s', invalidate (cache_key key field) c, none)
      ]

  unfoldable pub hget_all : S → Text → Result (Dict Text)
  hget_all s key = elim (server.hget_all s key) [
    | found m ↦ ok m
    | absent ↦ err (hget_all_failed (codes "redis: nil"))
    | failed e ↦ err (hget_all_failed e)
  ]
