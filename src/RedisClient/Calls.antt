-- ===== src/RedisClient/Calls.antt =====
-- Any calls of internal/enrichment/redis/client.go, and what they come to without a cache. Keys of
-- strings and keys of hashes are apart, by an argument.
use ggt.Prelude.{
  Bool, true, false, ◌&&◌, ◌||◌, Option, none, some, List, [], ◌∷◌, ◌==◌, ◌≡◌, ◌⊎◌, Text, text_eq,
  All,
}
use ggt.Prelude.Int.{ℤ, pos}
use ggt.Value.{Value}
use ggt.RedisClient.{
  Answer, found, absent, failed, Server, Client, Error, Result, ok, err, Clock, get_failed,
  get_json_failed, set_failed, set_json_failed, delete_failed, hget_failed, hset_failed,
  unmarshal_failed, marshal_failed,
}
use ggt.RedisClient.Commands.{get_with_ttl, get_json, hget_with_ttl, set, set_json, delete, hset}

pub data Call : Type 0 where
  get_call : Clock → Text → ℤ → Call
  get_json_call : Clock → Text → Call
  hget_call : Clock → Text → Text → ℤ → Call
  set_call : Text → Text → ℤ → Call
  set_json_call : Text → Value → ℤ → Call
  delete_call : List Text → Call
  hset_call : Text → Text → Text → Call

pub data Reply : Type 0 where
  text_reply : Result Text → Reply
  json_reply : Result (Option Value) → Reply
  write_reply : Option Error → Reply

-- What the encoder and the decoder of JSON do.
pub record Json : Type 0 where
  pub marshal : Value → Option Text
  pub unmarshal : Text → Option Value

abbrev replied {ℓ κ} :
    {S : Type ℓ} {A : Type κ} → S → (A → Reply) → Option (Client × A) → Option (S × Client × Reply)
replied s reply none = none
replied s reply (some (c, a)) = some (s, c, reply a)

abbrev wrote {ℓ} : {S : Type ℓ} → S × Client × Option Error → Option (S × Client × Reply)
wrote (s, c, e) = some (s, c, write_reply e)

-- A read without the cache.
abbrev pub read : (Text → Error) → Answer Text → Result Text
read wrap (found s) = ok s
read wrap absent = ok []
read wrap (failed e) = err (wrap e)

abbrev pub decode : (Text → Option Value) → Answer Text → Result (Option Value)
decode unmarshal absent = ok none
decode unmarshal (failed e) = err (get_json_failed e)
decode unmarshal (found s) = elim (unmarshal s) [
  | none ↦ err unmarshal_failed
  | some v ↦ ok (some v)
]

abbrev pub error_of : (Text → Error) → Option Text → Option Error
error_of wrap none = none
error_of wrap (some e) = some (wrap e)

module _ {ℓ} {S : Type ℓ} (server : Server S) (json : Json) where
  unfoldable pub step : Call → S → Client → Option (S × Client × Reply)
  step (get_call t k ttl) s c = replied s text_reply (get_with_ttl server t s k ttl c)
  step (get_json_call t k) s c = replied s json_reply (get_json server json.unmarshal t s k c)
  step (hget_call t k f ttl) s c = replied s text_reply (hget_with_ttl server t s k f ttl c)
  step (set_call k v x) s c = wrote (set server s k v x c)
  step (set_json_call k v x) s c = wrote (set_json server json.marshal s k v x c)
  step (delete_call ks) s c = wrote (delete server s ks c)
  step (hset_call k f v) s c = wrote (hset server s k f v c)

  unfoldable pub run : List Call → S → Client → Option (S × Client × List Reply)
  run [] s c = some (s, c, [])
  run (call ∷ calls) s c = elim (step call s c) [
    | none ↦ none
    | some (s', c', r) ↦ elim (run calls s' c') [
      | none ↦ none
      | some (s'', c'', rs) ↦ some (s'', c'', r ∷ rs)
    ]
  ]

  -- The call on the server alone.
  unfoldable pub direct : Call → S → S × Reply
  direct (get_call t k ttl) s = (s, text_reply (read get_failed (server.get s k)))
  direct (get_json_call t k) s = (s, json_reply (decode json.unmarshal (server.get s k)))
  direct (hget_call t k f ttl) s = (s, text_reply (read hget_failed (server.hget s k f)))
  direct (set_call k v x) s =
      let (s', e) = server.set s k v x in (s', write_reply (error_of set_failed e))
  direct (set_json_call k v x) s = elim (json.marshal v) [
    | none ↦ (s, write_reply (some marshal_failed))
    | some text ↦
        let (s', e) = server.set s k text x in (s', write_reply (error_of set_json_failed e))
  ]
  direct (delete_call []) s = (s, write_reply none)
  direct (delete_call (k ∷ ks)) s =
      let (s', e) = server.del s (k ∷ ks) in (s', write_reply (error_of delete_failed e))
  direct (hset_call k f v) s =
      let (s', e) = server.hset s k f v in (s', write_reply (error_of hset_failed e))

  unfoldable pub direct_run : List Call → S → S × List Reply
  direct_run [] s = (s, [])
  direct_run (call ∷ calls) s =
      let (s', r) = direct call s in let (s'', rs) = direct_run calls s' in (s'', r ∷ rs)

abbrev pub has_colon : Text → Bool
has_colon [] = false
has_colon (c ∷ s) = (c == 58) || has_colon s

abbrev pub member : Text → List Text → Bool
member k [] = false
member k (j ∷ js) = text_eq k j || member k js

module _ (is_hash : Text → Bool) where
  -- a key of a string, or of a hash, without a colon
  abbrev pub IsString : Text → Type 0
  IsString k = (is_hash k ≡ false) × (has_colon k ≡ false)

  abbrev pub IsHash : Text → Type 0
  IsHash k = (is_hash k ≡ true) × (has_colon k ≡ false)

  abbrev pub Allowed : Call → Type 0
  Allowed (get_call t k ttl) = IsString k
  Allowed (get_json_call t k) = IsString k
  Allowed (hget_call t k f ttl) = IsHash k
  Allowed (set_call k v x) = IsString k
  Allowed (set_json_call k v x) = IsString k
  Allowed (delete_call ks) = All IsString ks
  Allowed (hset_call k f v) = IsHash k

-- What a server does to the keys that a command does not name.
pub record IsLawful {ℓ} {S : Type ℓ} (server : Server S) : Type ℓ where
  pub set-get :
      (s : S) (k v : Text) (x : ℤ) (j : Text)
      → text_eq k j ≡ false
      → server.get (server.set s k v x).0 j ≡ server.get s j
  pub set-hget :
      (s : S) (k v : Text) (x : ℤ) (j f : Text)
      → text_eq k j ≡ false
      → server.hget (server.set s k v x).0 j f ≡ server.hget s j f
  pub del-get :
      (s : S) (ks : List Text) (j : Text)
      → member j ks ≡ false
      → server.get (server.del s ks).0 j ≡ server.get s j
  pub del-hget :
      (s : S) (ks : List Text) (j f : Text)
      → member j ks ≡ false
      → server.hget (server.del s ks).0 j f ≡ server.hget s j f
  pub hset-get :
      (s : S) (k f v j : Text)
      → text_eq k j ≡ false
      → server.get (server.hset s k f v).0 j ≡ server.get s j
  pub hset-hget :
      (s : S) (k f v j g : Text)
      → text_eq k j && text_eq f g ≡ false
      → server.hget (server.hset s k f v).0 j g ≡ server.hget s j g

-- A write that succeeds, or has changed nothing where it fails.
abbrev pub IsSettled {ℓ} : {S : Type ℓ} → S → S × Option Text → Type ℓ
IsSettled s (s', e) = (e ≡ none) ⊎ (s' ≡ s)

module _ {ℓ} {S : Type ℓ} (server : Server S) (json : Json) where
  -- The write of a call is settled, and gives a key no expiry, which is what an expiration of 0 asks
  -- the server for.
  unfoldable pub Settles : Call → S → Type ℓ
  Settles (set_call k v x) s = (x ≡ pos 0) × IsSettled s (server.set s k v x)
  Settles (set_json_call k v x) s = elim (json.marshal v) [
    | none ↦ Unit
    | some text ↦ (x ≡ pos 0) × IsSettled s (server.set s k text x)
  ]
  Settles (delete_call []) s = Unit
  Settles (delete_call (k ∷ ks)) s = IsSettled s (server.del s (k ∷ ks))
  Settles (hset_call k f v) s = IsSettled s (server.hset s k f v)
  Settles _ s = Unit

  -- So is every write of a run.
  unfoldable pub AllSettle : List Call → S → Type ℓ
  AllSettle [] s = Unit
  AllSettle (call ∷ calls) s = Settles call s × AllSettle calls (direct server json call s).0
