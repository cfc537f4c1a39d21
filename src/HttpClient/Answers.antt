-- ===== src/HttpClient/Answers.antt =====
-- Every request comes to a reply (internal/enrichment/http/client.go).
use ggt.Prelude.{
  not, ◌&&◌, Option, some, [], ◌∷◌, ◌≡◌, refl, Text, Option-cases, Bool-cases, inl, inr,
}
use ggt.Retry.{call, plain}
use ggt.HttpClient.{
  Client, World, Request, PostOptions, Reply, admit, get_json, json_request, failed, request_failed,
  exchange_failed, key_missing, circuit_open,
}
use ggt.HttpClient.Post.{
  is_empty, send_once, post_under, post, post_request, no_retries, post_with_options,
}
use ggt.HttpClient.Cached.{IsValid}
use ggt.HttpClient.Counted.{
  hit, miss, Documented, Told, exchange-Told, handle_response-Told, get_with_counted,
}

-- The reply of some call, which leaves the client valid.
abbrev pub Replies : Option Reply → Type 0
Replies o = (r : Reply) × (o ≡ some r) × IsValid r.client

pub get_json-Replies :
    (w : World) (url : Text) (c : Client) → Documented w → IsValid c → Replies (get_json w url c)
unfolding get_json
get_json-Replies w url c d v =
    let (r, e, out) = get_with_counted w (json_request url) c d v in
    elim out [ hit s _ _ _ v' _ ↦ (r, e, v') | miss _ c' _ asked ↦ (r, e, asked.valid) ]

kept_reply :
    (w : World) (c : Client) (r : Reply) {o : Option Reply}
    → Told w c r
    → IsValid c
    → o ≡ some r
    → Replies o
kept_reply w c r t (l, h) e = (r, e, (l, rw t.same_cache h))

send_once-Replies :
    (w : World) (req : Request) (c : Client)
    → Documented w
    → IsValid c
    → Replies (send_once w req c)
unfolding send_once
send_once-Replies w req c d v = elim (Option-cases (w.new_request req)) [
  | inr (e, p) ↦
      (record { client = c; answer = request_failed e; trace = [] }, rw (p, send_once) refl, v)
  | inl p ↦
      let answered = d req 0 in
      elim (Option-cases (w.send req 0).err) [
        | inr (e, q) ↦ (
          record { client = failed w c; answer = exchange_failed (plain e); trace = call 0 ∷ [] },
          rw (p, q, send_once) refl,
          v,
        )
        | inl q ↦ elim (Option-cases (w.send req 0).resp) [
          | inl n ↦ absurd (rw (q, n) at answered)
          | inr (o, n) ↦
              kept_reply w c _ (handle_response-Told w c o (call 0 ∷ [])) v
                (rw (p, q, n, send_once) refl)
        ]
      ]
]

post_under-Replies :
    (w : World) (url content_type body : Text) (opts : PostOptions) (c : Client)
    → Documented w
    → IsValid c
    → Replies (post_under w url content_type body opts c)
unfolding post_under admit post_request
post_under-Replies w url content_type body opts c d v =
    let req = post_request url content_type body opts in
    let bare =
      opts.allow_retries && is_empty opts.idempotency_key && not opts.idempotent_verb_override in
    elim (Bool-cases bare) [
      | inl p ↦
          (record { client = c; answer = key_missing; trace = [] }, rw (p, post_under) refl, v)
      | inr p ↦ elim (Bool-cases (admit w c).1) [
        | inr q ↦ (
          record { client = (admit w c).0; answer = circuit_open; trace = [] },
          rw (p, q, post_under) refl,
          v,
        )
        | inl q ↦ elim (Bool-cases opts.allow_retries) [
          | inl retries ↦
              let (r, x, t) = exchange-Told w req (admit w c).0 d in
              kept_reply w (admit w c).0 r t v (rw (p, q, retries, post_under) x)
          | inr once ↦
              let (r, x, v') = send_once-Replies w req (admit w c).0 d v in
              (r, rw (p, q, once, post_under) x, v')
        ]
      ]
    ]

pub post-Replies :
    (w : World) (url content_type body : Text) (c : Client)
    → Documented w
    → IsValid c
    → Replies (post w url content_type body c)
unfolding post post_with_options
post-Replies w url content_type body c d v =
    post_under-Replies w url content_type body no_retries c d v
