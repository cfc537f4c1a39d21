-- ===== src/HttpClient/Posted.antt =====
-- How often a POST is sent (internal/enrichment/http/client.go).
use ggt.Prelude.{
  true, false, not, ◌&&◌, none, some, [], ◌∷◌, ◌<◌, ◌≤◌, ◌≡◌, ◌≢◌, refl, ap, Text, text_eq_iff,
  arith, Option-cases, Bool-cases, inl, inr, ◌⊎◌,
}
use ggt.Retry.{Response, call}
use ggt.Retry.Attempts.{calls}
use ggt.HttpClient.{Client, World, Request, PostOptions, Reply, handle_response, admit, is_good}
use ggt.HttpClient.Post.{send_once, is_empty, post_under, post_with_options, post_request}

some_inj {ℓ} : {A : Type ℓ} {a b : A} → some a ≡ some b → a ≡ b
some_inj h = cc

none≢some {ℓ} : {A : Type ℓ} {a : A} → none ≡ some a → ⊥
none≢some h = cc

handle_response-trace :
    (w : World) (c : Client) (r : Response) → calls (handle_response w c r (call 0 ∷ [])).trace ≤ 1
unfolding handle_response calls
handle_response-trace w c r = elim (Bool-cases (is_good r.status_code)) [
  | inl p ↦ rw (p, handle_response) (omega arith)
  | inr p ↦ rw (p, handle_response) (omega arith)
]

send_once-le :
    (w : World) (req : Request) (c : Client) (r : Reply)
    → send_once w req c ≡ some r
    → calls r.trace ≤ 1
unfolding send_once calls
send_once-le w req c r h = elim (Option-cases (w.new_request req)) [
  | inr (e, p) ↦ rw (← some_inj (rw (p, send_once) at h)) (omega arith)
  | inl p ↦ elim (Option-cases (w.send req 0).err) [
    | inr (e, q) ↦ rw (← some_inj (rw (p, q, send_once) at h)) (omega arith)
    | inl q ↦ elim (Option-cases (w.send req 0).resp) [
      | inl x ↦ absurd (none≢some (rw (p, q, x, send_once) at h))
      | inr (o, x) ↦ rw (← some_inj (rw (p, q, x, send_once) at h)) (handle_response-trace w c o)
    ]
  ]
]

allowed :
    (opts : PostOptions)
    → (opts.allow_retries && is_empty opts.idempotency_key && not opts.idempotent_verb_override)
      ≡ false
    → opts.allow_retries ≡ true
    → (opts.idempotency_key ≢ []) ⊎ (opts.idempotent_verb_override ≡ true)
allowed opts g a = elim (Bool-cases (is_empty opts.idempotency_key)) [
  | inr p ↦ inl (λ q. ground (arith, text_eq_iff opts.idempotency_key []))
  | inl p ↦ elim (Bool-cases opts.idempotent_verb_override) [
    | inl q ↦ inr q
    | inr q ↦ absurd (true≢false (rw (a, p, q) at g))
  ]
]
  where
    true≢false : true ≡ false → ⊥
    true≢false k = cc

not_twice : {r r' : Reply} → calls r.trace ≤ 1 → r ≡ r' → 1 < calls r'.trace → ⊥
not_twice h e t = omega (arith, h, t, ap (λ x. calls x.trace) e)

-- A POST is sent more than once only if the options allow retries, and give a key that makes them
-- safe or say that the request may be repeated.
pub calls-post_under :
    (w : World) (url content_type body : Text) (opts : PostOptions) (c : Client) (r : Reply)
    → post_with_options w url content_type body (some opts) c ≡ some r
    → 1 < calls r.trace
    → (opts.allow_retries ≡ true)
      × ((opts.idempotency_key ≢ []) ⊎ (opts.idempotent_verb_override ≡ true))
unfolding post_with_options post_under admit calls
calls-post_under w url content_type body opts c r h twice =
    let guard =
      opts.allow_retries && is_empty opts.idempotency_key && not opts.idempotent_verb_override in
    elim (Bool-cases guard) [
      | inl p ↦ absurd (not_twice (omega arith) (some_inj (rw (p, post_under) at h)) twice)
      | inr p ↦ elim (Bool-cases (admit w c).1) [
        | inr q ↦ absurd (not_twice (omega arith) (some_inj (rw (p, q, post_under) at h)) twice)
        | inl q ↦ elim (Bool-cases opts.allow_retries) [
          | inr a ↦ absurd (
              not_twice {r = r}
                (send_once-le w
                  (post_request url content_type body (record opts { allow_retries = false }))
                  (admit w c).0 r (rw (p, q, a, post_under) at h))
                refl twice)
          | inl a ↦ (a, allowed opts p a)
        ]
      ]
    ]
