-- ===== src/HttpClient/Delivered.antt =====
-- What the retrier delivers, where every attempt comes to something
-- (internal/enrichment/http/circuit_breaker.go).
use ggt.Prelude.{
  ℕ, zero, suc, true, false, Option, none, some, ◌+◌, ◌≡◌, Option-cases, Bool-cases, inl, inr,
}
use ggt.Prelude.Int.{ℤ, pos, ltb_ℤ}
use ggt.Retry.{
  Error, Response, Outcome, DoError, plain_error, RetryConfig, Run, is_success, is_retryable,
  status_of, next_backoff, attempts, do_request,
}

-- An error or a response is there.
abbrev pub Answered {ℓ} : {E : Type ℓ} → Option E → Option Response → Type 0
Answered (some e) resp = Unit
Answered none (some r) = Unit
Answered none none = ⊥

plain-Answered :
    (e : Option Error) (resp : Option Response) → Answered e resp → Answered (plain_error e) resp
plain-Answered (some e) resp h = h
plain-Answered none (some r) h = h
plain-Answered none none h = h

abbrev Delivers : Run → Type 0
Delivers run = Answered run.err run.resp

success-Answered :
    (o : Outcome) → Answered o.err o.resp → is_success o ≡ true → Answered {E = DoError} none o.resp
unfolding is_success
success-Answered o h p = elim (Option-cases o.err) [
  | inr (e, q) ↦ absurd (false≢true (rw (q, is_success) at p))
  | inl q ↦ elim (Option-cases o.resp) [ inl r ↦ absurd (rw (q, r) at h) | inr (x, r) ↦ rw r tt ]
]
  where
    false≢true : false ≡ true → ⊥
    false≢true k = cc

module _ (scale : ℤ → ℤ) (fn : ℕ → Outcome) (done : ℕ → Option Error) (cfg : RetryConfig)
    (answers : (i : ℕ) → Answered (fn i).err (fn i).resp) where
  attempts-Delivers :
      (left i : ℕ) (backoff : ℤ) (last : Outcome)
      → Delivers (attempts scale fn done cfg left i backoff last)
  unfolding attempts
  attempts-Delivers zero i backoff last = tt
  attempts-Delivers (suc left) i backoff last =
      let o = fn i in
      let again = attempts-Delivers left (i + 1) (next_backoff scale cfg backoff) o in
      let unwaited = attempts-Delivers left (i + 1) backoff o in
      elim (Bool-cases (is_success o)) [
        | inl p ↦ rw (p, attempts) (success-Answered o (answers i) p)
        | inr p ↦ elim (Bool-cases (is_retryable o.err (status_of o.resp))) [
          | inr q ↦ rw (p, q, attempts) (plain-Answered o.err o.resp (answers i))
          | inl q ↦ elim (Bool-cases (ltb_ℤ (pos i) cfg.max_retries)) [
            | inr r ↦ rw (p, q, r, attempts) unwaited
            | inl r ↦ elim (Option-cases (done i)) [
              | inl d ↦ rw (p, q, r, d, attempts) again
              | inr (e, d) ↦ rw (p, q, r, d, attempts) tt
            ]
          ]
        ]
      ]

  pub do_request-Delivers : Delivers (do_request scale fn done cfg)
  unfolding do_request
  do_request-Delivers = attempts-Delivers _ _ _ _
