-- ===== src/Retry/Attempts.antt =====
-- How often the retrier calls, and what it returns (internal/enrichment/http/circuit_breaker.go).
use ggt.Prelude.{
  ℕ, zero, suc, true, false, Option, none, some, List, [], ◌∷◌, ◌++◌, ◌+◌, ◌≤◌, ◌<◌, ◌≡◌, refl, sym,
  ap, arith,
}
use ggt.Prelude.Int.{ℤ, pos, ◌<ℤ◌, ◌≤ℤ◌, pos_part}
use ggt.Retry.{
  Error, Response, Outcome, RetryConfig, Action, call, drain, wait, max_retries_exceeded, drained,
  is_retryable, is_success, status_of, next_backoff, attempts, do_request, after,
}

-- The calls and the waits of a trace.
unfoldable pub calls : List Action → ℕ
calls [] = 0
calls (call _ ∷ t) = suc (calls t)
calls (drain _ ∷ t) = calls t
calls (wait _ ∷ t) = calls t

unfoldable pub waits : List Action → ℕ
waits [] = 0
waits (call _ ∷ t) = waits t
waits (drain _ ∷ t) = waits t
waits (wait _ ∷ t) = suc (waits t)

calls-append : (s t : List Action) → calls (s ++ t) ≡ calls s + calls t
unfolding calls
calls-append [] t = omega arith
calls-append (call _ ∷ s) t = omega (arith, calls-append s t)
calls-append (drain _ ∷ s) t = calls-append s t
calls-append (wait _ ∷ s) t = calls-append s t

waits-append : (s t : List Action) → waits (s ++ t) ≡ waits s + waits t
unfolding waits
waits-append [] t = omega arith
waits-append (call _ ∷ s) t = waits-append s t
waits-append (drain _ ∷ s) t = waits-append s t
waits-append (wait _ ∷ s) t = omega (arith, waits-append s t)

calls-drained : (o : Option Response) → calls (drained o) ≡ 0
unfolding calls
calls-drained none = refl
calls-drained (some r) = refl

waits-drained : (o : Option Response) → waits (drained o) ≡ 0
unfolding waits
waits-drained none = refl
waits-drained (some r) = refl

calls_one : (i : ℕ) → calls (call i ∷ []) ≡ 1
unfolding calls
calls_one i = refl

calls_called : (i : ℕ) (o : Option Response) → calls (call i ∷ drained o) ≡ 1
unfolding calls
calls_called i o = omega (arith, calls-drained o)

calls_failed : (i : ℕ) (o r : Option Response) → calls ((call i ∷ drained o) ++ drained r) ≡ 1
unfolding calls
calls_failed i o r = simp (calls-append, calls-drained)

calls_waited :
    (i : ℕ) (o r : Option Response) (b : ℤ)
    → calls ((call i ∷ drained o) ++ drained r ++ wait b ∷ []) ≡ 1
unfolding calls
calls_waited i o r b = simp (calls-append, calls-drained)

-- The outcome is one that the loop tries again after.
abbrev pub WillRetry : Outcome → Type 0
WillRetry o = (is_success o ≡ false) × (is_retryable o.err (status_of o.resp) ≡ true)

-- The outcome before attempt `n` past `i`: the last attempt's, or the one before the first.
unfoldable pub last_outcome : (ℕ → Outcome) → ℕ → ℕ → Outcome → Outcome
last_outcome fn zero i last = last
last_outcome fn (suc n) i last = last_outcome fn n (i + 1) (fn i)

-- From attempt `i` on, `n` attempts are tried again after, and no wait is cut short.
abbrev pub KeepsFailing : (ℕ → Outcome) → (ℕ → Option Error) → ℕ → ℕ → Type 0
KeepsFailing fn done zero i = Unit
KeepsFailing fn done (suc n) i = WillRetry (fn i) × (done i ≡ none) × KeepsFailing fn done n (i + 1)

module _ (scale : ℤ → ℤ) (fn : ℕ → Outcome) (done : ℕ → Option Error) (cfg : RetryConfig) where
  attempts_retry :
      (n i : ℕ) (b : ℤ) (last : Outcome)
      → WillRetry (fn i)
      → done i ≡ none
      → pos i <ℤ cfg.max_retries
      → attempts scale fn done cfg (suc n) i b last
        ≡ after
            ((call i ∷ drained last.resp) ++ drained (fn i).resp ++ wait b ∷ [])
            (attempts scale fn done cfg n (i + 1) (next_backoff scale cfg b) (fn i))
  unfolding attempts
  attempts_retry n i b last r d m = rw (r.0, r.1) (ground arith)

  attempts_success :
      (n i : ℕ) (b : ℤ) (last : Outcome)
      → is_success (fn i) ≡ true
      → attempts scale fn done cfg (suc n) i b last
        ≡ record { resp = (fn i).resp; err = none; trace = call i ∷ [] }
  unfolding attempts
  attempts_success n i b last s = rw s refl

  calls-attempts-le :
      (n i : ℕ) (b : ℤ) (last : Outcome) → calls (attempts scale fn done cfg n i b last).trace ≤ n
  unfolding attempts
  calls-attempts-le zero i b last = unfold calls in omega arith
  calls-attempts-le (suc n) i b last =
      let r = (fn i).resp in
      let b' = next_backoff scale cfg b in
      ground (
        arith,
        calls_called i last.resp,
        calls_failed i last.resp r,
        calls-append ((call i ∷ drained last.resp) ++ drained r ++ wait b ∷ [])
            (attempts scale fn done cfg n (i + 1) b' (fn i)).trace,
        calls-append ((call i ∷ drained last.resp) ++ drained r)
            (attempts scale fn done cfg n (i + 1) b (fn i)).trace,
        calls_waited i last.resp r b,
        calls_one i,
        calls-attempts-le n (i + 1) b' (fn i),
        calls-attempts-le n (i + 1) b (fn i),
      )

  exhausted :
      (n i : ℕ) (b : ℤ) (last : Outcome)
      → KeepsFailing fn done n i
      → pos (i + n) ≤ℤ cfg.max_retries
      → let r = attempts scale fn done cfg n i b last in
        let o = last_outcome fn n i last in
        (r.resp ≡ o.resp)
        × (r.err ≡ some (max_retries_exceeded o.err))
        × (calls r.trace ≡ n)
        × (waits r.trace ≡ n)
  unfolding last_outcome calls waits
  exhausted zero i b last k m = unfold attempts in (refl, refl, refl, refl)
  exhausted (suc n) i b last (r, d, k) m = rw (attempts_retry n i b last r d (omega arith)) (
      simp (calls-append, waits-append, calls-drained, waits-drained)
        (let (e1, e2, e3, e4) =
            exhausted n (i + 1) (next_backoff scale cfg b) (fn i) k (omega arith) in
          (e1, e2, omega arith, omega arith)))

  succeeds :
      (k n i j : ℕ) (b : ℤ) (last : Outcome)
      → KeepsFailing fn done k i
      → i + k ≡ j
      → k < n
      → is_success (fn j) ≡ true
      → pos j <ℤ cfg.max_retries
      → let r = attempts scale fn done cfg n i b last in
        (r.resp ≡ (fn j).resp) × (r.err ≡ none) × (calls r.trace ≡ k + 1)
  unfolding calls
  succeeds k zero i j b last f e l s m = absurd (omega arith)
  succeeds zero (suc n) i j b last f e l s m =
      let e' : j ≡ i = omega arith in
      rw (attempts_success n i b last (rw e' at s))
        (ap (λ x. (fn x).resp) (sym e'), refl, omega arith)
  succeeds (suc k) (suc n) i j b last (r, d, f) e l s m =
      rw (attempts_retry n i b last r d (omega arith)) (
        simp (calls-append, calls-drained)
          (let (e1, e2, e3) =
              succeeds k n (i + 1) j (next_backoff scale cfg b) (fn i) f (omega arith) (omega arith)
                s m in
            (e1, e2, omega arith)))

  -- `Do` calls the request function at most `MaxRetries` times, whatever it returns.
  pub calls-do_request-le : calls (do_request scale fn done cfg).trace ≤ pos_part cfg.max_retries
  unfolding do_request
  calls-do_request-le = calls-attempts-le (pos_part cfg.max_retries) 0 cfg.initial_backoff _

  -- If every attempt fails in a way that is retried and no wait is cut short, `Do` calls
  -- `MaxRetries` times, waits as often, once after the last attempt too, and returns the last
  -- response with an error that wraps the last error.
  pub do_request_exhausted :
      (n : ℕ)
      → cfg.max_retries ≡ pos n
      → KeepsFailing fn done n 0
      → let r = do_request scale fn done cfg in
        let o = last_outcome fn n 0 (record { resp = none; err = none }) in
        (r.resp ≡ o.resp)
        × (r.err ≡ some (max_retries_exceeded o.err))
        × (calls r.trace ≡ n)
        × (waits r.trace ≡ n)
  unfolding do_request
  do_request_exhausted n e k =
      let e' : pos_part cfg.max_retries ≡ n = ap pos_part e in
      rw e' (exhausted n 0 cfg.initial_backoff _ k (rw e (omega arith)))

  -- If `k` attempts fail in a way that is retried, and the next one succeeds within the limit,
  -- `Do` returns its response with no error, after `k + 1` calls.
  pub do_request_succeeds :
      (k : ℕ)
      → pos k <ℤ cfg.max_retries
      → KeepsFailing fn done k 0
      → is_success (fn k) ≡ true
      → let r = do_request scale fn done cfg in
        (r.resp ≡ (fn k).resp) × (r.err ≡ none) × (calls r.trace ≡ k + 1)
  unfolding do_request
  do_request_succeeds k m f s =
      succeeds k (pos_part cfg.max_retries) 0 k cfg.initial_backoff _ f (omega arith) (omega arith)
        s m
