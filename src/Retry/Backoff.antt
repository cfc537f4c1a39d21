-- ===== src/Retry/Backoff.antt =====
-- How long the retrier waits (internal/enrichment/http/circuit_breaker.go).
use Prim.Native.Nat.{max}
use ggt.Prelude.{ℕ, zero, suc, Option, none, some, List, [], ◌∷◌, ◌++◌, ◌+◌, ◌≤◌, ◌≡◌, refl, arith}
use ggt.Prelude.Int.{ℤ, ◌≤ℤ◌, pos_part}
use ggt.Retry.{
  Error, Response, Outcome, RetryConfig, Action, call, drain, wait, drained, next_backoff, attempts,
  do_request,
}

-- The longest wait of a trace. A negative duration is no wait.
unfoldable pub longest : List Action → ℕ
longest [] = 0
longest (call _ ∷ t) = longest t
longest (drain _ ∷ t) = longest t
longest (wait b ∷ t) = max (pos_part b) (longest t)

longest-append : (s t : List Action) → longest (s ++ t) ≡ max (longest s) (longest t)
unfolding longest
longest-append [] t = omega arith
longest-append (call _ ∷ s) t = longest-append s t
longest-append (drain _ ∷ s) t = longest-append s t
longest-append (wait _ ∷ s) t = omega (arith, longest-append s t)

longest-drained : (o : Option Response) → longest (drained o) ≡ 0
unfolding longest
longest-drained none = refl
longest-drained (some r) = refl

longest_one : (i : ℕ) → longest (call i ∷ []) ≡ 0
unfolding longest
longest_one i = refl

longest_called : (i : ℕ) (o : Option Response) → longest (call i ∷ drained o) ≡ 0
unfolding longest
longest_called i o = longest-drained o

longest_failed : (i : ℕ) (o r : Option Response) → longest ((call i ∷ drained o) ++ drained r) ≡ 0
longest_failed i o r =
    omega (
      arith,
      longest-append (call i ∷ drained o) (drained r),
      longest_called i o,
      longest-drained r,
    )

longest_waited :
    (i : ℕ) (o r : Option Response) (b : ℤ)
    → longest ((call i ∷ drained o) ++ drained r ++ wait b ∷ []) ≡ pos_part b
unfolding longest
longest_waited i o r b =
    omega (
      arith,
      longest-append ((call i ∷ drained o) ++ drained r) (wait b ∷ []),
      longest_failed i o r,
    )

next_backoff-le :
    (scale : ℤ → ℤ) (cfg : RetryConfig) (b : ℤ) → next_backoff scale cfg b ≤ℤ cfg.max_backoff
unfolding next_backoff
next_backoff-le scale cfg b = ground arith

module _ (scale : ℤ → ℤ) (fn : ℕ → Outcome) (done : ℕ → Option Error) (cfg : RetryConfig) where
  longest-attempts-le :
      (n i : ℕ) (b : ℤ) (last : Outcome)
      → b ≤ℤ cfg.max_backoff
      → longest (attempts scale fn done cfg n i b last).trace ≤ pos_part cfg.max_backoff
  unfolding attempts
  longest-attempts-le zero i b last h = unfold longest in omega arith
  longest-attempts-le (suc n) i b last h =
      let r = (fn i).resp in
      let b' = next_backoff scale cfg b in
      ground (
        arith,
        longest_called i last.resp,
        longest_failed i last.resp r,
        longest-append ((call i ∷ drained last.resp) ++ drained r ++ wait b ∷ [])
            (attempts scale fn done cfg n (i + 1) b' (fn i)).trace,
        longest-append ((call i ∷ drained last.resp) ++ drained r)
            (attempts scale fn done cfg n (i + 1) b (fn i)).trace,
        longest_waited i last.resp r b,
        longest_one i,
        longest-attempts-le n (i + 1) b' (fn i) (next_backoff-le scale cfg b),
        longest-attempts-le n (i + 1) b (fn i) h,
      )

  -- No wait of `Do` is longer than the maximal backoff, if the initial backoff is not.
  pub longest-do_request-le :
      cfg.initial_backoff ≤ℤ cfg.max_backoff
      → longest (do_request scale fn done cfg).trace ≤ pos_part cfg.max_backoff
  unfolding do_request
  longest-do_request-le h = longest-attempts-le (pos_part cfg.max_retries) 0 cfg.initial_backoff _ h
