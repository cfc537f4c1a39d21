-- ===== src/Tests/Retries.antt =====
-- Runs of the retrier (internal/enrichment/http/circuit_breaker.go).
use ggt.Prelude.{ℕ, true, Option, none, some, [], ◌≡◌, ◌+◌, refl, arith, if◌then◌else◌, ltb}
use ggt.Prelude.Int.{ℤ, pos, negsuc}
use ggt.Retry.{
  Error, other, Outcome, max_retries_exceeded, RetryConfig, is_success, is_retryable, do_request,
}
use ggt.Retry.Attempts.{
  calls, waits, KeepsFailing, last_outcome, do_request_exhausted, do_request_succeeds,
}

abbrev double : ℤ → ℤ
double (pos n) = pos (n + n)
double (negsuc n) = negsuc n

abbrev cfg : RetryConfig
cfg = record { max_retries = pos 3; initial_backoff = pos 100; max_backoff = pos 150 }

abbrev broken : Outcome
broken = record { resp = none; err = some (other 7) }

abbrev fine : Outcome
fine = record { resp = some (record { status_code = 200; body = [] }); err = none }

abbrev down : ℕ → Outcome
down i = broken

abbrev recovers : ℕ → Outcome
recovers i = if ltb i 2 then broken else fine

abbrev never : ℕ → Option Error
never i = none

fails_thrice : KeepsFailing down never 3 0
unfolding is_success is_retryable
fails_thrice = ((refl, refl), refl, ((refl, refl), refl, ((refl, refl), refl, tt)))

do_request_exhausted_example :
    let r = do_request double down never cfg in
    let o = last_outcome down 3 0 (record { resp = none; err = none }) in
    (r.resp ≡ o.resp)
    × (r.err ≡ some (max_retries_exceeded o.err))
    × (calls r.trace ≡ 3)
    × (waits r.trace ≡ 3)
do_request_exhausted_example = do_request_exhausted double down never cfg 3 refl fails_thrice

fails_twice : KeepsFailing recovers never 2 0
unfolding is_success is_retryable
fails_twice = ((refl, refl), refl, ((refl, refl), refl, tt))

then_succeeds : is_success (recovers 2) ≡ true
unfolding is_success
then_succeeds = refl

do_request_succeeds_example :
    let r = do_request double recovers never cfg in
    (r.resp ≡ fine.resp) × (r.err ≡ none) × (calls r.trace ≡ 3)
do_request_succeeds_example =
    do_request_succeeds double recovers never cfg 2 (omega arith) fails_twice then_succeeds
