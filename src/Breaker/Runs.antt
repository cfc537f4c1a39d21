-- ===== src/Breaker/Runs.antt =====
-- Runs of outcomes through a circuit breaker (internal/enrichment/http/circuit_breaker.go).
use native.Mathlib.Decide.{dec_lt}
use ggt.Prelude.{
  ℕ, zero, suc, true, false, List, [], ◌∷◌, ◌≡◌, refl, ◌+◌, ◌≤◌, ◌<◌, ◌==◌, arith, length,
  if◌then◌else◌,
}
use ggt.Prelude.Int.{pos, ◌≤ℤ◌}
use ggt.Breaker.{closed, open_, half_open, Breaker, expired, allow, record_success, record_failure}

-- Failures at the listed times, and a number of successes.
unfoldable pub failures : List ℕ → Breaker → Breaker
failures [] c = c
failures (t ∷ ts) c = failures ts (record_failure t c)

unfoldable pub successes : ℕ → Breaker → Breaker
successes zero c = c
successes (suc n) c = successes n (record_success c)

failure_below :
    (x : ℕ) (c : Breaker) (n k : ℕ)
    → c.state ≡ closed
    → c.failure_count ≡ pos n
    → c.failure_threshold ≡ pos k
    → k < 2147483648
    → n + 1 < k
    → ((record_failure x c).state ≡ closed)
      × ((record_failure x c).failure_count ≡ pos (n + 1))
      × ((record_failure x c).failure_threshold ≡ pos k)
unfolding record_failure
failure_below x c n k s f t b h = ground arith

failure_at :
    (x : ℕ) (c : Breaker) (n k : ℕ)
    → c.failure_count ≡ pos n
    → c.failure_threshold ≡ pos k
    → k < 2147483648
    → n + 1 ≡ k
    → (record_failure x c).state ≡ open_
unfolding record_failure
failure_at x c n k f t b h = ground arith

failures_from :
    (ts : List ℕ) (c : Breaker) (n k : ℕ)
    → c.state ≡ closed
    → c.failure_count ≡ pos n
    → c.failure_threshold ≡ pos k
    → n < k
    → k < 2147483648
    → n + length ts ≤ k
    → (failures ts c).state ≡ (if n + length ts == k then open_ else closed)
unfolding failures
failures_from [] c n k s f t h b l = ground arith
failures_from (x ∷ []) c n k s f t h b l = elim (dec_lt (n + 1) k) [
  | yes p ↦ ground (arith, failure_below x c n k)
  | no p ↦ ground (arith, failure_at x c n k)
]
failures_from (x ∷ y ∷ ts) c n k s f t h b l =
    let (s', f', t') = failure_below x c n k s f t b (omega arith) in
    ground (arith, failures_from (y ∷ ts) (record_failure x c) (n + 1) k s' f' t')

-- A closed breaker with no failure counted stays closed for fewer failures in a row than its
-- threshold, and is open after as many as its threshold.
pub trips_at_threshold :
    (ts : List ℕ) (c : Breaker) (k : ℕ)
    → c.state ≡ closed
    → c.failure_count ≡ pos 0
    → c.failure_threshold ≡ pos k
    → 0 < k
    → k < 2147483648
    → length ts ≤ k
    → (failures ts c).state ≡ (if length ts == k then open_ else closed)
trips_at_threshold ts c k s f t h b l = ground (arith, failures_from ts c 0 k s f t h b)

success_below :
    (c : Breaker) (n k : ℕ)
    → c.state ≡ half_open
    → c.success_count ≡ pos n
    → c.success_threshold ≡ pos k
    → k < 2147483648
    → n + 1 < k
    → ((record_success c).state ≡ half_open)
      × ((record_success c).success_count ≡ pos (n + 1))
      × ((record_success c).success_threshold ≡ pos k)
unfolding record_success
success_below c n k s f t b h = ground arith

success_at :
    (c : Breaker) (n k : ℕ)
    → c.state ≡ half_open
    → c.success_count ≡ pos n
    → c.success_threshold ≡ pos k
    → k < 2147483648
    → n + 1 ≡ k
    → (record_success c).state ≡ closed
unfolding record_success
success_at c n k s f t b h = ground arith

successes_from :
    (m : ℕ) (c : Breaker) (n k : ℕ)
    → c.state ≡ half_open
    → c.success_count ≡ pos n
    → c.success_threshold ≡ pos k
    → n < k
    → k < 2147483648
    → n + m ≤ k
    → (successes m c).state ≡ (if n + m == k then closed else half_open)
unfolding successes
successes_from zero c n k s f t h b l = ground arith
successes_from (suc zero) c n k s f t h b l = elim (dec_lt (n + 1) k) [
  | yes p ↦ ground (arith, success_below c n k)
  | no p ↦ ground (arith, success_at c n k)
]
successes_from (suc (suc m)) c n k s f t h b l =
    let (s', f', t') = success_below c n k s f t b (omega arith) in
    ground (arith, successes_from (suc m) (record_success c) (n + 1) k s' f' t')

-- A half-open breaker with no success counted stays half open for fewer successes in a row than
-- its threshold, and is closed after as many as its threshold.
pub closes_at_threshold :
    (m : ℕ) (c : Breaker) (k : ℕ)
    → c.state ≡ half_open
    → c.success_count ≡ pos 0
    → c.success_threshold ≡ pos k
    → 0 < k
    → k < 2147483648
    → m ≤ k
    → (successes m c).state ≡ (if m == k then closed else half_open)
closes_at_threshold m c k s f t h b l = ground (arith, successes_from m c 0 k s f t h b)

-- Successes leave the time of the last failure and the timeout alone.
pub successes_clock :
    (m : ℕ) (c : Breaker)
    → ((successes m c).last_failure_time ≡ c.last_failure_time)
      × ((successes m c).open_timeout ≡ c.open_timeout)
unfolding successes record_success
successes_clock zero c = (refl, refl)
successes_clock (suc m) c = ground (arith, successes_clock m (record_success c))

-- After the failure that opens it, a breaker with a positive timeout rejects until more than the
-- timeout has passed, and then lets a request through and is half open; the two readings of the
-- clock in `Allow` are in order.
pub open_until_timeout :
    (t now now' : ℕ) (c : Breaker)
    → pos 1 ≤ℤ c.open_timeout
    → now ≤ now'
    → (record_failure t c).state ≡ open_
    → allow now now' (record_failure t c) ≡ (
        if expired now t c.open_timeout
        then (record (record_failure t c) { state = half_open; success_count = pos 0 }, true)
        else (record_failure t c, false))
unfolding allow record_failure
open_until_timeout t now now' c h l o = ground arith

-- A failure in the half-open state does not open the breaker again, once a success was recorded
-- there: the count of failures starts afresh, and the threshold is above one.
pub half_open_failure :
    (now : ℕ) (c : Breaker)
    → c.state ≡ half_open
    → c.success_count ≡ pos 0
    → pos 2 ≤ℤ c.failure_threshold
    → pos 2 ≤ℤ c.success_threshold
    → (record_failure now (record_success c)).state ≡ half_open
unfolding record_failure record_success
half_open_failure now c s n f t = ground arith
