-- ===== src/Breaker/Invariant.antt =====
-- What holds of a circuit breaker between two critical sections
-- (internal/enrichment/http/circuit_breaker.go).
use ggt.Prelude.{ℕ, ◌≡◌, arith}
use ggt.Prelude.Int.{ℤ, pos, ◌≤ℤ◌, ◌<ℤ◌}
use ggt.Breaker.{
  closed, half_open, Breaker, new_circuit_breaker, commit, allow, record_success, record_failure,
}

pub record IsValid (c : Breaker) : Type 0 where
  pub timeout_pos : pos 1 ≤ℤ c.open_timeout
  pub failures_pos : pos 1 ≤ℤ c.failure_threshold
  pub successes_pos : pos 1 ≤ℤ c.success_threshold
  pub successes_int32 : c.success_threshold ≤ℤ pos 2147483647
  pub closed_below : c.state ≡ closed → c.failure_count <ℤ c.failure_threshold
  pub probing_nonneg : c.state ≡ half_open → pos 0 ≤ℤ c.success_count
  pub probing_below : c.state ≡ half_open → c.success_count <ℤ c.success_threshold

-- A new breaker is valid, whatever its arguments are.
pub new-IsValid :
    (timeout failures successes : ℤ)
    → successes ≤ℤ pos 2147483647
    → IsValid (new_circuit_breaker timeout failures successes)
unfolding new_circuit_breaker
new-IsValid timeout failures successes h = ground arith

pub commit-IsValid : (now : ℕ) (c : Breaker) → IsValid c → IsValid (commit now c).0
unfolding commit
commit-IsValid now c v = ground arith

pub allow-IsValid : (now now' : ℕ) (c : Breaker) → IsValid c → IsValid (allow now now' c).0
unfolding allow
allow-IsValid now now' c v = ground arith

pub record_success-IsValid : (c : Breaker) → IsValid c → IsValid (record_success c)
unfolding record_success
record_success-IsValid c v = ground arith

pub record_failure-IsValid : (now : ℕ) (c : Breaker) → IsValid c → IsValid (record_failure now c)
unfolding record_failure
record_failure-IsValid now c v = ground arith
