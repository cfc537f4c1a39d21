-- ===== src/Breaker.antt =====
-- internal/enrichment/http/circuit_breaker.go: the circuit breaker. Counters are int32 and wrap,
-- thresholds and the timeout are signed, times are nanoseconds; a reading of the clock is an
-- argument. `Allow` takes two critical sections, so it is also given as two steps.
pub mod Invariant
pub mod Runs
pub mod Races
use ggt.Prelude.{ℕ, Bool, true, false, ◌+◌, if◌then◌else◌}
use ggt.Prelude.Int.{ℤ, pos, negsuc, sub_ℕ, ltb_ℤ, leb_ℤ, inc_int32}

pub data State : Type 0 where
  closed open_ half_open : State

pub record Breaker : Type 0 where
  pub state : State
  pub failure_count : ℤ
  pub success_count : ℤ
  pub last_failure_time : ℕ
  pub open_timeout : ℤ
  pub failure_threshold : ℤ
  pub success_threshold : ℤ

or_default : ℤ → ℤ → ℤ
or_default x d = if leb_ℤ x (pos 0) then d else x

unfoldable pub new_circuit_breaker : ℤ → ℤ → ℤ → Breaker
unfolding or_default
new_circuit_breaker open_timeout failure_threshold success_threshold = record {
  state = closed;
  failure_count = pos 0;
  success_count = pos 0;
  last_failure_time = 0;
  open_timeout = or_default open_timeout (pos 30000000000);
  failure_threshold = or_default failure_threshold (pos 5);
  success_threshold = or_default success_threshold (pos 2);
}

-- `time.Since(last) > openTimeout`
abbrev pub expired : ℕ → ℕ → ℤ → Bool
expired now last timeout = ltb_ℤ timeout (sub_ℕ now last)

-- What the first critical section of `Allow` decides from the state that it read.
pub data Look : Type 0 where
  pass reject probe : Look

unfoldable pub look : ℕ → Breaker → Look
look now c = elim c.state [
  | closed ↦ pass
  | open_ ↦ if expired now c.last_failure_time c.open_timeout then probe else reject
  | half_open ↦ pass
]

-- The second critical section of `Allow`. It reads the time of the last failure again, and the
-- state not again.
unfoldable pub commit : ℕ → Breaker → Breaker × Bool
commit now c =
    if expired now c.last_failure_time c.open_timeout
    then (record c { state = half_open; success_count = pos 0 }, true)
    else (c, false)

-- `Allow`, with nothing between its two sections; the clock is read in both.
unfoldable pub allow : ℕ → ℕ → Breaker → Breaker × Bool
unfolding look commit
allow now now' c = elim (look now c) [
  | pass ↦ (c, true)
  | reject ↦ (c, false)
  | probe ↦ commit now' c
]

abbrev is_half_open : State → Bool
is_half_open half_open = true
is_half_open _ = false

count_success : Breaker → Breaker
count_success c =
    let n = inc_int32 c.success_count in
    if leb_ℤ c.success_threshold n
    then record c { state = closed; success_count = pos 0 }
    else record c { success_count = n }

unfoldable pub record_success : Breaker → Breaker
unfolding count_success
record_success c =
    let c' = record c { failure_count = pos 0 } in
    if is_half_open c.state then count_success c' else c'

unfoldable pub record_failure : ℕ → Breaker → Breaker
record_failure now c =
    let failures = inc_int32 c.failure_count in
    let c' = record c {
      success_count = pos 0;
      last_failure_time = now;
      failure_count = failures;
    } in
    if leb_ℤ c.failure_threshold failures then record c' { state = open_ } else c'
