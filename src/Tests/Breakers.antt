-- ===== src/Tests/Breakers.antt =====
-- Runs of a circuit breaker (internal/enrichment/http/circuit_breaker.go).
use ggt.Prelude.{◌≡◌, refl, arith}
use ggt.Prelude.Int.{pos}
use ggt.Breaker.{
  closed, open_, half_open, Breaker, probe, new_circuit_breaker, look, record_success,
  record_failure,
}
use ggt.Breaker.Invariant.{IsValid, new-IsValid}
use ggt.Breaker.Runs.{half_open_failure}
use ggt.Breaker.Races.{System, Step, Reach, here, next, failure, Reach-IsValid, stale_probe, idle}

abbrev fresh : Breaker
fresh = record {
  state = closed;
  failure_count = pos 0;
  success_count = pos 0;
  last_failure_time = 0;
  open_timeout = pos 100;
  failure_threshold = pos 3;
  success_threshold = pos 2;
}

abbrev probing : Breaker
probing = record fresh { state = half_open }

abbrev tripped : Breaker
tripped = record fresh { state = open_; failure_count = pos 3; last_failure_time = 10 }

abbrev failed_once : Breaker
failed_once = record fresh { failure_count = pos 2 }

trips : (record_failure 10 failed_once).state ≡ open_
unfolding record_failure
trips = refl

half_open_failure_example : (record_failure 20 (record_success probing)).state ≡ half_open
half_open_failure_example = half_open_failure 20 probing refl refl (omega arith) (omega arith)

abbrev made : Breaker
made = new_circuit_breaker (pos 100) (pos 1) (pos 2)

Reach-IsValid_example : IsValid (record_failure 8 made)
Reach-IsValid_example =
    Reach-IsValid (new-IsValid (pos 100) (pos 1) (pos 2) (omega arith))
      (next here (failure (idle made) 8))

over : look 200 tripped ≡ probe
unfolding look
over = refl

stale_probe_example :
    (t : System) × (u : System) × Reach (idle tripped) t
    × (t.breaker.state ≡ closed)
    × Step t u
    × (u.breaker.state ≡ half_open)
stale_probe_example = stale_probe tripped 200 2 over refl (omega arith) (omega arith)
