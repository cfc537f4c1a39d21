-- ===== src/Breaker/Races.antt =====
-- Goroutines that share a circuit breaker (internal/enrichment/http/circuit_breaker.go). A step
-- is a critical section; between the two of `Allow` others may run.
use ggt.Prelude.{ℕ, zero, suc, true, ◌≡◌, ◌<◌, arith, ◌∙◌}
use ggt.Prelude.Int.{pos}
use ggt.Breaker.{
  closed, half_open, Breaker, probe, expired, look, commit, record_success, record_failure,
}
use ggt.Breaker.Invariant.{IsValid, commit-IsValid, record_success-IsValid, record_failure-IsValid}
use ggt.Breaker.Runs.{successes, closes_at_threshold, successes_clock}

-- The breaker, and how many goroutines stand between the two sections of `Allow`.
pub record System : Type 0 where
  pub breaker : Breaker
  pub probes : ℕ

pub data Step : System → System → Type 0 where
  look_open :
      (s : System) (now : ℕ)
      → look now s.breaker ≡ probe
      → Step s (record s { probes = suc s.probes })
  commit_probe :
      (c : Breaker) (n now : ℕ)
      → Step
          (record { breaker = c; probes = suc n })
          (record { breaker = (commit now c).0; probes = n })
  success : (s : System) → Step s (record s { breaker = record_success s.breaker })
  failure : (s : System) (now : ℕ) → Step s (record s { breaker = record_failure now s.breaker })

pub data Reach (s : System) : System → Type 0 where
  here : Reach s s
  next : {t u : System} → Reach s t → Step t u → Reach s u

Step-IsValid : {s t : System} → Step s t → IsValid s.breaker → IsValid t.breaker
Step-IsValid (look_open s now p) v = v
Step-IsValid (commit_probe c n now) v = commit-IsValid now c v
Step-IsValid (success s) v = record_success-IsValid s.breaker v
Step-IsValid (failure s now) v = record_failure-IsValid now s.breaker v

-- Under every interleaving of the critical sections a valid breaker stays valid.
pub Reach-IsValid : {s t : System} → IsValid s.breaker → Reach s t → IsValid t.breaker
Reach-IsValid v here = v
Reach-IsValid v (next r st) = Step-IsValid st (Reach-IsValid v r)

Reach-successes :
    {s : System} (m n : ℕ) (c : Breaker)
    → Reach s (record { breaker = c; probes = n })
    → Reach s (record { breaker = successes m c; probes = n })
unfolding successes
Reach-successes zero n c r = r
Reach-successes (suc m) n c r = Reach-successes m n (record_success c) (next r (success _))

abbrev pub idle : Breaker → System
idle c = record { breaker = c; probes = 0 }

commit_of_probe :
    (c : Breaker) (now : ℕ)
    → look now c ≡ probe
    → ((commit now c).0.state ≡ half_open)
      × ((commit now c).0.success_count ≡ pos 0)
      × ((commit now c).0.success_threshold ≡ c.success_threshold)
      × ((commit now c).0.last_failure_time ≡ c.last_failure_time)
      × ((commit now c).0.open_timeout ≡ c.open_timeout)
      × (expired now c.last_failure_time c.open_timeout ≡ true)
unfolding look commit
commit_of_probe c now p = ground arith

commit_of_expired :
    (c : Breaker) (now : ℕ)
    → expired now c.last_failure_time c.open_timeout ≡ true
    → (commit now c).0.state ≡ half_open
unfolding commit
commit_of_expired c now e = ground arith

-- Between its sections `Allow` can be overtaken: from every open breaker whose timeout is over
-- the system can reach a closed breaker that one more critical section makes half open.
pub stale_probe :
    (c : Breaker) (now k : ℕ)
    → look now c ≡ probe
    → c.success_threshold ≡ pos k
    → 0 < k
    → k < 2147483648
    → (t : System) × (u : System) × Reach (idle c) t
      × (t.breaker.state ≡ closed)
      × Step t u
      × (u.breaker.state ≡ half_open)
stale_probe c now k p t h b =
    let c1 = (commit now c).0 in
    let c2 = successes k c1 in
    let made = commit_of_probe c now p in
    let clock = successes_clock k c1 in
    let looked = next (next here (look_open (idle c) now p)) (look_open _ now p) in
    (
      record { breaker = c2; probes = 1 },
      record { breaker = (commit now c2).0; probes = 0 },
      Reach-successes k 1 c1 (next looked (commit_probe c 1 now)),
      rw (closes_at_threshold k c1 k made.0 made.1 (made.2 ∙ t) h b (omega arith)) (ground arith),
      commit_probe c2 0 now,
      commit_of_expired c2 now (rw (clock.0, clock.1, made.3, made.4) made.5),
    )
