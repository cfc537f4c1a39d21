-- ===== src/Consumer/Processor.antt =====
-- internal/consumer/processor.go: a processor that runs handlers on goroutines. A step is an atomic
-- action of a goroutine: of `Enqueue` the test of the shutdown flag, the send on the channel
-- `workerSem` or giving up, and the start of the goroutine with its `wg.Add`; of a goroutine whose
-- handler has ended the receive from the channel, and then `wg.Done`; of `Stop` the setting of the
-- flag and the end of its wait.
use ggt.Prelude.{ℕ, suc, Bool, true, false, ◌+◌, ◌≡◌, ◌≤◌, ◌<◌, refl, ◌∙◌, arith, if◌then◌else◌}
use ggt.Prelude.Int.{ℤ, pos, ltb_ℤ, pos_part}

-- `worker_sem` is the length of the channel, whose capacity is `slots`; `wg` is the count of the
-- wait group. Of the goroutines, `checked` stand before the send on the channel, `entered` behind it
-- and before `wg.Add`, `running` run a handler, and `released` stand before `wg.Done`. `stopped` says
-- that a `Stop` has returned nil.
pub record Processor : Type 0 where
  pub slots : ℕ
  pub worker_sem : ℕ
  pub wg : ℕ
  pub checked : ℕ
  pub entered : ℕ
  pub running : ℕ
  pub released : ℕ
  pub shutdown : Bool
  pub stopped : Bool

unfoldable pub new_processor : ℤ → Processor
new_processor concurrency = record {
  slots = if ltb_ℤ concurrency (pos 1) then 1 else pos_part concurrency;
  worker_sem = 0;
  wg = 0;
  checked = 0;
  entered = 0;
  running = 0;
  released = 0;
  shutdown = false;
  stopped = false;
}

-- A send waits for room in the channel, a receive for something in it.
pub data Step : Processor → Processor → Type 0 where
  check : (p : Processor) → p.shutdown ≡ false → Step p (record p { checked = suc p.checked })
  acquire :
      (p : Processor) (n : ℕ)
      → p.checked ≡ suc n
      → p.worker_sem < p.slots
      → Step p (record p { checked = n; worker_sem = suc p.worker_sem; entered = suc p.entered })
  give_up : (p : Processor) (n : ℕ) → p.checked ≡ suc n → Step p (record p { checked = n })
  start :
      (p : Processor) (n : ℕ)
      → p.entered ≡ suc n
      → Step p (record p { entered = n; wg = suc p.wg; running = suc p.running })
  release :
      (p : Processor) (n m : ℕ)
      → p.running ≡ suc n
      → p.worker_sem ≡ suc m
      → Step p (record p { running = n; worker_sem = m; released = suc p.released })
  finish :
      (p : Processor) (n m : ℕ)
      → p.released ≡ suc n
      → p.wg ≡ suc m
      → Step p (record p { released = n; wg = m })
  stop : (p : Processor) → Step p (record p { shutdown = true })
  stop_done : (p : Processor) → p.shutdown ≡ true → p.wg ≡ 0 → Step p (record p { stopped = true })

pub data Reach (s : Processor) : Processor → Type 0 where
  here : Reach s s
  next : {t u : Processor} → Reach s t → Step t u → Reach s u

-- The channel holds one element for each goroutine that has sent and not yet received, and the wait
-- group counts each that was added and is not yet done.
pub record IsValid (p : Processor) : Type 0 where
  pub holders : p.worker_sem ≡ p.entered + p.running
  pub counted : p.wg ≡ p.running + p.released
  pub bounded : p.worker_sem ≤ p.slots

Step-IsValid : {p q : Processor} → Step p q → IsValid p → IsValid q
Step-IsValid (check p h) v = ground arith
Step-IsValid (acquire p n h l) v = ground arith
Step-IsValid (give_up p n h) v = ground arith
Step-IsValid (start p n h) v = ground arith
Step-IsValid (release p n m h l) v = ground arith
Step-IsValid (finish p n m h l) v = ground arith
Step-IsValid (stop p) v = ground arith
Step-IsValid (stop_done p h r) v = ground arith

Reach-IsValid_from : {p q : Processor} → Reach p q → IsValid p → IsValid q
Reach-IsValid_from here v = v
Reach-IsValid_from (next r st) v = Step-IsValid st (Reach-IsValid_from r v)

new_processor-IsValid : (concurrency : ℤ) → IsValid (new_processor concurrency)
unfolding new_processor
new_processor-IsValid concurrency = ground arith

Step-slots : {p q : Processor} → Step p q → q.slots ≡ p.slots
Step-slots (check p h) = refl
Step-slots (acquire p n h l) = refl
Step-slots (give_up p n h) = refl
Step-slots (start p n h) = refl
Step-slots (release p n m h l) = refl
Step-slots (finish p n m h l) = refl
Step-slots (stop p) = refl
Step-slots (stop_done p h r) = refl

Reach-slots : {p q : Processor} → Reach p q → q.slots ≡ p.slots
Reach-slots here = refl
Reach-slots (next r st) = Step-slots st ∙ Reach-slots r

slots_of :
    (concurrency : ℤ)
    → (new_processor concurrency).slots
      ≡ (if ltb_ℤ concurrency (pos 1) then 1 else pos_part concurrency)
unfolding new_processor
slots_of concurrency = refl

positive : (concurrency : ℤ) → 0 < (if ltb_ℤ concurrency (pos 1) then 1 else pos_part concurrency)
positive concurrency = ground arith

-- However the goroutines of a new processor interleave: never more handlers run at once than the
-- concurrency that it was made with, or one if that is below one; a handler that has ended finds an
-- element in the channel, so its receive does not block; the wait group is at zero only if no
-- handler runs; and no slot is lost: if no goroutine holds one, the next send does not block.
pub Reach-bounded :
    {p : Processor} (concurrency : ℤ)
    → Reach (new_processor concurrency) p
    → (p.running ≤ (if ltb_ℤ concurrency (pos 1) then 1 else pos_part concurrency))
      × (0 < p.running → 0 < p.worker_sem)
      × (p.wg ≡ 0 → p.running ≡ 0)
      × (p.entered ≡ 0 → p.running ≡ 0 → p.worker_sem < p.slots)
Reach-bounded {p} concurrency r =
    let v = Reach-IsValid_from r (new_processor-IsValid concurrency) in
    let h = v.holders in
    let c = v.counted in
    let b = v.bounded in
    let capacity = Reach-slots r ∙ slots_of concurrency in
    let room = positive concurrency in
    let most : p.running ≤ p.slots = omega (arith, h, b) in
    (
      rw (← capacity) most,
      λ q. omega (arith, h, q),
      λ q. omega (arith, c, q),
      λ q q'. rw capacity (omega (arith, h, q, q', room)),
    )
