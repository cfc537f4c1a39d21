-- ===== src/Tests/Consumers.antt =====
-- A poll, offsets and a shutdown on concrete inputs (internal/consumer, internal/shutdown).
use ggt.Prelude.{
  ◌≤◌, ◌<◌, ℕ, zero, suc, Bool, false, Option, none, some, List, [], ◌∷◌, ◌++◌, ◌+◌, ◌==◌, ◌≡◌,
  refl, Text, codes, text_eq, arith, if◌then◌else◌,
}
use ggt.Prelude.Int.{ℤ, pos, negsuc}
use ggt.Worker.{Record}
use ggt.Consumer.{Fetches, Work, iterate}
use ggt.Consumer.Batch.{all_records, handled, succeeded, last_error, committed, iterate-delivers}
use ggt.Consumer.Processor.{
  Processor, new_processor, Reach, here, next, check, acquire, start as begin, Reach-bounded,
}
use ggt.Shutdown.{NamedTask, shutdown, register_all, unwind, shutdown-register_all}

abbrev topic : Text
topic = codes "in"

abbrev at : ℕ → Record
at n = record {
  topic = topic;
  partition = pos 0;
  offset = pos n;
  key = none;
  value_bytes = [];
  timestamp = 0;
}

abbrev fails : ℤ → Option ℕ
fails (pos (suc zero)) = some 7
fails _ = none

-- A handler that fails on offset 1, and counts its calls.
abbrev handler : Record → ℕ → Option ℕ × ℕ
handler r n = (fails r.offset, n + 1)

abbrev past : ℤ → ℤ
past (pos n) = pos (n + 1)
past (negsuc zero) = pos 0
past (negsuc (suc n)) = negsuc n

-- A broker that holds a function from topics and partitions to offsets.
abbrev Broker : Type 0
Broker = Text → ℤ → ℤ

abbrev same_number : ℤ → ℤ → Bool
same_number (pos a) (pos b) = a == b
same_number (negsuc a) (negsuc b) = a == b
same_number _ _ = false

abbrev commit_to : Record → Broker → Option ℕ × Broker
commit_to r b = (
  none,
  λ t p.
      if text_eq r.topic t
      then (if same_number r.partition p then past r.offset else b t p)
      else b t p,
)

abbrev offsets : Broker → Text → ℤ → ℤ
offsets b t p = b t p

abbrev start : Work ℕ Broker ℕ
start = record { world = 0; broker = λ t p. pos 0; abort_err = none }

abbrev polled : Fetches
polled =
    record { name = topic; partitions = record { number = pos 0; records = at 1 ∷ at 2 ∷ [] } ∷ [] }
    ∷ []

iterate-delivers_example :
    ((iterate handler commit_to polled (record { work = start; err_ch = [] })).work.world
      ≡ handled handler (all_records polled) 0)
    × ((iterate handler commit_to polled (record { work = start; err_ch = [] })).work.broker
        ≡ committed commit_to (succeeded handler (all_records polled) 0) start.broker)
    × ((iterate handler commit_to polled (record { work = start; err_ch = [] })).work.abort_err
        ≡ last_error handler (all_records polled) 0)
iterate-delivers_example =
    iterate-delivers handler commit_to polled (record { work = start; err_ch = [] })

abbrev note : ℕ → List ℕ → Option ℕ × List ℕ
note n w = (some n, w ++ n ∷ [])

abbrev tasks : List (NamedTask (List ℕ))
tasks =
    record { name = codes "metrics"; task = note 1 }
    ∷ record { name = codes "worker"; task = note 2 }
    ∷ []

shutdown-register_all_example :
    let done = shutdown (register_all tasks (record { tasks = []; once = false })) [] in
    (done.1 ≡ unwind tasks []) × (shutdown done.0 done.1 ≡ done)
shutdown-register_all_example = shutdown-register_all tasks []

abbrev free : Processor
free = new_processor (pos 2)

abbrev checked_one : Processor
checked_one = record free { checked = 1 }

abbrev entered_one : Processor
entered_one = record free { worker_sem = 1; entered = 1 }

abbrev running_one : Processor
running_one = record free { worker_sem = 1; wg = 1; running = 1 }

free_to_running : Reach free running_one
unfolding new_processor
free_to_running =
    next (next (next here (check free refl)) (acquire checked_one 0 refl (omega arith)))
      (begin entered_one 0 refl)

Reach-bounded_example :
    (running_one.running ≤ 2)
    × (0 < running_one.running → 0 < running_one.worker_sem)
    × (running_one.wg ≡ 0 → running_one.running ≡ 0)
    × (running_one.entered ≡ 0 → running_one.running ≡ 0 → running_one.worker_sem < 2)
unfolding new_processor
Reach-bounded_example = Reach-bounded (pos 2) free_to_running
