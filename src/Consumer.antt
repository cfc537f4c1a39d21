-- ===== src/Consumer.antt =====
-- internal/consumer: the fetch loop (kafka.go) and the offset manager (offset_manager.go). The
-- handler and the broker are arguments: a handler and a commit return an error or none, with the
-- state after them. A poll gives records by topic and partition; the polls are those before the
-- context is cancelled.
pub mod Batch
pub mod Offsets
pub mod Processor
use ggt.Prelude.{
  ℕ, zero, suc, Bool, true, false, Option, none, some, List, [], ◌∷◌, ◌++◌, ltb, length, Text,
  if◌then◌else◌,
}
use ggt.Prelude.Int.{ℤ}
use ggt.Worker.{Record}

pub record Partition : Type 0 where
  pub number : ℤ
  pub records : List Record

pub record Topic : Type 0 where
  pub name : Text
  pub partitions : List Partition

abbrev pub Fetches : Type 0
Fetches = List Topic

-- what a poll's records leave behind: the handler's state, the broker, and `abortErr`
pub record Work {ℓ} (W B E : Type ℓ) : Type ℓ where
  pub world : W
  pub broker : B
  pub abort_err : Option E

-- the loop's state: the work, and the errors in the buffer of `errCh`
pub record Loop {ℓ} (W B E : Type ℓ) : Type ℓ where
  pub work : Work W B E
  pub err_ch : List E

module _ {ℓ} {W B E : Type ℓ} (handler : Record → W → Option E × W)
    (commit_records : Record → B → Option ℕ × B) where
  unfoldable pub handle_record : Record → Work W B E → Work W B E
  handle_record r s =
      let (failed, w) = handler r s.world in
      elim failed [
        | some e ↦ record s { world = w; abort_err = some e }
        | none ↦ record s { world = w; broker = (commit_records r s.broker).1 }
      ]

  unfoldable pub each_record : List Record → Work W B E → Work W B E
  each_record [] s = s
  each_record (r ∷ rs) s = each_record rs (handle_record r s)

  unfoldable pub each_partition : List Partition → Work W B E → Work W B E
  each_partition [] s = s
  each_partition (p ∷ ps) s = each_partition ps (each_record p.records s)

  unfoldable pub each_topic : Fetches → Work W B E → Work W B E
  each_topic [] s = s
  each_topic (t ∷ ts) s = each_topic ts (each_partition t.partitions s)

  -- the send on `errCh` that gives up when the buffer of ten is full
  abbrev report : E → List E → List E
  report e errs = if ltb (length errs) 10 then errs ++ e ∷ [] else errs

  -- one poll; `abortErr` starts as nil
  unfoldable pub iterate : Fetches → Loop W B E → Loop W B E
  iterate fetches l =
      let done = each_topic fetches (record l.work { abort_err = none }) in
      elim done.abort_err [
        | some e ↦ record { work = done; err_ch = report e l.err_ch }
        | none ↦ record { work = done; err_ch = l.err_ch }
      ]

  unfoldable pub fetch_loop : List Fetches → Loop W B E → Loop W B E
  fetch_loop [] l = l
  fetch_loop (f ∷ fs) l =
      let l' = iterate f l in elim l'.work.abort_err [ some _ ↦ l' | none ↦ fetch_loop fs l' ]
