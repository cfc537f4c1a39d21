-- ===== src/Consumer/Batch.antt =====
-- What the fetch loop does with the records of its polls (internal/consumer/kafka.go).
use ggt.Prelude.{
  ℕ, Option, none, some, List, [], ◌∷◌, ◌++◌, ◌≡◌, refl, sym, ◌∙◌, ap, Option-cases, inl, inr,
  arith,
}
use ggt.Worker.{Record}
use ggt.Consumer.{
  Partition, Fetches, Work, Loop, handle_record, each_record, each_partition, each_topic, iterate,
}

-- The records of a poll, in order.
unfoldable pub partition_records : List Partition → List Record
partition_records [] = []
partition_records (p ∷ ps) = p.records ++ partition_records ps

unfoldable pub all_records : Fetches → List Record
all_records [] = []
all_records (t ∷ ts) = partition_records t.partitions ++ all_records ts

abbrev or_else {ℓ} : {A : Type ℓ} → Option A → Option A → Option A
or_else (some a) o = some a
or_else none o = o

-- The handler's state after a list of records.
unfoldable pub handled {ℓ} : {W E : Type ℓ} → (Record → W → Option E × W) → List Record → W → W
handled handler [] w = w
handled handler (r ∷ rs) w = handled handler rs (handler r w).1

-- The records of a list that the handler succeeds on, each in the state that those before it leave.
unfoldable pub succeeded {ℓ} :
    {W E : Type ℓ} → (Record → W → Option E × W) → List Record → W → List Record
succeeded handler [] w = []
succeeded handler (r ∷ rs) w =
    let rest = succeeded handler rs (handler r w).1 in
    elim (handler r w).0 [ none ↦ r ∷ rest | some e ↦ rest ]

-- The error of the last record that the handler fails on.
unfoldable pub last_error {ℓ} :
    {W E : Type ℓ} → (Record → W → Option E × W) → List Record → W → Option E
last_error handler [] w = none
last_error handler (r ∷ rs) w = or_else (last_error handler rs (handler r w).1) (handler r w).0

-- The broker after commits of records, in order.
unfoldable pub committed {ℓ} : {B : Type ℓ} → (Record → B → Option ℕ × B) → List Record → B → B
committed commit_records [] b = b
committed commit_records (r ∷ rs) b = committed commit_records rs (commit_records r b).1

module _ {ℓ} {W B E : Type ℓ} (handler : Record → W → Option E × W)
    (commit_records : Record → B → Option ℕ × B) where
  each_record-append :
      (rs qs : List Record) (s : Work W B E)
      → each_record handler commit_records (rs ++ qs) s
        ≡ each_record handler commit_records qs (each_record handler commit_records rs s)
  unfolding each_record
  each_record-append [] qs s = refl
  each_record-append (r ∷ rs) qs s =
      each_record-append rs qs (handle_record handler commit_records r s)

  each_partition_records :
      (ps : List Partition) (s : Work W B E)
      → each_partition handler commit_records ps s
        ≡ each_record handler commit_records (partition_records ps) s
  unfolding each_partition partition_records
  each_partition_records [] s = unfold each_record in refl
  each_partition_records (p ∷ ps) s =
      each_partition_records ps (each_record handler commit_records p.records s)
      ∙ sym (each_record-append p.records (partition_records ps) s)

  each_topic_records :
      (ts : Fetches) (s : Work W B E)
      → each_topic handler commit_records ts s
        ≡ each_record handler commit_records (all_records ts) s
  unfolding each_topic all_records
  each_topic_records [] s = unfold each_record in refl
  each_topic_records (t ∷ ts) s =
      each_topic_records ts (each_partition handler commit_records t.partitions s)
      ∙ ap (each_record handler commit_records (all_records ts))
          (each_partition_records t.partitions s)
      ∙ sym (each_record-append (partition_records t.partitions) (all_records ts) s)

  world-handle_record :
      (r : Record) (s : Work W B E)
      → (handle_record handler commit_records r s).world ≡ (handler r s.world).1
  unfolding handle_record
  world-handle_record r s = ground arith

  world-each_record :
      (rs : List Record) (s : Work W B E)
      → (each_record handler commit_records rs s).world ≡ handled handler rs s.world
  unfolding each_record handled
  world-each_record [] s = refl
  world-each_record (r ∷ rs) s =
      world-each_record rs (handle_record handler commit_records r s)
      ∙ ap (handled handler rs) (world-handle_record r s)

  handle_record_fine :
      (r : Record) (s : Work W B E)
      → (handler r s.world).0 ≡ none
      → handle_record handler commit_records r s
        ≡ record s { world = (handler r s.world).1; broker = (commit_records r s.broker).1 }
  unfolding handle_record
  handle_record_fine r s h = ground arith

  handle_record_failed :
      (r : Record) (s : Work W B E) (e : E)
      → (handler r s.world).0 ≡ some e
      → handle_record handler commit_records r s
        ≡ record s { world = (handler r s.world).1; abort_err = some e }
  unfolding handle_record
  handle_record_failed r s e h = ground arith

  broker-each_record :
      (rs : List Record) (s : Work W B E)
      → (each_record handler commit_records rs s).broker
        ≡ committed commit_records (succeeded handler rs s.world) s.broker
  unfolding each_record succeeded committed
  broker-each_record [] s = refl
  broker-each_record (r ∷ rs) s =
      let after = broker-each_record rs (handle_record handler commit_records r s) in
      elim (Option-cases (handler r s.world).0) [
        | inl p ↦
            rw (p, succeeded)
              (after
                ∙ ap (λ t. committed commit_records (succeeded handler rs t.world) t.broker)
                    (handle_record_fine r s p))
        | inr (e, p) ↦
            rw (p, succeeded)
              (after
                ∙ ap (λ t. committed commit_records (succeeded handler rs t.world) t.broker)
                    (handle_record_failed r s e p))
      ]

  or_else_assoc : (a b c : Option E) → or_else a (or_else b c) ≡ or_else (or_else a b) c
  or_else_assoc none b c = refl
  or_else_assoc (some a) b c = refl

  abort_err-handle_record :
      (r : Record) (s : Work W B E)
      → (handle_record handler commit_records r s).abort_err
        ≡ or_else (handler r s.world).0 s.abort_err
  abort_err-handle_record r s = elim (Option-cases (handler r s.world).0) [
    | inl p ↦ rw p (ap (λ t. t.abort_err) (handle_record_fine r s p))
    | inr (e, p) ↦ rw p (ap (λ t. t.abort_err) (handle_record_failed r s e p))
  ]

  abort_err-each_record :
      (rs : List Record) (s : Work W B E)
      → (each_record handler commit_records rs s).abort_err
        ≡ or_else (last_error handler rs s.world) s.abort_err
  unfolding each_record last_error
  abort_err-each_record [] s = refl
  abort_err-each_record (r ∷ rs) s =
      abort_err-each_record rs (handle_record handler commit_records r s)
      ∙ ap
          (λ w.
            or_else (last_error handler rs w) (handle_record handler commit_records r s).abort_err)
          (world-handle_record r s)
      ∙ ap (or_else (last_error handler rs (handler r s.world).1)) (abort_err-handle_record r s)
      ∙ or_else_assoc (last_error handler rs (handler r s.world).1) (handler r s.world).0
          s.abort_err

  or_else-none : (a : Option E) → or_else a none ≡ a
  or_else-none none = refl
  or_else-none (some a) = refl

  work-iterate :
      (fetches : Fetches) (l : Loop W B E)
      → (iterate handler commit_records fetches l).work
        ≡ each_record handler commit_records
            (all_records fetches)
            (record l.work { abort_err = none })
  unfolding iterate
  work-iterate fetches l =
      let s : Work W B E = record l.work { abort_err = none } in
      elim (Option-cases (each_topic handler commit_records fetches s).abort_err) [
        | inl e ↦ rw (e, iterate) (each_topic_records fetches s)
        | inr (x, e) ↦ rw (e, iterate) (each_topic_records fetches s)
      ]

  -- A poll hands every one of its records to the handler once, in the order of the poll, those
  -- behind a record that the handler failed on included. The commits that it makes are those of the
  -- records that the handler succeeds on, in that order, whatever came before them. And it ends with
  -- the error of the last record that the handler failed on, or with none if there is none.
  pub iterate-delivers :
      (fetches : Fetches) (l : Loop W B E)
      → ((iterate handler commit_records fetches l).work.world
          ≡ handled handler (all_records fetches) l.work.world)
        × ((iterate handler commit_records fetches l).work.broker
            ≡ committed commit_records
                (succeeded handler (all_records fetches) l.work.world)
                l.work.broker)
        × ((iterate handler commit_records fetches l).work.abort_err
            ≡ last_error handler (all_records fetches) l.work.world)
  iterate-delivers fetches l =
      let s : Work W B E = record l.work { abort_err = none } in
      let same = work-iterate fetches l in
      (
        ap (λ t. t.world) same ∙ world-each_record (all_records fetches) s,
        ap (λ t. t.broker) same ∙ broker-each_record (all_records fetches) s,
        ap (λ t. t.abort_err) same
            ∙ abort_err-each_record (all_records fetches) s
            ∙ or_else-none (last_error handler (all_records fetches) l.work.world),
      )
