-- ===== src/Kafka/Consumer/Feed.antt =====
-- platform/kafka/kafkaconsumer/kafkaconsumer.go: one partition over all rounds of `Run`.
--
-- `Feed` says what the rounds may bring, as franz-go documents PollRecords and SetOffsets: a poll
-- returns the next records of the partition, and after SetOffsets the polls go on from the offset
-- that was set. A rebalance, after which the position is the committed one, is left out.
use delivery_backend.Base.{
  ℕ, String, ◌≡◌, ◌≢◌, refl, sym, subst, ap, ◌∙◌, Bool, true, false, ◌||◌, none, List, [], ◌∷◌,
  ◌++◌, append_assoc, inl, inr, All,
}
use delivery_backend.Errors.{Err, nil}
use delivery_backend.Kafka.Message.{Record, Message}
use delivery_backend.Kafka.Consumer.{
  FetchPartition, Progress, start, process_records, process_partitions, fetch_error, rewound, Round,
  Trace, go_on, round, run,
}
use delivery_backend.Kafka.Consumer.Process.{
  of_partition, IsElsewhere, rewind_in, accepted, state_after, process_records-cons,
  process_records-other, process_partitions-other, process_partitions-own,
}
use delivery_backend.Kafka.Consumer.Commits.{committed, committed-round, go_on-cases}
use delivery_backend.Kafka.Consumer.Position.{
  resume, Precedes, settled-resume, of_partition-append, IsLog, resume-IsLog, Ascending-left,
  AllIn-left, All-right,
}

module _ {ℓ} {H : Type ℓ} (label : String → ℕ → String) (handle : H → Message → Err × H)
    (t : String) (q : ℕ) where
  abbrev pub processed : H → Round → Progress H
  processed s r = process_partitions handle (start s) r.fetches

  abbrev pub is_over : Round → Bool
  is_over r = r.cancelled || r.closed

  -- The rounds that a partition with the records `log` ahead may bring, from the handler's state.
  -- A fetch with an error has none of its records.
  pub data Feed : List Record → H → List Round → Type ℓ where
    ended : {log : List Record} {s : H} → Feed log s []
    stopped :
        {log : List Record} {s : H} {r : Round} {rs : List Round}
        → is_over r ≡ true
        → Feed log s (r ∷ rs)
    broken :
        {log : List Record} {s : H} {r : Round} {rs : List Round}
        → is_over r ≡ false
        → fetch_error label r.fetches ≢ nil
        → All (IsElsewhere t q) r.fetches
        → Feed log s rs
        → Feed log s (r ∷ rs)
    quiet :
        {log : List Record} {s : H} {r : Round} {rs : List Round}
        → is_over r ≡ false
        → fetch_error label r.fetches ≡ nil
        → All (IsElsewhere t q) r.fetches
        → Feed log (processed s r).state rs
        → Feed log s (r ∷ rs)
    fetched :
        {log : List Record} {s : H} {r : Round} {rs : List Round} (before : List FetchPartition)
        (p : FetchPartition) (after : List FetchPartition) (rest : List Record)
        → is_over r ≡ false
        → fetch_error label r.fetches ≡ nil
        → r.fetches ≡ before ++ p ∷ after
        → All (IsElsewhere t q) before
        → All (IsElsewhere t q) after
        → log ≡ p.records ++ rest
        → Feed
            (resume (rewind_in handle t q (processed s r)) p.records rest)
            (processed s r).state
            rs
        → Feed log s (r ∷ rs)

  -- What was committed of the partition is the records ahead, up to some point.
  abbrev Consumed : List Record → Trace H → Type 0
  Consumed log tr = (rest : List Record) × (of_partition t q (committed tr.calls) ++ rest ≡ log)

  go_on-Consumed :
      (due : Bool) (r : Round) (s : H) (next : Trace H) (log : List Record)
      → Consumed log next
      → Consumed log (go_on label handle due r s next)
  go_on-Consumed due r s next log (rest, eq) = elim (go_on-cases label handle due r s next) [
    | inl (st, cs) ↦ (rest, ap (λ l. of_partition t q l ++ rest) cs ∙ eq)
    | inr (st, cs) ↦ (log, ap (λ l. of_partition t q l ++ log) cs)
  ]

  round-Consumed :
      (r : Round) (s : H) (done : Progress H) (failed next : Trace H) (log log' : List Record)
      → of_partition t q done.processed ++ log' ≡ log
      → Consumed log' next
      → Consumed log (round label handle r s done failed next nil)
  round-Consumed r s done failed next log log' split h =
      let on : Trace H = go_on label handle (rewound done.rewind) r done.state next in
      let (rest, eq) = go_on-Consumed (rewound done.rewind) r done.state next log' h in
      (
        rest,
        ap (λ l. of_partition t q l ++ rest) (committed-round label handle r s done failed next)
            ∙ ap (λ l. l ++ rest) (of_partition-append t q done.processed (committed on.calls))
            ∙ append_assoc (of_partition t q done.processed) (of_partition t q (committed on.calls))
                rest
            ∙ ap (λ l. of_partition t q done.processed ++ l) eq
            ∙ split,
      )

  refused-Consumed :
      (r : Round) (s : H) (done : Progress H) (failed next : Trace H) (e : Err) (log : List Record)
      → e ≢ nil
      → Consumed log failed
      → Consumed log (round label handle r s done failed next e)
  refused-Consumed r s done failed next nil log bad h = absurd (bad refl)
  refused-Consumed r s done failed next e log bad h = go_on-Consumed true r s failed log h

  -- A rewind goes to a record before all those that follow the fetched ones.
  process_records-Precedes :
      (acc : Progress H) (rs rest : List Record)
      → IsLog t q (rs ++ rest)
      → rewind_in handle t q acc ≡ none
      → Precedes (rewind_in handle t q (process_records handle acc rs)) rest
  unfolding process_records
  process_records-Precedes acc [] rest h fresh = rw fresh tt
  process_records-Precedes acc (r ∷ rs) rest h fresh = elim (process_records-cons handle acc r rs) [
    | inl good ↦ rw good (
        process_records-Precedes (accepted acc r (state_after handle acc r)) rs rest (h.0.1, h.1.1)
          fresh)
    | inr bad ↦ rw (bad, h.0.0) (All-right r.offset rs rest h.1.0)
  ]

  process_partitions-Precedes :
      (acc : Progress H) (before : List FetchPartition) (p : FetchPartition)
      (after : List FetchPartition) (rest : List Record)
      → All (IsElsewhere t q) before
      → All (IsElsewhere t q) after
      → IsLog t q (p.records ++ rest)
      → rewind_in handle t q acc ≡ none
      → Precedes (rewind_in handle t q (process_partitions handle acc (before ++ p ∷ after))) rest
  unfolding process_partitions
  process_partitions-Precedes acc [] p after rest hb ha h fresh =
      let others =
        process_partitions-other handle t q (process_records handle acc p.records) after ha in
      rw others.1 (process_records-Precedes acc p.records rest h fresh)
  process_partitions-Precedes acc (b ∷ before) p after rest hb ha h fresh =
      let others = process_records-other handle t q acc b.records hb.0 in
      process_partitions-Precedes (process_records handle acc b.records) before p after rest hb.1 ha
        h (others.1 ∙ fresh)

  processed-split :
      (s : H) (before : List FetchPartition) (p : FetchPartition) (after : List FetchPartition)
      (rest : List Record)
      → All (IsElsewhere t q) before
      → All (IsElsewhere t q) after
      → IsLog t q (p.records ++ rest)
      → let done = process_partitions handle (start s) (before ++ p ∷ after) in
        of_partition t q done.processed ++ resume (rewind_in handle t q done) p.records rest
        ≡ p.records ++ rest
  processed-split s before p after rest hb ha h =
      let done = process_partitions handle (start s) (before ++ p ∷ after) in
      let w = rewind_in handle t q done in
      ap (λ l. l ++ resume w p.records rest)
        (process_partitions-own handle t q (start s) before p after hb ha
          (AllIn-left t q p.records rest h.0) (Ascending-left p.records rest h.1) refl refl)
      ∙ settled-resume w p.records rest h.1
          (process_partitions-Precedes (start s) before p after rest hb ha h refl)

  pub fetched-split :
      (s : H) (r : Round) (before : List FetchPartition) (p : FetchPartition)
      (after : List FetchPartition) (log rest : List Record)
      → r.fetches ≡ before ++ p ∷ after
      → All (IsElsewhere t q) before
      → All (IsElsewhere t q) after
      → log ≡ p.records ++ rest
      → IsLog t q log
      → (of_partition t q (processed s r).processed
            ++ resume (rewind_in handle t q (processed s r)) p.records rest
          ≡ log)
        × IsLog t q (resume (rewind_in handle t q (processed s r)) p.records rest)
  fetched-split s r before p after log rest shape hb ha split h =
      let h' : IsLog t q (p.records ++ rest) = subst (λ l. IsLog t q l) split h in
      rw shape (
        processed-split s before p after rest hb ha h' ∙ sym split,
        resume-IsLog t q _ p.records rest h',
      )

  -- Take a partition, and the records that it has ahead, with ascending offsets. Whatever handlers
  -- and commits fail, and however often records come again, what Run commits of the partition are
  -- these records from the first one on: each once, in their order, and none of them skipped. The
  -- polls are assumed to go on from where they or a change of offsets left off, with no rebalance,
  -- and no fetch that has an error to have records of the partition.
  pub run_consumes :
      {log : List Record} {s : H} {rounds : List Round}
      → IsLog t q log
      → Feed log s rounds
      → (rest : List Record) × (of_partition t q (committed (run label handle s rounds).calls)
            ++ rest
          ≡ log)
  unfolding run
  run_consumes {log = log} h ended = (log, refl)
  run_consumes {log = log} h (stopped over) = rw over (log, refl)
  run_consumes {log = log} {s = s} h (broken {r = r} {rs = rs} on bad others next) = rw on (
      refused-Consumed r s (processed s r) (run label handle s rs)
        (run label handle (processed s r).state rs) (fetch_error label r.fetches) log bad
        (run_consumes h next))
  run_consumes {log = log} {s = s} h (quiet {r = r} {rs = rs} on good others next) =
      let same = process_partitions-other handle t q (start s) r.fetches others in
      rw (on, good)
        (round-Consumed r s (processed s r) (run label handle s rs)
          (run label handle (processed s r).state rs) log log (ap (λ l. l ++ log) same.0)
          (run_consumes h next))
  run_consumes {log = log} {s = s} h
        (fetched {r = r} {rs = rs} before p after rest on good shape hb ha split next) =
      let split' = fetched-split s r before p after log rest shape hb ha split h in
      rw (on, good)
        (round-Consumed r s (processed s r) (run label handle s rs)
          (run label handle (processed s r).state rs) log
          (resume (rewind_in handle t q (processed s r)) p.records rest) split'.0
          (run_consumes split'.1 next))
