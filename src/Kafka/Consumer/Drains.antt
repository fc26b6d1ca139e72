-- ===== src/Kafka/Consumer/Drains.antt =====
-- platform/kafka/kafkaconsumer/kafkaconsumer.go: that `Run` gets through a partition.
use delivery_backend.Base.{
  ℕ, ◌+◌, ◌≤◌, ◌<◌, String, ◌≡◌, refl, sym, ap, ◌∙◌, Bool, true, false, ◌||◌, List, [], ◌∷◌, ◌++◌,
  length, length-append, arith, inl, inr, All,
}
use delivery_backend.Errors.{Err, nil}
use delivery_backend.Kafka.Message.{Record, Message}
use delivery_backend.Kafka.Consumer.{
  FetchPartition, Progress, start, process_partitions, fetch_error, rewound, Round, Trace, go_on,
  round, run,
}
use delivery_backend.Kafka.Consumer.Process.{
  of_partition, IsIn, IsElsewhere, process_partitions-other, rewind_in,
}
use delivery_backend.Kafka.Consumer.Commits.{committed, committed-round}
use delivery_backend.Kafka.Consumer.Position.{resume, of_partition-append, IsLog}
use delivery_backend.Base.{subst}
use delivery_backend.Kafka.Consumer.Feed.{fetched-split}
use delivery_backend.Kafka.Consumer.Advance.{
  IsTiring, process_partitions-keeps, process_partitions-Advances, Advances,
}

module _ {ℓ} {H : Type ℓ} (label : String → ℕ → String) (handle : H → Message → Err × H)
    (t : String) (q : ℕ) where
  abbrev after_round : H → Round → Progress H
  after_round s r = process_partitions handle (start s) r.fetches

  -- Rounds that bring the next records of a partition with the records `log` ahead, as long as
  -- there are any. No poll fails, and every backoff ends by its time.
  pub data Supply : List Record → H → List Round → Type ℓ where
    ended : {log : List Record} {s : H} → Supply log s []
    idle :
        {s : H} {r : Round} {rs : List Round}
        → (r.cancelled || r.closed) ≡ false
        → fetch_error label r.fetches ≡ nil
        → r.waited ≡ true
        → All (IsElsewhere t q) r.fetches
        → Supply [] (after_round s r).state rs
        → Supply [] s (r ∷ rs)
    fetched :
        {log : List Record} {s : H} {r : Round} {rs : List Round} (before : List FetchPartition)
        (p : FetchPartition) (after : List FetchPartition) (first : Record)
        (others rest : List Record)
        → (r.cancelled || r.closed) ≡ false
        → fetch_error label r.fetches ≡ nil
        → r.waited ≡ true
        → r.fetches ≡ before ++ p ∷ after
        → All (IsElsewhere t q) before
        → All (IsElsewhere t q) after
        → p.records ≡ first ∷ others
        → log ≡ p.records ++ rest
        → Supply
            (resume (rewind_in handle t q (after_round s r)) p.records rest)
            (after_round s r).state
            rs
        → Supply log s (r ∷ rs)

  go_on-waited :
      (due : Bool) (r : Round) (s : H) (next : Trace H)
      → r.waited ≡ true
      → committed (go_on label handle due r s next).calls ≡ committed next.calls
  go_on-waited false r s next w = refl
  go_on-waited true r s next w = rw w refl

  -- What a round whose fetch has no error adds to what is committed of the partition.
  round-adds :
      (r : Round) (s : H) (done : Progress H) (failed next : Trace H)
      → r.waited ≡ true
      → of_partition t q (committed (round label handle r s done failed next nil).calls)
        ≡ of_partition t q done.processed ++ of_partition t q (committed next.calls)
  round-adds r s done failed next w =
      ap (of_partition t q) (committed-round label handle r s done failed next)
      ∙ of_partition-append t q done.processed _
      ∙ ap (λ l. of_partition t q done.processed ++ of_partition t q l)
          (go_on-waited (rewound done.rewind) r done.state next w)

  run_idle :
      {s : H} {rounds : List Round}
      → Supply [] s rounds
      → of_partition t q (committed (run label handle s rounds).calls) ≡ []
  unfolding run
  run_idle ended = refl
  run_idle {s = s} (idle {r = r} {rs = rs} on good w others next) =
      let done = after_round s r in
      let same = process_partitions-other handle t q (start s) r.fetches others in
      rw (on, good)
        (round-adds r s done (run label handle s rs) (run label handle done.state rs) w
          ∙ ap (λ l. l ++ of_partition t q (committed (run label handle done.state rs).calls))
              same.0
          ∙ run_idle next)
  run_idle
        (fetched before p after first others rest on good w shape hb ha some_records split next) =
      absurd (cc (some_records, split))

  -- With a failure that is one of a few, or a record that is done, what is still ahead gets less.
  ahead_less :
      (left : H → ℕ) (tiring : IsTiring handle left) (s : H) (r : Round)
      (before : List FetchPartition) (p : FetchPartition) (after : List FetchPartition)
      (first : Record) (others rest log ahead : List Record)
      → r.fetches ≡ before ++ p ∷ after
      → p.records ≡ first ∷ others
      → log ≡ p.records ++ rest
      → IsLog t q log
      → of_partition t q (after_round s r).processed ++ ahead ≡ log
      → length ahead + left (after_round s r).state < length log + left s
  ahead_less left tiring s r before p after first others rest log ahead shape some_records split h
        done =
      let sizes : length (of_partition t q (after_round s r).processed) + length ahead
          ≡ length log =
        sym (length-append (of_partition t q (after_round s r).processed) ahead) ∙ ap length done in
      let kept = process_partitions-keeps handle left tiring (start s) r.fetches in
      let inside : IsIn t q first =
        (subst (λ l. IsLog t q l) (split ∙ ap (λ l. l ++ rest) some_records) h).0.0 in
      let moved : Advances handle left tiring t q (start s) (after_round s r) = rw shape (
        process_partitions-Advances handle left tiring t q (start s) before p after first others
          some_records inside) in
      elim moved [
        | inl fewer ↦ omega (arith, sizes, kept, fewer)
        | inr more ↦ omega (arith, sizes, kept, more)
      ]

  -- Take a handler that can fail only so often, and a partition with records ahead, which come
  -- with ascending offsets. If every round brings the next of them while there are any, no poll
  -- fails and no wait is broken off, then Run commits each of them once, in their order, within
  -- as many rounds as there are records ahead and failures left.
  pub run_drains :
      (left : H → ℕ) (tiring : IsTiring handle left) {log : List Record} {s : H}
      {rounds : List Round}
      → IsLog t q log
      → Supply log s rounds
      → length log + left s ≤ length rounds
      → of_partition t q (committed (run label handle s rounds).calls) ≡ log
  unfolding run
  run_drains left tiring {log = []} h ended enough = refl
  run_drains left tiring {log = r ∷ log} {s = s} h ended enough = absurd (omega (arith, enough))
  run_drains left tiring {s = s} h (idle {r = r} {rs = rs} on good w others next) enough =
      run_idle {s = s} {rounds = r ∷ rs} (idle {r = r} {rs = rs} on good w others next)
  run_drains left tiring {log = log} {s = s} h
        (fetched {r = r} {rs = rs} before p after first others rest on good w shape hb ha
          some_records split next)
        enough =
      let done = after_round s r in
      let ahead = resume (rewind_in handle t q done) p.records rest in
      let split' = fetched-split label handle t q s r before p after log rest shape hb ha split h in
      let less =
        ahead_less left tiring s r before p after first others rest log ahead shape some_records
          split h split'.0 in
      let later = run_drains left tiring split'.1 next (omega (arith, less, enough)) in
      rw (on, good)
        (round-adds r s done (run label handle s rs) (run label handle done.state rs) w
          ∙ ap (λ l. of_partition t q done.processed ++ l) later
          ∙ split'.0)
