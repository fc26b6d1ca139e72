-- ===== src/Kafka/Consumer/Durable.antt =====
-- platform/kafka/kafkaconsumer/kafkaconsumer.go: what a handler did for the records that a run
-- commits.
use delivery_backend.Base.{
  ℕ, String, ◌≡◌, refl, sym, ◌∙◌, ap, append_assoc, subst, Bool, true, false, ◌||◌, List, [], ◌∷◌,
  ◌++◌, Bool-cases, inl, inr, All, All-append,
}
use delivery_backend.Errors.{Err, nil}
use delivery_backend.Kafka.Message.{Record, Message, to_message}
use delivery_backend.Kafka.Consumer.{
  FetchPartition, Progress, start, after_record, process_records, process_partitions, fetch_error,
  rewound, Round, Trace, go_on, round, run,
}
use delivery_backend.Kafka.Consumer.Commits.{committed, committed-round}

-- What a handler promises: it keeps an invariant of its state; where it returns nil it has done
-- what is due for the message; and what was done for a message stays done.
pub record IsDurable {ℓ κ μ} {H : Type ℓ} (handle : H → Message → Err × H) (I : H → Type κ)
    (P : Message → H → Type μ) : Type (ℓ ⊔ κ ⊔ μ) where
  pub keeps : (s : H) (m : Message) → I s → I (handle s m).1
  pub does : (s : H) (m : Message) → I s → (handle s m).0 ≡ nil → P m (handle s m).1
  pub stays : (s : H) (m n : Message) → I s → P n s → P n (handle s m).1

module _ {ℓ κ μ} {H : Type ℓ} {I : H → Type κ} {P : Message → H → Type μ}
    (handle : H → Message → Err × H) (d : IsDurable handle I P) where
  abbrev AllDone : List Record → H → Type μ
  AllDone rs s = All (λ r. P (to_message r) s) rs

  abbrev IsKept : List Record → Progress H → Type (κ ⊔ μ)
  IsKept ks acc = I acc.state × AllDone ks acc.state × AllDone acc.processed acc.state

  stays-all :
      (s : H) (m : Message) (rs : List Record) → I s → AllDone rs s → AllDone rs (handle s m).1
  stays-all s m [] i h = tt
  stays-all s m (r ∷ rs) i h = (d.stays s m (to_message r) i h.0, stays-all s m rs i h.1)

  after_record-IsKept :
      (ks : List Record) (acc : Progress H) (r : Record) (x : Err × H)
      → I x.1
      → AllDone ks x.1
      → AllDone acc.processed x.1
      → (x.0 ≡ nil → P (to_message r) x.1)
      → IsKept ks (after_record handle acc r x).1
  after_record-IsKept ks acc r (nil, s) i old h p =
      (i, old, All-append (λ x. P (to_message x) s) acc.processed (r ∷ []) h (p refl, tt))
  after_record-IsKept ks acc r (e, s) i old h p = (i, old, h)

  process_records-IsKept :
      (ks : List Record) (acc : Progress H) (rs : List Record)
      → IsKept ks acc
      → IsKept ks (process_records handle acc rs)
  unfolding process_records
  process_records-IsKept ks acc [] h = h
  process_records-IsKept ks acc (r ∷ rs) h =
      let m = to_message r in
      let x = handle acc.state m in
      let one : IsKept ks (after_record handle acc r x).1 =
        after_record-IsKept ks acc r x (d.keeps acc.state m h.0) (stays-all acc.state m ks h.0 h.1)
          (stays-all acc.state m acc.processed h.0 h.2) (d.does acc.state m h.0) in
      elim (Bool-cases (after_record handle acc r x).0) [
        | inl good ↦ rw good (process_records-IsKept ks (after_record handle acc r x).1 rs one)
        | inr bad ↦ rw bad one
      ]

  process_partitions-IsKept :
      (ks : List Record) (acc : Progress H) (ps : List FetchPartition)
      → IsKept ks acc
      → IsKept ks (process_partitions handle acc ps)
  unfolding process_partitions
  process_partitions-IsKept ks acc [] h = h
  process_partitions-IsKept ks acc (p ∷ ps) h =
      process_partitions-IsKept ks (process_records handle acc p.records) ps
        (process_records-IsKept ks acc p.records h)

  module _ (label : String → ℕ → String) where
    -- With what was done before the run.
    abbrev IsKeptBy : List Record → Trace H → Type (κ ⊔ μ)
    IsKeptBy ks t = I t.state × AllDone (ks ++ committed t.calls) t.state

    go_on-IsKeptBy :
        (ks : List Record) (due : Bool) (r : Round) (s : H) (next : Trace H)
        → I s
        → AllDone ks s
        → IsKeptBy ks next
        → IsKeptBy ks (go_on label handle due r s next)
    go_on-IsKeptBy ks false r s next i old h = h
    go_on-IsKeptBy ks true r s next i old h = elim (Bool-cases r.waited) [
      | inl w ↦ rw w h
      | inr w ↦ rw w (i, All-append (λ x. P (to_message x) s) ks [] old tt)
    ]

    round-IsKeptBy :
        (ks : List Record) (r : Round) (s : H) (done : Progress H) (failed next : Trace H) (e : Err)
        → I s
        → AllDone ks s
        → IsKept ks done
        → IsKeptBy ks failed
        → IsKeptBy (ks ++ done.processed) next
        → IsKeptBy ks (round label handle r s done failed next e)
    round-IsKeptBy ks r s done failed next nil i old made hf hn =
        let due = rewound done.rewind in
        let t : Trace H = go_on label handle due r done.state next in
        let all = All-append (λ x. P (to_message x) done.state) ks done.processed made.1 made.2 in
        let after = go_on-IsKeptBy (ks ++ done.processed) due r done.state next made.0 all hn in
        (
          after.0,
          subst (λ l. AllDone l t.state)
              (append_assoc ks done.processed (committed t.calls)
                ∙ ap (λ l. ks ++ l) (sym (committed-round label handle r s done failed next)))
              after.1,
        )
    round-IsKeptBy ks r s done failed next e i old made hf hn =
        go_on-IsKeptBy ks true r s failed i old hf

    run-IsKeptBy :
        (ks : List Record) (s : H) (rounds : List Round)
        → I s
        → AllDone ks s
        → IsKeptBy ks (run label handle s rounds)
    unfolding run
    run-IsKeptBy ks s [] i old = (i, All-append (λ x. P (to_message x) s) ks [] old tt)
    run-IsKeptBy ks s (r ∷ rs) i old =
        let done = process_partitions handle (start s) r.fetches in
        let made = process_partitions-IsKept ks (start s) r.fetches (i, old, tt) in
        let all = All-append (λ x. P (to_message x) done.state) ks done.processed made.1 made.2 in
        elim (Bool-cases (r.cancelled || r.closed)) [
          | inl over ↦ rw over (i, All-append (λ x. P (to_message x) s) ks [] old tt)
          | inr on ↦ rw on (
              round-IsKeptBy ks r s done (run label handle s rs) (run label handle done.state rs)
                (fetch_error label r.fetches) i old made (run-IsKeptBy ks s rs i old)
                (run-IsKeptBy (ks ++ done.processed) done.state rs made.0 all))
        ]

    -- If a handler does what is due for a message where it returns nil, and it stays done, then
    -- after any rounds of Run, whatever fails in them, what is due is done for every record that
    -- was given to CommitRecords.
    pub run_commits_done :
        (s : H) (rounds : List Round)
        → I s
        → let t = run label handle s rounds in
          I t.state × All (λ r. P (to_message r) t.state) (committed t.calls)
    run_commits_done s rounds i = run-IsKeptBy [] s rounds i tt
