-- ===== src/Kafka/Consumer/Process.antt =====
-- platform/kafka/kafkaconsumer/kafkaconsumer.go: what one call of `process` commits and rewinds.
use delivery_backend.Base.{
  ℕ, String, ◌≡◌, refl, sym, ap, ◌∙◌, ◌⊎◌, Bool, true, false, ◌&&◌, ◌<◌, Option, none, some, List,
  [], ◌∷◌, ◌++◌, append-nil, append_assoc, arith, ◌==◌, eqb, ltb, if◌then◌else◌, inl, inr, All,
}
use delivery_backend.Errors.{Err, nil}
use delivery_backend.Kafka.Message.{Record, Message, to_message}
use delivery_backend.Kafka.Consumer.{
  FetchPartition, Rewind, rewind_to, Progress, start, after_record, process_records,
  process_partitions,
}

abbrev pub in_partition : String → ℕ → Record → Bool
in_partition t q r = r.topic == t && eqb r.partition q

-- The records of one partition, in their order.
abbrev pub of_partition : String → ℕ → List Record → List Record
of_partition t q [] = []
of_partition t q (r ∷ rs) =
    if in_partition t q r then r ∷ of_partition t q rs else of_partition t q rs

-- The entry of the map for one partition.
abbrev pub rewind_of : String → ℕ → List Rewind → Option ℕ
rewind_of t q [] = none
rewind_of t q (w ∷ ws) =
    if w.topic == t && eqb w.partition q then some w.offset else rewind_of t q ws

abbrev pub below : ℕ → List Record → List Record
below n [] = []
below n (r ∷ rs) = if ltb r.offset n then r ∷ below n rs else below n rs

-- The records that need no second delivery, where the partition is rewound to the offset.
abbrev pub settled : Option ℕ → List Record → List Record
settled none rs = rs
settled (some n) rs = below n rs

abbrev pub Ascending : List Record → Type 0
Ascending [] = Unit
Ascending (r ∷ rs) = All (λ x. r.offset < x.offset) rs × Ascending rs

abbrev pub IsIn : String → ℕ → Record → Type 0
IsIn t q r = in_partition t q r ≡ true

abbrev pub IsElsewhere : String → ℕ → FetchPartition → Type 0
IsElsewhere t q p = All (λ r. in_partition t q r ≡ false) p.records

pub below-none : (n : ℕ) (rs : List Record) → All (λ x. n < x.offset) rs → below n rs ≡ []
below-none n [] h = refl
below-none n (r ∷ rs) h = ground (arith, below-none n rs h.1, h.0)

below_self :
    (r : Record) (rs : List Record)
    → All (λ x. r.offset < x.offset) rs
    → below r.offset (r ∷ rs) ≡ []
below_self r rs h = ground (arith, below-none r.offset rs h)

abbrev Exceeds : ℕ → Option ℕ → Type 0
Exceeds n none = Unit
Exceeds n (some m) = n < m

settled-step :
    (w : Option ℕ) (r : Record) (rs : List Record)
    → Exceeds r.offset w
    → settled w (r ∷ rs) ≡ r ∷ settled w rs
settled-step none r rs h = refl
settled-step (some m) r rs h = ground (arith, h)

module _ (t : String) (q : ℕ) where
  pub of_partition-snoc :
      (rs : List Record) (r : Record)
      → IsIn t q r
      → of_partition t q (rs ++ r ∷ []) ≡ of_partition t q rs ++ r ∷ []
  of_partition-snoc [] r h = rw h refl
  of_partition-snoc (x ∷ xs) r h = ground (arith, of_partition-snoc xs r h)

  of_partition-other :
      (rs : List Record) (r : Record)
      → in_partition t q r ≡ false
      → of_partition t q (rs ++ r ∷ []) ≡ of_partition t q rs
  of_partition-other [] r h = rw h refl
  of_partition-other (x ∷ xs) r h = ground (arith, of_partition-other xs r h)

module _ {ℓ} {H : Type ℓ} where
  -- The two ways that a record leaves the handler.
  abbrev pub accepted : Progress H → Record → H → Progress H
  accepted acc r s = record acc { state = s; processed = acc.processed ++ r ∷ [] }

  abbrev pub refused : Progress H → Record → H → Progress H
  refused acc r s = record acc { state = s; rewind = rewind_to r ∷ acc.rewind }

  module _ (handle : H → Message → Err × H) where
    after_record-cases :
        (acc : Progress H) (r : Record) (x : Err × H)
        → (after_record handle acc r x ≡ (true, accepted acc r x.1))
          ⊎ (after_record handle acc r x ≡ (false, refused acc r x.1))
    after_record-cases acc r (nil, s) = inl refl
    after_record-cases acc r (e, s) = inr refl

    abbrev pub state_after : Progress H → Record → H
    state_after acc r = (handle acc.state (to_message r)).1

    pub process_records-cons :
        (acc : Progress H) (r : Record) (rs : List Record)
        → (process_records handle acc (r ∷ rs)
            ≡ process_records handle (accepted acc r (state_after acc r)) rs)
          ⊎ (process_records handle acc (r ∷ rs) ≡ refused acc r (state_after acc r))
    unfolding process_records
    process_records-cons acc r rs =
        elim (after_record-cases acc r (handle acc.state (to_message r))) [
          | inl good ↦ inl (rw good refl)
          | inr bad ↦ inr (rw bad refl)
        ]

    module _ (t : String) (q : ℕ) where
      abbrev pub done_in : Progress H → List Record
      done_in acc = of_partition t q acc.processed

      abbrev pub rewind_in : Progress H → Option ℕ
      rewind_in acc = rewind_of t q acc.rewind

      pub process_records-other :
          (acc : Progress H) (rs : List Record)
          → All (λ r. in_partition t q r ≡ false) rs
          → (done_in (process_records handle acc rs) ≡ done_in acc)
            × (rewind_in (process_records handle acc rs) ≡ rewind_in acc)
      unfolding process_records
      process_records-other acc [] h = (refl, refl)
      process_records-other acc (r ∷ rs) h = elim (process_records-cons acc r rs) [
        | inl good ↦
            let rest = process_records-other (accepted acc r (state_after acc r)) rs h.1 in
            rw good (rest.0 ∙ of_partition-other t q acc.processed r h.0, rest.1)
        | inr bad ↦ rw bad (refl, ground (arith, h.0))
      ]

      pub process_partitions-other :
          (acc : Progress H) (ps : List FetchPartition)
          → All (IsElsewhere t q) ps
          → (done_in (process_partitions handle acc ps) ≡ done_in acc)
            × (rewind_in (process_partitions handle acc ps) ≡ rewind_in acc)
      unfolding process_partitions
      process_partitions-other acc [] h = (refl, refl)
      process_partitions-other acc (p ∷ ps) h =
          let rest = process_partitions-other (process_records handle acc p.records) ps h.1 in
          let head = process_records-other acc p.records h.0 in (rest.0 ∙ head.0, rest.1 ∙ head.1)

      -- A rewind of a partition goes to one of its records that follow.
      rewind-Exceeds :
          (n : ℕ) (acc : Progress H) (rs : List Record)
          → All (λ x. n < x.offset) rs
          → All (IsIn t q) rs
          → rewind_in acc ≡ none
          → Exceeds n (rewind_in (process_records handle acc rs))
      unfolding process_records
      rewind-Exceeds n acc [] h inside fresh = rw fresh tt
      rewind-Exceeds n acc (r ∷ rs) h inside fresh = elim (process_records-cons acc r rs) [
        | inl good ↦
            rw good (rewind-Exceeds n (accepted acc r (state_after acc r)) rs h.1 inside.1 fresh)
        | inr bad ↦ rw (bad, inside.0) h.0
      ]

      process_records-own :
          (acc : Progress H) (rs : List Record)
          → All (IsIn t q) rs
          → Ascending rs
          → rewind_in acc ≡ none
          → done_in (process_records handle acc rs)
            ≡ done_in acc ++ settled (rewind_in (process_records handle acc rs)) rs
      unfolding process_records
      process_records-own acc [] inside up fresh = rw fresh (sym (append-nil _))
      process_records-own acc (r ∷ rs) inside up fresh = elim (process_records-cons acc r rs) [
        | inl good ↦
            let acc' = accepted acc r (state_after acc r) in
            let w = rewind_in (process_records handle acc' rs) in
            rw (good, settled-step w r rs (rewind-Exceeds r.offset acc' rs up.0 inside.1 fresh))
              (process_records-own acc' rs inside.1 up.1 fresh
                ∙ ap (λ l. l ++ settled w rs) (of_partition-snoc t q acc.processed r inside.0)
                ∙ append_assoc (done_in acc) (r ∷ []) (settled w rs))
        | inr bad ↦ rw (bad, inside.0, below_self r rs up.0) (sym (append-nil (done_in acc)))
      ]

      pub process_partitions-own :
          (acc : Progress H) (before : List FetchPartition) (p : FetchPartition)
          (after : List FetchPartition)
          → All (IsElsewhere t q) before
          → All (IsElsewhere t q) after
          → All (IsIn t q) p.records
          → Ascending p.records
          → done_in acc ≡ []
          → rewind_in acc ≡ none
          → done_in (process_partitions handle acc (before ++ p ∷ after))
            ≡ settled (rewind_in (process_partitions handle acc (before ++ p ∷ after))) p.records
      unfolding process_partitions
      process_partitions-own acc [] p after hb ha inside up clean fresh =
          let mine = process_records handle acc p.records in
          let others = process_partitions-other mine after ha in
          rw (others.0, others.1)
            (process_records-own acc p.records inside up fresh
              ∙ ap (λ l. l ++ settled (rewind_in mine) p.records) clean)
      process_partitions-own acc (b ∷ before) p after hb ha inside up clean fresh =
          let mine = process_records handle acc b.records in
          let others = process_records-other acc b.records hb.0 in
          process_partitions-own mine before p after hb.1 ha inside up (others.0 ∙ clean)
            (others.1 ∙ fresh)

    -- Take a partition whose fetched records have ascending offsets, where no other part of the
    -- fetch has records of it. What `process` hands to the commit is, for this partition, all of
    -- its records if it is not rewound, and the records below the offset of the rewind if it is.
    pub process_partitions_settles :
        (s : H) (before : List FetchPartition) (p : FetchPartition) (after : List FetchPartition)
        → All (IsElsewhere p.topic p.partition) before
        → All (IsElsewhere p.topic p.partition) after
        → All (IsIn p.topic p.partition) p.records
        → Ascending p.records
        → let done = process_partitions handle (start s) (before ++ p ∷ after) in
          of_partition p.topic p.partition done.processed
          ≡ settled (rewind_of p.topic p.partition done.rewind) p.records
    process_partitions_settles s before p after hb ha inside up =
        process_partitions-own p.topic p.partition (start s) before p after hb ha inside up refl
          refl
