-- ===== src/Kafka/Consumer/Advance.antt =====
-- platform/kafka/kafkaconsumer/kafkaconsumer.go: a round gets further, or its failure is one of few.
use delivery_backend.Base.{
  ℕ, ◌+◌, ◌≤◌, ◌<◌, String, ◌≡◌, ◌≢◌, refl, ap, ◌∙◌, ◌⊎◌, true, false, List, [], ◌∷◌, ◌++◌, length,
  length-append, arith, inl, inr,
}
use delivery_backend.Errors.{Err, nil}
use delivery_backend.Kafka.Message.{Record, Message, to_message}
use delivery_backend.Kafka.Consumer.{
  FetchPartition, Progress, after_record, process_records, process_partitions,
}
use delivery_backend.Kafka.Consumer.Process.{
  of_partition, of_partition-snoc, IsIn, accepted, refused, state_after, done_in,
  process_records-cons,
}
use delivery_backend.Kafka.Consumer.Position.{of_partition-append}

-- A handler that can fail only so often from a state: each failure uses up one of `left`.
pub record IsTiring {ℓ} {H : Type ℓ} (handle : H → Message → Err × H) (left : H → ℕ) : Type ℓ where
  pub fails : (s : H) (m : Message) → (handle s m).0 ≢ nil → left (handle s m).1 < left s
  pub keeps : (s : H) (m : Message) → left (handle s m).1 ≤ left s

module _ {ℓ} {H : Type ℓ} (handle : H → Message → Err × H) (left : H → ℕ)
    (tiring : IsTiring handle left) where
  after_record-split :
      (acc : Progress H) (r : Record) (x : Err × H)
      → ((after_record handle acc r x ≡ (true, accepted acc r x.1)))
        ⊎ ((x.0 ≢ nil) × (after_record handle acc r x ≡ (false, refused acc r x.1)))
  after_record-split acc r (nil, s) = inl refl
  after_record-split acc r (e, s) = inr (λ h. cc h, refl)

  process_records-keeps :
      (acc : Progress H) (rs : List Record)
      → left (process_records handle acc rs).state ≤ left acc.state
  unfolding process_records
  process_records-keeps acc [] = omega arith
  process_records-keeps acc (r ∷ rs) =
      let one = tiring.keeps acc.state (to_message r) in
      elim (process_records-cons handle acc r rs) [
        | inl good ↦
            let rest = process_records-keeps (accepted acc r (state_after handle acc r)) rs in
            rw good (omega (arith, one, rest))
        | inr bad ↦ rw bad one
      ]

  pub process_partitions-keeps :
      (acc : Progress H) (ps : List FetchPartition)
      → left (process_partitions handle acc ps).state ≤ left acc.state
  unfolding process_partitions
  process_partitions-keeps acc [] = omega arith
  process_partitions-keeps acc (p ∷ ps) =
      let one = process_records-keeps acc p.records in
      let rest = process_partitions-keeps (process_records handle acc p.records) ps in
      omega (arith, one, rest)

  module _ (t : String) (q : ℕ) where
    abbrev pub count : Progress H → ℕ
    count acc = length (done_in handle t q acc)

    snoc-grows :
        (rs : List Record) (r : Record)
        → length (of_partition t q rs) ≤ length (of_partition t q (rs ++ r ∷ []))
    snoc-grows rs r =
        rw (of_partition-append t q rs (r ∷ []))
          (rw (length-append (of_partition t q rs) (of_partition t q (r ∷ []))) (omega arith))

    process_records-grows :
        (acc : Progress H) (rs : List Record) → count acc ≤ count (process_records handle acc rs)
    unfolding process_records
    process_records-grows acc [] = omega arith
    process_records-grows acc (r ∷ rs) = elim (process_records-cons handle acc r rs) [
      | inl good ↦
          let acc' = accepted acc r (state_after handle acc r) in
          let one = snoc-grows acc.processed r in
          let rest = process_records-grows acc' rs in rw good (omega (arith, one, rest))
      | inr bad ↦ rw bad (omega arith)
    ]

    process_partitions-grows :
        (acc : Progress H) (ps : List FetchPartition)
        → count acc ≤ count (process_partitions handle acc ps)
    unfolding process_partitions
    process_partitions-grows acc [] = omega arith
    process_partitions-grows acc (p ∷ ps) =
        let one = process_records-grows acc p.records in
        let rest = process_partitions-grows (process_records handle acc p.records) ps in
        omega (arith, one, rest)

    -- A record more, or a failure less to come.
    abbrev pub Advances : Progress H → Progress H → Type 0
    Advances acc acc' = (left acc'.state < left acc.state) ⊎ (count acc < count acc')

    process_records-Advances :
        (acc : Progress H) (r : Record) (rs : List Record)
        → IsIn t q r
        → Advances acc (process_records handle acc (r ∷ rs))
    unfolding process_records
    process_records-Advances acc r rs inside =
        elim (after_record-split acc r (handle acc.state (to_message r))) [
          | inl good ↦
              let acc' = accepted acc r (state_after handle acc r) in
              let one : count acc' ≡ count acc + 1 =
                ap length (of_partition-snoc t q acc.processed r inside)
                ∙ length-append (done_in handle t q acc) (r ∷ []) in
              let rest = process_records-grows acc' rs in rw good (inr (omega (arith, one, rest)))
          | inr (bad, stops) ↦ rw stops (inl (tiring.fails acc.state (to_message r) bad))
        ]

    pub process_partitions-Advances :
        (acc : Progress H) (before : List FetchPartition) (p : FetchPartition)
        (after : List FetchPartition) (r : Record) (rs : List Record)
        → p.records ≡ r ∷ rs
        → IsIn t q r
        → Advances acc (process_partitions handle acc (before ++ p ∷ after))
    unfolding process_partitions
    process_partitions-Advances acc [] p after r rs some_records inside = rw some_records (
        let acc' = process_records handle acc (r ∷ rs) in
        let kept = process_partitions-keeps acc' after in
        let grown = process_partitions-grows acc' after in
        elim (process_records-Advances acc r rs inside) [
          | inl fewer ↦ inl (omega (arith, fewer, kept))
          | inr more ↦ inr (omega (arith, more, grown))
        ])
    process_partitions-Advances acc (b ∷ before) p after r rs some_records inside =
        let acc' = process_records handle acc b.records in
        let kept = process_records-keeps acc b.records in
        let grown = process_records-grows acc b.records in
        elim (process_partitions-Advances acc' before p after r rs some_records inside) [
          | inl fewer ↦ inl (omega (arith, fewer, kept))
          | inr more ↦ inr (omega (arith, more, grown))
        ]
