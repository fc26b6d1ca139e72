-- ===== src/Pipeline/Laws.antt =====
-- From CreateOrder to the notification: what the delivery of an order's event does.
use delivery_backend.Base.{
  ℕ, String, ◌≡◌, refl, sym, subst, ap, ◌∙◌, inl, inr, true, ◌==◌, arith, Bool-cases, some, List,
  [], ◌∷◌, ◌++◌, All,
}
use delivery_backend.Errors.{Result, success, success_injective}
use delivery_backend.AppErr.Grpc.{index}
use delivery_backend.Kafka.Message.{Record, Message, lookup, to_message, lookup-to_message}
use delivery_backend.Kafka.Consumer.{Round}
use delivery_backend.Kafka.Consumer.Commits.{committed}
use delivery_backend.Postgres.{Store}
use delivery_backend.Postgres.Laws.{IsCommit, idle}
use delivery_backend.Order.Domain.{Order, OutboxEvent, aggregate_type_order}
use delivery_backend.Order.Event.{payload_of, outbox_event, order_created}
use delivery_backend.Order.Event.Laws.{IsValidPayload, order_created-encoded}
use delivery_backend.Order.Repo.{OrderDb, OutboxRow, outbox_row}
use delivery_backend.Order.Service as order
use delivery_backend.Order.Service.{CreateOrderInput, create_order}
use delivery_backend.Order.Service.Place.{create_order-success}
use delivery_backend.Notification.Repo.{
  NotificationDb, event_type_order_created, channel_log, has_event, has_notification,
}
use delivery_backend.Notification.Handler.{
  OrderCreated, topic, header_event_type, order_created_ids,
}
use delivery_backend.Notification.Handler.Laws.{ids_of}
use delivery_backend.Notification.Consumer.{run_consumer}
use delivery_backend.Notification.Consumer.Laws.{is_due, IsStored, IsRecorded, run_consumer_records}
use delivery_backend.Notification.Service as notification
use delivery_backend.Pipeline.{topic_of, IsEventRouter}

module _ {ℓ} {A : Type ℓ} where
  tail_or : List A → List A → List A
  tail_or d [] = d
  tail_or d (x ∷ xs) = xs

  snoc_injective : (xs : List A) (a b : A) → xs ++ a ∷ [] ≡ xs ++ b ∷ [] → a ≡ b
  unfolding tail_or
  snoc_injective [] a b h = cc h
  snoc_injective (x ∷ xs) a b h = snoc_injective xs a b (ap (tail_or []) h)

All-middle {ℓ κ} :
    {A : Type ℓ} (P : A → Type κ) (xs : List A) (a : A) (ys : List A) → All P (xs ++ a ∷ ys) → P a
All-middle P [] a ys h = h.0
All-middle P (x ∷ xs) a ys h = All-middle P xs a ys h.1

index-lookup : (k v : String) (m : List (String × String)) → lookup k m ≡ some v → index m k ≡ v
unfolding index
index-lookup k v [] h = absurd (cc h)
index-lookup k v ((j, w) ∷ m) h = elim (Bool-cases (j == k)) [
  | inl same ↦ rw same (cc (rw same at h))
  | inr other ↦ rw other (index-lookup k v m (rw other at h))
]

module _ (decode : String → Result OrderCreated) (parse_uuid : String → Result String) where
  both_ids :
      (a b : String)
      → parse_uuid a ≡ success a
      → parse_uuid b ≡ success b
      → order_created_ids decode parse_uuid (record { event_id = a; order_id = b }) ≡ success (a, b)
  unfolding order_created_ids
  both_ids a b ha hb = ground (arith, ha, hb)

module _ (env : order.Env) (decode : String → Result OrderCreated)
    (parse_uuid : String → Result String) (deliver : OutboxRow → Record) where
  abbrev message : OutboxRow → Message
  message row = to_message (deliver row)

  module _ (router : IsEventRouter env.marshal decode deliver)
      (canonical : (k : ℕ) → parse_uuid (env.ids k) ≡ success (env.ids k)) where
    made_ids :
        (k n : ℕ) (o : Order) (payload : String)
        → IsValidPayload (payload_of (env.ids k) o)
        → env.marshal (payload_of (env.ids k) o) ≡ success payload
        → o.id ≡ env.ids n
        → ids_of decode parse_uuid
            (message (outbox_row env.carrier (outbox_event (env.ids k) o payload)))
          ≡ success (env.ids k, o.id)
    unfolding to_message order_created_ids
    made_ids k n o payload valid written first =
        let row = outbox_row env.carrier (outbox_event (env.ids k) o payload) in
        let known : parse_uuid o.id ≡ success o.id =
          subst (λ id. parse_uuid id ≡ success id) (sym first) (canonical n) in
        rw (router.value row (payload_of (env.ids k) o) valid written)
          (both_ids decode parse_uuid (env.ids k) o.id (canonical k) known)

    made_due :
        (row : OutboxRow)
        → row.event.aggregate_type ≡ aggregate_type_order
        → row.event.type_name ≡ event_type_order_created
        → is_due decode parse_uuid (message row) ≡ true
    unfolding to_message
    made_due row kind type =
        let same : (deliver row).topic ≡ topic = router.topic row ∙ ap topic_of kind in
        let header : index (message row).headers header_event_type ≡ event_type_order_created =
          index-lookup header_event_type _ _
            (lookup-to_message header_event_type (deliver row) ∙ router.event_type row)
          ∙ type in
        rw (same, header) refl

    -- The row is read as an event about the order, by a handler that acts on it.
    abbrev IsEventOf : Order → OutboxRow → Type 0
    IsEventOf o row =
        (ids_of decode parse_uuid (message row) ≡ success (row.event.id, o.id))
        × (is_due decode parse_uuid (message row) ≡ true)

    made-IsEventOf :
        (k n : ℕ) (o : Order) (e : OutboxEvent)
        → order_created env.position env.marshal (env.ids k) o ≡ success e
        → o.id ≡ env.ids n
        → IsEventOf o (outbox_row env.carrier e)
    made-IsEventOf k n o e made first =
        let (valid, (payload, written, eq)) =
          order_created-encoded env.position env.marshal (env.ids k) o e made in
        subst (λ x. IsEventOf o (outbox_row env.carrier x)) (sym eq)
          (
            made_ids k n o payload valid written first,
            made_due (outbox_row env.carrier (outbox_event (env.ids k) o payload)) refl refl,
          )

    module _ (c : OrderDb) (n : ℕ) (input : CreateOrderInput) (o : Order) (row : OutboxRow)
        (commits : IsCommit env.commit) (placed : (create_order env n input (idle c)).0 ≡ success o)
        (written : (create_order env n input (idle c)).1.committed.outbox_events
          ≡ c.outbox_events ++ row ∷ []) where
      row-IsEventOf : IsEventOf o row
      row-IsEventOf =
          let (how, kept) = create_order-success env c n input o commits placed in
          let same : outbox_row env.carrier kept.event ≡ row =
            snoc_injective c.outbox_events _ row (
              sym (ap (λ (st : Store OrderDb). st.committed.outbox_events) kept.tables)
              ∙ written) in
          subst (λ x. IsEventOf o x) same
            (made-IsEventOf kept.drawn n o kept.event kept.made how.built.first_id)

      recorded-row :
          (db : NotificationDb)
          → IsRecorded decode parse_uuid (message row) db
          → IsStored decode parse_uuid row.event.id db
      recorded-row db (inl other) = absurd (cc (row-IsEventOf.1, other))
      recorded-row db (inr (ids, known, kept)) =
          let same : ids.0 ≡ row.event.id =
            ap (λ (p : String × String). p.0) (success_injective (sym known ∙ row-IsEventOf.0)) in
          subst (λ id. IsStored decode parse_uuid id db) same kept

      -- If CreateOrder returns an order, and after any rounds of the consumer of the notification
      -- service the record of its outbox row is among those given to CommitRecords, then the
      -- notification tables hold its event and the notification about it. The connector is assumed
      -- to follow its settings, protojson to read what json.Marshal wrote, uuid.Parse to keep the
      -- identifiers that are drawn, and a failed Commit to have an error.
      pub order_notified :
          (envs : ℕ → notification.Env)
          → ((k : ℕ) → IsCommit (envs k).commit)
          → (label : String → ℕ → String) (db : NotificationDb) (rounds : List Round)
            (before after : List Record)
          → let t = run_consumer decode parse_uuid envs label (idle db) rounds in
            committed t.calls ≡ before ++ deliver row ∷ after
            → (has_event row.event.id t.state.1.committed.inbox_events ≡ true)
              × (has_notification row.event.id channel_log t.state.1.committed.notifications ≡ true)
      order_notified envs k label db rounds before after found =
          let t = run_consumer decode parse_uuid envs label (idle db) rounds in
          let all = run_consumer_records decode parse_uuid envs k label db rounds in
          recorded-row t.state.1.committed (
            All-middle (λ r. IsRecorded decode parse_uuid (to_message r) t.state.1.committed) before
              (deliver row) after
              (subst (All (λ r. IsRecorded decode parse_uuid (to_message r) t.state.1.committed))
                found all.1))
