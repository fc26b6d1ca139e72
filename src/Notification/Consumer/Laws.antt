-- ===== src/Notification/Consumer/Laws.antt =====
-- services/notification/internal/app/app.go: what the tables hold for the records that the
-- consumer commits.
use delivery_backend.Base.{
  ℕ, String, ◌≡◌, refl, sym, subst, ap, ◌∙◌, ◌⊎◌, inl, inr, Bool, true, false, ◌&&◌, List, ◌==◌,
  Bool-cases, All,
}
use delivery_backend.Errors.{Err, nil, Result, success, failure, Result-cases}
use delivery_backend.Kafka.Message.{Message, to_message}
use delivery_backend.Kafka.Consumer.{Round}
use delivery_backend.Kafka.Consumer.Commits.{committed}
use delivery_backend.Kafka.Consumer.Durable.{IsDurable, run_commits_done}
use delivery_backend.Postgres.{Store}
use delivery_backend.Postgres.Laws.{IsCommit, idle}
use delivery_backend.Notification.Repo.{NotificationDb, has_event, has_notification, channel_log}
use delivery_backend.Notification.Service.{CreateNotificationInput, Env}
use delivery_backend.Notification.Recorded.{
  recorded, create_notification-nil, create_notification_atomic,
}
use delivery_backend.Notification.Redelivery.{recorded-Has, recorded-kept}
use delivery_backend.Notification.Handler.{
  OrderCreated, topic, handle, route, input_of, handle_order_created,
}
use delivery_backend.Notification.Handler.Laws.{
  ids_of, is_created, handled-known, handled-unknown, handled-created,
}
use delivery_backend.Notification.Consumer.{handlers, consume, run_consumer}

module _ (decode : String → Result OrderCreated) (parse_uuid : String → Result String) where
  -- The messages that the service acts on: order.created of its topic.
  abbrev pub is_due : Message → Bool
  is_due m = topic == m.topic && is_created decode parse_uuid m

  abbrev pub IsStored : String → NotificationDb → Type 0
  IsStored id c =
      (has_event id c.inbox_events ≡ true)
      × (has_notification id channel_log c.notifications ≡ true)

  -- The message is none that the service acts on, or it is a valid one, and its event and the
  -- event's notification are in the tables.
  abbrev pub IsRecorded : Message → NotificationDb → Type 0
  IsRecorded m c =
      (is_due m ≡ false)
      ⊎ ((ids : String × String) × (ids_of decode parse_uuid m ≡ success ids) × IsStored ids.0 c)

  abbrev pub IsIdle : ℕ × Store NotificationDb → Type 0
  IsIdle s = s.1 ≡ idle s.1.committed

  abbrev pub IsDone : Message → ℕ × Store NotificationDb → Type 0
  IsDone m s = IsRecorded m s.1.committed

  -- A call leaves the tables, or adds an event and its notifications to them.
  abbrev Steps : NotificationDb → Store NotificationDb → Type 0
  Steps c st = (st ≡ idle c) ⊎ ((i : CreateNotificationInput) × (st ≡ idle (recorded i c)))

  refused-same :
      (env : Env) (m : Message) (st : Store NotificationDb) (err : Err)
      → ids_of decode parse_uuid m ≡ failure err
      → (handle_order_created decode parse_uuid env m st).1 ≡ st
  unfolding handle_order_created
  refused-same env m st err h = rw (h, handle_order_created) refl

  created-Steps :
      (env : Env) (m : Message) (c : NotificationDb)
      → Steps c (handle_order_created decode parse_uuid env m (idle c)).1
  created-Steps env m c = elim (Result-cases (ids_of decode parse_uuid m)) [
    | inl (ids, known) ↦
        rw (handled-known decode parse_uuid env m (idle c) ids known)
          (elim (create_notification_atomic env (input_of decode parse_uuid m ids) c) [
            | inl same ↦ inl same
            | inr all ↦ inr (input_of decode parse_uuid m ids, all)
          ])
    | inr (err, unknown) ↦ inl (refused-same env m (idle c) err unknown)
  ]

  -- A call that succeeds leaves the event and its notification in the tables.
  created-IsRecorded :
      (env : Env) (m : Message) (c : NotificationDb)
      → IsCommit env.commit
      → (handle_order_created decode parse_uuid env m (idle c)).0 ≡ nil
      → IsRecorded m (handle_order_created decode parse_uuid env m (idle c)).1.committed
  created-IsRecorded env m c k h = elim (Result-cases (ids_of decode parse_uuid m)) [
    | inl (ids, known) ↦
        let i = input_of decode parse_uuid m ids in
        let call = handled-known decode parse_uuid env m (idle c) ids known in
        let good = sym (ap (λ (r : Err × Store NotificationDb). r.0) call) ∙ h in
        let (event, all) = recorded-Has i c in
        rw (call, create_notification-nil env i c k good) (inr (ids, known, (event, all.0)))
    | inr (err, unknown) ↦ absurd (handled-unknown decode parse_uuid env m (idle c) err unknown h)
  ]

  Steps→IsRecorded :
      (m : Message) (c : NotificationDb) (st : Store NotificationDb)
      → Steps c st
      → IsRecorded m c
      → IsRecorded m st.committed
  Steps→IsRecorded m c st (inl same) h = rw same h
  Steps→IsRecorded m c st (inr (i, all)) (inl other) = inl other
  Steps→IsRecorded m c st (inr (i, all)) (inr (ids, known, stored)) =
      rw all (inr (ids, known, recorded-kept ids.0 channel_log i c stored.0 stored.1))

  Steps→idle :
      (c : NotificationDb) (st : Store NotificationDb) → Steps c st → st ≡ idle st.committed
  Steps→idle c st (inl same) = rw same refl
  Steps→idle c st (inr (i, all)) = rw all refl

  routed-own :
      (env : Env) (m : Message) (st : Store NotificationDb)
      → topic == m.topic ≡ true
      → route (handlers decode parse_uuid env) m st ≡ handle decode parse_uuid env m st
  unfolding route
  routed-own env m st h = rw (h, route) refl

  routed-other :
      (env : Env) (m : Message) (st : Store NotificationDb)
      → topic == m.topic ≡ false
      → route (handlers decode parse_uuid env) m st ≡ (nil, st)
  unfolding route
  routed-other env m st h = rw (h, route) refl

  handled-other :
      (env : Env) (m : Message) (st : Store NotificationDb)
      → is_created decode parse_uuid m ≡ false
      → handle decode parse_uuid env m st ≡ (nil, st)
  unfolding handle
  handled-other env m st h = rw h refl

  pub route-cases :
      (env : Env) (m : Message) (st : Store NotificationDb)
      → ((is_due m ≡ true)
          × (route (handlers decode parse_uuid env) m st
              ≡ handle_order_created decode parse_uuid env m st))
        ⊎ ((is_due m ≡ false) × (route (handlers decode parse_uuid env) m st ≡ (nil, st)))
  route-cases env m st = elim (Bool-cases (topic == m.topic)) [
    | inl same ↦ elim (Bool-cases (is_created decode parse_uuid m)) [
      | inl created ↦ inl (
        rw (same, created) refl,
        routed-own env m st same ∙ handled-created decode parse_uuid env m st created,
      )
      | inr other ↦
          inr (rw (same, other) refl, routed-own env m st same ∙ handled-other env m st other)
    ]
    | inr other ↦ inr (rw other refl, routed-other env m st other)
  ]

  route-Steps :
      (env : Env) (m : Message) (c : NotificationDb)
      → Steps c (route (handlers decode parse_uuid env) m (idle c)).1
  route-Steps env m c = elim (route-cases env m (idle c)) [
    | inl (due, eq) ↦ rw eq (created-Steps env m c)
    | inr (other, eq) ↦ inl (ap (λ (r : Err × Store NotificationDb). r.1) eq)
  ]

  route-IsRecorded :
      (env : Env) (m : Message) (c : NotificationDb)
      → IsCommit env.commit
      → (route (handlers decode parse_uuid env) m (idle c)).0 ≡ nil
      → IsRecorded m (route (handlers decode parse_uuid env) m (idle c)).1.committed
  route-IsRecorded env m c k h = elim (route-cases env m (idle c)) [
    | inl (due, eq) ↦
        rw eq
          (created-IsRecorded env m c k (sym (ap (λ (r : Err × Store NotificationDb). r.0) eq) ∙ h))
    | inr (other, eq) ↦ inl other
  ]

  module _ (envs : ℕ → Env) (k : (n : ℕ) → IsCommit (envs n).commit) where
    consume-Steps :
        (s : ℕ × Store NotificationDb) (m : Message)
        → IsIdle s
        → Steps s.1.committed (route (handlers decode parse_uuid (envs s.0)) m s.1).1
    consume-Steps s m i =
        subst (λ st. Steps s.1.committed (route (handlers decode parse_uuid (envs s.0)) m st).1)
          (sym i) (route-Steps (envs s.0) m s.1.committed)

    consume-IsDurable : IsDurable (consume decode parse_uuid envs) IsIdle IsDone
    unfolding consume
    consume-IsDurable = record {
      keeps = λ s m i. Steps→idle s.1.committed _ (consume-Steps s m i);
      does = λ s m i.
          let called : Store NotificationDb → Err × Store NotificationDb =
            route (handlers decode parse_uuid (envs s.0)) m in
          subst (λ st. (called st).0 ≡ nil → IsRecorded m (called st).1.committed) (sym i)
            (route-IsRecorded (envs s.0) m s.1.committed (k s.0));
      stays = λ s m n i h. Steps→IsRecorded n s.1.committed _ (consume-Steps s m i) h;
    }

    -- After any rounds of the consumer over the notification tables, whatever fails in them, no
    -- transaction is open, and each record given to CommitRecords is none that the service acts on,
    -- or a valid event: then the tables hold the event and its notification. A failed Commit is
    -- assumed to have an error.
    pub run_consumer_records :
        (label : String → ℕ → String) (c : NotificationDb) (rounds : List Round)
        → let t = run_consumer decode parse_uuid envs label (idle c) rounds in
          (t.state.1 ≡ idle t.state.1.committed)
          × All (λ r. IsRecorded (to_message r) t.state.1.committed) (committed t.calls)
    unfolding run_consumer
    run_consumer_records label c rounds =
        run_commits_done (consume decode parse_uuid envs) consume-IsDurable label (0, idle c) rounds
          refl
