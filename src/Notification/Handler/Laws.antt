-- ===== src/Notification/Handler/Laws.antt =====
-- services/notification/internal/transport/kafka/order: a message that is delivered again.
use delivery_backend.Base.{
  String, Bool, ◌≢◌, ◌≡◌, refl, sym, ap, ◌∙◌, true, ◌==◌, Bool-cases, inl, inr,
}
use delivery_backend.Errors.{Err, nil, Result, success, failure, Result-cases, ◌>>=◌}
use delivery_backend.AppErr.Grpc.{index}
use delivery_backend.Kafka.Message.{Message}
use delivery_backend.Postgres.{Store}
use delivery_backend.Postgres.Laws.{IsCommit, idle}
use delivery_backend.Notification.Repo.{NotificationDb, event_type_order_created}
use delivery_backend.Notification.Service.{Env, create_notification}
use delivery_backend.Notification.Redelivery.{redelivery_changes_nothing}
use delivery_backend.Notification.Handler.{
  OrderCreated, header_event_type, order_created_ids, input_of, handle_order_created, handle,
}

module _ (decode : String → Result OrderCreated) (parse_uuid : String → Result String) where
  abbrev pub ids_of : Message → Result (String × String)
  ids_of msg = decode msg.value >>= order_created_ids decode parse_uuid

  abbrev pub is_created : Message → Bool
  is_created msg = index msg.headers header_event_type == event_type_order_created

  pub handled-known :
      (env : Env) (msg : Message) (st : Store NotificationDb) (ids : String × String)
      → ids_of msg ≡ success ids
      → handle_order_created decode parse_uuid env msg st
        ≡ create_notification env (input_of decode parse_uuid msg ids) st
  unfolding handle_order_created
  handled-known env msg st ids h = rw (h, handle_order_created) refl

  pub handled-unknown :
      (env : Env) (msg : Message) (st : Store NotificationDb) (err : Err)
      → ids_of msg ≡ failure err
      → (handle_order_created decode parse_uuid env msg st).0 ≢ nil
  unfolding handle_order_created
  handled-unknown env msg st err h = rw (h, handle_order_created) (λ e. cc e)

  pub handled-created :
      (env : Env) (msg : Message) (st : Store NotificationDb)
      → is_created msg ≡ true
      → handle decode parse_uuid env msg st ≡ handle_order_created decode parse_uuid env msg st
  unfolding handle
  handled-created env msg st h = rw h refl

  module _ (env env' : Env) (msg again : Message) (c : NotificationDb) where
    created_again :
        IsCommit env.commit
        → again.value ≡ msg.value
        → (handle_order_created decode parse_uuid env msg (idle c)).0 ≡ nil
        → let after = (handle_order_created decode parse_uuid env msg (idle c)).1 in
          (handle_order_created decode parse_uuid env' again after).1 ≡ after
    created_again k same h = elim (Result-cases (ids_of msg)) [
      | inl (ids, known) ↦
          let first = handled-known env msg (idle c) ids known in
          let known' : ids_of again ≡ success ids =
            ap (λ v. decode v >>= order_created_ids decode parse_uuid) same ∙ known in
          rw first (
            ap (λ (r : Err × Store NotificationDb). r.1) (handled-known env' again _ ids known')
            ∙ redelivery_changes_nothing env env' (input_of decode parse_uuid msg ids)
                (input_of decode parse_uuid again ids) c k
                (record { same_event = refl; same_channels = refl })
                (sym (ap (λ (r : Err × Store NotificationDb). r.0) first) ∙ h))
      | inr (err, unknown) ↦ absurd (handled-unknown env msg (idle c) err unknown h)
    ]

    -- Once a message has been handled without an error, a second delivery of a message with the
    -- same value and event type, from any partition and offset, changes nothing that is committed,
    -- whether it succeeds or fails.
    pub handle_again :
        IsCommit env.commit
        → again.value ≡ msg.value
        → index again.headers header_event_type ≡ index msg.headers header_event_type
        → (handle decode parse_uuid env msg (idle c)).0 ≡ nil
        → let after = (handle decode parse_uuid env msg (idle c)).1 in
          (handle decode parse_uuid env' again after).1 ≡ after
    unfolding handle
    handle_again k same headers h = elim (Bool-cases (is_created msg)) [
      | inl created ↦
          let first = handled-created env msg (idle c) created in
          let created' : is_created again ≡ true =
            ap (λ t. t == event_type_order_created) headers ∙ created in
          rw first (
            ap (λ (r : Err × Store NotificationDb). r.1) (handled-created env' again _ created')
            ∙ created_again k same (sym (ap (λ (r : Err × Store NotificationDb). r.0) first) ∙ h))
      | inr other ↦ rw (headers, other) refl
    ]
