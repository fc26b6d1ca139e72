-- ===== src/Examples/Pipeline.antt =====
-- The theorems on the consumer of the notification service and on the whole way of an order's
-- event, run on the order for two products.
use delivery_backend.Base.{
  ℕ, String, ◌≡◌, refl, true, ◌&&◌, List, [], ◌∷◌, ◌==◌, eq_iff, Bool-cases, inl, inr,
  if◌then◌else◌, All,
}
use delivery_backend.Errors.{nil, foreign, Result, success, failure}
use delivery_backend.Kafka.Message.{Record, to_message, collect}
use delivery_backend.Kafka.Consumer.{
  Round, Trace, process_records, process_partitions, fetch_errors, fetch_error, run,
}
use delivery_backend.Kafka.Consumer.Commits.{committed}
use delivery_backend.Postgres.{Store, exec, within_tx, begin_tx, settle, finish, and_then}
use delivery_backend.Postgres.Laws.{idle}
use delivery_backend.Order.Event.{
  OrderCreatedPayload, order_created, encode, validate, validate_fields, validate_items,
  invalid_utf8_field, outbox_event,
}
use delivery_backend.Order.Repo.{
  OutboxRow, outbox_row, create, save, insert_order, insert_items, insert_event, trace_context,
}
use delivery_backend.Order.Service as order
use delivery_backend.Order.Service.{
  resolve, end_lookups, end_lookup, wait, by_id, make_items, publish, place, create_order,
}
use delivery_backend.Order.Domain.{new_order, fill, subtotal}
use delivery_backend.Notification.Repo as notification
use delivery_backend.Notification.Repo.{
  NotificationDb, claim, create_for_channels, batch, has_event, has_notification, channel_log,
}
use delivery_backend.Notification.Service.{create_notification}
use delivery_backend.Notification.Handler.{
  OrderCreated, handle, handle_order_created, order_created_ids, route,
}
use delivery_backend.Notification.Consumer.{consume, run_consumer}
use delivery_backend.Notification.Consumer.Laws.{IsRecorded, run_consumer_records}
use delivery_backend.AppErr.Grpc.{index}
use delivery_backend.Base.Utf8.{valid_string}
use delivery_backend.Base.Int.{wrap64, ◌+ℤ◌, ◌*ℤ◌}
use delivery_backend.Pipeline.{topic_of, IsEventRouter}
use delivery_backend.Notification.Handler.{route}
use delivery_backend.Pipeline.Laws.{order_notified}
use delivery_backend.Examples.{input, no_rows, placed}
use delivery_backend.Examples as examples
use delivery_backend.Examples.Messages.{label, parse_uuid}
use delivery_backend.Examples.Messages as messages
use delivery_backend.Examples.Consumer.{round_of}

-- An encoder of this one event.
abbrev marshal : OrderCreatedPayload → Result String
marshal p =
    if p.event_id == "event-1" && p.order_id == "order-1"
    then success "{}"
    else failure (foreign "another event")

abbrev decode : String → Result OrderCreated
decode v = success (record { event_id = "event-1"; order_id = "order-1" })

abbrev env : order.Env
env = record examples.env { marshal = marshal }

abbrev deliver : OutboxRow → Record
deliver r = record {
  topic = topic_of r.event.aggregate_type;
  partition = 0;
  offset = 5;
  leader_epoch = 1;
  key = r.event.aggregate_id;
  value = r.event.payload;
  headers = ("event-type", r.event.type_name) ∷ [];
}

decoded :
    (p : OrderCreatedPayload) (payload : String)
    → marshal p ≡ success payload
    → decode payload ≡ success (record { event_id = p.event_id; order_id = p.order_id })
decoded p payload h = elim (Bool-cases (p.event_id == "event-1")) [
  | inl a ↦ elim (Bool-cases (p.order_id == "order-1")) [
    | inl b ↦ rw ((eq_iff p.event_id "event-1").0 a, (eq_iff p.order_id "order-1").0 b) refl
    | inr b ↦ absurd (cc (rw (a, b) at h))
  ]
  | inr a ↦ absurd (cc (rw a at h))
]

router : IsEventRouter marshal decode deliver
router = record {
  topic = λ r. refl;
  event_type = λ r. refl;
  value = λ r p v h. decoded p r.event.payload h;
}

abbrev row : OutboxRow
row = outbox_row env.carrier (outbox_event "event-1" placed "{}")

made : (create_order env 0 input (idle no_rows)).0 ≡ success placed
unfolding create_order resolve end_lookups end_lookup wait by_id make_items publish place new_order
    fill subtotal order_created encode validate validate_fields validate_items invalid_utf8_field
    within_tx begin_tx settle finish and_then exec create save insert_order insert_items
    insert_event trace_context valid_string wrap64 ◌+ℤ◌ ◌*ℤ◌
made = refl

written : (create_order env 0 input (idle no_rows)).1.committed.outbox_events ≡ row ∷ []
unfolding create_order resolve end_lookups end_lookup wait by_id make_items publish place new_order
    fill subtotal order_created encode validate validate_fields validate_items invalid_utf8_field
    within_tx begin_tx settle finish and_then exec create save insert_order insert_items
    insert_event trace_context valid_string wrap64 ◌+ℤ◌ ◌*ℤ◌
written = refl

-- The poll that brings the row's record, and no more.
abbrev rounds : List Round
rounds =
    round_of (
      record { topic = "order.events.v1"; partition = 0; records = deliver row ∷ []; err = nil }
      ∷ [])
    ∷ []

abbrev after_rounds : Trace (ℕ × Store NotificationDb)
after_rounds =
    run_consumer decode parse_uuid (λ k. messages.env) label (idle messages.no_rows) rounds

run_consumer_records_example :
    (after_rounds.state.1 ≡ idle after_rounds.state.1.committed)
    × All
        (λ r. IsRecorded decode parse_uuid (to_message r) after_rounds.state.1.committed)
        (committed after_rounds.calls)
run_consumer_records_example =
    run_consumer_records decode parse_uuid (λ k. messages.env) (λ k. tt) label messages.no_rows
      rounds

consumed : committed after_rounds.calls ≡ deliver row ∷ []
unfolding run_consumer run consume process_records process_partitions fetch_errors fetch_error route
    handle handle_order_created order_created_ids index to_message collect create_notification
    within_tx begin_tx settle finish and_then exec claim notification.insert_event
    create_for_channels batch trace_context
consumed = refl

order_notified_example :
    (has_event "event-1" after_rounds.state.1.committed.inbox_events ≡ true)
    × (has_notification "event-1" channel_log after_rounds.state.1.committed.notifications ≡ true)
order_notified_example =
    order_notified env decode parse_uuid deliver router (λ k. refl) no_rows 0 input placed row tt
      made written (λ k. messages.env) (λ k. tt) label messages.no_rows rounds [] [] consumed
