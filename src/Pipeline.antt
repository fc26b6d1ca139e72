-- ===== src/Pipeline.antt =====
-- From the outbox of the order service to the consumer of the notification service, by the
-- connector that deploy/debezium/order-outbox.json sets up.
--
-- Debezium is a parameter: `deliver` is the record of Kafka for a row of the outbox, and
-- `IsEventRouter` says what the settings of the connector make of it.
pub mod Laws
use Prim.Native.String.{◌++◌ as concat}
use delivery_backend.Base.{String, ◌≡◌, some}
use delivery_backend.Errors.{Result, success}
use delivery_backend.Kafka.Message.{Record, lookup}
use delivery_backend.Order.Event.{OrderCreatedPayload}
use delivery_backend.Order.Event.Laws.{IsValidPayload}
use delivery_backend.Order.Repo.{OutboxRow}
use delivery_backend.Notification.Handler.{OrderCreated, header_event_type}

-- route.topic.replacement
abbrev pub topic_of : String → String
topic_of aggregate_type = concat aggregate_type ".events.v1"

-- The topic comes from the aggregate's type, and the header from the event's type. The value is the
-- payload as JSON: a payload of valid texts that json.Marshal wrote is read by protojson with the
-- same identifiers.
pub record IsEventRouter (marshal : OrderCreatedPayload → Result String)
    (decode : String → Result OrderCreated) (deliver : OutboxRow → Record) : Type 0 where
  pub topic : (r : OutboxRow) → (deliver r).topic ≡ topic_of r.event.aggregate_type
  pub event_type :
      (r : OutboxRow) → lookup header_event_type (deliver r).headers ≡ some r.event.type_name
  pub value :
      (r : OutboxRow) (p : OrderCreatedPayload)
      → IsValidPayload p
      → marshal p ≡ success r.event.payload
      → decode (deliver r).value ≡ success (record { event_id = p.event_id; order_id = p.order_id })
