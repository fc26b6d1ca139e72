-- ===== src/Notification/Handler.antt =====
-- services/notification/internal/transport/kafka: the router of topics, and the handler of order
-- events. `decode` is protojson's Unmarshal into OrderCreated, as far as its two identifiers go,
-- and `parse_uuid` is uuid.Parse followed by String.
pub mod Laws
use delivery_backend.Base.{String, Option, none, some, List, [], ◌∷◌, ◌==◌, if◌then◌else◌}
use delivery_backend.Errors.{Err, nil, wrapped, to_err, Result, success, failure, ◌>>=◌}
use delivery_backend.AppErr.Code.{code_invalid_argument}
use delivery_backend.AppErr.Value.{new, wrap}
use delivery_backend.AppErr.Grpc.{index}
use delivery_backend.Kafka.Message.{Message}
use delivery_backend.Postgres.{Store}
use delivery_backend.Notification.Repo.{NotificationDb, event_type_order_created, channel_log}
use delivery_backend.Notification.Service.{CreateNotificationInput, Env, create_notification}

abbrev pub topic : String
topic = "order.events.v1"

abbrev pub header_event_type : String
header_event_type = "event-type"

-- OrderCreated: its GetEventId and GetOrderId.
pub record OrderCreated : Type 0 where
  pub event_id : String
  pub order_id : String

module _ (decode : String → Result OrderCreated) (parse_uuid : String → Result String) where
  abbrev parse_id : String → String → Result String
  parse_id label id = elim (parse_uuid id) [
    | success u ↦ success u
    | failure err ↦ failure (wrapped label err "")
  ]

  unfoldable pub order_created_ids : OrderCreated → Result (String × String)
  order_created_ids pb = parse_id "event_id: " pb.event_id >>= λ event_id.
      parse_id "order_id: " pb.order_id >>= λ order_id. success (event_id, order_id)

  abbrev pub input_of : Message → String × String → CreateNotificationInput
  input_of msg ids = record {
    event = record {
      event_id = ids.0;
      topic = msg.topic;
      partition = msg.partition;
      offset = msg.offset;
      event_type = event_type_order_created;
      aggregate_id = ids.1;
    };
    payload = msg.value;
    channels = channel_log ∷ [];
  }

  module _ (env : Env) where
    unfoldable pub handle_order_created :
        Message → Store NotificationDb → Err × Store NotificationDb
    handle_order_created msg st = elim (decode msg.value >>= order_created_ids) [
      | failure err ↦ (to_err (wrap err (new code_invalid_argument)), st)
      | success ids ↦ create_notification env (input_of msg ids) st
    ]

    -- Handle and its route: an event of another type is skipped. Handle adds a log of the error.
    unfoldable pub handle : Message → Store NotificationDb → Err × Store NotificationDb
    handle msg st =
        if index msg.headers header_event_type == event_type_order_created
        then handle_order_created msg st
        else (nil, st)

-- Router: the handlers by their topics; a message of another topic is skipped.
abbrev pub Handlers {ℓ} : Type ℓ → Type ℓ
Handlers S = List (String × (Message → S → Err × S))

module _ {ℓ} {S : Type ℓ} where
  abbrev pub registered : String → Handlers S → Option (Message → S → Err × S)
  registered t [] = none
  registered t ((u, h) ∷ hs) = if u == t then some h else registered t hs

  -- Register: a later handler of a topic takes the place of an earlier one.
  abbrev pub register : String → (Message → S → Err × S) → Handlers S → Handlers S
  register t h hs = (t, h) ∷ hs

  unfoldable pub route : Handlers S → Message → S → Err × S
  route hs msg s = elim (registered msg.topic hs) [ none ↦ (nil, s) | some h ↦ h msg s ]
