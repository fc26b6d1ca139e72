-- ===== src/Examples/Messages.antt =====
-- The theorems on messages and notifications, run on concrete records and events.
use delivery_backend.Base.{
  ℕ, String, ◌≡◌, refl, ◌⊎◌, true, false, ◌==◌, some, [], ◌∷◌, if◌then◌else◌,
}
use delivery_backend.Errors.{Result, success, Err, nil, foreign}
use delivery_backend.Kafka.Message.{Record, Message}
use delivery_backend.Kafka.Consumer.{FetchPartition, Round, run}
use delivery_backend.Kafka.Consumer.Run.{blocked_after, run_allows_rebalance}
use delivery_backend.Postgres.{done, exec, within_tx, begin_tx, settle, finish, and_then}
use delivery_backend.Postgres.Laws.{idle}
use delivery_backend.Notification.Repo.{
  NotificationDb, claim, insert_event, create_for_channels, batch, channel_log,
  event_type_order_created,
}
use delivery_backend.Notification.Service.{CreateNotificationInput, Env, create_notification}
use delivery_backend.AppErr.Grpc.{index}
use delivery_backend.Notification.Handler.{
  OrderCreated, handle, handle_order_created, order_created_ids,
}
use delivery_backend.Notification.Handler.Laws.{handle_again}
use delivery_backend.Notification.Recorded.{recorded, create_notification_atomic}

abbrev pub record_at : ℕ → String → Record
record_at n v = record {
  topic = "orders";
  partition = 3;
  offset = n;
  leader_epoch = 1;
  key = "k";
  value = v;
  headers = ("event-type", "order.created") ∷ ("event-type", "other") ∷ [];
}

-- A handler that refuses one value and keeps the last one that it was given.
abbrev handler : String → Message → Err × String
handler s m = (if m.value == "bad" then foreign "refused" else nil, m.value)

abbrev fetched : FetchPartition
fetched = record {
  topic = "orders";
  partition = 3;
  records = record_at 7 "good" ∷ record_at 8 "bad" ∷ record_at 9 "good" ∷ [];
  err = nil;
}

abbrev pub label : String → ℕ → String
label t n = t

abbrev round : Round
round = record {
  fetches = fetched ∷ [];
  cancelled = false;
  closed = false;
  commit_error = nil;
  waited = true;
}

run_allows_rebalance_example :
    blocked_after false (run label handler "" (round ∷ round ∷ [])).calls ≡ some false
run_allows_rebalance_example = run_allows_rebalance label handler "" (round ∷ round ∷ [])

abbrev pub env : Env
env = record {
  database = record { refuses_event = λ e s. nil; refuses_notification = λ n s. nil };
  begin = nil;
  commit = done;
}

-- The event at an offset of its partition.
abbrev delivery : ℕ → CreateNotificationInput
delivery n = record {
  event = record {
    event_id = "event-1";
    topic = "orders";
    partition = 3;
    offset = n;
    event_type = event_type_order_created;
    aggregate_id = "order-1";
  };
  payload = "{}";
  channels = channel_log ∷ [];
}

abbrev pub no_rows : NotificationDb
no_rows = record { inbox_events = []; notifications = [] }

delivered : (create_notification env (delivery 7) (idle no_rows)).0 ≡ nil
unfolding create_notification within_tx begin_tx settle finish and_then exec claim insert_event
    create_for_channels batch
delivered = refl

create_notification_atomic_example :
    ((create_notification env (delivery 7) (idle no_rows)).1 ≡ idle no_rows)
    ⊎ ((create_notification env (delivery 7) (idle no_rows)).1
        ≡ idle (recorded (delivery 7) no_rows))
create_notification_atomic_example = create_notification_atomic env (delivery 7) no_rows

abbrev decode : String → Result OrderCreated
decode s = success (record { event_id = "event-1"; order_id = "order-1" })

abbrev pub parse_uuid : String → Result String
parse_uuid s = success s

-- The message at an offset of its partition.
abbrev message : ℕ → Message
message n = record {
  topic = "orders";
  partition = 3;
  offset = n;
  key = "k";
  value = "{}";
  headers = ("event-type", "order.created") ∷ [];
}

handled : (handle decode parse_uuid env (message 7) (idle no_rows)).0 ≡ nil
unfolding handle handle_order_created order_created_ids index create_notification within_tx begin_tx
    settle finish and_then exec claim insert_event create_for_channels batch
handled = refl

handle_again_example :
    let after = (handle decode parse_uuid env (message 7) (idle no_rows)).1 in
    (handle decode parse_uuid env (message 20) after).1 ≡ after
handle_again_example =
    handle_again decode parse_uuid env env (message 7) (message 20) no_rows tt refl refl handled
