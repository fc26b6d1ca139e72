-- ===== src/Notification/Consumer.antt =====
-- services/notification/internal/app/app.go: the Kafka consumer with the router of the service.
--
-- The handler's state is the database and the number of calls so far: each call meets its own
-- answers of the database and outcomes of Begin and Commit, so that what failed once may succeed
-- later.
pub mod Laws
use delivery_backend.Base.{ℕ, ◌+◌, String, List, []}
use delivery_backend.Errors.{Err, Result}
use delivery_backend.Kafka.Message.{Message}
use delivery_backend.Kafka.Consumer.{Round, Trace, run}
use delivery_backend.Postgres.{Store}
use delivery_backend.Notification.Repo.{NotificationDb}
use delivery_backend.Notification.Service.{Env}
use delivery_backend.Notification.Handler.{OrderCreated, topic, handle, Handlers, register, route}

module _ (decode : String → Result OrderCreated) (parse_uuid : String → Result String) where
  -- The router as New sets it up.
  abbrev pub handlers : Env → Handlers (Store NotificationDb)
  handlers env = register topic (handle decode parse_uuid env) []

  module _ (envs : ℕ → Env) where
    -- One call of Handle on the router.
    unfoldable pub consume : ℕ × Store NotificationDb → Message → Err × (ℕ × Store NotificationDb)
    consume (n, st) msg = let (err, st') = route (handlers (envs n)) msg st in (err, (n + 1, st'))

    -- The goroutine of Run that runs the consumer.
    unfoldable pub run_consumer :
        (String → ℕ → String) → Store NotificationDb → List Round → Trace (ℕ × Store NotificationDb)
    run_consumer label st rounds = run label consume (0, st) rounds
