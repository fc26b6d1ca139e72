-- ===== src/Notification/Service.antt =====
-- services/notification/internal/service/notification.go: an event and its notifications in one
-- transaction.
use delivery_backend.Base.{String, List}
use delivery_backend.Errors.{Err}
use delivery_backend.Postgres.{Store, Commit, and_then, within_tx}
use delivery_backend.Notification.Repo.{
  InboxEvent, Notification, NotificationDb, Database, claim, create_for_channels,
}

pub record CreateNotificationInput : Type 0 where
  pub event : InboxEvent
  pub payload : String
  pub channels : List String

-- What a call meets: the database, and the outcomes of Begin and Commit.
pub record Env : Type 0 where
  pub database : Database
  pub begin : Err
  pub commit : Commit

abbrev pub notification_of : CreateNotificationInput → Notification
notification_of i = record {
  event_id = i.event.event_id;
  event_type = i.event.event_type;
  payload = i.payload;
}

-- The function that CreateNotification gives to WithinTx.
abbrev pub record_event :
    Env → CreateNotificationInput → Store NotificationDb → Err × Store NotificationDb
record_event env i =
    and_then (claim env.database i.event)
      (create_for_channels env.database (notification_of i) i.channels)

unfoldable pub create_notification :
    Env → CreateNotificationInput → Store NotificationDb → Err × Store NotificationDb
create_notification env i = within_tx env.begin env.commit (record_event env i)
