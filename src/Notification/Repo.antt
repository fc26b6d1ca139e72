-- ===== src/Notification/Repo.antt =====
-- services/notification/internal/domain and repository/pg: the inbox and the notifications.
--
-- A table is the list of its rows, with the columns that the program writes. Whether PostgreSQL
-- refuses a row is the parameter `Database`; an accepted INSERT with ON CONFLICT DO NOTHING adds
-- the row unless its unique key is there. UUID columns hold the canonical form of the identifier.
use delivery_backend.Base.{
  ℕ, String, Bool, false, ◌&&◌, ◌||◌, List, [], ◌∷◌, ◌++◌, ◌==◌, if◌then◌else◌,
}
use delivery_backend.Errors.{Err, nil, Result, success, failure, ◌>>=◌}
use delivery_backend.AppErr.Pg
use delivery_backend.Postgres.{Store, exec}

pub record InboxEvent : Type 0 where
  pub event_id : String
  pub topic : String
  pub partition : ℕ
  pub offset : ℕ
  pub event_type : String
  pub aggregate_id : String

abbrev pub event_type_order_created : String
event_type_order_created = "order.created"

abbrev pub channel_log : String
channel_log = "log"

-- domain.Notification, less the columns that the database fills.
pub record Notification : Type 0 where
  pub event_id : String
  pub event_type : String
  pub payload : String

pub record NotificationRow : Type 0 where
  pub event_id : String
  pub event_type : String
  pub channel : String
  pub payload : String

pub record NotificationDb : Type 0 where
  pub inbox_events : List InboxEvent
  pub notifications : List NotificationRow

pub record Database : Type 0 where
  pub refuses_event : InboxEvent → NotificationDb → Err
  pub refuses_notification : NotificationRow → NotificationDb → Err

-- The primary key of the inbox, and the unique pair of the notifications.
abbrev pub has_event : String → List InboxEvent → Bool
has_event id [] = false
has_event id (e ∷ es) = e.event_id == id || has_event id es

abbrev pub has_notification : String → String → List NotificationRow → Bool
has_notification id ch [] = false
has_notification id ch (n ∷ ns) = (n.event_id == id && n.channel == ch) || has_notification id ch ns

-- The result of a statement: the answer of the database, mapped by pgerr.
abbrev pub answer : Err → NotificationDb → Result NotificationDb
answer nil after = success after
answer err after = failure (Pg.map err)

abbrev pub add_event : InboxEvent → NotificationDb → NotificationDb
add_event e s =
    if has_event e.event_id s.inbox_events
    then s
    else record s { inbox_events = s.inbox_events ++ e ∷ [] }

abbrev pub add_notification : NotificationRow → NotificationDb → NotificationDb
add_notification n s =
    if has_notification n.event_id n.channel s.notifications
    then s
    else record s { notifications = s.notifications ++ n ∷ [] }

abbrev pub notification_row : Notification → String → NotificationRow
notification_row n ch = record {
  event_id = n.event_id;
  event_type = n.event_type;
  channel = ch;
  payload = n.payload;
}

module _ (d : Database) where
  unfoldable pub insert_event : InboxEvent → NotificationDb → Result NotificationDb
  insert_event e s = answer (d.refuses_event e s) (add_event e s)

  -- InboxRepo.Claim
  unfoldable pub claim : InboxEvent → Store NotificationDb → Err × Store NotificationDb
  claim e = exec (insert_event e)

  -- The statements of the batch, up to the first that fails.
  unfoldable pub batch : Notification → List String → NotificationDb → Result NotificationDb
  batch n [] s = success s
  batch n (ch ∷ chs) s =
      answer (d.refuses_notification (notification_row n ch) s)
        (add_notification (notification_row n ch) s)
      >>= batch n chs

  -- NotificationRepo.CreateForChannels. A batch of pgx is applied whole or not at all.
  unfoldable pub create_for_channels :
      Notification → List String → Store NotificationDb → Err × Store NotificationDb
  create_for_channels n [] st = (nil, st)
  create_for_channels n (ch ∷ chs) st = exec (batch n (ch ∷ chs)) st
