-- ===== src/Notification/Redelivery.antt =====
-- services/notification/internal/service/notification.go: what a second delivery of an event changes.
use delivery_backend.Base.{
  String, ◌≡◌, refl, sym, ap, ◌∙◌, subst, inl, inr, true, List, [], ◌∷◌, ◌++◌, arith, eq_refl,
  Bool-cases, All,
}
use delivery_backend.Errors.{nil}
use delivery_backend.Postgres.Laws.{idle, IsCommit}
use delivery_backend.Notification.Repo.{
  InboxEvent, Notification, NotificationRow, NotificationDb, has_event, has_notification, add_event,
  add_notification, notification_row,
}
use delivery_backend.Notification.Service.{
  CreateNotificationInput, Env, notification_of, create_notification,
}
use delivery_backend.Notification.Recorded.{
  add_all, recorded, create_notification-nil, create_notification_atomic,
}

-- An event and a notification that are stored stay stored.
has_event-snoc :
    (id : String) (es : List InboxEvent) (e : InboxEvent)
    → e.event_id ≡ id
    → has_event id (es ++ e ∷ []) ≡ true
has_event-snoc id [] e h = ground (arith, h, eq_refl id)
has_event-snoc id (x ∷ xs) e h = ground (arith, has_event-snoc id xs e h)

has_event-add_event :
    (e : InboxEvent) (s : NotificationDb) → has_event e.event_id (add_event e s).inbox_events ≡ true
has_event-add_event e s = elim (Bool-cases (has_event e.event_id s.inbox_events)) [
  | inl old ↦ rw old old
  | inr new ↦ rw new (has_event-snoc e.event_id s.inbox_events e refl)
]

has_event-kept :
    (id : String) (es : List InboxEvent) (e : InboxEvent)
    → has_event id es ≡ true
    → has_event id (es ++ e ∷ []) ≡ true
has_event-kept id [] e h = absurd (cc h)
has_event-kept id (x ∷ xs) e h = ground (arith, has_event-kept id xs e)

add_event-kept :
    (id : String) (e : InboxEvent) (s : NotificationDb)
    → has_event id s.inbox_events ≡ true
    → has_event id (add_event e s).inbox_events ≡ true
add_event-kept id e s h = elim (Bool-cases (has_event e.event_id s.inbox_events)) [
  | inl old ↦ rw old h
  | inr new ↦ rw new (has_event-kept id s.inbox_events e h)
]

module _ (id ch : String) where
  abbrev pub Has : NotificationDb → Type 0
  Has s = has_notification id ch s.notifications ≡ true

  has_notification-kept :
      (ns : List NotificationRow) (n : NotificationRow)
      → has_notification id ch ns ≡ true
      → has_notification id ch (ns ++ n ∷ []) ≡ true
  has_notification-kept [] n h = absurd (cc h)
  has_notification-kept (x ∷ xs) n h = ground (arith, has_notification-kept xs n)

  has_notification-snoc :
      (ns : List NotificationRow) (n : NotificationRow)
      → n.event_id ≡ id
      → n.channel ≡ ch
      → has_notification id ch (ns ++ n ∷ []) ≡ true
  has_notification-snoc [] n h k = rw (h, k, eq_refl id, eq_refl ch) refl
  has_notification-snoc (x ∷ xs) n h k = ground (arith, has_notification-snoc xs n h k)

  add_notification-kept :
      (n : NotificationRow) (s : NotificationDb) → Has s → Has (add_notification n s)
  add_notification-kept n s h =
      elim (Bool-cases (has_notification n.event_id n.channel s.notifications)) [
        | inl old ↦ rw old h
        | inr new ↦ rw new (has_notification-kept s.notifications n h)
      ]

  add_all-kept :
      (n : Notification) (chs : List String) (s : NotificationDb) → Has s → Has (add_all n chs s)
  add_all-kept n [] s h = h
  add_all-kept n (x ∷ chs) s h =
      add_all-kept n chs (add_notification (notification_row n x) s)
        (add_notification-kept (notification_row n x) s h)

add_notification-Has :
    (n : Notification) (ch : String) (s : NotificationDb)
    → Has n.event_id ch (add_notification (notification_row n ch) s)
add_notification-Has n ch s = elim (Bool-cases (has_notification n.event_id ch s.notifications)) [
  | inl old ↦ rw old old
  | inr new ↦
      rw new (has_notification-snoc n.event_id ch s.notifications (notification_row n ch) refl refl)
]

add_all-Has :
    (n : Notification) (chs : List String) (s : NotificationDb)
    → All (λ ch. Has n.event_id ch (add_all n chs s)) chs
add_all-Has n [] s = tt
add_all-Has n (ch ∷ chs) s =
    let s' = add_notification (notification_row n ch) s in
    (add_all-kept n.event_id ch n chs s' (add_notification-Has n ch s), add_all-Has n chs s')

add_notification-inbox :
    (n : NotificationRow) (s : NotificationDb)
    → (add_notification n s).inbox_events ≡ s.inbox_events
add_notification-inbox n s = ground arith

add_all-inbox :
    (n : Notification) (chs : List String) (s : NotificationDb)
    → (add_all n chs s).inbox_events ≡ s.inbox_events
add_all-inbox n [] s = refl
add_all-inbox n (ch ∷ chs) s =
    add_all-inbox n chs (add_notification (notification_row n ch) s)
    ∙ add_notification-inbox (notification_row n ch) s

add_all-same :
    (n : Notification) (chs : List String) (s : NotificationDb)
    → All (λ ch. Has n.event_id ch s) chs
    → add_all n chs s ≡ s
add_all-same n [] s h = refl
add_all-same n (ch ∷ chs) s h = rw h.0 (add_all-same n chs s h.1)

add_event-notifications :
    (e : InboxEvent) (s : NotificationDb) → (add_event e s).notifications ≡ s.notifications
add_event-notifications e s = ground arith

-- A further record keeps what is there.
pub recorded-kept :
    (id ch : String) (i : CreateNotificationInput) (s : NotificationDb)
    → has_event id s.inbox_events ≡ true
    → Has id ch s
    → (has_event id (recorded i s).inbox_events ≡ true) × Has id ch (recorded i s)
recorded-kept id ch i s known has = (
  ap (has_event id) (add_all-inbox (notification_of i) i.channels (add_event i.event s))
      ∙ add_event-kept id i.event s known,
  add_all-kept id ch (notification_of i) i.channels (add_event i.event s)
      (ap (has_notification id ch) (add_event-notifications i.event s) ∙ has),
)

-- Two deliveries of one event: they may differ in where the message stood, and in its payload.
pub record IsRedelivery (i j : CreateNotificationInput) : Type 0 where
  pub same_event : j.event.event_id ≡ i.event.event_id
  pub same_channels : j.channels ≡ i.channels

recorded-same :
    (j : CreateNotificationInput) (s : NotificationDb)
    → has_event j.event.event_id s.inbox_events ≡ true
    → All (λ ch. Has j.event.event_id ch s) j.channels
    → recorded j s ≡ s
recorded-same j s known all = rw known (add_all-same (notification_of j) j.channels s all)

-- What a record of an event leaves: the event, and a notification for each of its channels.
pub recorded-Has :
    (i : CreateNotificationInput) (s : NotificationDb)
    → (has_event i.event.event_id (recorded i s).inbox_events ≡ true)
      × All (λ ch. Has i.event.event_id ch (recorded i s)) i.channels
recorded-Has i s = (
  ap (has_event i.event.event_id)
        (add_all-inbox (notification_of i) i.channels (add_event i.event s))
      ∙ has_event-add_event i.event s,
  add_all-Has (notification_of i) i.channels (add_event i.event s),
)

recorded-recorded :
    (i j : CreateNotificationInput) (s : NotificationDb)
    → IsRedelivery i j
    → recorded j (recorded i s) ≡ recorded i s
recorded-recorded i j s r =
    let after : NotificationDb = recorded i s in
    let (known, all) = recorded-Has i s in
    recorded-same j after
      (subst (λ id. has_event id after.inbox_events ≡ true) (sym r.same_event) known)
      (subst (λ id. All (λ ch. Has id ch after) j.channels) (sym r.same_event)
        (subst (λ l. All (λ ch. Has i.event.event_id ch after) l) (sym r.same_channels) all))

-- Once an event has been recorded, a further delivery of it changes nothing that is committed,
-- whether it succeeds or fails, and leaves no transaction open.
pub redelivery_changes_nothing :
    (env env' : Env) (i j : CreateNotificationInput) (c : NotificationDb)
    → IsCommit env.commit
    → IsRedelivery i j
    → (create_notification env i (idle c)).0 ≡ nil
    → let after = (create_notification env i (idle c)).1 in
      (create_notification env' j after).1 ≡ after
redelivery_changes_nothing env env' i j c k r h =
    rw (create_notification-nil env i c k h)
      (elim (create_notification_atomic env' j (recorded i c)) [
        | inl same ↦ same
        | inr all ↦ all ∙ ap idle (recorded-recorded i j c r)
      ])
