-- ===== src/Notification/Recorded.antt =====
-- services/notification/internal/service/notification.go: what CreateNotification stores.
use delivery_backend.Base.{String, ◌≡◌, refl, sym, ap, ◌∙◌, ◌⊎◌, inl, inr, List, [], ◌∷◌}
use delivery_backend.Errors.{Err, nil, sentinel, Result, ◌>>=◌}
use delivery_backend.AppErr.Pg.Laws.{map-ne-nil}
use delivery_backend.Postgres.Laws.{
  idle, outcome, statement, sequence, next_step-nil, RunsAs, exec-RunsAs, and_then-RunsAs, IsCommit,
  within_tx_atomic, within_tx-nil,
}
use delivery_backend.Notification.Repo.{
  Notification, NotificationDb, Database, answer, add_event, add_notification, notification_row,
  insert_event, claim, batch, create_for_channels,
}
use delivery_backend.Notification.Service.{
  CreateNotificationInput, Env, notification_of, record_event, create_notification,
}

answer_then-nil :
    (err : Err) (x s : NotificationDb) (f : NotificationDb → Result NotificationDb)
    → (outcome (answer err x >>= f) s).0 ≡ nil
    → outcome (answer err x >>= f) s ≡ outcome (f x) s
answer_then-nil nil x s f h = refl
answer_then-nil (sentinel t) x s f h = absurd (map-ne-nil (sentinel t) (λ e. cc) h)
answer_then-nil err x s f h = absurd (map-ne-nil err (λ e. cc) h)

answer-nil :
    (err : Err) (x s : NotificationDb)
    → (outcome (answer err x) s).0 ≡ nil
    → (outcome (answer err x) s).1 ≡ x
answer-nil nil x s h = refl
answer-nil (sentinel t) x s h = absurd (map-ne-nil (sentinel t) (λ e. cc) h)
answer-nil err x s h = absurd (map-ne-nil err (λ e. cc) h)

-- The tables with a notification for each channel that has none yet.
abbrev pub add_all : Notification → List String → NotificationDb → NotificationDb
add_all n [] s = s
add_all n (ch ∷ chs) s = add_all n chs (add_notification (notification_row n ch) s)

-- The tables with the event and its notifications.
abbrev pub recorded : CreateNotificationInput → NotificationDb → NotificationDb
recorded i s = add_all (notification_of i) i.channels (add_event i.event s)

batch-nil :
    (d : Database) (n : Notification) (chs : List String) (s s0 : NotificationDb)
    → (outcome (batch d n chs s) s0).0 ≡ nil
    → (outcome (batch d n chs s) s0).1 ≡ add_all n chs s
unfolding batch
batch-nil d n [] s s0 h = refl
batch-nil d n (ch ∷ chs) s s0 h =
    let row = notification_row n ch in
    let eq =
      answer_then-nil (d.refuses_notification row s) (add_notification row s) s0 (batch d n chs)
        h in
    ap (λ (r : Err × NotificationDb). r.1) eq
    ∙ batch-nil d n chs (add_notification row s) s0
        (sym (ap (λ (r : Err × NotificationDb). r.0) eq) ∙ h)

create_for_channels-RunsAs :
    (d : Database) (n : Notification) (chs : List String)
    → RunsAs (create_for_channels d n chs) (statement (batch d n chs))
unfolding create_for_channels batch
create_for_channels-RunsAs d n [] = record { at = λ c s. refl }
create_for_channels-RunsAs d n (ch ∷ chs) = record { at = (exec-RunsAs (batch d n (ch ∷ chs))).at }

module _ (env : Env) (i : CreateNotificationInput) where
  abbrev body : NotificationDb → Err × NotificationDb
  body =
      sequence (statement (insert_event env.database i.event))
        (statement (batch env.database (notification_of i) i.channels))

  record_event-RunsAs : RunsAs (record_event env i) body
  unfolding claim
  record_event-RunsAs =
      and_then-RunsAs _ _ (exec-RunsAs _)
        (create_for_channels-RunsAs env.database (notification_of i) i.channels)

  insert_event-nil :
      (s : NotificationDb)
      → (statement (insert_event env.database i.event) s).0 ≡ nil
      → (statement (insert_event env.database i.event) s).1 ≡ add_event i.event s
  unfolding insert_event
  insert_event-nil s h = answer-nil _ _ s h

  body-nil : (s : NotificationDb) → (body s).0 ≡ nil → (body s).1 ≡ recorded i s
  body-nil s h =
      let next = statement (batch env.database (notification_of i) i.channels) in
      let eq : body s ≡ next (add_event i.event s) =
        next_step-nil next (statement (insert_event env.database i.event) s) (add_event i.event s) h
          (insert_event-nil s) in
      ap (λ (r : Err × NotificationDb). r.1) eq
      ∙ batch-nil env.database (notification_of i) i.channels (add_event i.event s) _
          (sym (ap (λ (r : Err × NotificationDb). r.0) eq) ∙ h)

  -- If CreateNotification returns nil, what is committed is what was there, the event unless its
  -- identifier was there, and a notification for each channel of the event that had none.
  pub create_notification-nil :
      (c : NotificationDb)
      → IsCommit env.commit
      → (create_notification env i (idle c)).0 ≡ nil
      → (create_notification env i (idle c)).1 ≡ idle (recorded i c)
  unfolding create_notification
  create_notification-nil c k h =
      let both = within_tx-nil env.begin env.commit body record_event-RunsAs k c h in
      both.1 ∙ ap idle (body-nil c both.0)

  -- However CreateNotification ends, the tables are as they were, or hold the event and all of its
  -- notifications, and no transaction stays open.
  pub create_notification_atomic :
      (c : NotificationDb)
      → ((create_notification env i (idle c)).1 ≡ idle c)
        ⊎ ((create_notification env i (idle c)).1 ≡ idle (recorded i c))
  unfolding create_notification
  create_notification_atomic c =
      elim (within_tx_atomic env.begin env.commit body record_event-RunsAs c) [
        | inl same ↦ inl same
        | inr (done, all) ↦ inr (all ∙ ap idle (body-nil c done))
      ]
