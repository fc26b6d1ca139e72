-- ===== src/Order/Service/Stored.antt =====
-- services/order/internal/service/order.go: what the transaction of CreateOrder stores.
use delivery_backend.Base.{ℕ, ◌≡◌, refl, ◌∙◌, sym, ap, [], ◌∷◌, ◌++◌}
use delivery_backend.Errors.{Err, nil, sentinel, success, success_injective}
use delivery_backend.AppErr.Pg.Laws.{map-ne-nil}
use delivery_backend.Postgres.{Store}
use delivery_backend.Postgres.Laws.{
  idle, outcome, statement, sequence, next_step-nil, RunsAs, exec-RunsAs, and_then-RunsAs,
}
use delivery_backend.Order.Domain.{Order, OutboxEvent}
use delivery_backend.Order.Event.{order_created}
use delivery_backend.Order.Repo
use delivery_backend.Order.Repo.{
  OrderDb, OrderRow, Database, row_of, outbox_row, insert_order, insert_items, insert_event, create,
  save,
}
use delivery_backend.Order.Service.{Env, save_order, answer}

-- The tables with one more order, its items and its event.
abbrev pub stored : Env → Order → OutboxEvent → OrderDb → OrderDb
stored env o e s = record {
  orders = s.orders ++ row_of o ∷ [];
  order_items = s.order_items ++ o.items;
  outbox_events = s.outbox_events ++ outbox_row env.carrier e ∷ [];
}

answer-nil :
    (err : Err) (s s' : OrderDb)
    → (outcome (Repo.answer err s') s).0 ≡ nil
    → (outcome (Repo.answer err s') s).1 ≡ s'
answer-nil nil s s' h = refl
answer-nil (sentinel t) s s' h = absurd (map-ne-nil (sentinel t) (λ e. cc) h)
answer-nil err s s' h = absurd (map-ne-nil err (λ e. cc) h)

module _ (env : Env) (o : Order) (e : OutboxEvent) where
  abbrev pub body : OrderDb → Err × OrderDb
  body =
      sequence
        (sequence (statement (insert_order env.database o))
          (statement (insert_items env.database o.items)))
        (statement (insert_event env.database (outbox_row env.carrier e)))

  pub save_order-RunsAs : RunsAs (save_order env o e) body
  unfolding create save
  save_order-RunsAs =
      and_then-RunsAs _ _ (and_then-RunsAs _ _ (exec-RunsAs _) (exec-RunsAs _)) (exec-RunsAs _)

  abbrev pub first : OrderDb → Err × OrderDb
  first = statement (insert_order env.database o)

  abbrev second : OrderDb → Err × OrderDb
  second = statement (insert_items env.database o.items)

  abbrev third : OrderDb → Err × OrderDb
  third = statement (insert_event env.database (outbox_row env.carrier e))

  abbrev plus_order : OrderDb → OrderDb
  plus_order s = record s { orders = s.orders ++ row_of o ∷ [] }

  abbrev plus_items : OrderDb → OrderDb
  plus_items s = record s { order_items = s.order_items ++ o.items }

  first-nil : (s : OrderDb) → (first s).0 ≡ nil → (first s).1 ≡ plus_order s
  unfolding insert_order
  first-nil s h = answer-nil _ s _ h

  second-nil : (s : OrderDb) → (second s).0 ≡ nil → (second s).1 ≡ plus_items s
  unfolding insert_items
  second-nil s h = answer-nil _ s _ h

  third-nil :
      (s : OrderDb)
      → (third s).0 ≡ nil
      → (third s).1 ≡ record s { outbox_events = s.outbox_events ++ outbox_row env.carrier e ∷ [] }
  unfolding insert_event
  third-nil s h = answer-nil _ s _ h

  two-nil :
      (s : OrderDb)
      → (sequence first second s).0 ≡ nil
      → (sequence first second s).1 ≡ plus_items (plus_order s)
  two-nil s h =
      let eq : sequence first second s ≡ second (plus_order s) =
        next_step-nil second (first s) (plus_order s) h (first-nil s) in
      ap (λ (r : Err × OrderDb). r.1) eq
      ∙ second-nil (plus_order s) (sym (ap (λ (r : Err × OrderDb). r.0) eq) ∙ h)

  pub body-nil : (s : OrderDb) → (body s).0 ≡ nil → (body s).1 ≡ stored env o e s
  body-nil s h =
      let eq : body s ≡ third (plus_items (plus_order s)) =
        next_step-nil third (sequence first second s) (plus_items (plus_order s)) h (two-nil s) in
      ap (λ (r : Err × OrderDb). r.1) eq
      ∙ third-nil _ (sym (ap (λ (r : Err × OrderDb). r.0) eq) ∙ h)

pub answer-success :
    (env : Env) (o o' : Order) (r : Err × Store OrderDb)
    → (answer env o r).0 ≡ success o'
    → (r.0 ≡ nil) × (o ≡ o') × ((answer env o r).1 ≡ r.1)
answer-success env o o' (nil, st) h = (refl, success_injective h, refl)
answer-success env o o' (sentinel t, st) h = absurd (cc h)
answer-success env o o' (err, st) h = absurd (cc h)

pub answer-state : (env : Env) (o : Order) (r : Err × Store OrderDb) → (answer env o r).1 ≡ r.1
answer-state env o (nil, st) = refl
answer-state env o (sentinel t, st) = refl
answer-state env o (err, st) = refl

-- The columns of a row are those of an order.
pub record IsRowOf (o : Order) (r : OrderRow) : Type 0 where
  pub id : r.id ≡ o.id
  pub user_id : r.user_id ≡ o.user_id
  pub status : r.status ≡ o.status
  pub total : r.total_amount ≡ o.total_amount
  pub address : r.delivery_address ≡ o.delivery_address
  pub created_at : r.created_at ≡ o.created_at
  pub updated_at : r.updated_at ≡ o.updated_at

pub row_of-IsRowOf : (o : Order) → IsRowOf o (row_of o)
row_of-IsRowOf o = record {
  id = refl;
  user_id = refl;
  status = refl;
  total = refl;
  address = refl;
  created_at = refl;
  updated_at = refl;
}

-- The order `o` has been stored with its items and an event that was made for it.
pub record IsStored (env : Env) (o : Order) (before : OrderDb) (after : Store OrderDb)
    : Type 0 where
  pub event : OutboxEvent
  pub about : event.aggregate_id ≡ o.id
  pub drawn : ℕ
  pub made : order_created env.position env.marshal (env.ids drawn) o ≡ success event
  pub columns : IsRowOf o (row_of o)
  pub tables : after ≡ idle (stored env o event before)
