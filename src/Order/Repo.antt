-- ===== src/Order/Repo.antt =====
-- services/order/internal/repository/pg: the tables of the order service.
--
-- A table is the list of its rows. Whether PostgreSQL refuses a statement, by a constraint of the
-- migrations or for any other reason, is the parameter `Database`: an error, or nil if it accepts.
-- An accepted INSERT or COPY appends its rows.
use delivery_backend.Base.{ℕ, String, Option, none, some, List, [], ◌∷◌, ◌++◌, ◌==◌, if◌then◌else◌}
use delivery_backend.Base.Int.{ℤ}
use delivery_backend.Errors.{Err, nil, Result, success, failure}
use delivery_backend.AppErr.Pg
use delivery_backend.AppErr.Grpc.{index}
use delivery_backend.Postgres.{Store, exec, and_then}
use delivery_backend.Order.Domain.{Order, OrderItem, OutboxEvent}

-- The columns that insertOrder writes.
pub record OrderRow : Type 0 where
  pub id : String
  pub user_id : String
  pub status : String
  pub total_amount : ℤ
  pub delivery_address : String
  pub created_at : ℕ
  pub updated_at : ℕ

pub record OutboxRow : Type 0 where
  pub event : OutboxEvent
  pub traceparent : Option String
  pub tracestate : Option String

pub record OrderDb : Type 0 where
  pub orders : List OrderRow
  pub order_items : List OrderItem
  pub outbox_events : List OutboxRow

pub record Database : Type 0 where
  pub refuses_order : OrderRow → OrderDb → Err
  pub refuses_items : List OrderItem → OrderDb → Err
  pub refuses_event : OutboxRow → OrderDb → Err

-- The result of a statement: the answer of the database, mapped by pgerr.
abbrev pub answer : Err → OrderDb → Result OrderDb
answer nil after = success after
answer err after = failure (Pg.map err)

abbrev pub row_of : Order → OrderRow
row_of o = record {
  id = o.id;
  user_id = o.user_id;
  status = o.status;
  total_amount = o.total_amount;
  delivery_address = o.delivery_address;
  created_at = o.created_at;
  updated_at = o.updated_at;
}

abbrev pub nil_if_empty : String → Option String
nil_if_empty s = if s == "" then none else some s

-- traceContext, from the carrier that the propagator filled.
unfoldable pub trace_context : List (String × String) → Option String × Option String
trace_context carrier =
    (nil_if_empty (index carrier "traceparent"), nil_if_empty (index carrier "tracestate"))

abbrev pub outbox_row : List (String × String) → OutboxEvent → OutboxRow
outbox_row carrier e = record {
  event = e;
  traceparent = (trace_context carrier).0;
  tracestate = (trace_context carrier).1;
}

module _ (d : Database) where
  unfoldable pub insert_order : Order → OrderDb → Result OrderDb
  insert_order o s =
      answer (d.refuses_order (row_of o) s) (record s { orders = s.orders ++ row_of o ∷ [] })

  unfoldable pub insert_items : List OrderItem → OrderDb → Result OrderDb
  insert_items is s = answer (d.refuses_items is s) (record s { order_items = s.order_items ++ is })

  unfoldable pub insert_event : OutboxRow → OrderDb → Result OrderDb
  insert_event r s =
      answer (d.refuses_event r s) (record s { outbox_events = s.outbox_events ++ r ∷ [] })

  -- OrderRepo.Create
  unfoldable pub create : Order → Store OrderDb → Err × Store OrderDb
  create o = and_then (exec (insert_order o)) (exec (insert_items o.items))

  -- OutboxRepo.Save
  unfoldable pub save : List (String × String) → OutboxEvent → Store OrderDb → Err × Store OrderDb
  save carrier e = exec (insert_event (outbox_row carrier e))
