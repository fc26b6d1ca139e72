-- ===== src/Order/Domain.antt =====
-- services/order/internal/domain: orders, their items and their total.
--
-- int32 and int64 values are integers; sums and products are reduced to 64 bits where the source
-- computes them. Times are numbers. `ids n` is what the n-th call of uuid.NewV7 returns, so a
-- function that draws identifiers takes the number of the next one and returns the one after.
pub mod Laws
use delivery_backend.Base.{ℕ, suc, String, List, [], ◌∷◌}
use delivery_backend.Base.Int.{ℤ, pos, ◌+ℤ◌, ◌*ℤ◌, wrap64}
use delivery_backend.Errors.{Err, sentinel, Result, success, failure}

abbrev pub status_created : String
status_created = "created"

abbrev pub status_paid : String
status_paid = "paid"

abbrev pub status_confirmed : String
status_confirmed = "confirmed"

abbrev pub status_assembling : String
status_assembling = "assembling"

abbrev pub status_assembled : String
status_assembled = "assembled"

abbrev pub status_courier_assigned : String
status_courier_assigned = "courier_assigned"

abbrev pub status_delivering : String
status_delivering = "delivering"

abbrev pub status_delivered : String
status_delivered = "delivered"

abbrev pub status_canceled : String
status_canceled = "canceled"

abbrev pub statuses : List String
statuses =
    status_created ∷ status_paid ∷ status_confirmed ∷ status_assembling ∷ status_assembled
    ∷ status_courier_assigned ∷ status_delivering ∷ status_delivered ∷ status_canceled ∷ []

abbrev pub err_order_no_items : Err
err_order_no_items = sentinel "order: no items"

abbrev pub err_product_not_found : Err
err_product_not_found = sentinel "order: product not found"

pub record User : Type 0 where
  pub id : String
  pub email : String
  pub first_name : String
  pub last_name : String
  pub created_at : ℕ
  pub updated_at : ℕ

pub record Address : Type 0 where
  pub id : String
  pub user_id : String
  pub address : String
  pub created_at : ℕ
  pub updated_at : ℕ

pub record Product : Type 0 where
  pub id : String
  pub name : String
  pub price : ℤ
  pub created_at : ℕ
  pub updated_at : ℕ

pub record OrderItem : Type 0 where
  pub id : String
  pub order_id : String
  pub product_id : String
  pub product_name : String
  pub quantity : ℤ
  pub unit_price : ℤ

pub record Order : Type 0 where
  pub id : String
  pub user_id : String
  pub status : String
  pub items : List OrderItem
  pub total_amount : ℤ
  pub delivery_address : String
  pub created_at : ℕ
  pub updated_at : ℕ

abbrev pub aggregate_type_order : String
aggregate_type_order = "order"

abbrev pub event_type_order_created : String
event_type_order_created = "order.created"

pub record OutboxEvent : Type 0 where
  pub id : String
  pub aggregate_type : String
  pub aggregate_id : String
  pub type_name : String
  pub payload : String
  pub created_at : ℕ

unfoldable pub subtotal : OrderItem → ℤ
subtotal i = wrap64 (i.unit_price *ℤ i.quantity)

-- The variables of NewOrder's loop: the items seen, the running total, the next identifier.
pub record Filled : Type 0 where
  pub items : List OrderItem
  pub total : ℤ
  pub next : ℕ

module _ (ids : ℕ → String) where
  unfoldable pub fill : String → ℕ → ℤ → List OrderItem → Filled
  fill order_id n total [] = record { items = []; total = total; next = n }
  fill order_id n total (i ∷ is) =
      let item : OrderItem = record i { id = ids n; order_id = order_id } in
      let rest : Filled = fill order_id (suc n) (wrap64 (total +ℤ subtotal item)) is in
      record rest { items = item ∷ rest.items }

  -- NewOrder: the order, or the error, and the next identifier.
  unfoldable pub new_order :
      (now n : ℕ) (user_id delivery_address : String) → List OrderItem → Result Order × ℕ
  new_order now n user_id delivery_address [] = (failure err_order_no_items, n)
  new_order now n user_id delivery_address (i ∷ is) =
      let filled : Filled = fill (ids n) (suc n) (pos 0) (i ∷ is) in
      (
        success (record {
          id = ids n;
          user_id = user_id;
          status = status_created;
          items = filled.items;
          total_amount = filled.total;
          delivery_address = delivery_address;
          created_at = now;
          updated_at = now;
        }),
        filled.next,
      )
