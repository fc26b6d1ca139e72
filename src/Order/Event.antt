-- ===== src/Order/Event.antt =====
-- services/order/internal/event/order.go: the event order.created.
--
-- `marshal` is json.Marshal at the payload's type: the bytes are only passed on.
pub mod Laws
use delivery_backend.Base.{
  ℕ, zero, suc, String, Bool, true, false, Option, none, some, List, [], ◌∷◌, map, ◌==◌, not,
  if◌then◌else◌,
}
use delivery_backend.Base.Int.{ℤ}
use delivery_backend.Base.Utf8.{valid_string}
use delivery_backend.Errors.{Err, nil, sentinel, wrapped, to_err, Result, success, failure}
use delivery_backend.AppErr.Code.{code_internal}
use delivery_backend.AppErr.Value.{new, wrap}
use delivery_backend.Order.Domain.{
  Order, OrderItem, OutboxEvent, aggregate_type_order, event_type_order_created,
}

abbrev pub err_invalid_utf8 : Err
err_invalid_utf8 = sentinel "event: invalid utf-8"

pub record OrderCreatedItem : Type 0 where
  pub id : String
  pub product_id : String
  pub product_name : String
  pub quantity : ℤ
  pub unit_price : ℤ

pub record OrderCreatedPayload : Type 0 where
  pub event_id : String
  pub order_id : String
  pub user_id : String
  pub items : List OrderCreatedItem
  pub total_amount : ℤ
  pub delivery_address : String
  pub created_at : ℕ

pub record StringField : Type 0 where
  pub name : String
  pub value : String

-- The name of the first field of a position that is not valid UTF-8, or the empty string.
unfoldable pub invalid_utf8_field : OrderCreatedItem → String
invalid_utf8_field i =
    if not (valid_string i.id)
    then "id"
    else if not (valid_string i.product_id)
    then "product_id"
    else if not (valid_string i.product_name)
    then "product_name"
    else ""

unfoldable pub validate_fields : List StringField → Err
validate_fields [] = nil
validate_fields (f ∷ fs) =
    let rest : Err = validate_fields fs in
    if not (valid_string f.value) then wrapped "" err_invalid_utf8 f.name else rest

abbrev pub string_fields : OrderCreatedPayload → List StringField
string_fields p =
    record { name = ": event_id"; value = p.event_id }
    ∷ record { name = ": order_id"; value = p.order_id }
    ∷ record { name = ": user_id"; value = p.user_id }
    ∷ record { name = ": delivery_address"; value = p.delivery_address }
    ∷ []

-- The error of the first check, else that of the second.
abbrev pub first_error : Err → Err → Err
first_error nil e = e
first_error err e = err

-- `position i name` is the text that the source formats as `: items[%d].%s`.
module _ (position : ℕ → String → String) where
  unfoldable pub validate_items : ℕ → List OrderCreatedItem → Err
  validate_items i [] = nil
  validate_items i (item ∷ items) =
      let rest : Err = validate_items (suc i) items in
      let name : String = invalid_utf8_field item in
      if name == "" then rest else wrapped "" err_invalid_utf8 (position i name)

  unfoldable pub validate : OrderCreatedPayload → Err
  validate p = first_error (validate_fields (string_fields p)) (validate_items 0 p.items)

abbrev pub created_item : OrderItem → OrderCreatedItem
created_item i = record {
  id = i.id;
  product_id = i.product_id;
  product_name = i.product_name;
  quantity = i.quantity;
  unit_price = i.unit_price;
}

abbrev pub payload_of : String → Order → OrderCreatedPayload
payload_of id o = record {
  event_id = id;
  order_id = o.id;
  user_id = o.user_id;
  items = map created_item o.items;
  total_amount = o.total_amount;
  delivery_address = o.delivery_address;
  created_at = o.created_at;
}

abbrev pub outbox_event : String → Order → String → OutboxEvent
outbox_event id o payload = record {
  id = id;
  aggregate_type = aggregate_type_order;
  aggregate_id = o.id;
  type_name = event_type_order_created;
  payload = payload;
  created_at = o.created_at;
}

module _ (position : ℕ → String → String) (marshal : OrderCreatedPayload → Result String) where
  -- What follows the check of the payload.
  unfoldable pub encode : String → Order → Err → Result OutboxEvent
  encode id o nil = elim (marshal (payload_of id o)) [
    | success payload ↦ success (outbox_event id o payload)
    | failure err ↦ failure (to_err (wrap err (new code_internal)))
  ]
  encode id o err = failure (to_err (wrap err (new code_internal)))

  -- OrderCreated, with the identifier that it draws first.
  unfoldable pub order_created : String → Order → Result OutboxEvent
  order_created id o = encode id o (validate position (payload_of id o))
