-- ===== src/Order/Grpc.antt =====
-- services/order/internal/transport/grpc/order.go and proto/order/v1: the order on the wire.
--
-- A time is a number, and `stamp` is what timestamppb.New makes of it.
use delivery_backend.Base.{ℕ, String, List, map, ◌==◌, if◌then◌else◌}
use delivery_backend.Base.Int.{ℤ}
use delivery_backend.Errors.{Result, success, failure}
use delivery_backend.Order.Domain.{
  Order, OrderItem, status_created, status_paid, status_confirmed, status_assembling,
  status_assembled, status_courier_assigned, status_delivering, status_delivered, status_canceled,
}
use delivery_backend.Order.Service.{CreateOrderInput, CreateOrderItemInput}

-- order.v1.OrderStatus: an enum of proto3 is open, so it may hold any other number.
pub data ProtoStatus : Type 0 where
  unspecified created paid confirmed assembling assembled courier_assigned delivering delivered
        canceled :
      ProtoStatus
  unrecognized : ℕ → ProtoStatus

pub record ProtoOrderItem : Type 0 where
  pub id : String
  pub product_id : String
  pub product_name : String
  pub quantity : ℤ
  pub unit_price : ℤ

pub record ProtoOrder {ℓ} (Timestamp : Type ℓ) : Type ℓ where
  pub id : String
  pub user_id : String
  pub status : ProtoStatus
  pub items : List ProtoOrderItem
  pub total_amount : ℤ
  pub delivery_address : String
  pub created_at : Timestamp
  pub updated_at : Timestamp

pub record ProtoCreateOrderItem : Type 0 where
  pub product_id : String
  pub quantity : ℤ

pub record ProtoCreateOrderRequest : Type 0 where
  pub user_id : String
  pub address_id : String
  pub items : List ProtoCreateOrderItem

unfoldable pub status_to_proto : String → ProtoStatus
status_to_proto s =
    if s == status_created
    then created
    else if s == status_paid
    then paid
    else if s == status_confirmed
    then confirmed
    else if s == status_assembling
    then assembling
    else if s == status_assembled
    then assembled
    else if s == status_courier_assigned
    then courier_assigned
    else if s == status_delivering
    then delivering
    else if s == status_delivered
    then delivered
    else if s == status_canceled
    then canceled
    else unspecified

abbrev pub item_to_proto : OrderItem → ProtoOrderItem
item_to_proto i = record {
  id = i.id;
  product_id = i.product_id;
  product_name = i.product_name;
  quantity = i.quantity;
  unit_price = i.unit_price;
}

abbrev pub item_input : ProtoCreateOrderItem → CreateOrderItemInput
item_input i = record { product_id = i.product_id; quantity = i.quantity }

abbrev pub to_input : ProtoCreateOrderRequest → CreateOrderInput
to_input q = record {
  user_id = q.user_id;
  address_id = q.address_id;
  items = map item_input q.items;
}

module _ {ℓ} {Timestamp : Type ℓ} (stamp : ℕ → Timestamp) where
  unfoldable pub order_to_proto : Order → ProtoOrder Timestamp
  order_to_proto o = record {
    id = o.id;
    user_id = o.user_id;
    status = status_to_proto o.status;
    items = map item_to_proto o.items;
    total_amount = o.total_amount;
    delivery_address = o.delivery_address;
    created_at = stamp o.created_at;
    updated_at = stamp o.updated_at;
  }

  -- The handler, around the use case `uc`, which also changes a state.
  unfoldable pub handle_create_order {κ} :
      {S : Type κ}
      → (CreateOrderInput → S → Result Order × S)
      → ProtoCreateOrderRequest
      → S
      → Result (ProtoOrder Timestamp) × S
  handle_create_order uc q s =
      let (result, s') = uc (to_input q) s in
      elim result [ success o ↦ (success (order_to_proto o), s') | failure err ↦ (failure err, s') ]
