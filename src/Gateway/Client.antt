-- ===== src/Gateway/Client.antt =====
-- services/gateway/internal/client/order.go and domain/order.go: the order service as a client
-- sees it. A time is a number, and `as_time` is what AsTime makes of a timestamp.
use delivery_backend.Base.{ℕ, String, List, map}
use delivery_backend.Base.Int.{ℤ}
use delivery_backend.Errors.{Result, success, failure}
use delivery_backend.AppErr.Grpc.{GrpcStatus, map_error}
use delivery_backend.Order.Domain.{
  status_created, status_paid, status_confirmed, status_assembling, status_assembled,
  status_courier_assigned, status_delivering, status_delivered, status_canceled,
}
use delivery_backend.Order.Grpc.{
  ProtoStatus, created, paid, confirmed, assembling, assembled, courier_assigned, delivering,
  delivered, canceled, ProtoOrderItem, ProtoOrder, ProtoCreateOrderItem, ProtoCreateOrderRequest,
}

abbrev pub status_unspecified : String
status_unspecified = "unspecified"

pub record OrderItem : Type 0 where
  pub id : String
  pub product_id : String
  pub product_name : String
  pub quantity : ℤ
  pub unit_price : ℤ

pub record Order : Type 0 where
  pub id : String
  pub user_id : String
  pub status : String
  pub items : List OrderItem
  pub total_amount : ℤ
  pub delivery_address : String
  pub created_at : ℕ
  pub updated_at : ℕ

unfoldable pub status_from_proto : ProtoStatus → String
status_from_proto created = status_created
status_from_proto paid = status_paid
status_from_proto confirmed = status_confirmed
status_from_proto assembling = status_assembling
status_from_proto assembled = status_assembled
status_from_proto courier_assigned = status_courier_assigned
status_from_proto delivering = status_delivering
status_from_proto delivered = status_delivered
status_from_proto canceled = status_canceled
status_from_proto _ = status_unspecified

abbrev pub item_from_proto : ProtoOrderItem → OrderItem
item_from_proto i = record {
  id = i.id;
  product_id = i.product_id;
  product_name = i.product_name;
  quantity = i.quantity;
  unit_price = i.unit_price;
}

-- The input of the gateway's own service layer.
pub record CreateOrderItemInput : Type 0 where
  pub product_id : String
  pub quantity : ℤ

pub record CreateOrderInput : Type 0 where
  pub user_id : String
  pub address_id : String
  pub items : List CreateOrderItemInput

abbrev pub item_request : CreateOrderItemInput → ProtoCreateOrderItem
item_request i = record { product_id = i.product_id; quantity = i.quantity }

abbrev pub to_request : CreateOrderInput → ProtoCreateOrderRequest
to_request i = record {
  user_id = i.user_id;
  address_id = i.address_id;
  items = map item_request i.items;
}

module _ {ℓ} {Timestamp : Type ℓ} (as_time : Timestamp → ℕ) where
  unfoldable pub proto_to_order : ProtoOrder Timestamp → Order
  proto_to_order p = record {
    id = p.id;
    user_id = p.user_id;
    status = status_from_proto p.status;
    items = map item_from_proto p.items;
    total_amount = p.total_amount;
    delivery_address = p.delivery_address;
    created_at = as_time p.created_at;
    updated_at = as_time p.updated_at;
  }

  -- CreateOrder; `call` is the generated client: the response's order, or the error of the call.
  unfoldable pub create_order :
      GrpcStatus
      → (ProtoCreateOrderRequest → Result (ProtoOrder Timestamp))
      → CreateOrderInput
      → Result Order
  create_order g call input = elim (call (to_request input)) [
    | success p ↦ success (proto_to_order p)
    | failure err ↦ failure (map_error g err)
  ]
