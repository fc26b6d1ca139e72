-- ===== src/Gateway/Laws.antt =====
-- services/gateway/internal: what reaches the HTTP client of what the order service returned.
use delivery_backend.Base.{
  ℕ, String, ◌≡◌, refl, ap, ◌∙◌, Bool, true, false, Option, none, some, List, [], ◌∷◌, map, arith,
  ◌==◌, if◌then◌else◌, Bool-cases, inl, inr,
}
use delivery_backend.Errors.{Err, as_app, AppError, Status, Result, success, failure}
use delivery_backend.AppErr.Code.{http, public_message}
use delivery_backend.AppErr.Code.Laws.{elem, elem_induction}
use delivery_backend.AppErr.Value.{from, public}
use delivery_backend.AppErr.Grpc.{GrpcStatus, map_error}
use delivery_backend.Rpc.{error, plain_status, details}
use delivery_backend.Rpc.Wire.{wire_code, received, sent_error, error-failure, error_received}
use delivery_backend.Order.Domain.{Order, OrderItem, statuses}
use delivery_backend.Order.Grpc.{
  ProtoOrder, ProtoCreateOrderRequest, status_to_proto, order_to_proto, item_to_proto,
}
use delivery_backend.Gateway.Client
use delivery_backend.Gateway.Client.{
  CreateOrderInput, status_from_proto, status_unspecified, proto_to_order, create_order, to_request,
  item_from_proto,
}
use delivery_backend.Gateway.Http.{
  CreateOrderRequestDto, answer, ItemResponseDto, ResponseDto, Request, Response, fail, created,
  to_create_order_input, to_response_dto, to_item_dto, handle_create_order,
}

-- A status of the order service reaches the gateway as it is, and any other string as
-- `unspecified`.
pub status_from_proto-status_to_proto :
    (s : String)
    → status_from_proto (status_to_proto s) ≡ (if elem s statuses then s else status_unspecified)
unfolding status_from_proto status_to_proto
status_from_proto-status_to_proto s = elim (Bool-cases (elem s statuses)) [
  | inl known ↦ rw known (
      elem_induction (λ c. status_from_proto (status_to_proto c) ≡ c) statuses (ground arith) s
        known)
  | inr other ↦ rw other (ground (arith, other))
]

-- The JSON body for an order of the order service.
abbrev pub item_body : OrderItem → ItemResponseDto
item_body i = record {
  id = i.id;
  product_id = i.product_id;
  product_name = i.product_name;
  quantity = i.quantity;
  unit_price = i.unit_price;
}

abbrev pub body_of : Order → ResponseDto
body_of o = record {
  id = o.id;
  user_id = o.user_id;
  status = if elem o.status statuses then o.status else status_unspecified;
  items = map item_body o.items;
  total_amount = o.total_amount;
  delivery_address = o.delivery_address;
  created_at = o.created_at;
  updated_at = o.updated_at;
}

items_carried :
    (is : List OrderItem)
    → map to_item_dto (map item_from_proto (map item_to_proto is)) ≡ map item_body is
items_carried [] = refl
items_carried (i ∷ is) = ap (λ l. item_body i ∷ l) (items_carried is)

handle-bound :
    (bind : Request → Result CreateOrderRequestDto) (uc : CreateOrderInput → Result Client.Order)
    (r : Request) (dto : CreateOrderRequestDto)
    → bind r ≡ success dto
    → handle_create_order bind uc r ≡ answer bind uc r (uc (to_create_order_input r.user_id dto))
unfolding handle_create_order
handle-bound bind uc r dto h = rw (h, handle_create_order) refl

is_empty : String → Bool
is_empty s = s == ""

is_empty_if :
    (b : Bool) (x y : String)
    → is_empty (if b then x else y) ≡ (if b then is_empty x else is_empty y)
is_empty_if true x y = refl
is_empty_if false x y = refl

if_same {ℓ} : {A : Type ℓ} (b : Bool) (x : A) → (if b then x else x) ≡ x
if_same true x = refl
if_same false x = refl

is_empty-public_message : (c : String) → is_empty (public_message c) ≡ false
unfolding public_message
is_empty-public_message c = simp is_empty_if (unfold is_empty in simp if_same)

-- The message that the order service shows is the one that the gateway shows.
public-received : (e : AppError) (err : Err) → public (received e err) ≡ public e
unfolding public is_empty
public-received e err = ground (arith, is_empty-public_message e.code)

module _ {ℓ} {Timestamp : Type ℓ} (stamp : ℕ → Timestamp) (as_time : Timestamp → ℕ) (g : GrpcStatus)
    (bind : Request → Result CreateOrderRequestDto)
    (serve : ProtoCreateOrderRequest → Result (ProtoOrder Timestamp)) where
  abbrev pub call : ProtoCreateOrderRequest → Result (ProtoOrder Timestamp)
  call q = error g (serve q)

  -- The gateway's handler over a client whose calls pass the order service's error interceptor.
  abbrev pub exchange : Request → Option (Response ResponseDto)
  exchange = handle_create_order bind (create_order as_time g call)

  order_carried :
      ((t : ℕ) → as_time (stamp t) ≡ t)
      → (o : Order) → to_response_dto (proto_to_order as_time (order_to_proto stamp o)) ≡ body_of o
  unfolding to_response_dto proto_to_order order_to_proto
  order_carried h o =
      rw
        (
          status_from_proto-status_to_proto o.status,
          items_carried o.items,
          h o.created_at,
          h o.updated_at,
        )
        refl

  create_order-success :
      (i : CreateOrderInput) (p : ProtoOrder Timestamp)
      → serve (to_request i) ≡ success p
      → create_order as_time g call i ≡ success (proto_to_order as_time p)
  unfolding error create_order proto_to_order
  create_order-success i p h = rw (h, create_order) refl

  create_order-failure :
      (i : CreateOrderInput) (err : Err)
      → call (to_request i) ≡ failure err
      → create_order as_time g call i ≡ failure (map_error g err)
  unfolding create_order map_error
  create_order-failure i err h = rw (h, create_order) refl

  -- If the request binds and the order service answers with an order, the client gets 201 with the
  -- order's fields, items and times as the order service had them, and its status, or `unspecified`
  -- where that is none of the nine statuses; timestamps are assumed to carry times unchanged.
  pub exchange-success :
      (r : Request) (dto : CreateOrderRequestDto) (o : Order)
      → ((t : ℕ) → as_time (stamp t) ≡ t)
      → bind r ≡ success dto
      → serve (to_request (to_create_order_input r.user_id dto)) ≡ success (order_to_proto stamp o)
      → exchange r ≡ some (created r (body_of o))
  exchange-success r dto o times hb hs =
      handle-bound bind (create_order as_time g call) r dto hb
      ∙ ap (answer bind (create_order as_time g call) r) (create_order-success _ _ hs)
      ∙ ap (λ d. some (created r d)) (order_carried times o)

  -- If the request binds and the order service fails with an error in which `From` reads `e`, and
  -- the details can be attached, the client gets the HTTP status of `e`'s code (of `INTERNAL` for an
  -- empty one), and a body with that code, the reason, the public message and the violations of `e`.
  pub exchange-failure :
      (r : Request) (dto : CreateOrderRequestDto) (err : Err) (e : AppError) (t : Status)
      → bind r ≡ success dto
      → serve (to_request (to_create_order_input r.user_id dto)) ≡ failure err
      → from err ≡ some e
      → g.with_details (plain_status e) (details e) ≡ some t
      → exchange r
        ≡ some (record {
          status = http (wire_code e.code);
          request_id = r.request_id;
          payload = none;
          error = some (record {
            code = wire_code e.code;
            reason = e.reason;
            message = public e;
            violations = e.violations;
          });
          boxed = some (received e (sent_error g e));
        })
  unfolding fail from as_app
  exchange-failure r dto err e t hb hs he hd =
      handle-bound bind (create_order as_time g call) r dto hb
      ∙ ap (answer bind (create_order as_time g call) r) (
          create_order-failure _ _ (ap (λ x. error g x) hs ∙ error-failure g err e he)
          ∙ ap (λ x. failure x) (error_received g err e t he hd).1)
      ∙ rw (public-received e (sent_error g e)) refl
