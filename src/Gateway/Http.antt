-- ===== src/Gateway/Http.antt =====
-- The gateway's HTTP side: services/gateway/internal/transport/http/v1/order (dto.go, mapper.go,
-- handler.go), services/gateway/internal/service/order.go, platform/http/bind and
-- platform/http/response.
--
-- A request is its body and the values of its context. Decoding JSON and the rules of
-- ozzo-validation are parameters; an envelope is modelled before it is encoded.
use delivery_backend.Base.{ℕ, String, Bool, Option, none, some, List, map}
use delivery_backend.Base.Int.{ℤ}
use delivery_backend.Errors.{Violation, Err, nil, AppError, to_err, Result, success, failure}
use delivery_backend.AppErr.Code.{http}
use delivery_backend.AppErr.Value.{invalid_request_body, wrap, from, public}
use delivery_backend.AppErr.Ozzo
use delivery_backend.Gateway.Client.{Order, OrderItem, CreateOrderInput, CreateOrderItemInput}

pub record CreateOrderItemDto : Type 0 where
  pub product_id : String
  pub quantity : ℤ

pub record CreateOrderRequestDto : Type 0 where
  pub address_id : String
  pub items : List CreateOrderItemDto

pub record ItemResponseDto : Type 0 where
  pub id : String
  pub product_id : String
  pub product_name : String
  pub quantity : ℤ
  pub unit_price : ℤ

pub record ResponseDto : Type 0 where
  pub id : String
  pub user_id : String
  pub status : String
  pub items : List ItemResponseDto
  pub total_amount : ℤ
  pub delivery_address : String
  pub created_at : ℕ
  pub updated_at : ℕ

abbrev pub item_input : CreateOrderItemDto → CreateOrderItemInput
item_input i = record { product_id = i.product_id; quantity = i.quantity }

abbrev pub to_create_order_input : String → CreateOrderRequestDto → CreateOrderInput
to_create_order_input user_id dto = record {
  user_id = user_id;
  address_id = dto.address_id;
  items = map item_input dto.items;
}

abbrev pub to_item_dto : OrderItem → ItemResponseDto
to_item_dto i = record {
  id = i.id;
  product_id = i.product_id;
  product_name = i.product_name;
  quantity = i.quantity;
  unit_price = i.unit_price;
}

unfoldable pub to_response_dto : Order → ResponseDto
to_response_dto o = record {
  id = o.id;
  user_id = o.user_id;
  status = o.status;
  items = map to_item_dto o.items;
  total_amount = o.total_amount;
  delivery_address = o.delivery_address;
  created_at = o.created_at;
  updated_at = o.updated_at;
}

-- http.Request: the body, and the request id and the user id of its context.
pub record Request : Type 0 where
  pub body : String
  pub request_id : String
  pub user_id : String

pub record ErrorBody : Type 0 where
  pub code : String
  pub reason : String
  pub message : String
  pub violations : List Violation

-- What is written, and the error left in the context's box for the log; `none` is a JSON null.
pub record Response {ℓ} (A : Type ℓ) : Type ℓ where
  pub status : ℕ
  pub request_id : String
  pub payload : Option A
  pub error : Option ErrorBody
  pub boxed : Option AppError

abbrev pub error_body : AppError → ErrorBody
error_body e = record {
  code = e.code;
  reason = e.reason;
  message = public e;
  violations = e.violations;
}

module _ {ℓ} {A : Type ℓ} where
  unfoldable pub created : Request → A → Response A
  created r a = record {
    status = 201;
    request_id = r.request_id;
    payload = some a;
    error = none;
    boxed = none;
  }

  -- OK, which the gateway has no use for so far.
  unfoldable pub ok : Request → A → Response A
  unfolding created
  ok r a = record (created r a) { status = 200 }

  abbrev pub fail_with : Request → AppError → Response A
  fail_with r e = record {
    status = http e.code;
    request_id = r.request_id;
    payload = none;
    error = some (error_body e);
    boxed = some e;
  }

  -- Fail, at an error that is not nil; at nil the source reads a nil pointer, and `none` says so.
  unfoldable pub fail : Request → Err → Option (Response A)
  fail r err = elim (from err) [ none ↦ none | some e ↦ some (fail_with r e) ]

-- bind.JSON
module _ {ℓ} {T : Type ℓ} (decode : String → Result T) (validate : T → Err)
    (precedes : String → String → Bool) (text : Err → String) where
  abbrev valid : T → Err → Result T
  valid body nil = success body
  valid body err = failure err

  unfoldable pub bind_json : Request → Result T
  bind_json r = elim (decode r.body) [
    | failure err ↦ failure (to_err (wrap err invalid_request_body))
    | success body ↦ valid body (Ozzo.map precedes text (validate body))
  ]

-- Handler.CreateOrder; `uc` is the service, which passes the call on to the client.
module _ (bind : Request → Result CreateOrderRequestDto)
    (uc : CreateOrderInput → Result Order) where
  abbrev pub answer : Request → Result Order → Option (Response ResponseDto)
  answer r (failure err) = fail r err
  answer r (success o) = some (created r (to_response_dto o))

  unfoldable pub handle_create_order : Request → Option (Response ResponseDto)
  handle_create_order r = elim (bind r) [
    | failure err ↦ fail r err
    | success dto ↦ answer r (uc (to_create_order_input r.user_id dto))
  ]
