-- ===== src/Examples/Edge.antt =====
-- The theorems on the gateway, run on a request for an order.
use delivery_backend.Order.Domain
use delivery_backend.Base.{Bool, ◌==◌, ◌||◌, ◌&&◌, ℕ, String, ◌≡◌, refl, none, some, [], ◌∷◌, List}
use delivery_backend.Base.Int.{pos}
use delivery_backend.Errors.{Err, nil, wrapped, to_err, as_app, Result, success, failure}
use delivery_backend.AppErr.Code.{http}
use delivery_backend.AppErr.Value.{from, public}
use delivery_backend.Rpc.Wire.{wire_code, received, sent_error}
use delivery_backend.Order.Grpc.{ProtoOrder, ProtoCreateOrderRequest, order_to_proto}
use delivery_backend.Catalog.{ProductRow}
use delivery_backend.Catalog.Laws.{seen, Among, IsAsked, fetch, products_received}
use delivery_backend.Gateway.Http.{CreateOrderRequestDto, Request, created}
use delivery_backend.Gateway.Laws.{body_of, exchange, exchange-success, exchange-failure}
use delivery_backend.AppErr.Code.{error}
use delivery_backend.Gateway.Client.{Order, CreateOrderInput}
use delivery_backend.Gateway.Http.{Response, ResponseDto, handle_create_order}
use delivery_backend.Gateway.Middleware.{handler_of}
use delivery_backend.Gateway.Middleware.{
  Incoming, Call, Outcome, answered, panicked, Reply, serve, panic_error, is_valid_request_id,
  choose_id,
}
use delivery_backend.Gateway.Middleware.Laws.{
  IsValidId, is_valid_request_id-IsValidId, expected_line,
}
use delivery_backend.Gateway.Middleware.Served.{serve_same_id, serve_total, serve_panicked}
use delivery_backend.Account.{UserRow}
use delivery_backend.Account.Laws.{IsNotFound}
use delivery_backend.Account.Users.{fetch_user, user_missing}
use delivery_backend.Examples.{grpc_library, missing_order, placed}

abbrev request : Request
request = record { body = "{}"; request_id = "request-1"; user_id = "user-1" }

abbrev dto : CreateOrderRequestDto
dto = record {
  address_id = "address-1";
  items = record { product_id = "cup"; quantity = pos 1 } ∷ [];
}

abbrev bind : Request → Result CreateOrderRequestDto
bind r = success dto

abbrev stamp : ℕ → ℕ
stamp t = t

abbrev take_order : ProtoCreateOrderRequest → Result (ProtoOrder ℕ)
take_order q = success (order_to_proto stamp placed)

exchange-success_example :
    exchange stamp stamp grpc_library bind take_order request
    ≡ some (created request (body_of placed))
exchange-success_example =
    exchange-success stamp stamp grpc_library bind take_order request dto placed (λ t. refl) refl
      refl

abbrev refuse : ProtoCreateOrderRequest → Result (ProtoOrder ℕ)
refuse q = failure (wrapped "get order: " (to_err missing_order) "")

refused : from (wrapped "get order: " (to_err missing_order) "") ≡ some missing_order
unfolding from as_app
refused = refl

exchange-failure_example :
    exchange stamp stamp grpc_library bind refuse request
    ≡ some (record {
      status = http (wire_code missing_order.code);
      request_id = "request-1";
      payload = none;
      error = some (record {
        code = wire_code missing_order.code;
        reason = "NO_ORDER";
        message = public missing_order;
        violations = missing_order.violations;
      });
      boxed = some (received missing_order (sent_error grpc_library missing_order));
    })
exchange-failure_example =
    exchange-failure stamp stamp grpc_library bind refuse request dto
      (wrapped "get order: " (to_err missing_order) "") missing_order _ refl refl refused refl

abbrev rows : List ProductRow
rows =
    record { id = "tea"; name = "Tea"; price = pos 500; created_at = 1; updated_at = 2 }
    ∷ record { id = "cup"; name = "Cup"; price = pos 1200; created_at = 1; updated_at = 2 }
    ∷ []

abbrev accepts : List String → Err
accepts ids = nil

abbrev arrange : List ProductRow → List ProductRow
arrange rs = rs

-- A database that reads `CUP` and `cup` as one identifier.
abbrev same_id : String → String → Bool
same_id a b = a == b || (a == "cup" && b == "CUP")

products_received_example :
    (ps : List Domain.Product) × (fetch stamp stamp same_id accepts arrange rows grpc_library
        ("CUP" ∷ [])
      ≡ success ps)
    × ((r : ProductRow) → Among r rows → IsAsked same_id r ("CUP" ∷ []) → Among (seen r) ps)
    × ((p : Domain.Product)
        → Among p ps
        → (r : ProductRow) × (p ≡ seen r) × Among r rows × IsAsked same_id r ("CUP" ∷ []))
products_received_example =
    products_received stamp stamp same_id accepts arrange rows grpc_library "CUP" [] (λ t. refl)
      (λ rs r. (λ h. h, λ h. h)) refl

abbrev incoming : Incoming
incoming = record {
  method = "POST";
  path = "/api/v1/orders";
  request_id_header = "from the client";
  user_id_header = "";
  body = "{}";
}

new_id_valid : IsValidId "0199-new"
unfolding is_valid_request_id
new_id_valid = is_valid_request_id-IsValidId "0199-new" refl

abbrev crash : Call → Outcome (Response ℕ)
crash c = panicked "index out of range"

-- A handler that writes nothing.
abbrev no_reply : Call → Outcome (Response ℕ)
no_reply c = Outcome.silent none

serve_total_example :
    (reply : Reply ℕ) × (serve "0199-new" "user-1" no_reply incoming ≡ answered reply)
    × IsValidId reply.request_id_header
    × (reply.response
        ≡ record { status = 200; request_id = ""; payload = none; error = none; boxed = none })
    × (reply.log ≡ expected_line incoming 0 reply.response.boxed ∷ [])
serve_total_example = serve_total "0199-new" "user-1" no_reply incoming new_id_valid

serve_panicked_example :
    serve "0199-new" "user-1" crash incoming
    ≡ answered (record {
      request_id_header = choose_id "0199-new" "from the client";
      response = record {
        status = 500;
        request_id = choose_id "0199-new" "from the client";
        payload = none;
        error = some (record {
          code = "INTERNAL";
          reason = "";
          message = "internal server error";
          violations = [];
        });
        boxed = some (panic_error "index out of range");
      };
      log =
          record {
            level = error;
            message = "http request failed";
            method = "POST";
            path = "/api/v1/orders";
            status_code = 500;
            error = some (panic_error "index out of range");
          }
          ∷ [];
    })
serve_panicked_example = serve_panicked "0199-new" "user-1" crash incoming "index out of range" refl

abbrev refuse_order : CreateOrderInput → Result Order
refuse_order i = failure (to_err missing_order)

serve_same_id_example :
    (reply : Reply ResponseDto) × (serve "0199-new" "user-1"
        (handler_of (handle_create_order bind refuse_order))
        incoming
      ≡ answered reply)
    × (reply.response.request_id ≡ reply.request_id_header)
serve_same_id_example = serve_same_id bind refuse_order "0199-new" "user-1" incoming

abbrev user_row : UserRow
user_row = record {
  id = "user-1";
  email = "user@example.com";
  first_name = "Ivan";
  last_name = "Petrov";
  created_at = 1;
  updated_at = 2;
}

abbrev accept_id : String → Err
accept_id id = nil

user_missing_example :
    IsNotFound (fetch_user stamp stamp same_id accept_id (user_row ∷ []) grpc_library "user-2")
user_missing_example =
    user_missing stamp stamp same_id accept_id (user_row ∷ []) grpc_library "user-2" refl (refl, tt)
