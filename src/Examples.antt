-- ===== src/Examples.antt =====
-- Concrete data for the runs of the theorems: a store of products, an order for two of them, and
-- the gRPC library as far as the program uses it.
pub mod Orders
pub mod Errors
pub mod Messages
pub mod Consumer
pub mod Pipeline
pub mod Edge
pub mod Services
pub mod Setup
pub mod Platform
pub mod Violations
use delivery_backend.Base.{
  ℕ, zero, suc, String, ◌≡◌, ◌≢◌, refl, sym, Bool, true, false, Option, none, some, List, [], ◌∷◌,
  ◌++◌,
}
use delivery_backend.Base.Int.{pos}
use delivery_backend.Errors.{
  Violation, ok, Detail, Status, Err, nil, status_error, foreign, Result, success, failure,
  AppError,
}
use delivery_backend.AppErr.Code.{code_not_found}
use delivery_backend.AppErr.Grpc.{GrpcStatus}
use delivery_backend.Postgres.{done}
use delivery_backend.Order.Domain.{User, Address, Product, OrderItem, Order}
use delivery_backend.Order.Repo.{OrderDb, Database}
use delivery_backend.Order.Service.{
  CreateOrderItemInput, CreateOrderInput, Providers, user_address_catalog, Env,
}

abbrev pub find_status : Err → Option Status
find_status (status_error s) = some s
find_status _ = none

abbrev pub attach : Status → List Detail → Option Status
attach s ds = some (record s { details = s.details ++ ds })

pub attach_appends :
    (s t : Status) (ds : List Detail)
    → attach s ds ≡ some t
    → t ≡ record s { details = s.details ++ ds }
attach_appends s t ds h = cc h

pub none_appends :
    (s t : Status) (ds : List Detail) → none ≡ some t → t ≡ record s { details = s.details ++ ds }
none_appends s t ds h = absurd (cc h)

pub status_error-ne-nil : (s : Status) → status_error s ≢ nil
status_error-ne-nil s e = cc e

-- A gRPC library that attaches every detail.
abbrev pub grpc_library : GrpcStatus
grpc_library = record {
  from_error = find_status;
  with_details = attach;
  err_of = status_error;
  from_error-err_of = λ s h. refl;
  err_of-ne-nil = λ s h. status_error-ne-nil s;
  with_details_appends = attach_appends;
}

-- One that attaches none.
abbrev pub bare_library : GrpcStatus
bare_library = record {
  from_error = find_status;
  with_details = λ s ds. none;
  err_of = status_error;
  from_error-err_of = λ s h. refl;
  err_of-ne-nil = λ s h. status_error-ne-nil s;
  with_details_appends = λ s t ds h. none_appends s t ds h;
}

abbrev pub missing_order : AppError
missing_order = record {
  code = code_not_found;
  reason = "NO_ORDER";
  message = "no such order";
  cause = nil;
  violations = record { field = "id"; message = "unknown" } ∷ [];
}

abbrev pub ids : ℕ → String
ids zero = "order-1"
ids (suc zero) = "item-1"
ids (suc (suc zero)) = "item-2"
ids (suc (suc (suc zero))) = "event-1"
ids n = "later"

abbrev pub buyer : User
buyer = record {
  id = "user-1";
  email = "a@b.c";
  first_name = "A";
  last_name = "B";
  created_at = 0;
  updated_at = 0;
}

abbrev pub home : Address
home = record {
  id = "address-1";
  user_id = "user-1";
  address = "Main street 1";
  created_at = 0;
  updated_at = 0;
}

abbrev pub tea : Product
tea = record { id = "tea"; name = "Tea"; price = pos 500; created_at = 0; updated_at = 0 }

abbrev pub cup : Product
cup = record { id = "cup"; name = "Cup"; price = pos 1200; created_at = 0; updated_at = 0 }

abbrev pub providers : Providers
providers = record {
  get_user = λ c id. success buyer;
  get_address = λ c id. success home;
  get_products = λ c is. success (tea ∷ cup ∷ []);
}

abbrev pub input : CreateOrderInput
input = record {
  user_id = "user-1";
  address_id = "address-1";
  items =
      record { product_id = "cup"; quantity = pos 1 }
      ∷ record { product_id = "tea"; quantity = pos 3 }
      ∷ [];
}

abbrev pub env : Env
env = record {
  providers = providers;
  schedule = user_address_catalog;
  cancelled = false;
  database = record {
    refuses_order = λ r s. nil;
    refuses_items = λ is s. nil;
    refuses_event = λ r s. nil;
  };
  ids = ids;
  now = 1000;
  position = λ n name. name;
  marshal = λ p. success "{}";
  carrier = [];
  begin = nil;
  commit = done;
}

abbrev pub no_rows : OrderDb
no_rows = record { orders = []; order_items = []; outbox_events = [] }

-- The items before NewOrder numbers them.
abbrev pub given_items : List OrderItem
given_items =
    record {
      id = "";
      order_id = "";
      product_id = "cup";
      product_name = "Cup";
      quantity = pos 1;
      unit_price = pos 1200;
    }
    ∷ record {
      id = "";
      order_id = "";
      product_id = "tea";
      product_name = "Tea";
      quantity = pos 3;
      unit_price = pos 500;
    }
    ∷ []

abbrev pub placed : Order
placed = record {
  id = "order-1";
  user_id = "user-1";
  status = "created";
  items =
      record {
        id = "item-1";
        order_id = "order-1";
        product_id = "cup";
        product_name = "Cup";
        quantity = pos 1;
        unit_price = pos 1200;
      }
      ∷ record {
        id = "item-2";
        order_id = "order-1";
        product_id = "tea";
        product_name = "Tea";
        quantity = pos 3;
        unit_price = pos 500;
      }
      ∷ [];
  total_amount = pos 2700;
  delivery_address = "Main street 1";
  created_at = 1000;
  updated_at = 1000;
}
