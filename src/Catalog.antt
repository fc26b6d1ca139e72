-- ===== src/Catalog.antt =====
-- services/product/internal (repository/pg, service, transport/grpc) and the order service's client
-- of it, services/order/internal/client/product.go.
--
-- The table is a list of rows; `refuses` says whether PostgreSQL refuses the query, `same` whether
-- two texts are one UUID to it, and `arrange` in which order it returns the rows. `stamp` is timestamppb.New and `as_time` is AsTime.
pub mod Laws
use delivery_backend.Base.{ℕ, String, Bool, true, false, ◌||◌, List, [], ◌∷◌, map, if◌then◌else◌}
use delivery_backend.Base.Int.{ℤ}
use delivery_backend.Errors.{Err, nil, Result, success, failure}
use delivery_backend.AppErr.Pg
use delivery_backend.AppErr.Grpc.{GrpcStatus, map_error}
use delivery_backend.Order.Domain

-- domain.Product of the product service; a row has the same columns.
pub record Product : Type 0 where
  pub id : String
  pub name : String
  pub price : ℤ
  pub created_at : ℕ
  pub updated_at : ℕ

pub record ProductRow : Type 0 where
  pub id : String
  pub name : String
  pub price : ℤ
  pub created_at : ℕ
  pub updated_at : ℕ

pub record ProtoProduct {ℓ} (Timestamp : Type ℓ) : Type ℓ where
  pub id : String
  pub name : String
  pub price : ℤ
  pub created_at : Timestamp
  pub updated_at : Timestamp

abbrev pub to_domain : ProductRow → Product
to_domain r = record {
  id = r.id;
  name = r.name;
  price = r.price;
  created_at = r.created_at;
  updated_at = r.updated_at;
}

module _ (same : String → String → Bool) where
  -- `id = ANY($1::uuid[])`
  abbrev pub any_id : String → List String → Bool
  any_id k [] = false
  any_id k (i ∷ is) = same k i || any_id k is

  abbrev pub select : List String → List ProductRow → List ProductRow
  select ids [] = []
  select ids (r ∷ rs) = if any_id r.id ids then r ∷ select ids rs else select ids rs

  module _ (refuses : List String → Err) (arrange : List ProductRow → List ProductRow)
      (table : List ProductRow) where
    abbrev read : Err → List String → Result (List Product)
    read nil ids = success (map to_domain (arrange (select ids table)))
    read err ids = failure (Pg.map err)

    -- ProductRepo.GetByIDs: no identifiers, no query. ProductService.GetProducts passes it on.
    unfoldable pub get_by_ids : List String → Result (List Product)
    get_by_ids [] = success []
    get_by_ids (i ∷ is) = read (refuses (i ∷ is)) (i ∷ is)

module _ {ℓ} {Timestamp : Type ℓ} where
  abbrev pub product_to_proto : (ℕ → Timestamp) → Product → ProtoProduct Timestamp
  product_to_proto stamp p = record {
    id = p.id;
    name = p.name;
    price = p.price;
    created_at = stamp p.created_at;
    updated_at = stamp p.updated_at;
  }

  abbrev pub proto_to_product : (Timestamp → ℕ) → ProtoProduct Timestamp → Domain.Product
  proto_to_product as_time p = record {
    id = p.id;
    name = p.name;
    price = p.price;
    created_at = as_time p.created_at;
    updated_at = as_time p.updated_at;
  }

  -- ProductRouter.GetProducts, around the use case `uc`.
  unfoldable pub handle_get_products :
      (ℕ → Timestamp)
      → (List String → Result (List Product))
      → List String
      → Result (List (ProtoProduct Timestamp))
  handle_get_products stamp uc ids = elim (uc ids) [
    | success ps ↦ success (map (product_to_proto stamp) ps)
    | failure err ↦ failure err
  ]

  -- ProductClient.GetProducts; `call` is the generated client.
  unfoldable pub get_products :
      (Timestamp → ℕ)
      → GrpcStatus
      → (List String → Result (List (ProtoProduct Timestamp)))
      → List String
      → Result (List Domain.Product)
  get_products as_time g call ids = elim (call ids) [
    | success ps ↦ success (map (proto_to_product as_time) ps)
    | failure err ↦ failure (map_error g err)
  ]
