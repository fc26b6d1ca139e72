-- ===== src/Account.antt =====
-- services/user/internal (domain, repository/pg, service, transport/grpc) and the order service's
-- client of it, services/order/internal/client/user.go.
--
-- A table is a list of rows; `refuses` says whether PostgreSQL refuses the query for an identifier,
-- as it does if it is no UUID, and `same` whether two texts are one UUID to PostgreSQL.
-- `stamp` is timestamppb.New and `as_time` is AsTime.
pub mod Laws
pub mod Users
pub mod Addresses
use delivery_backend.Base.{ℕ, String, Bool, List, [], ◌∷◌, if◌then◌else◌}
use delivery_backend.Errors.{Err, nil, sentinel, pgx_no_rows, Result, success, failure}
use delivery_backend.AppErr.Pg
use delivery_backend.AppErr.Grpc.{GrpcStatus, map_error}
use delivery_backend.Order.Domain

pub record User : Type 0 where
  pub id : String
  pub email : String
  pub first_name : String
  pub last_name : String
  pub created_at : ℕ
  pub updated_at : ℕ

pub record UserRow : Type 0 where
  pub id : String
  pub email : String
  pub first_name : String
  pub last_name : String
  pub created_at : ℕ
  pub updated_at : ℕ

pub record Address : Type 0 where
  pub id : String
  pub user_id : String
  pub address : String
  pub created_at : ℕ
  pub updated_at : ℕ

pub record AddressRow : Type 0 where
  pub id : String
  pub user_id : String
  pub address : String
  pub created_at : ℕ
  pub updated_at : ℕ

pub record ProtoUser {ℓ} (Timestamp : Type ℓ) : Type ℓ where
  pub id : String
  pub email : String
  pub first_name : String
  pub last_name : String
  pub created_at : Timestamp
  pub updated_at : Timestamp

pub record ProtoAddress {ℓ} (Timestamp : Type ℓ) : Type ℓ where
  pub id : String
  pub user_id : String
  pub address : String
  pub created_at : Timestamp
  pub updated_at : Timestamp

abbrev pub user_of_row : UserRow → User
user_of_row r = record {
  id = r.id;
  email = r.email;
  first_name = r.first_name;
  last_name = r.last_name;
  created_at = r.created_at;
  updated_at = r.updated_at;
}

abbrev pub address_of_row : AddressRow → Address
address_of_row r = record {
  id = r.id;
  user_id = r.user_id;
  address = r.address;
  created_at = r.created_at;
  updated_at = r.updated_at;
}

module _ (same : String → String → Bool) where
  -- `WHERE id = $1`
  abbrev pub users_by_id : String → List UserRow → List UserRow
  users_by_id id [] = []
  users_by_id id (r ∷ rs) = if same r.id id then r ∷ users_by_id id rs else users_by_id id rs

  abbrev pub addresses_by_id : String → List AddressRow → List AddressRow
  addresses_by_id id [] = []
  addresses_by_id id (r ∷ rs) =
      if same r.id id then r ∷ addresses_by_id id rs else addresses_by_id id rs

-- Query and pgx.CollectExactlyOneRow, with the errors mapped.
abbrev pub too_many_rows : String
too_many_rows = "too many rows in result set"

abbrev pub exactly_one {ℓ κ} : {R : Type ℓ} {D : Type κ} → (R → D) → List R → Result D
exactly_one to_domain [] = failure (Pg.map (sentinel pgx_no_rows))
exactly_one to_domain (r ∷ []) = success (to_domain r)
exactly_one to_domain (r ∷ (r' ∷ rs)) = failure (Pg.map (sentinel too_many_rows))

abbrev pub read {ℓ κ} : {R : Type ℓ} {D : Type κ} → (R → D) → Err → List R → Result D
read to_domain nil rows = exactly_one to_domain rows
read to_domain err rows = failure (Pg.map err)

-- GetByID of the two repositories. GetUser and GetAddress of the services pass it on.
module _ (same : String → String → Bool) where
  unfoldable pub get_user_by_id : (String → Err) → List UserRow → String → Result User
  get_user_by_id refuses table id = read user_of_row (refuses id) (users_by_id same id table)

  unfoldable pub get_address_by_id : (String → Err) → List AddressRow → String → Result Address
  get_address_by_id refuses table id =
      read address_of_row (refuses id) (addresses_by_id same id table)

module _ {ℓ} {Timestamp : Type ℓ} where
  abbrev pub user_to_proto : (ℕ → Timestamp) → User → ProtoUser Timestamp
  user_to_proto stamp u = record {
    id = u.id;
    email = u.email;
    first_name = u.first_name;
    last_name = u.last_name;
    created_at = stamp u.created_at;
    updated_at = stamp u.updated_at;
  }

  abbrev pub address_to_proto : (ℕ → Timestamp) → Address → ProtoAddress Timestamp
  address_to_proto stamp a = record {
    id = a.id;
    user_id = a.user_id;
    address = a.address;
    created_at = stamp a.created_at;
    updated_at = stamp a.updated_at;
  }

  abbrev pub proto_to_user : (Timestamp → ℕ) → ProtoUser Timestamp → Domain.User
  proto_to_user as_time p = record {
    id = p.id;
    email = p.email;
    first_name = p.first_name;
    last_name = p.last_name;
    created_at = as_time p.created_at;
    updated_at = as_time p.updated_at;
  }

  abbrev pub proto_to_address : (Timestamp → ℕ) → ProtoAddress Timestamp → Domain.Address
  proto_to_address as_time p = record {
    id = p.id;
    user_id = p.user_id;
    address = p.address;
    created_at = as_time p.created_at;
    updated_at = as_time p.updated_at;
  }

  -- UserRouter.GetUser, around the use case `uc`.
  unfoldable pub handle_get_user :
      (ℕ → Timestamp) → (String → Result User) → String → Result (ProtoUser Timestamp)
  handle_get_user stamp uc id = elim (uc id) [
    | success u ↦ success (user_to_proto stamp u)
    | failure err ↦ failure err
  ]

  -- AddressRouter.GetAddress, around the use case `uc`.
  unfoldable pub handle_get_address :
      (ℕ → Timestamp) → (String → Result Address) → String → Result (ProtoAddress Timestamp)
  handle_get_address stamp uc id = elim (uc id) [
    | success a ↦ success (address_to_proto stamp a)
    | failure err ↦ failure err
  ]

  -- UserClient.GetUser; `call` is the generated client.
  unfoldable pub get_user :
      (Timestamp → ℕ)
      → GrpcStatus
      → (String → Result (ProtoUser Timestamp))
      → String
      → Result Domain.User
  get_user as_time g call id = elim (call id) [
    | success p ↦ success (proto_to_user as_time p)
    | failure err ↦ failure (map_error g err)
  ]

  -- UserClient.GetAddress; `call` is the generated client.
  unfoldable pub get_address :
      (Timestamp → ℕ)
      → GrpcStatus
      → (String → Result (ProtoAddress Timestamp))
      → String
      → Result Domain.Address
  get_address as_time g call id = elim (call id) [
    | success p ↦ success (proto_to_address as_time p)
    | failure err ↦ failure (map_error g err)
  ]
