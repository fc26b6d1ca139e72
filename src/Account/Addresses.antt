-- ===== src/Account/Addresses.antt =====
-- services/user/internal and services/order/internal/client/user.go: what the order service sees of
-- the user service's tables.
use delivery_backend.Base.{Bool, ℕ, String, ◌≡◌, refl, sym, subst, ap, ◌∙◌, List, [], ◌∷◌}
use delivery_backend.Errors.{Err, nil, to_err, Result, success, failure}
use delivery_backend.AppErr.Value.Laws.{from-to_err}
use delivery_backend.AppErr.Grpc.{GrpcStatus, map_error}
use delivery_backend.Rpc.{error}
use delivery_backend.Rpc.Wire.{error-failure}
use delivery_backend.Order.Domain
use delivery_backend.Account.{
  Address, AddressRow, ProtoAddress, address_of_row, addresses_by_id, exactly_one,
  get_address_by_id, address_to_proto, proto_to_address, handle_get_address, get_address,
}
use delivery_backend.Account.Laws.{no_rows, map-no_rows, IsNotFound, not_found-received}

-- The order service's view of a row.
abbrev pub address_seen : AddressRow → Domain.Address
address_seen r = record {
  id = r.id;
  user_id = r.user_id;
  address = r.address;
  created_at = r.created_at;
  updated_at = r.updated_at;
}

module _ {ℓ} {Timestamp : Type ℓ} (stamp : ℕ → Timestamp) (as_time : Timestamp → ℕ)
    (same : String → String → Bool) (refuses : String → Err) (table : List AddressRow)
    (g : GrpcStatus) where
  abbrev pub serve_address : String → Result (ProtoAddress Timestamp)
  serve_address = handle_get_address stamp (get_address_by_id same refuses table)

  -- The order service's client over calls that pass the user service's error interceptor.
  abbrev pub fetch_address : String → Result Domain.Address
  fetch_address = get_address as_time g (λ id. error g (serve_address id))

  serve_address-read :
      (id : String) (rows : List AddressRow)
      → refuses id ≡ nil
      → addresses_by_id same id table ≡ rows
      → get_address_by_id same refuses table id ≡ exactly_one address_of_row rows
  unfolding get_address_by_id
  serve_address-read id rows h e = rw (h, e, get_address_by_id) refl

  abbrev to_wire_address : AddressRow → ProtoAddress Timestamp
  to_wire_address r = address_to_proto stamp (address_of_row r)

  serve_address-success :
      (id : String) (d : Address)
      → get_address_by_id same refuses table id ≡ success d
      → serve_address id ≡ success (address_to_proto stamp d)
  unfolding handle_get_address
  serve_address-success id d h = rw (h, handle_get_address) refl

  serve_address-failure :
      (id : String) (err : Err)
      → get_address_by_id same refuses table id ≡ failure err
      → serve_address id ≡ failure err
  unfolding handle_get_address
  serve_address-failure id err h = rw (h, handle_get_address) refl

  fetch_address-success :
      (id : String) (p : ProtoAddress Timestamp)
      → serve_address id ≡ success p
      → fetch_address id ≡ success (proto_to_address as_time p)
  unfolding get_address error
  fetch_address-success id p h = rw (h, get_address) refl

  fetch_address-failure :
      (id : String) (err : Err)
      → error g (serve_address id) ≡ failure err
      → fetch_address id ≡ failure (map_error g err)
  unfolding get_address
  fetch_address-failure id err h = rw (h, get_address) refl

  -- If exactly one row of the table has the identifier and the query is not refused, the order
  -- service gets that address; timestamps are assumed to carry times unchanged.
  pub address_received :
      (id : String) (r : AddressRow)
      → ((t : ℕ) → as_time (stamp t) ≡ t)
      → refuses id ≡ nil
      → addresses_by_id same id table ≡ r ∷ []
      → fetch_address id ≡ success (address_seen r)
  address_received id r times h e =
      fetch_address-success id (to_wire_address r)
        (serve_address-success id (address_of_row r) (serve_address-read id (r ∷ []) h e))
      ∙ rw (times r.created_at, times r.updated_at) refl

  -- If no row of the table has the identifier and the query is not refused, the order service gets
  -- an application error with the code `NOT_FOUND`, even if the details of the status are lost.
  pub address_missing :
      (id : String)
      → refuses id ≡ nil
      → addresses_by_id same id table ≡ []
      → IsNotFound (fetch_address id)
  address_missing id h e =
      let fails =
        serve_address-failure id (to_err no_rows)
          (serve_address-read id [] h e ∙ ap (λ err. failure err) map-no_rows) in
      subst IsNotFound
        (sym (
          fetch_address-failure id _
            (ap (error g) fails ∙ error-failure g (to_err no_rows) no_rows (from-to_err no_rows))))
        (not_found-received g)
