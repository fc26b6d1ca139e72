-- ===== src/Account/Users.antt =====
-- services/user/internal and services/order/internal/client/user.go: what the order service sees of
-- the user service's tables.
use delivery_backend.Base.{
  Bool, false, All, ℕ, String, ◌≡◌, refl, sym, subst, ap, ◌∙◌, List, [], ◌∷◌,
}
use delivery_backend.Errors.{Err, nil, to_err, Result, success, failure}
use delivery_backend.AppErr.Value.Laws.{from-to_err}
use delivery_backend.AppErr.Grpc.{GrpcStatus, map_error}
use delivery_backend.Rpc.{error}
use delivery_backend.Rpc.Wire.{error-failure}
use delivery_backend.Order.Domain
use delivery_backend.Account.{
  User, UserRow, ProtoUser, user_of_row, users_by_id, exactly_one, get_user_by_id, user_to_proto,
  proto_to_user, handle_get_user, get_user,
}
use delivery_backend.Account.Laws.{no_rows, map-no_rows, IsNotFound, not_found-received}

-- The order service's view of a row.
abbrev pub user_seen : UserRow → Domain.User
user_seen r = record {
  id = r.id;
  email = r.email;
  first_name = r.first_name;
  last_name = r.last_name;
  created_at = r.created_at;
  updated_at = r.updated_at;
}

module _ {ℓ} {Timestamp : Type ℓ} (stamp : ℕ → Timestamp) (as_time : Timestamp → ℕ)
    (same : String → String → Bool) (refuses : String → Err) (table : List UserRow)
    (g : GrpcStatus) where
  abbrev pub serve_user : String → Result (ProtoUser Timestamp)
  serve_user = handle_get_user stamp (get_user_by_id same refuses table)

  -- The order service's client over calls that pass the user service's error interceptor.
  abbrev pub fetch_user : String → Result Domain.User
  fetch_user = get_user as_time g (λ id. error g (serve_user id))

  serve_user-read :
      (id : String) (rows : List UserRow)
      → refuses id ≡ nil
      → users_by_id same id table ≡ rows
      → get_user_by_id same refuses table id ≡ exactly_one user_of_row rows
  unfolding get_user_by_id
  serve_user-read id rows h e = rw (h, e, get_user_by_id) refl

  abbrev to_wire_user : UserRow → ProtoUser Timestamp
  to_wire_user r = user_to_proto stamp (user_of_row r)

  serve_user-success :
      (id : String) (d : User)
      → get_user_by_id same refuses table id ≡ success d
      → serve_user id ≡ success (user_to_proto stamp d)
  unfolding handle_get_user
  serve_user-success id d h = rw (h, handle_get_user) refl

  serve_user-failure :
      (id : String) (err : Err)
      → get_user_by_id same refuses table id ≡ failure err
      → serve_user id ≡ failure err
  unfolding handle_get_user
  serve_user-failure id err h = rw (h, handle_get_user) refl

  fetch_user-success :
      (id : String) (p : ProtoUser Timestamp)
      → serve_user id ≡ success p
      → fetch_user id ≡ success (proto_to_user as_time p)
  unfolding get_user error
  fetch_user-success id p h = rw (h, get_user) refl

  fetch_user-failure :
      (id : String) (err : Err)
      → error g (serve_user id) ≡ failure err
      → fetch_user id ≡ failure (map_error g err)
  unfolding get_user
  fetch_user-failure id err h = rw (h, get_user) refl

  -- If exactly one row of the table has the identifier and the query is not refused, the order
  -- service gets that user; timestamps are assumed to carry times unchanged.
  pub user_received :
      (id : String) (r : UserRow)
      → ((t : ℕ) → as_time (stamp t) ≡ t)
      → refuses id ≡ nil
      → users_by_id same id table ≡ r ∷ []
      → fetch_user id ≡ success (user_seen r)
  user_received id r times h e =
      fetch_user-success id (to_wire_user r)
        (serve_user-success id (user_of_row r) (serve_user-read id (r ∷ []) h e))
      ∙ rw (times r.created_at, times r.updated_at) refl

  none_by_id :
      (id : String) (rows : List UserRow)
      → All (λ r. same r.id id ≡ false) rows
      → users_by_id same id rows ≡ []
  none_by_id id [] h = refl
  none_by_id id (r ∷ rows) h = rw h.0 (none_by_id id rows h.1)

  -- If to PostgreSQL the identifier is that of no row of the table, and the query is not refused, the
  -- order service gets an application error with the code `NOT_FOUND`, even if the details of the
  -- status are lost.
  pub user_missing :
      (id : String)
      → refuses id ≡ nil
      → All (λ r. same r.id id ≡ false) table
      → IsNotFound (fetch_user id)
  user_missing id h none_same =
      let fails = serve_user-failure id (to_err no_rows) (
        serve_user-read id [] h (none_by_id id table none_same)
        ∙ ap (λ err. failure err) map-no_rows) in
      subst IsNotFound
        (sym (
          fetch_user-failure id _
            (ap (error g) fails ∙ error-failure g (to_err no_rows) no_rows (from-to_err no_rows))))
        (not_found-received g)
