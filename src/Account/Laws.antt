-- ===== src/Account/Laws.antt =====
-- services/user/internal and services/order/internal/client/user.go: a missing row, on both
-- sides of the call.
use delivery_backend.Base.{◌≡◌, refl, Option-cases, inl, inr}
use delivery_backend.Errors.{
  sentinel, pgx_no_rows, AppError, to_err, as_app, is_sentinel, Result, success, failure,
}
use delivery_backend.AppErr.Code.{code_not_found}
use delivery_backend.AppErr.Value.{new, wrap}
use delivery_backend.AppErr.Value.Laws.{from-to_err}
use delivery_backend.AppErr.Grpc.{GrpcStatus, map_error}
use delivery_backend.AppErr.Pg
use delivery_backend.Rpc.{plain_status, details}
use delivery_backend.Rpc.Wire.{sent_error, error_received, error_received_bare}

unfoldable pub no_rows : AppError
no_rows = wrap (sentinel pgx_no_rows) (new code_not_found)

pub map-no_rows : Pg.map (sentinel pgx_no_rows) ≡ to_err no_rows
unfolding no_rows Pg.map Pg.code_of as_app is_sentinel
map-no_rows = refl

-- An application error with the code `NOT_FOUND`.
abbrev pub IsNotFound {ℓ} : {A : Type ℓ} → Result A → Type 0
IsNotFound (success a) = ⊥
IsNotFound (failure err) = (e : AppError) × (err ≡ to_err e) × (e.code ≡ code_not_found)

-- A missing row is `NOT_FOUND` on the other side of the call, whether the details of the status can be
-- attached or not.
pub not_found-received :
    (g : GrpcStatus)
    → (e : AppError) × (map_error g (sent_error g no_rows) ≡ to_err e) × (e.code ≡ code_not_found)
unfolding no_rows
not_found-received g =
    elim (Option-cases (g.with_details (plain_status no_rows) (details no_rows))) [
      | inl d ↦
          (_, (error_received_bare g (to_err no_rows) no_rows (from-to_err no_rows) refl d).1, refl)
      | inr p ↦
          (_, (error_received g (to_err no_rows) no_rows p.0 (from-to_err no_rows) p.1).1, refl)
    ]
