-- ===== src/Errors.antt =====
-- Go error values and the functions of the standard package `errors` that the program calls.
--
-- A chain of errors is one tree. `nil` is the nil interface value. `joined e rest` and
-- `field k e rest` are lists of errors that end in `nil`: the argument list of errors.Join, and
-- the map validation.Errors of ozzo-validation. An error of another package that the program only
-- passes on is `foreign`, with its text.

use delivery_backend.Base.{
  String, ℕ, Bool, false, ◌≡◌, refl, ◌⊎◌, inl, inr, ◌||◌, Option, none, some, List, ◌==◌,
}

-- apperr.Violation
pub record Violation : Type 0 where
  pub field : String
  pub message : String

-- errdetails.BadRequest_FieldViolation
pub record FieldViolation : Type 0 where
  pub field : String
  pub description : String

-- codes.Code of grpc-go: the 17 listed codes, and any other number.
pub data GrpcCode : Type 0 where
  ok canceled unknown invalid_argument deadline_exceeded not_found already_exists permission_denied
        resource_exhausted failed_precondition aborted out_of_range unimplemented internal
        unavailable data_loss unauthenticated :
      GrpcCode
  unlisted : ℕ → GrpcCode

-- The error details that the program reads from a gRPC status, and any other.
pub data Detail : Type 0 where
  error_info : (reason domain : String) → (metadata : List (String × String)) → Detail
  bad_request : List FieldViolation → Detail
  other_detail : String → Detail

-- google.rpc.Status
pub record Status : Type 0 where
  pub code : GrpcCode
  pub message : String
  pub details : List Detail

pub data Err : Type 0 where
  nil : Err
  -- a package-level errors.New value, known by its text
  sentinel : String → Err
  foreign : String → Err
  -- fmt.Errorf with one %w: the text before it, the wrapped error, the text after it
  wrapped : String → Err → String → Err
  joined : Err → Err → Err
  -- *pgconn.PgError with its SQLSTATE
  pg_error : String → Err
  -- the error of a *status.Status
  status_error : Status → Err
  -- validation.Errors, one field at a time
  field : String → Err → Err → Err
  -- *protovalidate.ValidationError
  proto_invalid : List Violation → Err
  -- *apperr.Error: code, reason, message, cause, violations
  app : String → String → String → Err → List Violation → Err

-- apperr.Error
pub record AppError : Type 0 where
  pub code : String
  pub reason : String
  pub message : String
  pub cause : Err
  pub violations : List Violation

-- The struct as an error value.
abbrev pub to_err : AppError → Err
to_err e = app e.code e.reason e.message e.cause e.violations

module _ {ℓ} {A : Type ℓ} where
  abbrev pub first_some : Option A → Option A → Option A
  first_some none b = b
  first_some (some a) b = some a

-- errors.As into *apperr.Error: the first one of the tree.
unfoldable pub as_app : Err → Option AppError
as_app (app c r m e v) =
    some (record { code = c; reason = r; message = m; cause = e; violations = v })
as_app (wrapped a e b) = as_app e
as_app (joined e es) = first_some (as_app e) (as_app es)
as_app _ = none

-- errors.As into *pgconn.PgError: the SQLSTATE of the first one.
unfoldable pub as_pg : Err → Option String
as_pg (pg_error s) = some s
as_pg (wrapped a e b) = as_pg e
as_pg (joined e es) = first_some (as_pg e) (as_pg es)
as_pg (app c r m e v) = as_pg e
as_pg _ = none

-- errors.As into *protovalidate.ValidationError.
unfoldable pub as_proto_invalid : Err → Option (List Violation)
as_proto_invalid (proto_invalid v) = some v
as_proto_invalid (wrapped a e b) = as_proto_invalid e
as_proto_invalid (joined e es) = first_some (as_proto_invalid e) (as_proto_invalid es)
as_proto_invalid (app c r m e v) = as_proto_invalid e
as_proto_invalid _ = none

-- errors.Is with a target that has no `Is` method of its own, such as context.Canceled.
unfoldable pub is_sentinel : String → Err → Bool
is_sentinel t (sentinel s) = s == t
is_sentinel t (wrapped a e b) = is_sentinel t e
is_sentinel t (joined e es) = is_sentinel t e || is_sentinel t es
is_sentinel t (app c r m e v) = is_sentinel t e
is_sentinel t _ = false

-- errors.Join: nil arguments are left out, and no error is left from nil arguments only.
unfoldable pub join : Err → Err → Err
join nil rest = rest
join e rest = joined e rest

-- What a function that returns `(A, error)` returns: a value, or an error that is not nil.
pub data Result {ℓ} (A : Type ℓ) : Type ℓ where
  success : A → Result A
  failure : Err → Result A

pub success_injective {ℓ} : {A : Type ℓ} {a b : A} → success a ≡ success b → a ≡ b
success_injective h = cc

pub Result-cases {ℓ} :
    {A : Type ℓ} (r : Result A) → ((a : A) × (r ≡ success a)) ⊎ ((e : Err) × (r ≡ failure e))
Result-cases (success a) = inl (a, refl)
Result-cases (failure e) = inr (e, refl)

infixl 5 ◌>>=◌
abbrev pub ◌>>=◌ {ℓ κ} : {A : Type ℓ} {B : Type κ} → Result A → (A → Result B) → Result B
success a >>= f = f a
failure e >>= f = failure e

-- The sentinels of other packages that the program compares with.
abbrev pub context_canceled : String
context_canceled = "context canceled"

abbrev pub context_deadline_exceeded : String
context_deadline_exceeded = "context deadline exceeded"

abbrev pub pgx_no_rows : String
pgx_no_rows = "no rows in result set"
