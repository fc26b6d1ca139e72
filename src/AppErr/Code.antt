-- ===== src/AppErr/Code.antt =====
-- platform/apperr/code.go: error codes and what they become outside.
--
-- A code is any string, as in the source: the 16 constants are listed in `codes`.
pub mod Laws
use delivery_backend.Base.{ℕ, String, ◌||◌, List, [], ◌∷◌, ◌==◌, if◌then◌else◌}
use delivery_backend.Errors.{
  GrpcCode, ok, canceled, unknown, invalid_argument, deadline_exceeded, not_found, already_exists,
  permission_denied, resource_exhausted, failed_precondition, aborted, out_of_range, unimplemented,
  internal, unavailable, data_loss, unauthenticated,
}

abbrev pub code_canceled : String
code_canceled = "CANCELED"

abbrev pub code_unknown : String
code_unknown = "UNKNOWN"

abbrev pub code_invalid_argument : String
code_invalid_argument = "INVALID_ARGUMENT"

abbrev pub code_deadline_exceeded : String
code_deadline_exceeded = "DEADLINE_EXCEEDED"

abbrev pub code_not_found : String
code_not_found = "NOT_FOUND"

abbrev pub code_already_exists : String
code_already_exists = "ALREADY_EXISTS"

abbrev pub code_permission_denied : String
code_permission_denied = "PERMISSION_DENIED"

abbrev pub code_resource_exhausted : String
code_resource_exhausted = "RESOURCE_EXHAUSTED"

abbrev pub code_failed_precondition : String
code_failed_precondition = "FAILED_PRECONDITION"

abbrev pub code_aborted : String
code_aborted = "ABORTED"

abbrev pub code_out_of_range : String
code_out_of_range = "OUT_OF_RANGE"

abbrev pub code_unimplemented : String
code_unimplemented = "UNIMPLEMENTED"

abbrev pub code_internal : String
code_internal = "INTERNAL"

abbrev pub code_unavailable : String
code_unavailable = "UNAVAILABLE"

abbrev pub code_data_loss : String
code_data_loss = "DATA_LOSS"

abbrev pub code_unauthenticated : String
code_unauthenticated = "UNAUTHENTICATED"

-- The constants of the source, in its order.
abbrev pub codes : List String
codes =
    code_canceled ∷ code_unknown ∷ code_invalid_argument ∷ code_deadline_exceeded ∷ code_not_found
    ∷ code_already_exists ∷ code_permission_denied ∷ code_resource_exhausted
    ∷ code_failed_precondition ∷ code_aborted ∷ code_out_of_range ∷ code_unimplemented
    ∷ code_internal ∷ code_unavailable ∷ code_data_loss ∷ code_unauthenticated ∷ []

-- slog.Level
pub data Level : Type 0 where
  debug info warn error : Level

unfoldable pub grpc : String → GrpcCode
grpc c =
    if c == code_canceled
    then canceled
    else if c == code_unknown
    then unknown
    else if c == code_invalid_argument
    then invalid_argument
    else if c == code_deadline_exceeded
    then deadline_exceeded
    else if c == code_not_found
    then not_found
    else if c == code_already_exists
    then already_exists
    else if c == code_permission_denied
    then permission_denied
    else if c == code_resource_exhausted
    then resource_exhausted
    else if c == code_failed_precondition
    then failed_precondition
    else if c == code_aborted
    then aborted
    else if c == code_out_of_range
    then out_of_range
    else if c == code_unimplemented
    then unimplemented
    else if c == code_unavailable
    then unavailable
    else if c == code_data_loss
    then data_loss
    else if c == code_unauthenticated
    then unauthenticated
    else internal

unfoldable pub http : String → ℕ
http c =
    if c == code_invalid_argument || c == code_failed_precondition || c == code_out_of_range
    then 400
    else if c == code_unauthenticated
    then 401
    else if c == code_permission_denied
    then 403
    else if c == code_not_found
    then 404
    else if c == code_already_exists || c == code_aborted
    then 409
    else if c == code_resource_exhausted
    then 429
    else if c == code_canceled
    then 499
    else if c == code_unimplemented
    then 501
    else if c == code_unavailable
    then 503
    else if c == code_deadline_exceeded
    then 504
    else 500

unfoldable pub level : String → Level
level c =
    if c == code_internal
      || c == code_unknown
      || c == code_data_loss
      || c == code_unavailable
      || c == code_deadline_exceeded
      || c == code_unimplemented
    then error
    else warn

unfoldable pub public_message : String → String
public_message c =
    if c == code_invalid_argument
    then "invalid argument"
    else if c == code_not_found
    then "not found"
    else if c == code_already_exists
    then "already exists"
    else if c == code_aborted
    then "aborted"
    else if c == code_canceled
    then "canceled"
    else if c == code_resource_exhausted
    then "resource exhausted"
    else if c == code_failed_precondition
    then "failed precondition"
    else if c == code_out_of_range
    then "out of range"
    else if c == code_unimplemented
    then "unimplemented"
    else if c == code_unauthenticated
    then "unauthenticated"
    else if c == code_permission_denied
    then "permission denied"
    else if c == code_deadline_exceeded
    then "deadline exceeded"
    else if c == code_unavailable
    then "unavailable"
    else "internal server error"

unfoldable pub code_from_grpc : GrpcCode → String
code_from_grpc ok = ""
code_from_grpc canceled = code_canceled
code_from_grpc unknown = code_unknown
code_from_grpc invalid_argument = code_invalid_argument
code_from_grpc deadline_exceeded = code_deadline_exceeded
code_from_grpc not_found = code_not_found
code_from_grpc already_exists = code_already_exists
code_from_grpc permission_denied = code_permission_denied
code_from_grpc resource_exhausted = code_resource_exhausted
code_from_grpc failed_precondition = code_failed_precondition
code_from_grpc aborted = code_aborted
code_from_grpc out_of_range = code_out_of_range
code_from_grpc unimplemented = code_unimplemented
code_from_grpc internal = code_internal
code_from_grpc unavailable = code_unavailable
code_from_grpc data_loss = code_data_loss
code_from_grpc unauthenticated = code_unauthenticated
code_from_grpc _ = code_internal
