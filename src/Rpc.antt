-- ===== src/Rpc.antt =====
-- platform/grpc/interceptors: the unary interceptors of every gRPC server, and their chain.
pub mod Wire
pub mod Chain
use delivery_backend.Base.{String, Option, none, some, List, [], ◌∷◌, map, ◌==◌, if◌then◌else◌}
use delivery_backend.Errors.{
  Violation, FieldViolation, GrpcCode, ok, Detail, error_info, bad_request, Status, Err, nil,
  AppError, to_err, as_proto_invalid, Result, success, failure,
}
use delivery_backend.AppErr.Code.{Level, info, grpc, level, code_internal}
use delivery_backend.AppErr.Value.{new, wrap, public, from, validation_failed}
use delivery_backend.AppErr.Grpc.{GrpcStatus, domain}

abbrev pub from_violation : Violation → FieldViolation
from_violation v = record { field = v.field; description = v.message }

-- The details that the error interceptor attaches.
unfoldable pub details : AppError → List Detail
details e =
    error_info e.code domain (if e.reason == "" then [] else ("reason", e.reason) ∷ [])
    ∷ elim e.violations [ [] ↦ [] | v ∷ vs ↦ bad_request (map from_violation (v ∷ vs)) ∷ [] ]

-- The plain status, before the details.
unfoldable pub plain_status : AppError → Status
plain_status e = record { code = grpc e.code; message = public e; details = [] }

module _ (g : GrpcStatus) where
  unfoldable pub status_of : AppError → Status
  status_of e = elim (g.with_details (plain_status e) (details e)) [
    | some enriched ↦ enriched
    | none ↦ plain_status e
  ]

  -- Error. `from` returns no error only at nil, and a failure holds none.
  unfoldable pub error {ℓ} : {A : Type ℓ} → Result A → Result A
  error (success resp) = success resp
  error (failure err) = elim (from err) [
    | none ↦ failure nil
    | some e ↦ failure (g.err_of (status_of e))
  ]

-- What one call of Logger writes: the level, the message and the gRPC code. The method's name and
-- the time are left out.
pub record LogLine : Type 0 where
  pub severity : Level
  pub text : String
  pub code : GrpcCode

-- Logger: the handler's result, and the line.
unfoldable pub logger {ℓ} : {A : Type ℓ} → Result A → Result A × List LogLine
logger (success resp) =
    (success resp, record { severity = info; text = "grpc request handled"; code = ok } ∷ [])
logger (failure err) = elim (from err) [
  | none ↦ (failure err, [])
  | some e ↦ (
    failure err,
    record { severity = level e.code; text = "grpc request failed"; code = grpc e.code } ∷ [],
  )
]

-- Validation. `as_message` is the assertion `req.(proto.Message)`, `validate` the validator of
-- protovalidate, which returns nil at a valid message. A handler works on a state of its own.
module _ {ℓ κ μ ν} {Req : Type ℓ} {Msg : Type κ} {Resp : Type μ} {S : Type ν}
    (as_message : Req → Option Msg) (validate : Msg → Err)
    (handler : Req → S → Result Resp × S) where
  abbrev refuse : Err → Result Resp
  refuse err = failure (
      to_err (elim (as_proto_invalid err) [
        | some violations ↦ validation_failed violations
        | none ↦ wrap err (new code_internal)
      ]))

  abbrev check : Req → Err → S → Result Resp × S
  check req nil s = handler req s
  check req err s = (refuse err, s)

  unfoldable pub validation : Req → S → Result Resp × S
  validation req s = elim (as_message req) [
    | none ↦ handler req s
    | some msg ↦ check req (validate msg) s
  ]

  -- grpc.ChainUnaryInterceptor of Error, Logger and Validation, the first one outermost: what the
  -- client gets, the lines of the log, and the handler's state.
  unfoldable pub chain : GrpcStatus → Req → S → (Result Resp × List LogLine) × S
  chain g req s =
      let (answer, s') = validation req s in
      let (r, lines) = logger answer in ((error g r, lines), s')
