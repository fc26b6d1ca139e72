-- ===== src/AppErr/Grpc.antt =====
-- platform/apperr/grpcerr/grpcerr.go: gRPC statuses as application errors, on the client's side.
use delivery_backend.Base.{
  String, ◌≡◌, ◌≢◌, Option, none, some, List, [], ◌∷◌, ◌++◌, map, ◌==◌, if◌then◌else◌,
}
use delivery_backend.Errors.{
  Violation, FieldViolation, ok, Detail, error_info, bad_request, other_detail, Status, Err, nil,
  AppError, to_err,
}
use delivery_backend.AppErr.Code.{code_internal, code_from_grpc}
use delivery_backend.AppErr.Value.{new, wrap, with_message, with_reason, with_violations}

abbrev pub domain : String
domain = "apperr"

-- What the program uses of the package `status` of grpc-go: FromError, Status.WithDetails and
-- Status.Err. An error status survives the way through an error value, and details are appended.
pub record GrpcStatus : Type 0 where
  pub from_error : Err → Option Status
  pub with_details : Status → List Detail → Option Status
  pub err_of : Status → Err
  pub from_error-err_of : (s : Status) → s.code ≢ ok → from_error (err_of s) ≡ some s
  pub err_of-ne-nil : (s : Status) → s.code ≢ ok → err_of s ≢ nil
  pub with_details_appends :
      (s t : Status) (ds : List Detail)
      → with_details s ds ≡ some t
      → t ≡ record s { details = s.details ++ ds }

-- m[k] of a map of strings: the empty string where the key is missing.
unfoldable pub index : List (String × String) → String → String
index [] k = ""
index ((j, v) ∷ m) k = if j == k then v else index m k

abbrev pub to_violation : FieldViolation → Violation
to_violation f = record { field = f.field; message = f.description }

-- The variables of the loop over the details.
pub record Scan : Type 0 where
  pub code : String
  pub msg : String
  pub reason : String
  pub violations : List Violation

unfoldable pub scan_detail : Status → Scan → Detail → Scan
unfolding index
scan_detail st acc (error_info r d md) =
    if d == domain
    then record acc {
      msg = st.message;
      code = if r == "" then acc.code else r;
      reason = index md "reason";
    }
    else acc
scan_detail st acc (bad_request fvs) = record acc {
  violations = acc.violations ++ map to_violation fvs;
}
scan_detail st acc (other_detail s) = acc

unfoldable pub scan : Status → Scan → List Detail → Scan
scan st acc [] = acc
scan st acc (d ∷ ds) = scan st (scan_detail st acc d) ds

-- The error that the end of Map builds.
unfoldable pub build : Err → Scan → AppError
build err s =
    let out : AppError = wrap err (with_message s.msg (new s.code)) in
    let out' : AppError = if s.reason == "" then out else with_reason s.reason out in
    elim s.violations [ [] ↦ out' | v ∷ vs ↦ with_violations (v ∷ vs) out' ]

module _ (g : GrpcStatus) where
  -- Map at an error that is not nil.
  unfoldable pub map_err : Err → AppError
  map_err err = elim (g.from_error err) [
    | none ↦ wrap err (new code_internal)
    | some st ↦ build err (
        scan st (record { code = code_from_grpc st.code; msg = ""; reason = ""; violations = [] })
          st.details)
  ]

  -- Map
  unfoldable pub map_error : Err → Err
  map_error nil = nil
  map_error err = to_err (map_err err)
