-- ===== src/Rpc/Wire.antt =====
-- platform/grpc/interceptors/error.go and platform/apperr/grpcerr: an application error crosses a
-- gRPC call, from the server's interceptor to the client's Map.
use delivery_backend.Base.{
  String, ◌≡◌, ◌≢◌, refl, sym, ap, ◌∙◌, true, none, some, List, [], ◌∷◌, map, arith, ◌==◌, eq_iff,
  if◌then◌else◌, Option-cases, Bool-cases, inl, inr,
}
use delivery_backend.Errors.{Violation, ok, Status, Err, nil, sentinel, AppError, to_err, failure}
use delivery_backend.AppErr.Code.{codes, grpc, code_internal, code_from_grpc}
use delivery_backend.AppErr.Code.Laws.{elem, grpc-ne-ok, code_from_grpc-grpc}
use delivery_backend.AppErr.Value.{new, wrap, public, from}
use delivery_backend.AppErr.Grpc.{
  GrpcStatus, Scan, index, scan_detail, scan, build, map_err, map_error, to_violation,
}
use delivery_backend.Rpc.{from_violation, details, plain_status, status_of, error}

map_violations : (vs : List Violation) → map to_violation (map from_violation vs) ≡ vs
map_violations [] = refl
map_violations (v ∷ vs) = ap (λ t. v ∷ t) (map_violations vs)

-- The code that the client reads: the server's, unless that is empty.
abbrev pub wire_code : String → String
wire_code c = if c == "" then code_internal else c

-- What the client rebuilds from the error `e` when the error value `err` brings it over.
abbrev pub received : AppError → Err → AppError
received e err = record {
  code = wire_code e.code;
  reason = e.reason;
  message = public e;
  cause = err;
  violations = e.violations;
}

abbrev enriched : AppError → Status
enriched e = record (plain_status e) { details = details e }

index_reason : (r : String) → index (if r == "" then [] else ("reason", r) ∷ []) "reason" ≡ r
unfolding index
index_reason r = ground (arith, eq_iff r "")

-- An empty code goes over as `Internal`, and comes back as its code.
code_wire_code : (c : String) → (if c == "" then code_from_grpc (grpc c) else c) ≡ wire_code c
unfolding grpc code_from_grpc
code_wire_code c = elim (Bool-cases (c == "")) [
  | inl empty ↦ rw ((eq_iff c "").0 empty) refl
  | inr full ↦ rw full refl
]

-- What `build` makes of the loop's variables.
build_lem :
    (err : Err) (c m r : String) (vs : List Violation)
    → build err (record { code = c; msg = m; reason = r; violations = vs })
      ≡ record { code = c; reason = r; message = m; cause = err; violations = vs }
unfolding build
build_lem err c m r [] = ground (arith, eq_iff r "")
build_lem err c m r (v ∷ vs) = ground (arith, eq_iff r "")

abbrev start : String → Scan
start c = record { code = c; msg = ""; reason = ""; violations = [] }

-- The loop over the details that the server attached.
scan_details :
    (e : AppError) (vs : List Violation)
    → e.violations ≡ vs
    → scan (enriched e) (start (code_from_grpc (grpc e.code))) (details e)
      ≡ record { code = wire_code e.code; msg = public e; reason = e.reason; violations = vs }
unfolding scan scan_detail details plain_status
scan_details e [] h = rw h (simp (index_reason, code_wire_code))
scan_details e (v ∷ vs) h = rw h (simp (index_reason, code_wire_code, map_violations))

module _ (g : GrpcStatus) (e : AppError) where
  pub status_of-code : (status_of g e).code ≡ grpc e.code
  unfolding status_of plain_status
  status_of-code = elim (Option-cases (g.with_details (plain_status e) (details e))) [
    | inl failed ↦ rw (failed, status_of)
    | inr (t, done) ↦ rw (done, status_of) (rw (g.with_details_appends _ t _ done) refl)
  ]

  map_err-received :
      (err : Err) → g.from_error err ≡ some (enriched e) → map_err g err ≡ received e err
  unfolding map_err plain_status
  map_err-received err h =
      rw (h, map_err) (rw (scan_details e e.violations refl) (build_lem err _ _ _ _))

  enriched-status_of :
      (t : Status)
      → g.with_details (plain_status e) (details e) ≡ some t
      → status_of g e ≡ enriched e
  unfolding status_of plain_status
  enriched-status_of t h = rw (h, status_of) (g.with_details_appends _ t _ h)

  status_of-ne-ok : (status_of g e).code ≢ ok
  status_of-ne-ok p = grpc-ne-ok e.code (sym status_of-code ∙ p)

  sent : g.from_error (g.err_of (status_of g e)) ≡ some (status_of g e)
  sent = g.from_error-err_of (status_of g e) status_of-ne-ok

  map_err_bare :
      (err : Err)
      → g.from_error err ≡ some (plain_status e)
      → map_err g err ≡ record {
        code = code_from_grpc (grpc e.code);
        reason = "";
        message = "";
        cause = err;
        violations = [];
      }
  unfolding map_err plain_status build scan
  map_err_bare err h = rw (h, map_err) refl

  plain-status_of :
      g.with_details (plain_status e) (details e) ≡ none → status_of g e ≡ plain_status e
  unfolding status_of
  plain-status_of h = rw (h, status_of) refl

map_error-eq : (g : GrpcStatus) (err : Err) → err ≢ nil → map_error g err ≡ to_err (map_err g err)
unfolding map_error
map_error-eq g nil h = absurd (h refl)
map_error-eq g (sentinel s) h = refl
map_error-eq g _ h = refl

-- What the interceptor turns the handler's error into.
abbrev pub sent_error : GrpcStatus → AppError → Err
sent_error g e = g.err_of (status_of g e)

pub error-failure {ℓ} :
    {A : Type ℓ} (g : GrpcStatus) (err : Err) (e : AppError)
    → from err ≡ some e
    → error g {A = A} (failure err) ≡ failure (sent_error g e)
unfolding error
error-failure g err e h = rw (h, error) refl

-- If the details can be attached, the client of a call whose handler fails with `err` maps the
-- interceptor's error to an application error with the code (an empty one as `INTERNAL`), the
-- reason, the public message and the violations that `From` reads in `err`.
pub error_received :
    (g : GrpcStatus) (err : Err) (e : AppError) (t : Status)
    → from err ≡ some e
    → g.with_details (plain_status e) (details e) ≡ some t
    → (error g {A = String} (failure err) ≡ failure (sent_error g e))
      × (map_error g (sent_error g e) ≡ to_err (received e (sent_error g e)))
error_received g err e t h d = (
  error-failure g err e h,
  map_error-eq g _ (g.err_of-ne-nil _ (status_of-ne-ok g e))
      ∙ ap to_err (map_err-received g e _ (sent g e ∙ ap some (enriched-status_of g e t d))),
)

-- If the details cannot be attached, the client still has the code, where it is a listed one, but
-- no reason, message or violations.
pub error_received_bare :
    (g : GrpcStatus) (err : Err) (e : AppError)
    → from err ≡ some e
    → elem e.code codes ≡ true
    → g.with_details (plain_status e) (details e) ≡ none
    → (error g {A = String} (failure err) ≡ failure (sent_error g e))
      × (map_error g (sent_error g e) ≡ to_err (wrap (sent_error g e) (new e.code)))
error_received_bare g err e h known d = (
  error-failure g err e h,
  map_error-eq g _ (g.err_of-ne-nil _ (status_of-ne-ok g e))
      ∙ ap to_err (
          map_err_bare g e _ (sent g e ∙ ap some (plain-status_of g e d))
          ∙ ap (λ c. wrap (sent_error g e) (new c)) (code_from_grpc-grpc e.code known)),
)
