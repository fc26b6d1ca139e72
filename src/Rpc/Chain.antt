-- ===== src/Rpc/Chain.antt =====
-- platform/grpc/interceptors: what the chain does around a handler.
use delivery_backend.Base.{◌≡◌, ◌≢◌, ◌∙◌, refl, Option, some, List, [], ◌∷◌, inl, inr, Option-cases}
use delivery_backend.Errors.{
  Err, AppError, Violation, Status, nil, to_err, as_proto_invalid, sentinel, Result, success,
  failure,
}
use delivery_backend.AppErr.Code.{level}
use delivery_backend.AppErr.Value.Laws.{chosen, from-chosen, from-to_err}
use delivery_backend.AppErr.Value.{validation_failed}
use delivery_backend.AppErr.Grpc.{GrpcStatus, map_error}
use delivery_backend.Rpc.{
  plain_status, details, status_of, logger, validation, chain, check, refuse,
}
use delivery_backend.Rpc.Wire.{received, error_received, sent_error, error-failure, status_of-code}

module _ {Req Msg Resp S : Type 0} (as_message : Req → Option Msg) (validate : Msg → Err)
    (handler : Req → S → Result Resp × S) where
  check-ne :
      (req : Req) (err : Err) (s : S)
      → err ≢ nil
      → check as_message validate handler req err s ≡ (refuse as_message validate handler err, s)
  check-ne req nil s n = absurd (n refl)
  check-ne req (sentinel t) s n = refl
  check-ne req _ s n = refl

  check-success :
      (req : Req) (resp : Resp) (err : Err) (s s' : S)
      → check as_message validate handler req err s ≡ (success resp, s')
      → (handler req s ≡ (success resp, s')) × (err ≡ nil)
  check-success req resp nil s s' h = (h, refl)
  check-success req resp (sentinel t) s s' h = absurd (cc h)
  check-success req resp _ s s' h = absurd (cc h)

  -- A request is answered only if it is no protobuf message or a valid one, and the handler
  -- answers it.
  pub validation-success :
      (req : Req) (resp : Resp) (s s' : S)
      → validation as_message validate handler req s ≡ (success resp, s')
      → (handler req s ≡ (success resp, s'))
        × ((msg : Msg) → as_message req ≡ some msg → validate msg ≡ nil)
  unfolding validation
  validation-success req resp s s' h = elim (Option-cases (as_message req)) [
    | inl e ↦ (rw (e, validation) at h, λ msg m. absurd (cc))
    | inr (msg, e) ↦
        let checked = check-success req resp (validate msg) s s' (rw (e, validation) at h) in
        (checked.0, λ m same. cc (e, checked.1))
  ]

  refused :
      (req : Req) (msg : Msg) (vs : List Violation) (s : S)
      → as_message req ≡ some msg
      → validate msg ≢ nil
      → as_proto_invalid (validate msg) ≡ some vs
      → validation as_message validate handler req s ≡ (failure (to_err (validation_failed vs)), s)
  unfolding validation
  refused req msg vs s h n e = rw (h, validation) (check-ne req (validate msg) s n ∙ rw e refl)

  -- If the call fails, the client gets the interceptor's status, and the one log line has the
  -- level of the error's code and the gRPC code of that very status.
  pub chain-failure :
      (g : GrpcStatus) (req : Req) (s s' : S) (err : Err)
      → validation as_message validate handler req s ≡ (failure err, s')
      → err ≢ nil
      → chain as_message validate handler g req s ≡ (
        (
          failure (sent_error g (chosen err)),
          record {
            severity = level (chosen err).code;
            text = "grpc request failed";
            code = (status_of g (chosen err)).code;
          }
              ∷ [],
        ),
        s',
      )
  unfolding chain logger
  chain-failure g req s s' err h n =
      rw (h, chain)
        (rw (from-chosen err n, logger)
          (rw (error-failure g err (chosen err) (from-chosen err n), status_of-code g (chosen err))
            refl))

  -- A message that the validator refuses with violations never reaches the handler: its state stays
  -- as it is, and the client's Map gives an application error with the code `INVALID_ARGUMENT`, the
  -- reason `VALIDATION_FAILED` and these violations, where the details of the status can be attached.
  pub invalid_refused :
      (g : GrpcStatus) (req : Req) (msg : Msg) (vs : List Violation) (t : Status) (s : S)
      → as_message req ≡ some msg
      → validate msg ≢ nil
      → as_proto_invalid (validate msg) ≡ some vs
      → g.with_details (plain_status (validation_failed vs)) (details (validation_failed vs))
        ≡ some t
      → ((chain as_message validate handler g req s).1 ≡ s)
        × ((err : Err) × (e : AppError) × ((chain as_message validate handler g req s).0.0
              ≡ failure err)
            × (map_error g err ≡ to_err e)
            × (e.code ≡ "INVALID_ARGUMENT")
            × (e.reason ≡ "VALIDATION_FAILED")
            × (e.violations ≡ vs))
  unfolding chain logger
  invalid_refused g req msg vs t s h n e d =
      let invalid = validation_failed vs in
      let known = from-to_err invalid in
      rw (refused req msg vs s h n e, chain)
        (rw (known, logger)
          (rw (error-failure g (to_err invalid) invalid known) (
            refl,
            (
              sent_error g invalid,
              received invalid (sent_error g invalid),
              refl,
              (error_received g (to_err invalid) invalid t known d).1,
              refl,
              refl,
              refl,
            ),
          )))
