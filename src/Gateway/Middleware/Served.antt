-- ===== src/Gateway/Middleware/Served.antt =====
-- platform/http/middleware in the chain of services/gateway/internal/app/app.go: what comes out.
use delivery_backend.Base.{
  ℕ, String, ◌≡◌, refl, ap, ◌∙◌, Option, Option-cases, inl, inr, none, some, [], ◌∷◌,
}
use delivery_backend.Errors.{Err, Result, Result-cases, success, failure}
use delivery_backend.AppErr.Code.{error, http, level, public_message}
use delivery_backend.AppErr.Value.{from, public}
use delivery_backend.Gateway.Client.{Order, CreateOrderInput}
use delivery_backend.Gateway.Http.{
  Request, Response, ResponseDto, CreateOrderRequestDto, fail, to_create_order_input, created,
  answer, handle_create_order, to_create_order_input,
}
use delivery_backend.Gateway.Middleware.{
  Incoming, Call, Outcome, answered, silent, panicked, request_of, choose_id, Reply, panic_error,
  written, serve, handler_of,
}
use delivery_backend.Gateway.Middleware.Laws.{
  IsValidId, choose_id-IsValidId, expected_line, inner_call, settled, status_of, serve-settled,
}

-- The call that reaches Recover, and the reply with a response.
abbrev outer_call : String → String → Incoming → Call
outer_call new_id user i = record (inner_call new_id user i) { user_id = "" }

abbrev answered_with {ℓ} : {A : Type ℓ} → String → Incoming → ℕ → Response A → Outcome (Reply A)
answered_with id i n r =
    answered (record { request_id_header = id; response = r; log = expected_line i n r.boxed ∷ [] })

-- What the client gets for an outcome of the handler other than a panic.
abbrev pub Sends {ℓ} : {A : Type ℓ} → Outcome (Response A) → Response A → Type ℓ
Sends (answered r) x = x ≡ r
Sends (silent boxed) x =
    x ≡ record { status = 200; request_id = ""; payload = none; error = none; boxed = boxed }
Sends (panicked v) x = Unit

-- The status in the line, where the response was `x`.
abbrev pub logged_status {ℓ} : {A : Type ℓ} → Outcome (Response A) → Response A → ℕ
logged_status (silent boxed) x = 0
logged_status o x = x.status

settled-Sends {ℓ} : {A : Type ℓ} (c : Call) (o : Outcome (Response A)) → Sends o (settled c o)
settled-Sends c (answered r) = refl
settled-Sends c (silent boxed) = refl
settled-Sends c (panicked v) = tt

status_of-logged {ℓ} :
    {A : Type ℓ} (c : Call) (o : Outcome (Response A)) → status_of o ≡ logged_status o (settled c o)
unfolding http
status_of-logged c (answered r) = refl
status_of-logged c (silent boxed) = refl
status_of-logged c (panicked v) = refl

module _ {ℓ} {A : Type ℓ} (new_id user : String) where
  -- Whatever the handler does, the gateway answers, where a handler that panics is assumed to have
  -- written nothing before. The X-Request-ID of the response is not empty, at most 128 bytes long
  -- and made of letters, digits, `-` and `_`, as the identifiers that the gateway makes are assumed
  -- to be. A handler that writes nothing gives 200 with no body, and another one that does not panic
  -- gives its own response. One line is logged, with the method, the path, the level and the error
  -- that belong to the error of the response, if any, and the status that was written, which is 0
  -- if the handler wrote nothing.
  pub serve_total :
      (handler : Call → Outcome (Response A)) (i : Incoming)
      → IsValidId new_id
      → (reply : Reply A) × (serve new_id user handler i ≡ answered reply)
        × IsValidId reply.request_id_header
        × Sends (handler (inner_call new_id user i)) reply.response
        × (reply.log
            ≡ expected_line i
                (logged_status (handler (inner_call new_id user i)) reply.response)
                reply.response.boxed
              ∷ [])
  serve_total handler i h = (
    _,
    serve-settled new_id user handler i,
    choose_id-IsValidId new_id i.request_id_header h,
    settled-Sends (outer_call new_id user i) (handler (inner_call new_id user i)),
    ap
        (λ n.
          expected_line i n
            (settled (outer_call new_id user i) (handler (inner_call new_id user i))).boxed
          ∷ [])
        (status_of-logged (outer_call new_id user i) (handler (inner_call new_id user i))),
  )

  -- If the handler panics, the client gets 500 with the body of an `INTERNAL` error without a
  -- reason, in which nothing of the panic shows; the log has the panic's text.
  pub serve_panicked :
      (handler : Call → Outcome (Response A)) (i : Incoming) (v : String)
      → handler (inner_call new_id user i) ≡ panicked v
      → let id = choose_id new_id i.request_id_header in
        serve new_id user handler i
        ≡ answered (record {
          request_id_header = id;
          response = record {
            status = 500;
            request_id = id;
            payload = none;
            error = some (record {
              code = "INTERNAL";
              reason = "";
              message = "internal server error";
              violations = [];
            });
            boxed = some (panic_error v);
          };
          log =
              record {
                level = error;
                message = "http request failed";
                method = i.method;
                path = i.path;
                status_code = 500;
                error = some (panic_error v);
              }
              ∷ [];
        })
  unfolding http public level public_message
  serve_panicked handler i v h =
      serve-settled new_id user handler i
      ∙ ap
          (λ o.
            answered_with (choose_id new_id i.request_id_header) i (status_of o)
              (settled (outer_call new_id user i) o))
          h

abbrev HasId : String → Option (Response ResponseDto) → Type 0
HasId id none = Unit
HasId id (some x) = x.request_id ≡ id

fail-HasId : (r : Request) (err : Err) → HasId r.request_id (fail r err)
unfolding fail
fail-HasId r err = elim (Option-cases (from err)) [
  | inl e ↦ rw (fail, e) tt
  | inr p ↦ rw (fail, p.1) refl
]

module _ (bind : Request → Result CreateOrderRequestDto)
    (uc : CreateOrderInput → Result Order) where
  answer-HasId : (r : Request) (o : Result Order) → HasId r.request_id (answer bind uc r o)
  unfolding created
  answer-HasId r (failure err) = fail-HasId r err
  answer-HasId r (success o) = refl

  bound-HasId : (r : Request) → HasId r.request_id (handle_create_order bind uc r)
  unfolding handle_create_order
  bound-HasId r = elim (Result-cases (bind r)) [
    | inl p ↦
        rw (handle_create_order, p.1) (answer-HasId r (uc (to_create_order_input r.user_id p.0)))
    | inr p ↦ rw (handle_create_order, p.1) (fail-HasId r p.0)
  ]

  settled-HasId :
      (c : Call) (o : Option (Response ResponseDto))
      → HasId c.request_id o
      → (settled c (written o)).request_id ≡ c.request_id
  settled-HasId c none h = refl
  settled-HasId c (some x) h = h

  -- Whether an order is made or not, the identifier in the body of the gateway's response is that
  -- of the response's X-Request-ID.
  pub serve_same_id :
      (new_id user : String) (i : Incoming)
      → (reply : Reply ResponseDto) × (serve new_id user
            (handler_of (handle_create_order bind uc))
            i
          ≡ answered reply)
        × (reply.response.request_id ≡ reply.request_id_header)
  unfolding handler_of
  serve_same_id new_id user i = (
    _,
    serve-settled new_id user (handler_of (handle_create_order bind uc)) i,
    settled-HasId (outer_call new_id user i) _
        (bound-HasId (request_of (inner_call new_id user i))),
  )
