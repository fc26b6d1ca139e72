-- ===== src/Gateway/Middleware.antt =====
-- platform/http/middleware and platform/appctx, in the chain of services/gateway/internal/app.
--
-- A handler gets the request with the values of its context, and writes a response, writes nothing
-- or panics; one that panics has written nothing yet. Spans and the duration in a log line are left out; the text of
-- the value of a panic is part of the outcome.
pub mod Laws
pub mod Served
use Prim.Native.String.{◌++◌ as concat}
use delivery_backend.Base.{
  ℕ, leb, String, Bool, true, not, ◌&&◌, ◌||◌, Option, none, some, List, [], ◌∷◌, all, length,
  bytes, ◌==◌, if◌then◌else◌, eqb,
}
use delivery_backend.Errors.{Err, foreign, AppError, to_err}
use delivery_backend.AppErr.Code.{code_internal, Level, info, level}
use delivery_backend.AppErr.Value.{new, wrap, from}
use delivery_backend.Gateway.Http.{Request, Response, fail}

-- What a client sends: the method, the path, the values of X-Request-ID and X-User-Id, the body.
pub record Incoming : Type 0 where
  pub method : String
  pub path : String
  pub request_id_header : String
  pub user_id_header : String
  pub body : String

-- The request as it goes down the chain: what came in, and what the context has so far.
pub record Call : Type 0 where
  pub incoming : Incoming
  pub request_id : String
  pub user_id : String

pub data Outcome {ℓ} (A : Type ℓ) : Type ℓ where
  answered : A → Outcome A
  -- nothing is written; an error may be in the context's box
  silent : Option AppError → Outcome A
  panicked : String → Outcome A

abbrev pub request_of : Call → Request
request_of c = record { body = c.incoming.body; request_id = c.request_id; user_id = c.user_id }

-- isValidRequestID
abbrev pub max_request_id_len : ℕ
max_request_id_len = 128

abbrev pub is_alnum : ℕ → Bool
is_alnum b = (leb 97 b && leb b 122) || (leb 65 b && leb b 90) || (leb 48 b && leb b 57)

abbrev pub is_id_byte : ℕ → Bool
is_id_byte b = is_alnum b || eqb b 45 || eqb b 95

unfoldable pub is_valid_request_id : String → Bool
is_valid_request_id id =
    not (id == "") && leb (length (bytes id)) max_request_id_len && all is_id_byte (bytes id)

-- RequestID: the identifier for the rest of the chain, which is also the response's header.
abbrev pub choose_id : String → String → String
choose_id new_id id = if is_valid_request_id id then id else new_id

-- FakeAuth
abbrev pub choose_user : String → String → String
choose_user default_user_id user_id = if user_id == "" then default_user_id else user_id

-- A line of the access log: its level, text and attributes.
pub record AccessLine : Type 0 where
  pub level : Level
  pub message : String
  pub method : String
  pub path : String
  pub status_code : ℕ
  pub error : Option AppError

-- What the server writes for a request, and what it logs.
pub record Reply {ℓ} (A : Type ℓ) : Type ℓ where
  pub request_id_header : String
  pub response : Response A
  pub log : List AccessLine

abbrev pub nil_pointer : String
nil_pointer = "runtime error: invalid memory address or nil pointer dereference"

-- What Recover makes of the value of a panic.
abbrev pub panic_error : String → AppError
panic_error v = wrap (foreign (concat "panic: " v)) (new code_internal)

-- The lines of the access log; `written_status` is what Status of chi's writer says, which is 0 if
-- nothing was written.
abbrev pub handled : Call → ℕ → AccessLine
handled c written_status = record {
  level = info;
  message = "http request handled";
  method = c.incoming.method;
  path = c.incoming.path;
  status_code = written_status;
  error = none;
}

abbrev pub failed : Call → ℕ → AppError → AccessLine
failed c written_status e = record {
  level = level e.code;
  message = "http request failed";
  method = c.incoming.method;
  path = c.incoming.path;
  status_code = written_status;
  error = some e;
}

-- The line for a response: that of the error in the context's box, if there is one. `From` gives
-- it back, and would give nil only for nil.
abbrev pub line_of : Call → ℕ → Option AppError → Option AccessLine
line_of c written_status none = some (handled c written_status)
line_of c written_status (some boxed) = elim (from (to_err boxed)) [
  | none ↦ none
  | some e ↦ some (failed c written_status e)
]

module _ {ℓ} {A : Type ℓ} where
  unfoldable pub request_id :
      String → (Call → Outcome (Response A × List AccessLine)) → Call → Outcome (Reply A)
  request_id new_id next c =
      let id = choose_id new_id c.incoming.request_id_header in
      elim (next (record c { request_id = id })) [
        | panicked v ↦ panicked v
        | silent boxed ↦ silent boxed
        | answered (r, lines) ↦
            answered (record { request_id_header = id; response = r; log = lines })
      ]

  -- What net/http sends for a handler that wrote nothing: 200 with an empty body.
  abbrev pub implicit_ok : Option AppError → Response A
  implicit_ok boxed = record {
    status = 200;
    request_id = "";
    payload = none;
    error = none;
    boxed = boxed;
  }

  abbrev pub log_line : Call → ℕ → Response A → Outcome (Response A × List AccessLine)
  log_line c written_status r = elim (line_of c written_status r.boxed) [
    | none ↦ panicked nil_pointer
    | some line ↦ answered (r, line ∷ [])
  ]

  unfoldable pub logger :
      (Call → Outcome (Response A)) → Call → Outcome (Response A × List AccessLine)
  logger next c = elim (next c) [
    | panicked v ↦ panicked v
    | silent boxed ↦ log_line c 0 (implicit_ok boxed)
    | answered r ↦ log_line c r.status r
  ]

  -- A response that Fail cannot write: it reads a nil pointer.
  abbrev pub written : Option (Response A) → Outcome (Response A)
  written none = panicked nil_pointer
  written (some r) = answered r

  unfoldable pub recover : (Call → Outcome (Response A)) → Call → Outcome (Response A)
  recover next c = elim (next c) [
    | answered r ↦ answered r
    | silent boxed ↦ silent boxed
    | panicked v ↦ written (fail (request_of c) (to_err (panic_error v)))
  ]

  unfoldable pub fake_auth : String → (Call → Outcome (Response A)) → Call → Outcome (Response A)
  fake_auth default_user_id next c =
      next (record c { user_id = choose_user default_user_id c.incoming.user_id_header })

  -- The chain of the gateway, and a request before it.
  unfoldable pub serve :
      String → String → (Call → Outcome (Response A)) → Incoming → Outcome (Reply A)
  serve new_id default_user_id handler i =
      request_id new_id (logger (recover (fake_auth default_user_id handler)))
        (record { incoming = i; request_id = ""; user_id = "" })

  -- A handler of Gateway.Http in the chain.
  unfoldable pub handler_of : (Request → Option (Response A)) → Call → Outcome (Response A)
  handler_of h c = written (h (request_of c))
