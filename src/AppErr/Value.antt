-- ===== src/AppErr/Value.antt =====
-- platform/apperr/error.go, constructors.go and reason.go: the application error.
--
-- A method that changes its receiver and returns it is a function that returns the changed error:
-- the program calls these on an error that it has just made.
pub mod Laws
use Prim.Native.String.{◌++◌ as concat}
use delivery_backend.Base.{
  String, Bool, true, false, ◌&&◌, ◌||◌, Option, none, some, List, [], ◌∷◌, ◌++◌, ◌==◌,
  if◌then◌else◌,
}
use delivery_backend.Errors.{
  Violation, Err, nil, sentinel, foreign, wrapped, joined, pg_error, status_error, field,
  proto_invalid, app, AppError, to_err, as_app, is_sentinel, context_canceled,
  context_deadline_exceeded,
}
use delivery_backend.AppErr.Code.{
  code_canceled, code_deadline_exceeded, code_internal, code_invalid_argument, code_not_found,
  code_already_exists, code_unavailable, code_unauthenticated, public_message,
}

abbrev pub reason_invalid_request_body : String
reason_invalid_request_body = "INVALID_REQUEST_BODY"

abbrev pub reason_validation_failed : String
reason_validation_failed = "VALIDATION_FAILED"

abbrev pub reason_invalid_credentials : String
reason_invalid_credentials = "INVALID_CREDENTIALS"

-- New
abbrev pub new : String → AppError
new c = record { code = c; reason = ""; message = ""; cause = nil; violations = [] }

abbrev pub with_reason : String → AppError → AppError
with_reason r e = record e { reason = r }

abbrev pub with_message : String → AppError → AppError
with_message m e = record e { message = m }

abbrev pub wrap : Err → AppError → AppError
wrap cause e = record e { cause = cause }

abbrev pub with_violations : List Violation → AppError → AppError
with_violations v e = record e { violations = e.violations ++ v }

abbrev pub invalid_request_body : AppError
invalid_request_body =
    with_message "invalid request body"
      (with_reason reason_invalid_request_body (new code_invalid_argument))

abbrev pub invalid_credentials : AppError
invalid_credentials =
    with_message "invalid credentials"
      (with_reason reason_invalid_credentials (new code_unauthenticated))

abbrev pub validation_failed : List Violation → AppError
validation_failed v = with_violations v (
    with_message "validation failed"
      (with_reason reason_validation_failed (new code_invalid_argument)))

-- Error.Public: the message that a client sees.
unfoldable pub public : AppError → String
public e = if e.message == "" then public_message e.code else e.message

-- The text of an error. `text` renders the errors of other packages.
module _ (text : Err → String) where
  unfoldable pub error_text : Err → String
  error_text (sentinel s) = s
  error_text (foreign s) = s
  error_text (wrapped a e b) = concat a (concat (error_text e) b)
  error_text (joined e nil) = error_text e
  error_text (joined e es) = concat (error_text e) (concat "\n" (error_text es))
  error_text (app c r m nil v) = if m == "" then public_message c else m
  error_text (app c r m e v) =
      concat (if m == "" then public_message c else m) (concat ": " (error_text e))
  error_text e = text e

-- Error.Is, against a target whose first application error is `t`.
unfoldable pub app_is : AppError → Option AppError → Bool
app_is e none = false
app_is e (some t) = t.code == e.code

-- errors.Is against an application error, such as ErrNotFound: the target itself has its own
-- code, so the comparison of pointers adds nothing to `app_is`.
unfoldable pub is_app : AppError → Err → Bool
unfolding app_is
is_app t (app c r m e v) =
    app_is (record { code = c; reason = r; message = m; cause = e; violations = v }) (some t)
    || is_app t e
is_app t (wrapped a e b) = is_app t e
is_app t (joined e es) = is_app t e || is_app t es
is_app t _ = false

-- From, at an error that is not nil; `none` is the nil pointer that it returns at nil.
unfoldable pub from : Err → Option AppError
from nil = none
from err = elim (as_app err) [
  | some e ↦ some e
  | none ↦
      if is_sentinel context_canceled err
      then some (wrap err (new code_canceled))
      else if is_sentinel context_deadline_exceeded err
      then some (wrap err (new code_deadline_exceeded))
      else some (wrap err (new code_internal))
]

-- An attribute of Error.LogValue.
pub data LogAttr : Type 0 where
  text_attr : String → String → LogAttr
  violations_attr : List Violation → LogAttr

module _ (text : Err → String) where
  unfoldable pub log_value : AppError → List LogAttr
  unfolding public
  log_value e =
      text_attr "code" e.code
        ∷ text_attr "public_message" (public e)
        ∷ (if e.reason == "" then [] else text_attr "reason" e.reason ∷ [])
      ++ elim e.cause [ nil ↦ [] | c ↦ text_attr "cause" (error_text text c) ∷ [] ]
      ++ elim e.violations [ [] ↦ [] | v ∷ vs ↦ violations_attr (v ∷ vs) ∷ [] ]
