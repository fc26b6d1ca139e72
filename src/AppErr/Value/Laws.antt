-- ===== src/AppErr/Value/Laws.antt =====
-- platform/apperr/error.go: what `From` and the wrappers keep of an error.
use delivery_backend.Base.{
  String, ◌≡◌, ◌≢◌, refl, inl, inr, none, some, arith, if◌then◌else◌, Option-cases,
}
use delivery_backend.Errors.{
  Err, nil, sentinel, AppError, to_err, as_app, is_sentinel, context_canceled,
  context_deadline_exceeded,
}
use delivery_backend.AppErr.Code.{code_canceled, code_deadline_exceeded, code_internal}
use delivery_backend.AppErr.Value.{from, wrap, new}

-- The code that `From` chooses where there is no application error.
abbrev pub fallback_code : Err → String
fallback_code err =
    if is_sentinel context_canceled err
    then code_canceled
    else if is_sentinel context_deadline_exceeded err
    then code_deadline_exceeded
    else code_internal

as_app-nil : as_app nil ≡ none
unfolding as_app
as_app-nil = refl

pub from_found : (err : Err) (e : AppError) → as_app err ≡ some e → from err ≡ some e
unfolding from
from_found nil e h = cc (as_app-nil)
from_found (sentinel s) e h = rw (h, from) refl
from_found _ e h = rw (h, from) refl

pub from_missing :
    (err : Err)
    → err ≢ nil
    → as_app err ≡ none
    → from err ≡ some (wrap err (new (fallback_code err)))
unfolding from
from_missing nil n h = absurd (n refl)
from_missing (sentinel s) n h = rw (h, from) (ground arith)
from_missing _ n h = rw (h, from) (ground arith)

-- The error that `From` returns where `err` is not nil.
abbrev pub chosen : Err → AppError
chosen err = elim (as_app err) [ none ↦ wrap err (new (fallback_code err)) | some e ↦ e ]

-- `From` at an error that is not nil returns the first application error in it, or else a new one
-- around it, with the code of the context's error or `INTERNAL`.
pub from-chosen : (err : Err) → err ≢ nil → from err ≡ some (chosen err)
from-chosen err n = elim (Option-cases (as_app err)) [
  | inl e ↦ rw (e, chosen) (from_missing err n e)
  | inr (a, e) ↦ rw (e, chosen) (from_found err a e)
]

-- `From` gives an application error back as it is.
pub from-to_err : (e : AppError) → from (to_err e) ≡ some e
unfolding as_app
from-to_err e = from_found (to_err e) e refl
