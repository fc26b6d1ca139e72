-- ===== src/AppErr/Pg.antt =====
-- platform/apperr/pgerr/pgerr.go: PostgreSQL errors as application errors.
pub mod Laws
use Prim.Native.String.{[] as no_chars, ◌∷◌ as cons_char}
use delivery_backend.Base.{String, Bool, ◌||◌, Option, none, some, ◌==◌, if◌then◌else◌}
use delivery_backend.Errors.{
  Err, nil, sentinel, foreign, wrapped, joined, pg_error, status_error, field, proto_invalid, app,
  to_err, as_app, as_pg, is_sentinel, context_canceled, context_deadline_exceeded, pgx_no_rows,
}
use delivery_backend.AppErr.Code.{
  code_canceled, code_deadline_exceeded, code_internal, code_invalid_argument, code_not_found,
  code_already_exists, code_unavailable,
}
use delivery_backend.AppErr.Value.{new, wrap}

-- SQLSTATEs that PostgreSQL documents, under the names of the package pgerrcode.
abbrev pub unique_violation : String
unique_violation = "23505"

abbrev pub exclusion_violation : String
exclusion_violation = "23P01"

abbrev pub query_canceled : String
query_canceled = "57014"

-- pg.Code[:2]; `none` where the code is shorter.
abbrev pub class : String → Option String
class String.[] = none
class (String.◌∷◌ a String.[]) = none
class (String.◌∷◌ a (String.◌∷◌ b s)) = some (String.◌∷◌ a (String.◌∷◌ b String.[]))

-- The two switches on a SQLSTATE, the length test before them included.
unfoldable pub code_of_sqlstate : String → String
code_of_sqlstate s = elim (class s) [
  | none ↦ code_internal
  | some c ↦
      if s == unique_violation || s == exclusion_violation
      then code_already_exists
      else if s == query_canceled
      then code_deadline_exceeded
      else if c == "22" || c == "23"
      then code_invalid_argument
      else if c == "08" || c == "40" || c == "53" || c == "55" || c == "57"
      then code_unavailable
      else code_internal
]

-- The code that `map` gives an error with no application error in it.
unfoldable pub code_of : Err → String
code_of err =
    if is_sentinel context_canceled err
    then code_canceled
    else if is_sentinel context_deadline_exceeded err
    then code_deadline_exceeded
    else if is_sentinel pgx_no_rows err
    then code_not_found
    else elim (as_pg err) [ none ↦ code_internal | some s ↦ code_of_sqlstate s ]

-- Map
unfoldable pub map : Err → Err
map nil = nil
map err = elim (as_app err) [ some e ↦ err | none ↦ to_err (wrap err (new (code_of err))) ]
