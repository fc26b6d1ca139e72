-- ===== src/AppErr/Ozzo.antt =====
-- platform/apperr/ozzoerr/ozzoerr.go: errors of ozzo-validation as violations.
--
-- `precedes` is the order of sort.Strings, and `text` what Error() of an error says. The nil after
-- the last entry of a map is its end. A map with an entry that is nil itself, on which Flatten
-- panics, is left out: the validators of ozzo-validation put only errors into a map.
pub mod Laws
use Prim.Native.String.{◌++◌ as concat}
use delivery_backend.Base.{
  String, Bool, true, false, ◌||◌, List, [], ◌∷◌, ◌++◌, ◌==◌, if◌then◌else◌,
}
use delivery_backend.Errors.{Violation, Err, nil, wrapped, joined, field, app, to_err}
use delivery_backend.AppErr.Value.{validation_failed}

-- Whether errors.As finds a validation.Errors.
unfoldable pub has_fields : Err → Bool
has_fields (field k e rest) = true
has_fields (wrapped a e b) = has_fields e
has_fields (joined e es) = has_fields e || has_fields es
has_fields (app c r m e v) = has_fields e
has_fields _ = false

-- A key of the map with the violations below it.
pub record Group : Type 0 where
  pub key : String
  pub violations : List Violation

abbrev pub ungroup : List Group → List Violation
ungroup [] = []
ungroup (g ∷ gs) = g.violations ++ ungroup gs

module _ (precedes : String → String → Bool) where
  abbrev pub insert : Group → List Group → List Group
  insert g [] = g ∷ []
  insert g (h ∷ hs) = if precedes g.key h.key then g ∷ h ∷ hs else h ∷ insert g hs

  abbrev pub path : String → String → String
  path prefix k = if prefix == "" then k else concat prefix (concat "." k)

  module _ (text : Err → String) where
    abbrev leaf : String → Err → List Group
    leaf prefix e =
        record { key = ""; violations = record { field = prefix; message = text e } ∷ [] } ∷ []

    -- Flatten, with the violations in the groups of the map's keys, in the order of the keys.
    unfoldable pub groups : String → Err → List Group
    groups prefix nil = []
    groups prefix (field k e rest) =
        insert (record { key = k; violations = ungroup (groups (path prefix k) e) })
          (groups prefix rest)
    groups prefix (wrapped a e b) =
        let below : List Group = groups prefix e in
        if has_fields e then below else leaf prefix (wrapped a e b)
    groups prefix (joined e es) =
        let one : List Group = groups prefix e in
        let others : List Group = groups prefix es in
        if has_fields e then one else if has_fields es then others else leaf prefix (joined e es)
    groups prefix (app c r m e v) =
        let below : List Group = groups prefix e in
        if has_fields e then below else leaf prefix (app c r m e v)
    groups prefix e = leaf prefix e

    unfoldable pub flatten : String → Err → List Violation
    flatten prefix e = ungroup (groups prefix e)

    unfoldable pub map : Err → Err
    map nil = nil
    map err = to_err (validation_failed (flatten "" err))
