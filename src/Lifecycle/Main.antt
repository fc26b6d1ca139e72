-- ===== src/Lifecycle/Main.antt =====
-- services/*/cmd/main.go and Run and Close of services/*/internal/app/app.go.
--
-- `Serving` says how the two servers of Run end: Serve's errors, and which server ends first. The
-- logging of main is left out.
use delivery_backend.Base.{ℕ, Bool, List, [], ◌∷◌, if◌then◌else◌}
use delivery_backend.Errors.{Err, nil, Result, success, failure}
use delivery_backend.Closer.{close}
use delivery_backend.Lifecycle.{World, Event, Init, Step, new_app}
use delivery_backend.Config.Services.{Service, notification_service}

pub record Serving : Type 0 where
  pub main_error : Err
  pub has_debug : Bool
  pub debug_error : Err
  pub debug_first : Bool

-- Wait of errgroup: the first error that is not nil, in the order in which the functions end.
abbrev pub or_else : Err → Err → Err
or_else nil rest = rest
or_else err rest = err

abbrev pub wait : List Err → Err
wait [] = nil
wait (e ∷ es) = or_else e (wait es)

-- Run, where the first function of the group ends with `served`.
abbrev pub run_group : Err → Serving → Err
run_group served v =
    if v.has_debug
    then (if v.debug_first
        then wait (v.debug_error ∷ served ∷ [])
        else wait (served ∷ v.debug_error ∷ []))
    else wait (served ∷ [])

-- What the main function of the group returns: the consumer's is always nil.
abbrev pub main_result : Service → Serving → Err
main_result notification_service v = nil
main_result s v = v.main_error

unfoldable pub run : Service → Serving → Err
run s v = run_group (main_result s v) v

abbrev pub code_of : Err → ℕ → ℕ
code_of nil code = code
code_of err code = 1

-- What follows a New that succeeded: Run, and Close whatever Run returned.
unfoldable pub run_and_close : Err → Init → List Event → ℕ × List Event
run_and_close run_err st log =
    let ((close_err, log'), c) = close st.closer log in
    (code_of close_err (code_of run_err 0), log')

abbrev pub finish : Err → Result Init × List Event → ℕ × List Event
finish run_err (failure err, log) = (1, log)
finish run_err (success st, log) = run_and_close run_err st log

-- run of main.go: the exit code, and what was opened and closed.
unfoldable pub main {ℓ} :
    {C : Type ℓ} → World → Service → Serving → (C → List Step) → Result C → ℕ × List Event
main w s v steps parsed = finish (run s v) (new_app w steps parsed)
