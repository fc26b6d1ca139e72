-- ===== src/Lifecycle.antt =====
-- The life of a service: services/*/internal/app/app.go and services/*/cmd/main.go, with the
-- constructors that they call: platform/listener, platform/grpc/grpcclient, platform/postgres and
-- platform/kafka/kafkaconsumer.
--
-- What is opened and closed is a log of events. `World` says how each call of a library ends;
-- telemetry.New counts as one resource here. Timeouts of closing are left out.
pub mod Services
pub mod Main
pub mod Laws
pub mod NoLeak
pub mod ExitCode
pub mod Wiring
use Prim.Native.String.{◌++◌ as concat}
use delivery_backend.Base.{String, Bool, true, false, List, [], ◌∷◌, ◌++◌, ◌==◌, if◌then◌else◌}
use delivery_backend.Errors.{Err, nil, wrapped, join, is_sentinel, Result, success, failure}
use delivery_backend.Closer
use delivery_backend.Closer.{Closer, close}

pub data Resource : Type 0 where
  telemetry pool consumer : Resource
  connection listening : String → Resource

pub data Event : Type 0 where
  opened closed : Resource → Event

pub record World : Type 0 where
  pub open_error : Resource → Err
  pub close_error : Resource → Err
  pub parse_error : Err
  pub ping_error : Err
  pub stats_error : Err
  pub validator_error : Err

abbrev pub net_closed : String
net_closed = "use of closed network connection"

-- What New of an app has made so far.
pub record Init : Type 0 where
  pub closer : Closer (List Event)
  pub log : List Event

-- A call that opens something or builds the validator.
pub data Step : Type 0 where
  obtain : Resource → Step
  make_validator : Step

module _ (w : World) where
  -- The error with which a constructor returns, from the library's error.
  abbrev pub describe : Resource → Err → Err
  describe r nil = nil
  describe (connection a) err = wrapped (concat "grpcclient: dial " (concat a ": ")) err ""
  describe (listening a) err = wrapped (concat "listener: listen " (concat a ": ")) err ""
  describe consumer err = wrapped "kafkaconsumer: client: " err ""
  describe pool err = wrapped "postgres: pool: " err ""
  describe telemetry err = err

  -- What Close of the resource returns, through closer.Wrap, closer.WrapErr or the listener's own
  -- function, for which a listener that is closed already is no error.
  abbrev pub close_result : Resource → Err
  close_result telemetry = w.close_error telemetry
  close_result pool = nil
  close_result consumer = nil
  close_result (connection a) = w.close_error (connection a)
  close_result (listening a) =
      if is_sentinel net_closed (w.close_error (listening a))
      then nil
      else w.close_error (listening a)

  abbrev pub release : Resource → List Event → Err × List Event
  release r log = (close_result r, log ++ closed r ∷ [])

  -- The checks of postgres.New, one after another: after the pool is there, a failure closes it.
  abbrev pub check_stats : List Event → Err → Err × List Event
  check_stats log nil = (nil, log ++ opened pool ∷ [])
  check_stats log err =
      (wrapped "postgres: record stats: " err "", log ++ (opened pool ∷ closed pool ∷ []))

  abbrev pub check_ping : List Event → Err → Err × List Event
  check_ping log nil = check_stats log w.stats_error
  check_ping log err = (wrapped "postgres: ping: " err "", log ++ (opened pool ∷ closed pool ∷ []))

  abbrev pub check_pool : List Event → Err → Err × List Event
  check_pool log nil = check_ping log w.ping_error
  check_pool log err = (describe pool err, log)

  abbrev pub check_dsn : List Event → Err → Err × List Event
  check_dsn log nil = check_pool log (w.open_error pool)
  check_dsn log err = (wrapped "postgres: parse dsn: " err "", log)

  unfoldable pub new_pool : List Event → Err × List Event
  new_pool log = check_dsn log w.parse_error

  abbrev pub note : Resource → List Event → Err → Err × List Event
  note r log nil = (nil, log ++ opened r ∷ [])
  note r log err = (describe r err, log)

  -- Opening a resource.
  unfoldable pub open_one : Resource → List Event → Err × List Event
  open_one pool log = new_pool log
  open_one r log = note r log (w.open_error r)

  -- `cl.Add` after a call that succeeded.
  abbrev pub keep : Resource → Init → Err × List Event → Err × Init
  keep r st (nil, log) = (nil, record { closer = Closer.add (release r) st.closer; log = log })
  keep r st (err, log) = (err, record st { log = log })

  unfoldable pub do_step : Step → Init → Err × Init
  do_step (obtain r) st = keep r st (open_one r st.log)
  do_step make_validator st = (w.validator_error, st)

  abbrev pub continue : (Init → Err × Init) → Err × Init → Err × Init
  continue next (nil, st) = next st
  continue next (err, st) = (err, st)

  unfoldable pub run_steps : List Step → Init → Err × Init
  run_steps [] st = (nil, st)
  run_steps (s ∷ ss) st = continue (run_steps ss) (do_step s st)

  -- The deferred function of New: on an error what was opened is closed, and the errors joined.
  abbrev pub deferred : Err × Init → Result Init × List Event
  deferred (nil, st) = (success st, st.log)
  deferred (err, st) =
      let ((close_err, log), c) = close st.closer st.log in
      (failure (join err (join close_err nil)), log)

  abbrev pub empty : Init
  empty = record { closer = Closer.new; log = [] }

  -- New, from the configuration that config.New returns and the steps that follow it.
  unfoldable pub new_app {ℓ} : {C : Type ℓ} → (C → List Step) → Result C → Result Init × List Event
  new_app steps (failure err) = deferred (err, empty)
  new_app steps (success c) = deferred (run_steps (steps c) empty)
