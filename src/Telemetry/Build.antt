-- ===== src/Telemetry/Build.antt =====
-- platform/telemetry/telemetry.go and config.go: setting up telemetry and shutting it down.
--
-- How the factories, resource.New and the providers' Shutdown end is given by `Providers`;
-- url.Parse is a parameter, with the scheme and the host that it finds. What is set up and shut
-- down is a log; the providers that Shutdown runs in parallel come in the order of the results.
-- Timeouts are left out.
use delivery_backend.Base.{
  String, Bool, true, false, not, ◌&&◌, ◌||◌, Option, none, some, List, [], ◌∷◌, ◌++◌, map, ◌==◌,
  if◌then◌else◌,
}
use delivery_backend.Errors.{Err, nil, foreign, wrapped, join, Result, success, failure}

-- Config
pub record Config : Type 0 where
  pub enabled : Bool
  pub service_name : String
  pub endpoint : String

abbrev pub Url : Type 0
Url = String × String

-- isEndpointURL; `parse` gives the scheme and the host.
unfoldable pub is_endpoint_url : (String → Option Url) → String → Bool
is_endpoint_url parse endpoint = elim (parse endpoint) [
  | none ↦ false
  | some (scheme, host) ↦ (scheme == "http" || scheme == "https") && not (host == "")
]

abbrev pub endpoint_error : (String → Option Url) → String → Err
endpoint_error parse endpoint =
    if endpoint == ""
    then foreign "telemetry: endpoint is required"
    else if not (is_endpoint_url parse endpoint)
    then foreign "telemetry: endpoint must be a URL like \"http://host:4317\""
    else nil

abbrev pub name_error : String → Err
name_error name = if name == "" then foreign "telemetry: service name is required" else nil

unfoldable pub validate : (String → Option Url) → Config → Err
validate parse c =
    if not c.enabled
    then nil
    else join (name_error c.service_name) (join (endpoint_error parse c.endpoint) nil)

pub data Provider : Type 0 where
  tracer meter logger : Provider

pub data Event : Type 0 where
  started stopped : Provider → Event
  -- what is set globally in the package otel
  error_handler_set : Event
  registered : Provider → Event
  propagators_set : List String → Event

-- The last steps of build.
abbrev pub registrations : List Event
registrations =
    error_handler_set
    ∷ registered tracer
    ∷ registered meter
    ∷ registered logger
    ∷ propagators_set ("TraceContext" ∷ "Baggage" ∷ [])
    ∷ []

pub record Providers : Type 0 where
  pub resource_error : Err
  pub start_error : Provider → Err
  pub runtime_error : Err
  pub stop_error : Provider → Err

-- The providers that are not nil, in their order.
abbrev pub Telemetry : Type 0
Telemetry = List Provider

-- LoggerProvider; `none` is the provider that does nothing.
unfoldable pub logger_provider : Telemetry → Option Provider
logger_provider [] = none
logger_provider (logger ∷ ps) = some logger
logger_provider (p ∷ ps) = logger_provider ps

module _ (w : Providers) where
  -- Shutdown
  abbrev pub join_all : List Err → Err
  join_all [] = nil
  join_all (e ∷ es) = join e (join_all es)

  unfoldable pub shutdown : Telemetry → Err × List Event
  shutdown t = (join_all (map w.stop_error t), map stopped t)

  -- A failure when `t` has the providers so far: the rollback.
  abbrev pub rollback : Telemetry → List Event → Err → Result Telemetry × List Event
  rollback t log cause =
      let (err, stops) = shutdown t in (failure (join cause (join err nil)), log ++ stops)

  -- The steps of build, each with the providers and the events so far, and the error of its call:
  -- a factory that returns a provider has started it.
  abbrev pub with_logger : Telemetry → List Event → Err → Result Telemetry × List Event
  with_logger t log nil =
      (success (t ++ logger ∷ []), (log ++ started logger ∷ []) ++ registrations)
  with_logger t log err = rollback t log err

  abbrev pub with_runtime : Telemetry → List Event → Err → Result Telemetry × List Event
  with_runtime t log nil = with_logger t log (w.start_error logger)
  with_runtime t log err = rollback t log (wrapped "telemetry: runtime metrics: " err "")

  abbrev pub with_meter : Telemetry → List Event → Err → Result Telemetry × List Event
  with_meter t log nil = with_runtime (t ++ meter ∷ []) (log ++ started meter ∷ []) w.runtime_error
  with_meter t log err = rollback t log err

  abbrev pub with_tracer : Telemetry → List Event → Err → Result Telemetry × List Event
  with_tracer t log nil =
      with_meter (t ++ tracer ∷ []) (log ++ started tracer ∷ []) (w.start_error meter)
  with_tracer t log err = (failure err, log)

  abbrev pub with_resource : Err → Result Telemetry × List Event
  with_resource nil = with_tracer [] [] (w.start_error tracer)
  with_resource err = (failure (wrapped "telemetry: resource: " err ""), [])

  abbrev pub with_config : Bool → Err → Result Telemetry × List Event
  with_config false nil = (success [], [])
  with_config true nil = with_resource w.resource_error
  with_config enabled err = (failure err, [])

  unfoldable pub build : (String → Option Url) → Config → Result Telemetry × List Event
  build parse c = with_config c.enabled (validate parse c)
