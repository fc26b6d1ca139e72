-- ===== src/Examples/Platform.antt =====
-- The theorems on the platform's logging, telemetry, servers and debug endpoints, on concrete values.
use delivery_backend.Base.{
  ℕ, ◌+◌, String, ◌≡◌, refl, inl, true, false, Option, none, some, List, [], ◌∷◌, ◌++◌, map,
}
use delivery_backend.Errors.{Err, nil, foreign, join, success, failure}
use delivery_backend.AppErr.Code.{info}
use delivery_backend.Logger.{
  Attrs, end, leaf, group, new_otel_handler, Call, with_args, within_group,
}
use delivery_backend.Logger.Laws.{Drops}
use delivery_backend.Logger.{Handler, join as join_attrs, flatten, otel_enabled}
use delivery_backend.Logger.Options.{Format, Settings}
use delivery_backend.Logger.New.{Span, deliver, stdout_line, flat_export, new_delivers}
use delivery_backend.Config.{Log}
use delivery_backend.Telemetry.ErrorHandler.{
  new_error_handler, handle_all, told, Spaced, handle_all_throttles,
}
use delivery_backend.Telemetry.Build.{
  Config, Url, logger, started, stopped, Providers, Telemetry, validate, build, shutdown,
  is_endpoint_url,
}
use delivery_backend.Telemetry.Laws.{all_providers, build_failure}
use delivery_backend.Server.{
  Signal, returned, cancelled, Action, stopped, not_serving, stop_watching, graceful_stop, Stopping,
  http_serve, debug_serve, grpc_serve, http_shutdown, debug_shutdown, graceful, server_closed,
  server_stopped,
}
use delivery_backend.Server.Watch.{watch_stream, watch_stream_stops, send_all, send}
use delivery_backend.Server.{shutting_down, watch}
use delivery_backend.Server.{shutdown_ended, drained, timer, forced, stop_now}
use delivery_backend.Base.{◌⊎◌}
use delivery_backend.Server.Laws.{InTime, Late, EndsWith, serve_ends, graceful_settles}

-- slog without its removal of empty groups.
abbrev keep_all : Attrs → Attrs
keep_all xs = xs

keep_all-Drops : (xs : Attrs) → Drops xs (keep_all xs)
keep_all-Drops end = refl
keep_all-Drops (leaf k v xs) = (xs, refl, keep_all-Drops xs)
keep_all-Drops (group k inner xs) = inl (xs, refl, keep_all-Drops xs)

abbrev calls : List Call
calls =
    with_args (leaf "app" "order" end)
    ∷ within_group "http"
    ∷ with_args (leaf "method" "GET" end)
    ∷ []

-- A handler of slog that keeps what it gets.
abbrev plain_handler : Handler Attrs Attrs
plain_handler = record {
  with_attrs = λ xs h. join_attrs h xs;
  with_group = λ name h. h;
  handle = join_attrs;
}

abbrev no_attrs : Format → Attrs
no_attrs f = end

abbrev log_settings : Settings
log_settings = record { level = info; format = Format.json; exports = true }

abbrev in_span : Span
in_span = record { is_valid = true; trace_id = "t"; span_id = "s" }

new_delivers_example :
    let path = leaf "path" "/" end in
    ((deliver keep_all plain_handler no_attrs log_settings "request-1" in_span true info calls
        path).0
      ≡ stdout_line keep_all plain_handler no_attrs log_settings "request-1" in_span true info calls
          path)
    × ((deliver keep_all plain_handler no_attrs log_settings "request-1" in_span true info calls
          path).1
        ≡ flat_export keep_all plain_handler no_attrs log_settings "request-1" in_span true info
            calls path)
new_delivers_example =
    new_delivers keep_all plain_handler no_attrs log_settings "request-1" in_span true info calls
      (leaf "path" "/" end) keep_all-Drops

exported_flat :
    flat_export keep_all plain_handler no_attrs log_settings "request-1" in_span true info calls
      (leaf "path" "/" end)
    ≡ some (
        ("app", "order")
        ∷ ("http.method", "GET")
        ∷ ("http.path", "/")
        ∷ ("request_id", "request-1")
        ∷ [])
unfolding flatten otel_enabled new_otel_handler
exported_flat = refl

abbrev same_text : String → String
same_text s = s

abbrev log_config : Log
log_config = record { level = "warn"; format = "json" }

abbrev export_errors : List (ℕ × Err)
export_errors = (100, foreign "refused") ∷ (105, foreign "refused") ∷ (140, foreign "refused") ∷ []

handle_all_throttles_example :
    Spaced 30 none (handle_all (new_error_handler 30) export_errors).0
    × (told (handle_all (new_error_handler 30) export_errors).0
          + (handle_all (new_error_handler 30) export_errors).1.suppressed
        ≡ 3)
handle_all_throttles_example = handle_all_throttles 30 export_errors

abbrev no_logs : Providers
no_logs = record {
  resource_error = nil;
  start_error = λ p. elim p [ logger ↦ foreign "no exporter" | _ ↦ nil ];
  runtime_error = nil;
  stop_error = λ p. nil;
}

abbrev parse : String → Option Url
parse s = some ("http", "collector")

abbrev exported : Config
exported = record { enabled = true; service_name = "order"; endpoint = "http://collector" }

build_fails : (build no_logs parse exported).0 ≡ failure (join (foreign "no exporter") nil)
unfolding build validate is_endpoint_url shutdown join
build_fails = refl

build_failure_example :
    (t : Telemetry) × ((build no_logs parse exported).1 ≡ map started t ++ map stopped t)
build_failure_example =
    build_failure no_logs parse exported (join (foreign "no exporter") nil) build_fails

abbrev working : Providers
working = record no_logs { start_error = λ p. nil }

build_works : (build working parse exported).0 ≡ success all_providers
unfolding build validate is_endpoint_url shutdown join
build_works = refl

abbrev slow : Stopping
slow = record { close_error = nil; timeout = "10s" }

-- Shutdown that runs out of time, and a GracefulStop that ends only after Stop.
abbrev http_signals : List Signal
http_signals = returned nil ∷ cancelled ∷ shutdown_ended (foreign "context deadline exceeded") ∷ []

abbrev grpc_signals : List Signal
grpc_signals = cancelled ∷ timer ∷ drained ∷ []

serve_ends_example :
    EndsWith "httpserver: serve: " server_closed
      (http_shutdown slow)
      http_signals
      (http_serve slow http_signals)
    × EndsWith "debugserver: serve: " server_closed
        (debug_shutdown slow)
        http_signals
        (debug_serve slow http_signals)
    × EndsWith "grpcserver: serve: " server_stopped
        (graceful slow)
        grpc_signals
        (grpc_serve slow grpc_signals)
serve_ends_example = serve_ends slow http_signals grpc_signals tt tt

abbrev forced_stop : Err × List Action
forced_stop = (
  foreign "grpcserver: graceful stop timed out after 10s",
  not_serving ∷ stop_watching ∷ graceful_stop ∷ stop_now ∷ Action.stopped ∷ [],
)

is_forced : graceful slow (timer ∷ drained ∷ []) ≡ some forced_stop
unfolding graceful forced
is_forced = refl

graceful_settles_example :
    InTime slow (timer ∷ drained ∷ []) forced_stop ⊎ Late slow (timer ∷ drained ∷ []) forced_stop
graceful_settles_example = graceful_settles slow (timer ∷ drained ∷ []) forced_stop is_forced

-- SERVING, which the client gets, and a status whose sending fails.
abbrev sends : List (ℕ × Err)
sends = (1, nil) ∷ (2, foreign "stream is busy") ∷ []

watch_stream_stops_example :
    let w = watch_stream false true sends nil nil in (w.0 ≡ shutting_down) × (w.1 ≡ 1 ∷ 2 ∷ [])
watch_stream_stops_example = watch_stream_stops sends nil

-- NOT_SERVING is not sent again.
told_once : (watch_stream false true ((1, nil) ∷ (2, nil) ∷ []) nil nil).1 ≡ 1 ∷ 2 ∷ []
unfolding watch_stream send_all send watch
told_once = refl
