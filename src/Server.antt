-- ===== src/Server.antt =====
-- Serve of the three servers: platform/http/httpserver/server.go, platform/grpc/grpcserver (server.go
-- and health.go) and platform/debugserver/server.go.
--
-- What happens while Serve waits is a list of signals, in order: the library's Serve returns, the
-- context is cancelled, and then the library's Shutdown or GracefulStop ends, or the time for
-- stopping is over. A call that blocks waits for its signal. What the library's server is told is a
-- list of actions. The texts of durations are parameters; the debug server's warning about an
-- address that is not loopback is left out.
pub mod Laws
pub mod Headers
pub mod Watch
pub mod Http
pub mod Grpc
use Prim.Native.String.{◌++◌ as concat}
use delivery_backend.Base.{
  String, Bool, true, false, Option, none, some, List, [], ◌∷◌, ◌++◌, if◌then◌else◌,
}
use delivery_backend.Errors.{Err, nil, foreign, wrapped, status_error, unavailable, is_sentinel}

pub data Signal : Type 0 where
  returned : Err → Signal
  cancelled : Signal
  -- http.Server: Shutdown returns
  shutdown_ended : Err → Signal
  -- grpc.Server: GracefulStop returns; the timer of time.After
  drained timer : Signal

pub data Action : Type 0 where
  -- http.Server: Shutdown and Close
  shut_down force_close : Action
  -- grpc.Server: GracefulStop and Stop; `stopped` is the end of GracefulStop
  graceful_stop stop_now stopped : Action
  -- the health server: NOT_SERVING for all services, and the end of the open Watch streams
  not_serving stop_watching : Action
  -- a line of the log
  warn_close : Err → Action

pub record Stopping : Type 0 where
  pub close_error : Err
  pub timeout : String

abbrev pub server_closed : String
server_closed = "http: Server closed"

abbrev pub server_stopped : String
server_stopped = "grpc: the server has been stopped"

-- What Serve returns and what the server was told, or none: still waiting.
abbrev pub Returned : Type 0
Returned = Option (Err × List Action)

-- The goroutine and the select of Serve: `closed` is the error that says that the server was
-- stopped; `stop` is what follows the cancellation.
abbrev pub on_return : String → String → Returned → Err → Returned
on_return prefix closed rest nil = rest
on_return prefix closed rest err =
    if is_sentinel closed err then rest else some (wrapped prefix err "", [])

unfoldable pub serve : String → String → (List Signal → Returned) → List Signal → Returned
serve prefix closed stop [] = none
serve prefix closed stop (cancelled ∷ ss) = stop ss
serve prefix closed stop (returned err ∷ ss) =
    on_return prefix closed (serve prefix closed stop ss) err
serve prefix closed stop (s ∷ ss) = serve prefix closed stop ss

-- Shutdown of http.Server blocks until it returns; `next` is what is done with its error.
unfoldable pub await_shutdown : (Err → Err × List Action) → List Signal → Returned
await_shutdown next [] = none
await_shutdown next (shutdown_ended err ∷ ss) = some (next err)
await_shutdown next (s ∷ ss) = await_shutdown next ss

abbrev pub health_shutdown : List Action
health_shutdown = not_serving ∷ stop_watching ∷ []

module _ (w : Stopping) where
  abbrev pub timed_out : String → Err → Err
  timed_out prefix nil = nil
  timed_out prefix err =
      wrapped (concat prefix (concat "graceful stop timed out after " (concat w.timeout ": "))) err
        ""

  -- httpserver: shutdown and Serve.
  abbrev pub http_stop : Err → Err × List Action
  http_stop err = (timed_out "httpserver: " err, shut_down ∷ [])

  abbrev pub http_shutdown : List Signal → Returned
  http_shutdown = await_shutdown http_stop

  unfoldable pub http_serve : List Signal → Returned
  http_serve = serve "httpserver: serve: " server_closed http_shutdown

  -- debugserver: shutdown, which closes the connections if it fails.
  abbrev pub close_line : Err → List Action
  close_line nil = []
  close_line err = warn_close err ∷ []

  abbrev pub debug_stop : Err → Err × List Action
  debug_stop nil = (nil, shut_down ∷ [])
  debug_stop err =
      (timed_out "debugserver: " err, shut_down ∷ force_close ∷ close_line w.close_error)

  abbrev pub debug_shutdown : List Signal → Returned
  debug_shutdown = await_shutdown debug_stop

  unfoldable pub debug_serve : List Signal → Returned
  debug_serve = serve "debugserver: serve: " server_closed debug_shutdown

  -- grpcserver: `<-done` after Stop, the health server's shutdown with the select of graceful, and
  -- Serve.
  unfoldable pub forced : List Signal → Returned
  forced [] = none
  forced (drained ∷ ss) = some (
    foreign (concat "grpcserver: graceful stop timed out after " w.timeout),
    health_shutdown ++ (graceful_stop ∷ stop_now ∷ stopped ∷ []),
  )
  forced (s ∷ ss) = forced ss

  unfoldable pub graceful : List Signal → Returned
  graceful [] = none
  graceful (drained ∷ ss) = some (nil, health_shutdown ++ (graceful_stop ∷ stopped ∷ []))
  graceful (timer ∷ ss) = forced ss
  graceful (s ∷ ss) = graceful ss

  unfoldable pub grpc_serve : List Signal → Returned
  grpc_serve = serve "grpcserver: serve: " server_stopped graceful

-- Watch of the health server, once the library's Watch has ended with `err`: whether the client
-- has ended the stream, whether the server stops, whether the last status sent was NOT_SERVING, and
-- the error of sending it. The result has whether NOT_SERVING is sent now.
abbrev pub shutting_down : Err
shutting_down =
    status_error
      (record { code = unavailable; message = "grpcserver: server is shutting down"; details = [] })

abbrev pub sent : Err → Bool × Err
sent nil = (true, shutting_down)
sent err = (true, err)

unfoldable pub watch : (client_done stopping told : Bool) → (err send_error : Err) → Bool × Err
watch true stopping told err send_error = (false, err)
watch false false told err send_error = (false, err)
watch false true true err send_error = (false, shutting_down)
watch false true false err send_error = sent send_error
