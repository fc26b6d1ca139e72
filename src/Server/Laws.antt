-- ===== src/Server/Laws.antt =====
-- Serve of platform/http/httpserver, platform/grpc/grpcserver and platform/debugserver: when it ends,
-- and what the server has been told by then.
use delivery_backend.Base.{
  String, ◌≡◌, ◌≢◌, not, ap, refl, sym, ◌⊎◌, inl, inr, Bool, true, false, Bool-cases, All, some,
  List, [], ◌∷◌, ◌++◌, if◌then◌else◌,
}
use mathlib.Core.Option.{some-injective}
use delivery_backend.Errors.{Err, nil, sentinel, wrapped, is_sentinel}
use delivery_backend.Server.{
  Signal, returned, cancelled, shutdown_ended, drained, timer, Action, graceful_stop, stop_now,
  stopped, not_serving, stop_watching, sent, Stopping, Returned, on_return, serve, await_shutdown,
  server_closed, server_stopped, http_shutdown, http_serve, http_stop, debug_stop, debug_shutdown,
  debug_serve, forced, graceful, grpc_serve, shutting_down, watch,
}

-- The end of Shutdown or of GracefulStop is among the signals.
abbrev pub ShutdownEnds : List Signal → Type 0
ShutdownEnds [] = ⊥
ShutdownEnds (shutdown_ended err ∷ ss) = Unit
ShutdownEnds (s ∷ ss) = ShutdownEnds ss

abbrev pub Drains : List Signal → Type 0
Drains [] = ⊥
Drains (drained ∷ ss) = Unit
Drains (s ∷ ss) = Drains ss

-- The context is cancelled at some time, and what comes after that is `After`.
abbrev pub Cancels : (List Signal → Type 0) → List Signal → Type 0
Cancels After [] = ⊥
Cancels After (cancelled ∷ ss) = After ss
Cancels After (s ∷ ss) = Cancels After ss

-- An error with which the library's Serve has failed.
abbrev pub IsFailure : String → Err → Type 0
IsFailure closed err = (err ≢ nil) × (is_sentinel closed err ≡ false)

-- A signal at which Serve goes on waiting.
abbrev pub IsQuiet : String → Signal → Type 0
IsQuiet closed cancelled = ⊥
IsQuiet closed (returned err) = (err ≡ nil) ⊎ (is_sentinel closed err ≡ true)
IsQuiet closed s = Unit

-- What a Serve returns with: what its stop makes of the signals after the cancellation, or the
-- failure of the library's Serve before it.
abbrev pub Ends :
    String → String → (List Signal → Returned) → List Signal → Err × List Action → Type 0
Ends prefix closed stop ss r =
    (before : List Signal) × All (IsQuiet closed) before
    × ((after : List Signal) × (((ss ≡ before ++ cancelled ∷ after) × (stop after ≡ some r))
          ⊎ ((err : Err) × (ss ≡ before ++ returned err ∷ after)
              × IsFailure closed err
              × (r ≡ (wrapped prefix err "", [])))))

-- A signal at which the stop of the gRPC server goes on waiting.
abbrev pub IsIdle : Signal → Type 0
IsIdle drained = ⊥
IsIdle timer = ⊥
IsIdle s = Unit

module _ (prefix closed : String) (stop : List Signal → Returned) where
  abbrev pub EndsWith : List Signal → Returned → Type 0
  EndsWith ss o = (r : Err × List Action) × (o ≡ some r) × Ends prefix closed stop ss r

  later-Ends :
      (s : Signal) (ss : List Signal) (o : Returned)
      → IsQuiet closed s
      → EndsWith ss o
      → EndsWith (s ∷ ss) o
  later-Ends s ss o quiet (r, e, (before, all, (after, inl (same, stops)))) =
      (r, e, (s ∷ before, (quiet, all), (after, inl (ap (λ l. s ∷ l) same, stops))))
  later-Ends s ss o quiet (r, e, (before, all, (after, inr (err, same, bad, is)))) =
      (r, e, (s ∷ before, (quiet, all), (after, inr (err, ap (λ l. s ∷ l) same, bad, is))))

  failed-Ends :
      (err : Err) (ss : List Signal) (rest : Returned)
      → err ≢ nil
      → EndsWith ss rest
      → EndsWith
          (returned err ∷ ss)
          (if is_sentinel closed err then rest else some (wrapped prefix err "", []))
  failed-Ends err ss rest some_error h = elim (Bool-cases (is_sentinel closed err)) [
    | inl e ↦ rw e (later-Ends (returned err) ss rest (inr e) h)
    | inr e ↦ rw e (_, refl, ([], tt, (ss, inr (err, refl, (some_error, e), refl))))
  ]

  on_return-Ends :
      (err : Err) (ss : List Signal) (rest : Returned)
      → EndsWith ss rest
      → EndsWith (returned err ∷ ss) (on_return prefix closed rest err)
  on_return-Ends nil ss rest h = later-Ends (returned nil) ss rest (inl refl) h
  on_return-Ends (sentinel t) ss rest h = failed-Ends (sentinel t) ss rest (λ e. cc e) h
  on_return-Ends err ss rest h = failed-Ends err ss rest (λ e. cc e) h

  serve-Ends :
      (After : List Signal → Type 0)
      → ((ss : List Signal) → After ss → (r : Err × List Action) × (stop ss ≡ some r))
      → (ss : List Signal) → Cancels After ss
      → EndsWith ss (serve prefix closed stop ss)
  unfolding serve
  serve-Ends After stops [] h = absurd h
  serve-Ends After stops (cancelled ∷ ss) h =
      let (r, e) = stops ss h in (r, e, ([], tt, (ss, inl (refl, e))))
  serve-Ends After stops (returned err ∷ ss) h =
      on_return-Ends err ss (serve prefix closed stop ss) (serve-Ends After stops ss h)
  serve-Ends After stops (shutdown_ended err ∷ ss) h =
      later-Ends (shutdown_ended err) ss _ tt (serve-Ends After stops ss h)
  serve-Ends After stops (drained ∷ ss) h = later-Ends drained ss _ tt (serve-Ends After stops ss h)
  serve-Ends After stops (timer ∷ ss) h = later-Ends timer ss _ tt (serve-Ends After stops ss h)

await_shutdown-returns :
    (next : Err → Err × List Action) (ss : List Signal)
    → ShutdownEnds ss
    → (r : Err × List Action) × (await_shutdown next ss ≡ some r)
unfolding await_shutdown
await_shutdown-returns next [] h = absurd h
await_shutdown-returns next (shutdown_ended err ∷ ss) h = (next err, refl)
await_shutdown-returns next (returned err ∷ ss) h = await_shutdown-returns next ss h
await_shutdown-returns next (cancelled ∷ ss) h = await_shutdown-returns next ss h
await_shutdown-returns next (drained ∷ ss) h = await_shutdown-returns next ss h
await_shutdown-returns next (timer ∷ ss) h = await_shutdown-returns next ss h

module _ (w : Stopping) where
  forced-returns : (ss : List Signal) → Drains ss → (r : Err × List Action) × (forced w ss ≡ some r)
  unfolding forced
  forced-returns [] h = absurd h
  forced-returns (drained ∷ ss) h = (_, refl)
  forced-returns (returned err ∷ ss) h = forced-returns ss h
  forced-returns (cancelled ∷ ss) h = forced-returns ss h
  forced-returns (shutdown_ended err ∷ ss) h = forced-returns ss h
  forced-returns (timer ∷ ss) h = forced-returns ss h

  graceful-returns :
      (ss : List Signal) → Drains ss → (r : Err × List Action) × (graceful w ss ≡ some r)
  unfolding graceful
  graceful-returns [] h = absurd h
  graceful-returns (drained ∷ ss) h = (_, refl)
  graceful-returns (timer ∷ ss) h = forced-returns ss h
  graceful-returns (returned err ∷ ss) h = graceful-returns ss h
  graceful-returns (cancelled ∷ ss) h = graceful-returns ss h
  graceful-returns (shutdown_ended err ∷ ss) h = graceful-returns ss h

  -- If the context is cancelled and then Shutdown of the library ends, or GracefulStop, Serve of
  -- each of the three servers returns. The first signal that matters decides: if the library's
  -- Serve fails before the cancellation, Serve returns that very error, with its own prefix, and
  -- stops nothing; else it returns what its stop makes of what comes after the cancellation.
  pub serve_ends :
      (ss ts : List Signal)
      → Cancels ShutdownEnds ss
      → Cancels Drains ts
      → EndsWith "httpserver: serve: " server_closed (http_shutdown w) ss (http_serve w ss)
        × EndsWith "debugserver: serve: " server_closed (debug_shutdown w) ss (debug_serve w ss)
        × EndsWith "grpcserver: serve: " server_stopped (graceful w) ts (grpc_serve w ts)
  unfolding http_serve debug_serve grpc_serve
  serve_ends ss ts h k = (
    serve-Ends "httpserver: serve: " server_closed (http_shutdown w) ShutdownEnds
        (await_shutdown-returns (http_stop w)) ss h,
    serve-Ends "debugserver: serve: " server_closed (debug_shutdown w) ShutdownEnds
        (await_shutdown-returns (debug_stop w)) ss h,
    serve-Ends "grpcserver: serve: " server_stopped (graceful w) Drains graceful-returns ts k,
  )

  abbrev pub InTime : List Signal → Err × List Action → Type 0
  InTime ss r =
      (before after : List Signal) × (ss ≡ before ++ drained ∷ after)
      × All IsIdle before
      × (r ≡ (nil, not_serving ∷ stop_watching ∷ graceful_stop ∷ stopped ∷ []))

  abbrev pub Late : List Signal → Err × List Action → Type 0
  Late ss r =
      (before mid after : List Signal) × (ss ≡ before ++ timer ∷ (mid ++ drained ∷ after))
      × All IsIdle before
      × (r.0 ≢ nil)
      × (r.1 ≡ not_serving ∷ stop_watching ∷ graceful_stop ∷ stop_now ∷ stopped ∷ [])

  later-settles :
      (s : Signal) (ss : List Signal) (r : Err × List Action)
      → IsIdle s
      → InTime ss r ⊎ Late ss r
      → InTime (s ∷ ss) r ⊎ Late (s ∷ ss) r
  later-settles s ss r idle (inl (before, after, same, all, is)) =
      inl (s ∷ before, after, ap (λ l. s ∷ l) same, (idle, all), is)
  later-settles s ss r idle (inr (before, mid, after, same, all, bad, is)) =
      inr (s ∷ before, mid, after, ap (λ l. s ∷ l) same, (idle, all), bad, is)

  abbrev Forced : List Signal → Err × List Action → Type 0
  Forced ss r =
      (mid after : List Signal) × (ss ≡ mid ++ drained ∷ after)
      × (r.0 ≢ nil)
      × (r.1 ≡ not_serving ∷ stop_watching ∷ graceful_stop ∷ stop_now ∷ stopped ∷ [])

  later-Forced :
      (s : Signal) (ss : List Signal) (r : Err × List Action) → Forced ss r → Forced (s ∷ ss) r
  later-Forced s ss r (mid, after, same, bad, is) = (s ∷ mid, after, ap (λ l. s ∷ l) same, bad, is)

  forced-Forced : (ss : List Signal) (r : Err × List Action) → forced w ss ≡ some r → Forced ss r
  unfolding forced
  forced-Forced [] r h = absurd (cc h)
  forced-Forced (drained ∷ ss) r h =
      let same = some-injective _ _ h in
      ([], ss, refl, (λ e. cc (e, same)), ap (λ (x : Err × List Action). x.1) (sym same))
  forced-Forced (returned err ∷ ss) r h = later-Forced _ ss r (forced-Forced ss r h)
  forced-Forced (cancelled ∷ ss) r h = later-Forced _ ss r (forced-Forced ss r h)
  forced-Forced (shutdown_ended err ∷ ss) r h = later-Forced _ ss r (forced-Forced ss r h)
  forced-Forced (timer ∷ ss) r h = later-Forced _ ss r (forced-Forced ss r h)

  -- When the stop of the gRPC server returns, GracefulStop has ended, and before it was called the
  -- health was set to NOT_SERVING and the Watch streams were ended. Stop is called, and an error
  -- returned, if the timer came before the end of GracefulStop, and not if it did not.
  pub graceful_settles :
      (ss : List Signal) (r : Err × List Action) → graceful w ss ≡ some r → InTime ss r ⊎ Late ss r
  unfolding graceful
  graceful_settles [] r h = absurd (cc h)
  graceful_settles (drained ∷ ss) r h = inl ([], ss, refl, tt, sym (some-injective _ _ h))
  graceful_settles (timer ∷ ss) r h =
      let (mid, after, same, bad, is) = forced-Forced ss r h in
      inr ([], mid, after, ap (λ l. timer ∷ l) same, tt, bad, is)
  graceful_settles (returned err ∷ ss) r h = later-settles _ ss r tt (graceful_settles ss r h)
  graceful_settles (cancelled ∷ ss) r h = later-settles _ ss r tt (graceful_settles ss r h)
  graceful_settles (shutdown_ended err ∷ ss) r h = later-settles _ ss r tt (graceful_settles ss r h)

-- While the server stops, a subscriber that is still there and can be sent to has got NOT_SERVING,
-- before or now and never twice, and its stream ends with `UNAVAILABLE`.
pub watch_tells :
    (told : Bool) (err send_error : Err)
    → send_error ≡ nil
    → watch false true told err send_error ≡ (not told, shutting_down)
unfolding watch
watch_tells true err send_error h = refl
watch_tells false err send_error h = ap sent h
