-- ===== src/Server/Watch.antt =====
-- platform/grpc/grpcserver/health.go: Watch of the health server with its stream, watchStream.
--
-- What Watch of grpc-go does is seen through the statuses that it sends, each with the error of
-- sending it, and the error that it returns. A status is its number in the health protocol.
use delivery_backend.Base.{
  ℕ, ◌≡◌, refl, sym, ap, ◌∙◌, ◌⊎◌, inl, inr, Bool, true, false, Bool-cases, Option, none, some,
  List, [], ◌∷◌, ◌++◌, append-nil, append_assoc, eqb, if◌then◌else◌,
}
use delivery_backend.Errors.{Err, nil}
use delivery_backend.Server.{shutting_down, watch}

abbrev pub not_serving_status : ℕ
not_serving_status = 2

-- watchStream: the last status that was sent, if any, and what the client's stream has got.
pub record WatchStream : Type 0 where
  pub last : Option ℕ
  pub received : List ℕ

abbrev pub fresh : WatchStream
fresh = record { last = none; received = [] }

-- Send
unfoldable pub send : ℕ → Err → WatchStream → Err × WatchStream
send status nil s = (nil, record { last = some status; received = s.received ++ status ∷ [] })
send status err s = (err, s)

unfoldable pub send_all : List (ℕ × Err) → WatchStream → WatchStream
send_all [] s = s
send_all ((status, err) ∷ rest) s = send_all rest (send status err s).1

abbrev pub is_told : Option ℕ → Bool
is_told none = false
is_told (some status) = eqb status not_serving_status

abbrev pub receive : Bool → Err → List ℕ → List ℕ
receive true nil got = got ++ not_serving_status ∷ []
receive now err got = got

-- Watch: its result, and all that the client has got.
unfoldable pub watch_stream :
    (client_done stopping : Bool) → List (ℕ × Err) → (err send_error : Err) → Err × List ℕ
watch_stream client_done stopping sends err send_error =
    let s : WatchStream = send_all sends fresh in
    let (now, result) = watch client_done stopping (is_told s.last) err send_error in
    (result, receive now send_error s.received)

-- The statuses whose sending did not fail.
abbrev pub delivered : List (ℕ × Err) → List ℕ
delivered [] = []
delivered ((status, nil) ∷ rest) = status ∷ delivered rest
delivered ((status, err) ∷ rest) = delivered rest

-- Whether NOT_SERVING is the last status.
abbrev pub ends_told : List ℕ → Bool
ends_told [] = false
ends_told (status ∷ []) = eqb status not_serving_status
ends_told (status ∷ next ∷ rest) = ends_told (next ∷ rest)

-- The stream remembers the last status that the client has got.
abbrev pub Remembers : WatchStream → Type 0
Remembers s =
    ((s.last ≡ none) × (s.received ≡ []))
    ⊎ ((before : List ℕ) × (status : ℕ) × (s.last ≡ some status)
        × (s.received ≡ before ++ status ∷ []))

send_all-Remembers :
    (sends : List (ℕ × Err)) (s : WatchStream) → Remembers s → Remembers (send_all sends s)
unfolding send_all send
send_all-Remembers [] s h = h
send_all-Remembers ((status, nil) ∷ rest) s h =
    send_all-Remembers rest (send status nil s).1 (inr (s.received, status, refl, refl))
send_all-Remembers ((status, e) ∷ rest) s h = send_all-Remembers rest s h

send_all-received :
    (sends : List (ℕ × Err)) (s : WatchStream)
    → (send_all sends s).received ≡ s.received ++ delivered sends
unfolding send_all send
send_all-received [] s = sym (append-nil s.received)
send_all-received ((status, nil) ∷ rest) s =
    send_all-received rest (send status nil s).1
    ∙ append_assoc s.received (status ∷ []) (delivered rest)
send_all-received ((status, e) ∷ rest) s = send_all-received rest s

ends_told-snoc :
    (before : List ℕ) (status : ℕ)
    → ends_told (before ++ status ∷ []) ≡ eqb status not_serving_status
ends_told-snoc [] status = refl
ends_told-snoc (x ∷ []) status = refl
ends_told-snoc (x ∷ y ∷ before) status = ends_told-snoc (y ∷ before) status

told-Remembers : (s : WatchStream) → Remembers s → is_told s.last ≡ ends_told s.received
told-Remembers s (inl (nothing, empty)) = rw (nothing, empty) refl
told-Remembers s (inr (before, status, last, got)) =
    rw (last, got) (sym (ends_told-snoc before status))

-- While the server stops, a client that is still there and can be sent to gets what Watch sent and
-- then NOT_SERVING, unless that was the last that it got; and its stream ends with `UNAVAILABLE`.
pub watch_stream_stops :
    (sends : List (ℕ × Err)) (err : Err)
    → let w = watch_stream false true sends err nil in
      let got = delivered sends in
      (w.0 ≡ shutting_down)
      × (w.1 ≡ (if ends_told got then got else got ++ not_serving_status ∷ []))
unfolding watch_stream watch
watch_stream_stops sends err =
    let s : WatchStream = send_all sends fresh in
    let got : s.received ≡ delivered sends = send_all-received sends fresh in
    let told : is_told s.last ≡ ends_told (delivered sends) =
      told-Remembers s (send_all-Remembers sends fresh (inl (refl, refl))) ∙ ap ends_told got in
    elim (Bool-cases (ends_told (delivered sends))) [
      | inl was ↦ rw (told, was) (refl, got)
      | inr other ↦ rw (told, other) (refl, ap (λ l. l ++ not_serving_status ∷ []) got)
    ]
