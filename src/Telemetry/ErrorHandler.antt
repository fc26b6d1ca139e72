-- ===== src/Telemetry/ErrorHandler.antt =====
-- platform/telemetry/errorhandler.go: warnings about the export of telemetry, not too often.
--
-- Times and the interval are numbers of nanoseconds; `last` is `none` for the zero time. The lock
-- is left out: each Handle is one step.
use delivery_backend.Base.{
  sym, ℕ, suc, ◌+◌, ◌≤◌, arith, ltb, subst, ◌≡◌, refl, Bool, true, false, Bool-cases, inl, inr,
  Option, none, some, List, [], ◌∷◌, ◌++◌, if◌then◌else◌, length,
}
use delivery_backend.Errors.{Err}

pub record ErrorHandler : Type 0 where
  pub interval : ℕ
  pub last : Option ℕ
  pub suppressed : ℕ

-- A warning of slog.
pub record Warning : Type 0 where
  pub time : ℕ
  pub error : Err
  pub suppressed : ℕ

abbrev pub new_error_handler : ℕ → ErrorHandler
new_error_handler interval = record { interval = interval; last = none; suppressed = 0 }

-- t.Sub(h.last) < h.interval, unless h.last is zero
abbrev pub is_early : ErrorHandler → ℕ → Bool
is_early h t = elim h.last [ none ↦ false | some last ↦ ltb t (last + h.interval) ]

-- Handle, at the time `t`.
unfoldable pub handle : ErrorHandler → ℕ → Err → List Warning × ErrorHandler
handle h t err = if is_early h t then ([], record h { suppressed = suc h.suppressed }) else (
  record { time = t; error = err; suppressed = h.suppressed } ∷ [],
  record h { last = some t; suppressed = 0 },
)

-- What a series of errors writes.
unfoldable pub handle_all : ErrorHandler → List (ℕ × Err) → List Warning × ErrorHandler
handle_all h [] = ([], h)
handle_all h ((t, err) ∷ es) =
    let (lines, h') = handle h t err in let (rest, h'') = handle_all h' es in (lines ++ rest, h'')

-- The errors that the warnings tell of.
abbrev pub told : List Warning → ℕ
told [] = 0
told (w ∷ ws) = suc w.suppressed + told ws

-- Each warning comes at least the interval after the one before it.
abbrev pub Spaced : ℕ → Option ℕ → List Warning → Type 0
Spaced interval last [] = Unit
Spaced interval none (w ∷ ws) = Spaced interval (some w.time) ws
Spaced interval (some last) (w ∷ ws) = (last + interval ≤ w.time) × Spaced interval (some w.time) ws

told-append : (xs ys : List Warning) → told (xs ++ ys) ≡ told xs + told ys
told-append [] ys = omega arith
told-append (w ∷ ws) ys = omega (arith, told-append ws ys)

told-handle :
    (h : ErrorHandler) (t : ℕ) (err : Err)
    → told (handle h t err).0 + (handle h t err).1.suppressed ≡ suc h.suppressed
unfolding handle
told-handle h t err = elim (Bool-cases (is_early h t)) [
  | inl e ↦ rw (handle, e) (omega arith)
  | inr e ↦ rw (handle, e) (omega arith)
]

told-handle_all :
    (h : ErrorHandler) (es : List (ℕ × Err))
    → told (handle_all h es).0 + (handle_all h es).1.suppressed ≡ h.suppressed + length es
unfolding handle_all
told-handle_all h [] = omega arith
told-handle_all h ((t, err) ∷ es) = omega (
  arith,
  told-append (handle h t err).0 (handle_all (handle h t err).1 es).0,
  told-handle h t err,
  told-handle_all (handle h t err).1 es,
)

handle_early :
    (h : ErrorHandler) (t : ℕ) (err : Err)
    → is_early h t ≡ true
    → handle h t err ≡ ([], record h { suppressed = suc h.suppressed })
unfolding handle
handle_early h t err e = rw (handle, e) refl

-- A Handle that gives `p` keeps the warnings that follow spaced.
abbrev IsKept : ErrorHandler → List Warning → List Warning × ErrorHandler → Type 0
IsKept h rest p = Spaced h.interval p.1.last rest → Spaced h.interval h.last (p.0 ++ rest)

handle_late :
    (h : ErrorHandler) (t : ℕ) (err : Err)
    → is_early h t ≡ false
    → handle h t err ≡ (
      record { time = t; error = err; suppressed = h.suppressed } ∷ [],
      record h { last = some t; suppressed = 0 },
    )
unfolding handle
handle_late h t err e = rw (handle, e) refl

late_enough : (t last interval : ℕ) → ltb t (last + interval) ≡ false → last + interval ≤ t
late_enough t last interval h = ground arith

late-Spaced :
    (interval : ℕ) (last : Option ℕ) (w : Warning) (rest : List Warning)
    → (elim last [ none ↦ false | some l ↦ ltb w.time (l + interval) ]) ≡ false
    → Spaced interval (some w.time) rest
    → Spaced interval last (w ∷ rest)
late-Spaced interval none w rest e s = s
late-Spaced interval (some l) w rest e s = (late_enough w.time l interval e, s)

-- One Handle keeps the warnings that follow spaced.
handle-Spaced :
    (h : ErrorHandler) (t : ℕ) (err : Err) (rest : List Warning)
    → Spaced h.interval (handle h t err).1.last rest
    → Spaced h.interval h.last ((handle h t err).0 ++ rest)
handle-Spaced h t err rest s = elim (Bool-cases (is_early h t)) [
  | inl e ↦ subst (IsKept h rest) (sym (handle_early h t err e)) (λ x. x) s
  | inr e ↦
      subst (IsKept h rest) (sym (handle_late h t err e))
        (λ x.
          late-Spaced h.interval h.last
            (record { time = t; error = err; suppressed = h.suppressed }) rest e x)
        s
]

handle-interval : (h : ErrorHandler) (t : ℕ) (err : Err) → (handle h t err).1.interval ≡ h.interval
unfolding handle
handle-interval h t err = elim (Bool-cases (is_early h t)) [
  | inl e ↦ rw (handle, e) refl
  | inr e ↦ rw (handle, e) refl
]

handle_all-Spaced :
    (h : ErrorHandler) (es : List (ℕ × Err)) → Spaced h.interval h.last (handle_all h es).0
unfolding handle_all
handle_all-Spaced h [] = tt
handle_all-Spaced h ((t, err) ∷ es) =
    let h' = (handle h t err).1 in
    handle-Spaced h t err (handle_all h' es).0 (
      subst (λ n. Spaced n h'.last (handle_all h' es).0) (handle-interval h t err)
        (handle_all-Spaced h' es))

-- Whenever errors come, the warnings are at least the interval apart, and no error is lost: those
-- that a warning has or counts, and those counted for the next one, are all that came.
pub handle_all_throttles :
    (interval : ℕ) (es : List (ℕ × Err))
    → let (lines, h) = handle_all (new_error_handler interval) es in
      Spaced interval none lines × (told lines + h.suppressed ≡ length es)
handle_all_throttles interval es = (
  handle_all-Spaced (new_error_handler interval) es,
  omega (arith, told-handle_all (new_error_handler interval) es),
)
