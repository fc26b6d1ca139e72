-- ===== src/Gateway/Middleware/Laws.antt =====
-- platform/http/middleware: the identifiers that pass, and what the gateway's chain answers and logs.
use delivery_backend.Base.{
  ℕ, ◌≤◌, leb, leb→le, String, ◌≡◌, ◌≢◌, refl, ◌⊎◌, inl, inr, Bool, true, false, not, ◌&&◌, ◌||◌,
  Option, none, some, List, [], ◌∷◌, all, All, length, bytes, ◌==◌, eqb→eq, Bool-cases,
}
use delivery_backend.Errors.{AppError, to_err}
use delivery_backend.AppErr.Code.{info, level, http}
use delivery_backend.AppErr.Value.Laws.{from-to_err}
use delivery_backend.Gateway.Http.{Response, fail, fail_with}
use delivery_backend.Gateway.Middleware.{
  Incoming, Call, Outcome, answered, silent, panicked, implicit_ok, request_of, is_alnum,
  is_id_byte, is_valid_request_id, choose_id, choose_user, AccessLine, request_id, line_of,
  log_line, logger, panic_error, written, recover, fake_auth, serve,
}

-- A letter, a digit, `-` or `_` of ASCII.
abbrev pub IsIdByte : ℕ → Type 0
IsIdByte b = (97 ≤ b × b ≤ 122) ⊎ ((65 ≤ b × b ≤ 90) ⊎ ((48 ≤ b × b ≤ 57) ⊎ ((b ≡ 45) ⊎ (b ≡ 95))))

pub record IsValidId (id : String) : Type 0 where
  pub nonempty : id ≢ ""
  pub short : length (bytes id) ≤ 128
  pub safe : All IsIdByte (bytes id)

&&-true : (a b : Bool) → (a && b) ≡ true → (a ≡ true) × (b ≡ true)
&&-true true b h = (refl, h)
&&-true false b h = absurd (cc h)

||-true : (a b : Bool) → (a || b) ≡ true → (a ≡ true) ⊎ (b ≡ true)
||-true true b h = inl refl
||-true false b h = inr h

within : (lo b hi : ℕ) → (leb lo b && leb b hi) ≡ true → lo ≤ b × b ≤ hi
within lo b hi h =
    let both = &&-true (leb lo b) (leb b hi) h in (leb→le lo b both.0, leb→le b hi both.1)

is_alnum-IsIdByte : (b : ℕ) → is_alnum b ≡ true → IsIdByte b
is_alnum-IsIdByte b h = elim (||-true _ _ h) [
  | inl letter ↦ elim (||-true _ _ letter) [
    | inl lower ↦ inl (within 97 b 122 lower)
    | inr upper ↦ inr (inl (within 65 b 90 upper))
  ]
  | inr digit ↦ inr (inr (inl (within 48 b 57 digit)))
]

is_id_byte-IsIdByte : (b : ℕ) → is_id_byte b ≡ true → IsIdByte b
is_id_byte-IsIdByte b h = elim (||-true _ _ h) [
  | inl more ↦ elim (||-true _ _ more) [
    | inl alnum ↦ is_alnum-IsIdByte b alnum
    | inr dash ↦ inr (inr (inr (inl (eqb→eq b 45 dash))))
  ]
  | inr low_line ↦ inr (inr (inr (inr (eqb→eq b 95 low_line))))
]

all-All : (bs : List ℕ) → all is_id_byte bs ≡ true → All IsIdByte bs
all-All [] h = tt
all-All (b ∷ bs) h =
    let both = &&-true (is_id_byte b) (all is_id_byte bs) h in
    (is_id_byte-IsIdByte b both.0, all-All bs both.1)

not_empty : (id : String) → not (id == "") ≡ true → id ≢ ""
not_empty id h e = absurd (cc (h, e))

pub is_valid_request_id-IsValidId : (id : String) → is_valid_request_id id ≡ true → IsValidId id
unfolding is_valid_request_id
is_valid_request_id-IsValidId id h =
    let outer = &&-true _ _ h in
    let inner = &&-true _ _ outer.0 in
    record {
      nonempty = not_empty id inner.0;
      short = leb→le _ _ inner.1;
      safe = all-All (bytes id) outer.1;
    }

pub choose_id-IsValidId : (new_id id : String) → IsValidId new_id → IsValidId (choose_id new_id id)
choose_id-IsValidId new_id id h = elim (Bool-cases (is_valid_request_id id)) [
  | inl e ↦ rw e (is_valid_request_id-IsValidId id e)
  | inr e ↦ rw e h
]

-- The line of the access log that a status and the error of a response call for.
abbrev pub expected_line : Incoming → ℕ → Option AppError → AccessLine
expected_line i written_status none = record {
  level = info;
  message = "http request handled";
  method = i.method;
  path = i.path;
  status_code = written_status;
  error = none;
}
expected_line i written_status (some e) = record {
  level = level e.code;
  message = "http request failed";
  method = i.method;
  path = i.path;
  status_code = written_status;
  error = some e;
}

-- The call that reaches the handler.
abbrev pub inner_call : String → String → Incoming → Call
inner_call new_id user i = record {
  incoming = i;
  request_id = choose_id new_id i.request_id_header;
  user_id = choose_user user i.user_id_header;
}

line_of-expected :
    (c : Call) (written_status : ℕ) (boxed : Option AppError)
    → line_of c written_status boxed ≡ some (expected_line c.incoming written_status boxed)
line_of-expected c n none = refl
line_of-expected c n (some e) = rw (line_of, from-to_err e) refl

module _ {ℓ} {A : Type ℓ} where
  fail-panic :
      (c : Call) (v : String)
      → fail {A = A} (request_of c) (to_err (panic_error v))
        ≡ some (fail_with (request_of c) (panic_error v))
  unfolding fail
  fail-panic c v = rw (fail, from-to_err (panic_error v)) refl

  -- What Recover makes of an outcome, what the client gets then, and the status that was written.
  abbrev recovered : Call → Outcome (Response A) → Outcome (Response A)
  recovered c (answered r) = answered r
  recovered c (silent boxed) = silent boxed
  recovered c (panicked v) = answered (fail_with (request_of c) (panic_error v))

  abbrev pub settled : Call → Outcome (Response A) → Response A
  settled c (answered r) = r
  settled c (silent boxed) = implicit_ok boxed
  settled c (panicked v) = fail_with (request_of c) (panic_error v)

  abbrev pub status_of : Outcome (Response A) → ℕ
  status_of (answered r) = r.status
  status_of (silent boxed) = 0
  status_of (panicked v) = 500

  settle :
      (c : Call) (o : Outcome (Response A))
      → elim o [
        | answered r ↦ answered r
        | silent boxed ↦ silent boxed
        | panicked v ↦ written (fail (request_of c) (to_err (panic_error v)))
      ]
        ≡ recovered c o
  settle c (answered r) = refl
  settle c (silent boxed) = refl
  settle c (panicked v) = rw (fail-panic c v) refl

  recover-recovered :
      (next : Call → Outcome (Response A)) (c : Call) → recover next c ≡ recovered c (next c)
  unfolding recover
  recover-recovered next c = settle c (next c)

  log_line-expected :
      (c : Call) (n : ℕ) (r : Response A)
      → log_line c n r ≡ answered (r, expected_line c.incoming n r.boxed ∷ [])
  log_line-expected c n r = rw (log_line, line_of-expected c n r.boxed) refl

  logger-recovered :
      (next : Call → Outcome (Response A)) (c c' : Call) (o : Outcome (Response A))
      → next c ≡ recovered c' o
      → logger next c
        ≡ answered (settled c' o, expected_line c.incoming (status_of o) (settled c' o).boxed ∷ [])
  unfolding logger http
  logger-recovered next c c' (answered r) h = rw (logger, h) (log_line-expected c r.status r)
  logger-recovered next c c' (silent boxed) h =
      rw (logger, h) (log_line-expected c 0 (implicit_ok boxed))
  logger-recovered next c c' (panicked v) h =
      rw (logger, h) (log_line-expected c 500 (fail_with (request_of c') (panic_error v)))

  request_id-answered :
      (new_id : String) (next : Call → Outcome (Response A × List AccessLine)) (c : Call)
      (r : Response A) (lines : List AccessLine)
      → next (record c { request_id = choose_id new_id c.incoming.request_id_header })
        ≡ answered (r, lines)
      → request_id new_id next c
        ≡ answered (record {
          request_id_header = choose_id new_id c.incoming.request_id_header;
          response = r;
          log = lines;
        })
  unfolding request_id
  request_id-answered new_id next c r lines h = rw (request_id, h) refl

  pub serve-settled :
      (new_id user : String) (handler : Call → Outcome (Response A)) (i : Incoming)
      → let o = handler (inner_call new_id user i) in
        let r = settled (record (inner_call new_id user i) { user_id = "" }) o in
        serve new_id user handler i
        ≡ answered (record {
          request_id_header = choose_id new_id i.request_id_header;
          response = r;
          log = expected_line i (status_of o) r.boxed ∷ [];
        })
  unfolding serve fake_auth
  serve-settled new_id user handler i = request_id-answered new_id _ _ _ _ (
      logger-recovered _ _ (record (inner_call new_id user i) { user_id = "" }) _
        (recover-recovered _ _))
