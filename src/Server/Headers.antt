-- ===== src/Server/Headers.antt =====
-- platform/http/httpserver/server.go: the headers that a public endpoint does not take from clients,
-- and the requests that are traced.
--
-- A header is a list of canonical keys with their values; Del leaves out a key's entries. The handler
-- of otelhttp is a parameter.
use delivery_backend.Base.{
  String, ◌≡◌, refl, sym, ap, ◌∙◌, inl, inr, Bool, true, false, Bool-cases, List, [], ◌∷◌, ◌==◌,
  eq_iff, if◌then◌else◌,
}

abbrev pub Header : Type 0
Header = List (String × String)

abbrev pub del : String → Header → Header
del k [] = []
del k ((k', v) ∷ h) = if k' == k then del k h else (k', v) ∷ del k h

-- Header.Values
abbrev pub values : String → Header → List String
values k [] = []
values k ((k', v) ∷ h) = if k' == k then v ∷ values k h else values k h

abbrev pub untrusted_headers : List String
untrusted_headers = "X-Forwarded-For" ∷ "Tracestate" ∷ []

abbrev pub del_all : List String → Header → Header
del_all [] h = h
del_all (k ∷ ks) h = del_all ks (del k h)

-- dropUntrustedHeaders
unfoldable pub drop_untrusted_headers {ℓ} : {A : Type ℓ} → (Header → A) → Header → A
drop_untrusted_headers next h = next (del_all untrusted_headers h)

-- tracedHandler, around the handler of otelhttp.
unfoldable pub traced_handler {ℓ} : {A : Type ℓ} → Bool → (Header → A) → Header → A
traced_handler public_endpoint traced h =
    if public_endpoint then drop_untrusted_headers traced h else traced h

values-del : (k : String) (h : Header) → values k (del k h) ≡ []
values-del k [] = refl
values-del k ((k', v) ∷ h) = elim (Bool-cases (k' == k)) [
  | inl e ↦ rw e (values-del k h)
  | inr e ↦ rw (e, e) (values-del k h)
]

other_key : (k' k j : String) → (k' == k) ≡ true → (j == k) ≡ false → (k' == j) ≡ false
other_key k' k j e n = elim (Bool-cases (k' == j)) [
  | inl s ↦
      let same = sym ((eq_iff k' j).0 s) ∙ (eq_iff k' k).0 e in absurd (cc (n, (eq_iff j k).1 same))
  | inr s ↦ s
]

values-del_other : (j k : String) (h : Header) → (j == k) ≡ false → values j (del k h) ≡ values j h
values-del_other j k [] n = refl
values-del_other j k ((k', v) ∷ h) n = elim (Bool-cases (k' == k)) [
  | inl e ↦ rw (e, other_key k' k j e n) (values-del_other j k h n)
  | inr e ↦ elim (Bool-cases (k' == j)) [
    | inl s ↦ rw (e, s) (ap (λ l. v ∷ l) (values-del_other j k h n))
    | inr s ↦ rw (e, s) (values-del_other j k h n)
  ]
]

-- Behind a public endpoint nothing sees the client's X-Forwarded-For and Tracestate, and every other
-- header is seen as it was sent.
pub traced_handler_drops :
    (j : String) (h : Header)
    → (j == "X-Forwarded-For") ≡ false
    → (j == "Tracestate") ≡ false
    → (traced_handler true (values "X-Forwarded-For") h ≡ [])
      × (traced_handler true (values "Tracestate") h ≡ [])
      × (traced_handler true (values j) h ≡ values j h)
unfolding traced_handler drop_untrusted_headers
traced_handler_drops j h n m = (
  values-del_other "X-Forwarded-For" "Tracestate" (del "X-Forwarded-For" h) refl
      ∙ values-del "X-Forwarded-For" h,
  values-del "Tracestate" (del "X-Forwarded-For" h),
  values-del_other j "Tracestate" (del "X-Forwarded-For" h) m
      ∙ values-del_other j "X-Forwarded-For" h n,
)
