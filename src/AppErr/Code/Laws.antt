-- ===== src/AppErr/Code/Laws.antt =====
-- platform/apperr/code.go: how the translations of a code agree with one another.
use delivery_backend.Base.{
  ℕ, ◌≤◌, ◌<◌, String, ◌≡◌, ◌≢◌, refl, sym, subst, inl, inr, Bool, true, false, ◌||◌, List, [], ◌∷◌,
  arith, ◌==◌, eq_iff, Bool-cases, All, leb, ltb, ap, ◌&&◌, if◌then◌else◌,
}
use delivery_backend.Errors.{GrpcCode, ok, canceled, internal, unlisted}
use delivery_backend.AppErr.Code.{codes, error, warn, grpc, http, level, code_from_grpc}

-- The test that a string is one of a list.
abbrev pub elem : String → List String → Bool
elem c [] = false
elem c (k ∷ ks) = c == k || elem c ks

-- What holds of every listed string holds of a string that passes the test.
pub elem_induction {ℓ} :
    (P : String → Type ℓ) (ks : List String) → All P ks → (c : String) → elem c ks ≡ true → P c
elem_induction P [] h c e = absurd (cc)
elem_induction P (k ∷ ks) h c e = elim (Bool-cases (c == k)) [
  | inl same ↦ subst P (sym ((eq_iff c k).0 same)) h.0
  | inr other ↦ elem_induction P ks h.1 c (rw other at e)
]

-- Every listed code survives the translation to a gRPC code and back.
pub code_from_grpc-grpc : (c : String) → elem c codes ≡ true → code_from_grpc (grpc c) ≡ c
unfolding grpc code_from_grpc
code_from_grpc-grpc = elem_induction (λ c. code_from_grpc (grpc c) ≡ c) codes (ground arith)

-- Every gRPC error code survives the translation to a code and back, but a number that grpc-go
-- does not list, which comes back as `Internal`.
pub grpc-code_from_grpc :
    (g : GrpcCode) → g ≢ ok → grpc (code_from_grpc g) ≡ (elim g [ unlisted n ↦ internal | x ↦ x ])
unfolding grpc code_from_grpc
grpc-code_from_grpc ok h = absurd (h refl)
grpc-code_from_grpc canceled h = refl
grpc-code_from_grpc _ h = refl

-- Tests of a result, for ladders: a test goes under the branches, and equal branches are one.
is_error_status : ℕ → Bool
is_error_status n = leb 400 n && ltb n 600

is_error_status_if :
    (b : Bool) (x y : ℕ)
    → is_error_status (if b then x else y) ≡ (if b then is_error_status x else is_error_status y)
is_error_status_if true x y = refl
is_error_status_if false x y = refl

is_ok : GrpcCode → Bool
is_ok ok = true
is_ok _ = false

is_ok_if :
    (b : Bool) (x y : GrpcCode) → is_ok (if b then x else y) ≡ (if b then is_ok x else is_ok y)
is_ok_if true x y = refl
is_ok_if false x y = refl

if_same {ℓ} : {A : Type ℓ} (b : Bool) (x : A) → (if b then x else x) ≡ x
if_same true x = refl
if_same false x = refl

is_ok-grpc : (c : String) → is_ok (grpc c) ≡ false
unfolding grpc
is_ok-grpc c = simp is_ok_if (unfold is_ok in simp if_same)

is_error_status-http : (c : String) → is_error_status (http c) ≡ true
unfolding http
is_error_status-http c = simp is_error_status_if (unfold is_error_status in simp if_same)

is_error_status_bounds : (n : ℕ) → is_error_status n ≡ true → (400 ≤ n) × (n < 600)
unfolding is_error_status
is_error_status_bounds n h = ground arith

-- No code, known or not, is sent as `OK`.
pub grpc-ne-ok : (c : String) → grpc c ≢ ok
unfolding is_ok
grpc-ne-ok c e = cc (is_ok-grpc c, ap is_ok e)

-- Every code, known or not, becomes an HTTP error status.
pub http_bounds : (c : String) → (400 ≤ http c) × (http c < 600)
http_bounds c = is_error_status_bounds (http c) (is_error_status-http c)

-- A listed code is logged as an error if its HTTP status is a server error, else as a warning.
pub level-http :
    (c : String) → elem c codes ≡ true → level c ≡ (if leb 500 (http c) then error else warn)
unfolding http level
level-http =
    elem_induction (λ c. level c ≡ (if leb 500 (http c) then error else warn)) codes (ground arith)
