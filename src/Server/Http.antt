-- ===== src/Server/Http.antt =====
-- platform/http/httpserver (New and tracedHandler of server.go, and options.go): the settings of the
-- HTTP server, and what is traced.
--
-- The servers of net/http and otelhttp are seen through the settings and options that they get.
-- Durations are numbers of nanoseconds. The router of chi is left out, and the middleware Route is in
-- Gateway.Router.
use Prim.Native.Char.{code}
use delivery_backend.Base.{
  ℕ, ◌*◌, String, ◌≡◌, ◌∙◌, Bool, true, false, not, ◌&&◌, ◌||◌, List, [], ◌∷◌, ◌++◌, eqb,
  if◌then◌else◌, arith,
}

abbrev pub second : ℕ
second = 1000000000

-- The fields of Server that New and the options set.
pub record Settings : Type 0 where
  pub addr : String
  pub shutdown_timeout : ℕ
  pub public_endpoint : Bool

pub data ServerOption : Type 0 where
  with_shutdown_timeout : ℕ → ServerOption
  with_public_endpoint : ServerOption

unfoldable pub apply : ServerOption → Settings → Settings
apply (with_shutdown_timeout timeout) s = record s { shutdown_timeout = timeout }
apply with_public_endpoint s = record s { public_endpoint = true }

unfoldable pub apply_all : List ServerOption → Settings → Settings
apply_all [] s = s
apply_all (o ∷ os) s = apply_all os (apply o s)

abbrev pub defaults : String → Settings
defaults addr = record { addr = addr; shutdown_timeout = 10 * second; public_endpoint = false }

-- strings.HasPrefix
unfoldable pub has_prefix : String → String → Bool
has_prefix s String.[] = true
has_prefix String.[] (String.◌∷◌ c p) = false
has_prefix (String.◌∷◌ d s) (String.◌∷◌ c p) = eqb (code d) (code c) && has_prefix s p

abbrev pub swagger_prefix : String
swagger_prefix = "/swagger/"

-- The filter of tracedHandler.
unfoldable pub is_traced : String → Bool
is_traced path = not (has_prefix path swagger_prefix)

-- The options of otelhttp; with the propagator of trace contexts, baggage is not read.
pub data OtelOption : Type 0 where
  with_server_name : String → OtelOption
  with_filter : (String → Bool) → OtelOption
  with_public_endpoint_fn with_trace_context : OtelOption

unfoldable pub otel_options : Settings → List OtelOption
otel_options s =
    (with_server_name s.addr ∷ with_filter is_traced ∷ [])
    ++ (if s.public_endpoint then with_public_endpoint_fn ∷ with_trace_context ∷ [] else [])

-- http.Server, as New sets it up.
pub record HttpServer : Type 0 where
  pub settings : Settings
  pub otel : List OtelOption
  pub read_header_timeout : ℕ
  pub max_header_bytes : ℕ

unfoldable pub new : String → List ServerOption → HttpServer
new addr os =
    let s : Settings = apply_all os (defaults addr) in
    record {
      settings = s;
      otel = otel_options s;
      read_header_timeout = 10 * second;
      max_header_bytes = 16384;
    }

abbrev pub is_public : List ServerOption → Bool
is_public [] = false
is_public (with_public_endpoint ∷ os) = true
is_public (with_shutdown_timeout t ∷ os) = is_public os

apply_all_public :
    (os : List ServerOption) (s : Settings)
    → (apply_all os s).public_endpoint ≡ s.public_endpoint || is_public os
unfolding apply_all apply
apply_all_public [] s = ground arith
apply_all_public (with_shutdown_timeout t ∷ os) s =
    apply_all_public os (record s { shutdown_timeout = t })
apply_all_public (with_public_endpoint ∷ os) s =
    apply_all_public os (record s { public_endpoint = true }) ∙ ground arith

-- A server is public if one of its options says so, wherever it stands among them.
pub new_public :
    (addr : String) (os : List ServerOption) → (new addr os).settings.public_endpoint ≡ is_public os
unfolding new
new_public addr os = apply_all_public os (defaults addr)
