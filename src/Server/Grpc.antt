-- ===== src/Server/Grpc.antt =====
-- platform/grpc/grpcserver (New of server.go and options.go) and newGRPCServer of the services: the
-- options and the services of the gRPC server.
--
-- grpc.NewServer is seen through the options that it gets, and the server through the services that
-- are registered. Durations are numbers of nanoseconds.
use delivery_backend.Base.{
  ℕ, ◌*◌, String, ◌≡◌, sym, ap, ◌∙◌, Bool, false, List, [], ◌∷◌, ◌++◌, append_assoc, append-nil,
  if◌then◌else◌,
}

-- The interceptors of platform/grpc/interceptors, the outermost first.
pub data Interceptor : Type 0 where
  error logger validation : Interceptor

-- The filters of otelgrpc that the program gives; a call is traced if none of them takes it.
pub data Filter : Type 0 where
  service_prefix : String → Filter
  health_check : Filter

-- grpc.ServerOption: those that the program gives, and any other.
pub data GrpcOption : Type 0 where
  stats_handler : List Filter → GrpcOption
  chain_unary : List Interceptor → GrpcOption
  other : String → GrpcOption

pub record Settings : Type 0 where
  pub server_options : List GrpcOption
  pub shutdown_timeout : ℕ
  pub reflection : Bool

pub data ServerOption : Type 0 where
  with_server_options : List GrpcOption → ServerOption
  with_shutdown_timeout : ℕ → ServerOption
  with_reflection : Bool → ServerOption

unfoldable pub apply : ServerOption → Settings → Settings
apply (with_server_options os) s = record s { server_options = s.server_options ++ os }
apply (with_shutdown_timeout timeout) s = record s { shutdown_timeout = timeout }
apply (with_reflection enabled) s = record s { reflection = enabled }

unfoldable pub apply_all : List ServerOption → Settings → Settings
apply_all [] s = s
apply_all (o ∷ os) s = apply_all os (apply o s)

abbrev pub defaults : Settings
defaults = record { server_options = []; shutdown_timeout = 10 * 1000000000; reflection = false }

-- The library's server: its options, and the services of New.
pub data Registered : Type 0 where
  health_service reflection_service : Registered

pub record GrpcServer : Type 0 where
  pub settings : Settings
  pub options : List GrpcOption
  pub services : List Registered

abbrev pub otel_stats_handler : GrpcOption
otel_stats_handler = stats_handler (service_prefix "grpc.reflection." ∷ health_check ∷ [])

unfoldable pub new : List ServerOption → GrpcServer
new os =
    let s : Settings = apply_all os defaults in
    record {
      settings = s;
      options = otel_stats_handler ∷ s.server_options;
      services = health_service ∷ (if s.reflection then reflection_service ∷ [] else []);
    }

-- The server of the order, user and product services; the service's own registration is left out.
unfoldable pub new_grpc_server : Bool → GrpcServer
new_grpc_server enabled = new (
    with_reflection enabled
    ∷ with_server_options (chain_unary (error ∷ logger ∷ validation ∷ []) ∷ [])
    ∷ [])

abbrev pub server_options_of : List ServerOption → List GrpcOption
server_options_of [] = []
server_options_of (with_server_options gs ∷ os) = gs ++ server_options_of os
server_options_of (with_shutdown_timeout t ∷ os) = server_options_of os
server_options_of (with_reflection b ∷ os) = server_options_of os

apply_all-server_options :
    (os : List ServerOption) (s : Settings)
    → (apply_all os s).server_options ≡ s.server_options ++ server_options_of os
unfolding apply_all apply
apply_all-server_options [] s = sym (append-nil s.server_options)
apply_all-server_options (with_server_options gs ∷ os) s =
    apply_all-server_options os (record s { server_options = s.server_options ++ gs })
    ∙ append_assoc s.server_options gs (server_options_of os)
apply_all-server_options (with_shutdown_timeout t ∷ os) s =
    apply_all-server_options os (record s { shutdown_timeout = t })
apply_all-server_options (with_reflection b ∷ os) s =
    apply_all-server_options os (record s { reflection = b })

-- The library's server is traced with the filters, and has all options of the caller in their order.
pub new_options :
    (os : List ServerOption) → (new os).options ≡ otel_stats_handler ∷ server_options_of os
unfolding new
new_options os = ap (λ l. otel_stats_handler ∷ l) (apply_all-server_options os defaults)
