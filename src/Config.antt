-- ===== src/Config.antt =====
-- services/*/internal/config: the configuration of the services, read from the environment.
--
-- `Rules` is what the program uses of ozzo-validation. A rule gives nil or an error; Required holds
-- of every struct, and a field that has a Validate method of its own is checked by it after its
-- rules. `env.Parse` is a parameter: the configuration that it fills, or its error.
pub mod Services
pub mod Sections
pub mod Laws
use delivery_backend.Base.{
  String, Bool, true, false, ◌≡◌, ◌≢◌, ◌⊎◌, List, [], ◌∷◌, All, if◌then◌else◌,
}
use delivery_backend.Base.Int.{ℤ, pos, ◌≤ℤ◌}
use delivery_backend.Errors.{Err, nil, wrapped, Result, success, failure}
use delivery_backend.AppErr.Code.Laws.{elem}

pub record Rules : Type 0 where
  pub required : String → Err
  pub required_list : List String → Err
  pub one_of : List String → String → Err
  pub min : ℤ → ℤ → Err
  pub struct_errors : List (String × Err) → Err
  pub required-nil : (s : String) → required s ≡ nil → s ≢ ""
  pub required_list-nil : (l : List String) → required_list l ≡ nil → l ≢ []
  pub one_of-nil :
      (ks : List String) (s : String) → one_of ks s ≡ nil → (s ≡ "") ⊎ (elem s ks ≡ true)
  pub min-nil : (n v : ℤ) → min n v ≡ nil → (v ≡ pos 0) ⊎ (n ≤ℤ v)
  pub struct_errors-nil :
      (es : List (String × Err)) → struct_errors es ≡ nil → All (λ e. e.1 ≡ nil) es

-- The rules of one field: the first error.
abbrev pub then_rule : Err → Err → Err
then_rule nil e = e
then_rule err e = err

pub record App : Type 0 where
  pub name : String

pub record Log : Type 0 where
  pub level : String
  pub format : String

pub record Pg : Type 0 where
  pub dsn : String
  pub max_conns : ℤ

pub record GrpcServer : Type 0 where
  pub addr : String
  pub reflection : Bool

-- UserService, ProductService and OrderService: where a service is reached.
pub record Peer : Type 0 where
  pub addr : String

pub record Http : Type 0 where
  pub addr : String

pub record FakeAuth : Type 0 where
  pub user_id : String

pub record Kafka : Type 0 where
  pub brokers : List String
  pub consumer_group : String
  pub topics : List String

pub record Telemetry : Type 0 where
  pub enabled : Bool
  pub endpoint : String

pub record Debug : Type 0 where
  pub addr : String
  pub mutex_fraction : ℤ
  pub block_rate : ℤ

abbrev pub levels : List String
levels = "debug" ∷ "info" ∷ "warn" ∷ "error" ∷ []

abbrev pub formats : List String
formats = "text" ∷ "json" ∷ []

module _ (r : Rules) where
  unfoldable pub validate_app : App → Err
  validate_app a = r.struct_errors (("Name", r.required a.name) ∷ [])

  unfoldable pub validate_log : Log → Err
  validate_log l = r.struct_errors (
      ("Level", then_rule (r.required l.level) (r.one_of levels l.level))
      ∷ ("Format", then_rule (r.required l.format) (r.one_of formats l.format))
      ∷ [])

  unfoldable pub validate_pg : Pg → Err
  validate_pg p =
      r.struct_errors (("DSN", r.required p.dsn) ∷ ("MaxConns", r.min (pos 1) p.max_conns) ∷ [])

  unfoldable pub validate_grpc_server : GrpcServer → Err
  validate_grpc_server g = r.struct_errors (("Addr", r.required g.addr) ∷ [])

  unfoldable pub validate_peer : Peer → Err
  validate_peer p = r.struct_errors (("Addr", r.required p.addr) ∷ [])

  unfoldable pub validate_http : Http → Err
  validate_http h = r.struct_errors (("Addr", r.required h.addr) ∷ [])

  unfoldable pub validate_fake_auth : FakeAuth → Err
  validate_fake_auth f = r.struct_errors (("UserID", r.required f.user_id) ∷ [])

  unfoldable pub validate_kafka : Kafka → Err
  validate_kafka k = r.struct_errors (
      ("Brokers", r.required_list k.brokers)
      ∷ ("ConsumerGroup", r.required k.consumer_group)
      ∷ ("Topics", r.required_list k.topics)
      ∷ [])

  unfoldable pub validate_telemetry : Telemetry → Err
  validate_telemetry t =
      r.struct_errors (("Endpoint", if t.enabled then r.required t.endpoint else nil) ∷ [])

  unfoldable pub validate_debug : Debug → Err
  validate_debug d = r.struct_errors (
      ("MutexFraction", r.min (pos 0) d.mutex_fraction)
      ∷ ("BlockRate", r.min (pos 0) d.block_rate)
      ∷ [])

-- New, for the configuration of any service: `validate` is its Validate.
module _ {ℓ} {C : Type ℓ} (validate : C → Err) where
  abbrev pub valid : C → Err → Result C
  valid c nil = success c
  valid c err = failure (wrapped "config: validate: " err "")

  unfoldable pub new_config : Result C → Result C
  new_config (failure err) = failure (wrapped "config: parse env: " err "")
  new_config (success c) = valid c (validate c)
