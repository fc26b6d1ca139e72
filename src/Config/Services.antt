-- ===== src/Config/Services.antt =====
-- services/*/internal/config/config.go: the configuration of each service and its Validate.
use delivery_backend.Base.{[], ◌∷◌}
use delivery_backend.Errors.{Err}
use delivery_backend.Config.{
  Rules, App, Log, Pg, GrpcServer, Peer, Http, FakeAuth, Kafka, Telemetry, Debug, validate_app,
  validate_log, validate_pg, validate_grpc_server, validate_peer, validate_http, validate_fake_auth,
  validate_kafka, validate_telemetry, validate_debug,
}

pub record OrderConfig : Type 0 where
  pub app : App
  pub log : Log
  pub pg : Pg
  pub grpc_server : GrpcServer
  pub user_service : Peer
  pub product_service : Peer
  pub telemetry : Telemetry
  pub debug : Debug

-- The user service and the product service have the same fields.
pub record UserConfig : Type 0 where
  pub app : App
  pub log : Log
  pub pg : Pg
  pub grpc_server : GrpcServer
  pub telemetry : Telemetry
  pub debug : Debug

pub record ProductConfig : Type 0 where
  pub app : App
  pub log : Log
  pub pg : Pg
  pub grpc_server : GrpcServer
  pub telemetry : Telemetry
  pub debug : Debug

pub record NotificationConfig : Type 0 where
  pub app : App
  pub log : Log
  pub pg : Pg
  pub kafka : Kafka
  pub telemetry : Telemetry
  pub debug : Debug

pub record GatewayConfig : Type 0 where
  pub app : App
  pub log : Log
  pub http : Http
  pub order_service : Peer
  pub fake_auth : FakeAuth
  pub telemetry : Telemetry
  pub debug : Debug

pub data Service : Type 0 where
  order_service user_service product_service notification_service gateway : Service

abbrev pub Config : Service → Type 0
Config order_service = OrderConfig
Config user_service = UserConfig
Config product_service = ProductConfig
Config notification_service = NotificationConfig
Config gateway = GatewayConfig

module _ (r : Rules) where
  unfoldable pub validate_order : OrderConfig → Err
  validate_order c = r.struct_errors (
      ("App", validate_app r c.app)
      ∷ ("Log", validate_log r c.log)
      ∷ ("PG", validate_pg r c.pg)
      ∷ ("GRPCServer", validate_grpc_server r c.grpc_server)
      ∷ ("UserService", validate_peer r c.user_service)
      ∷ ("ProductService", validate_peer r c.product_service)
      ∷ ("Telemetry", validate_telemetry r c.telemetry)
      ∷ ("Debug", validate_debug r c.debug)
      ∷ [])

  unfoldable pub validate_user : UserConfig → Err
  validate_user c = r.struct_errors (
      ("App", validate_app r c.app)
      ∷ ("Log", validate_log r c.log)
      ∷ ("PG", validate_pg r c.pg)
      ∷ ("GRPCServer", validate_grpc_server r c.grpc_server)
      ∷ ("Telemetry", validate_telemetry r c.telemetry)
      ∷ ("Debug", validate_debug r c.debug)
      ∷ [])

  unfoldable pub validate_product : ProductConfig → Err
  validate_product c = r.struct_errors (
      ("App", validate_app r c.app)
      ∷ ("Log", validate_log r c.log)
      ∷ ("PG", validate_pg r c.pg)
      ∷ ("GRPCServer", validate_grpc_server r c.grpc_server)
      ∷ ("Telemetry", validate_telemetry r c.telemetry)
      ∷ ("Debug", validate_debug r c.debug)
      ∷ [])

  unfoldable pub validate_notification : NotificationConfig → Err
  validate_notification c = r.struct_errors (
      ("App", validate_app r c.app)
      ∷ ("Log", validate_log r c.log)
      ∷ ("PG", validate_pg r c.pg)
      ∷ ("Kafka", validate_kafka r c.kafka)
      ∷ ("Telemetry", validate_telemetry r c.telemetry)
      ∷ ("Debug", validate_debug r c.debug)
      ∷ [])

  unfoldable pub validate_gateway : GatewayConfig → Err
  validate_gateway c = r.struct_errors (
      ("App", validate_app r c.app)
      ∷ ("Log", validate_log r c.log)
      ∷ ("HTTP", validate_http r c.http)
      ∷ ("OrderService", validate_peer r c.order_service)
      ∷ ("FakeAuth", validate_fake_auth r c.fake_auth)
      ∷ ("Telemetry", validate_telemetry r c.telemetry)
      ∷ ("Debug", validate_debug r c.debug)
      ∷ [])

  -- The Validate of each service's configuration.
  abbrev pub validate : (s : Service) → Config s → Err
  validate order_service = validate_order
  validate user_service = validate_user
  validate product_service = validate_product
  validate notification_service = validate_notification
  validate gateway = validate_gateway
