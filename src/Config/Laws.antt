-- ===== src/Config/Laws.antt =====
-- services/*/internal/config/config.go: what a configuration that New returns satisfies.
use delivery_backend.Base.{◌≡◌, ◌≢◌}
use delivery_backend.Errors.{nil, Result, success}
use delivery_backend.Config.{Rules, new_config}
use delivery_backend.Config.Services.{
  Service, order_service, user_service, product_service, notification_service, gateway, Config,
  validate, OrderConfig, UserConfig, ProductConfig, NotificationConfig, GatewayConfig,
  validate_order, validate_user, validate_product, validate_notification, validate_gateway,
}
use delivery_backend.Config.Sections.{
  IsValidLog, IsValidPg, IsValidTelemetry, IsValidDebug, IsValidKafka, app_valid, log_valid,
  pg_valid, grpc_valid, peer_valid, http_valid, fake_auth_valid, kafka_valid, telemetry_valid,
  debug_valid, new_config-success,
}

-- What a configuration of the order service is known to satisfy once New has returned it.
pub record IsValidOrder (c : OrderConfig) : Type 0 where
  pub app : c.app.name ≢ ""
  pub log : IsValidLog c.log
  pub pg : IsValidPg c.pg
  pub grpc_server : c.grpc_server.addr ≢ ""
  pub user_service : c.user_service.addr ≢ ""
  pub product_service : c.product_service.addr ≢ ""
  pub telemetry : IsValidTelemetry c.telemetry
  pub debug : IsValidDebug c.debug

pub record IsValidNotification (c : NotificationConfig) : Type 0 where
  pub app : c.app.name ≢ ""
  pub log : IsValidLog c.log
  pub pg : IsValidPg c.pg
  pub kafka : IsValidKafka c.kafka
  pub telemetry : IsValidTelemetry c.telemetry
  pub debug : IsValidDebug c.debug

pub record IsValidGateway (c : GatewayConfig) : Type 0 where
  pub app : c.app.name ≢ ""
  pub log : IsValidLog c.log
  pub http : c.http.addr ≢ ""
  pub order_service : c.order_service.addr ≢ ""
  pub fake_auth : c.fake_auth.user_id ≢ ""
  pub telemetry : IsValidTelemetry c.telemetry
  pub debug : IsValidDebug c.debug

pub record IsValidUser (c : UserConfig) : Type 0 where
  pub app : c.app.name ≢ ""
  pub log : IsValidLog c.log
  pub pg : IsValidPg c.pg
  pub grpc_server : c.grpc_server.addr ≢ ""
  pub telemetry : IsValidTelemetry c.telemetry
  pub debug : IsValidDebug c.debug

pub record IsValidProduct (c : ProductConfig) : Type 0 where
  pub app : c.app.name ≢ ""
  pub log : IsValidLog c.log
  pub pg : IsValidPg c.pg
  pub grpc_server : c.grpc_server.addr ≢ ""
  pub telemetry : IsValidTelemetry c.telemetry
  pub debug : IsValidDebug c.debug

abbrev pub IsValid : (s : Service) → Config s → Type 0
IsValid order_service = IsValidOrder
IsValid user_service = IsValidUser
IsValid product_service = IsValidProduct
IsValid notification_service = IsValidNotification
IsValid gateway = IsValidGateway

module _ (r : Rules) where
  order_valid : (c : OrderConfig) → validate_order r c ≡ nil → IsValidOrder c
  unfolding validate_order
  order_valid c h =
      let es = r.struct_errors-nil _ h in
      record {
        app = app_valid r c.app es.0;
        log = log_valid r c.log es.1.0;
        pg = pg_valid r c.pg es.1.1.0;
        grpc_server = grpc_valid r c.grpc_server es.1.1.1.0;
        user_service = peer_valid r c.user_service es.1.1.1.1.0;
        product_service = peer_valid r c.product_service es.1.1.1.1.1.0;
        telemetry = telemetry_valid r c.telemetry es.1.1.1.1.1.1.0;
        debug = debug_valid r c.debug es.1.1.1.1.1.1.1.0;
      }

  notification_valid :
      (c : NotificationConfig) → validate_notification r c ≡ nil → IsValidNotification c
  unfolding validate_notification
  notification_valid c h =
      let es = r.struct_errors-nil _ h in
      record {
        app = app_valid r c.app es.0;
        log = log_valid r c.log es.1.0;
        pg = pg_valid r c.pg es.1.1.0;
        kafka = kafka_valid r c.kafka es.1.1.1.0;
        telemetry = telemetry_valid r c.telemetry es.1.1.1.1.0;
        debug = debug_valid r c.debug es.1.1.1.1.1.0;
      }

  gateway_valid : (c : GatewayConfig) → validate_gateway r c ≡ nil → IsValidGateway c
  unfolding validate_gateway
  gateway_valid c h =
      let es = r.struct_errors-nil _ h in
      record {
        app = app_valid r c.app es.0;
        log = log_valid r c.log es.1.0;
        http = http_valid r c.http es.1.1.0;
        order_service = peer_valid r c.order_service es.1.1.1.0;
        fake_auth = fake_auth_valid r c.fake_auth es.1.1.1.1.0;
        telemetry = telemetry_valid r c.telemetry es.1.1.1.1.1.0;
        debug = debug_valid r c.debug es.1.1.1.1.1.1.0;
      }

  user_valid : (c : UserConfig) → validate_user r c ≡ nil → IsValidUser c
  unfolding validate_user
  user_valid c h =
      let es = r.struct_errors-nil _ h in
      record {
        app = app_valid r c.app es.0;
        log = log_valid r c.log es.1.0;
        pg = pg_valid r c.pg es.1.1.0;
        grpc_server = grpc_valid r c.grpc_server es.1.1.1.0;
        telemetry = telemetry_valid r c.telemetry es.1.1.1.1.0;
        debug = debug_valid r c.debug es.1.1.1.1.1.0;
      }

  product_valid : (c : ProductConfig) → validate_product r c ≡ nil → IsValidProduct c
  unfolding validate_product
  product_valid c h =
      let es = r.struct_errors-nil _ h in
      record {
        app = app_valid r c.app es.0;
        log = log_valid r c.log es.1.0;
        pg = pg_valid r c.pg es.1.1.0;
        grpc_server = grpc_valid r c.grpc_server es.1.1.1.0;
        telemetry = telemetry_valid r c.telemetry es.1.1.1.1.0;
        debug = debug_valid r c.debug es.1.1.1.1.1.0;
      }

  validate-IsValid : (s : Service) (c : Config s) → validate r s c ≡ nil → IsValid s c
  validate-IsValid order_service = order_valid
  validate-IsValid user_service = user_valid
  validate-IsValid product_service = product_valid
  validate-IsValid notification_service = notification_valid
  validate-IsValid gateway = gateway_valid

  pub new_config-IsValid :
      (s : Service) (parsed : Result (Config s)) (c : Config s)
      → new_config (validate r s) parsed ≡ success c
      → IsValid s c
  new_config-IsValid s parsed c h =
      validate-IsValid s c (new_config-success (validate r s) parsed c h)
