-- ===== src/Lifecycle/Services.antt =====
-- services/*/internal/app/app.go: what the New of each service opens, and in which order.
use delivery_backend.Base.{List, [], ◌∷◌, ◌==◌, if◌then◌else◌}
use delivery_backend.Errors.{Result}
use delivery_backend.Config.{Rules, Debug, new_config}
use delivery_backend.Config.Services.{
  Service, order_service, user_service, product_service, notification_service, gateway, Config,
  OrderConfig, UserConfig, ProductConfig, NotificationConfig, GatewayConfig, validate,
}
use delivery_backend.Lifecycle.{
  World, Event, Init, Step, obtain, make_validator, telemetry, pool, consumer, connection,
  listening, new_app,
}

-- initDebugServer: no debug server if no address is set.
unfoldable pub debug_steps : Debug → List Step
debug_steps d = if d.addr == "" then [] else obtain (listening d.addr) ∷ []

abbrev pub order_steps : OrderConfig → List Step
order_steps c =
    obtain telemetry
    ∷ obtain pool
    ∷ make_validator
    ∷ obtain (connection c.user_service.addr)
    ∷ obtain (connection c.product_service.addr)
    ∷ obtain (listening c.grpc_server.addr)
    ∷ debug_steps c.debug

abbrev pub user_steps : UserConfig → List Step
user_steps c =
    obtain telemetry
    ∷ obtain pool
    ∷ make_validator
    ∷ obtain (listening c.grpc_server.addr)
    ∷ debug_steps c.debug

abbrev pub product_steps : ProductConfig → List Step
product_steps c =
    obtain telemetry
    ∷ obtain pool
    ∷ make_validator
    ∷ obtain (listening c.grpc_server.addr)
    ∷ debug_steps c.debug

abbrev pub notification_steps : NotificationConfig → List Step
notification_steps c = obtain telemetry ∷ obtain pool ∷ obtain consumer ∷ debug_steps c.debug

abbrev pub gateway_steps : GatewayConfig → List Step
gateway_steps c =
    obtain telemetry
    ∷ obtain (connection c.order_service.addr)
    ∷ obtain (listening c.http.addr)
    ∷ debug_steps c.debug

abbrev pub steps : (s : Service) → Config s → List Step
steps order_service = order_steps
steps user_service = user_steps
steps product_service = product_steps
steps notification_service = notification_steps
steps gateway = gateway_steps

-- The New of each service's app, for what env.Parse gives.
abbrev pub new_service :
    Rules → World → (s : Service) → Result (Config s) → Result Init × List Event
new_service r w s parsed = new_app w (steps s) (new_config (validate r s) parsed)
