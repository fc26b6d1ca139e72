-- ===== src/Lib.antt =====
-- The order path of the delivery backend: an HTTP request for an order at the gateway, the order
-- service that stores the order and an event in one transaction, the Kafka consumer that brings the
-- event to the notification service, and the errors that travel back through all of it; and how the
-- services are configured, start, log, serve and stop.
--
-- The parts, the files that model them and the code (paths from the repository's root):
--
-- - Errors, AppErr: platform/apperr. `Errors` has Go error values as one tree with the functions of
--   the package errors; `AppErr.Code` is code.go, `AppErr.Value` is error.go, constructors.go and
--   reason.go, `AppErr.Pg`, `AppErr.Grpc` and `AppErr.Ozzo` are the packages pgerr, grpcerr and
--   ozzoerr.
-- - Rpc: platform/grpc/interceptors, and the chain that services/order/internal/app/app.go sets up.
-- - Postgres: platform/postgres/tx.go. A store has the committed state and, in a transaction, the
--   transaction's own copy; WithinTx is a function on stores, and how Begin and Commit end is given.
-- - Order: services/order/internal. `Order.Domain` is domain, `Order.Event` is event/order.go,
--   `Order.Repo` is repository/pg, `Order.Service` is service/order.go, `Order.Grpc` is
--   transport/grpc/order.go.
-- - Kafka: platform/kafka/kafkaconsumer. `Kafka.Message` is message.go, `Kafka.Consumer` is
--   kafkaconsumer.go: a run is the sequence of the calls that the client of franz-go gets, over what
--   each poll returns. `Kafka.Consumer.Position`, `Kafka.Consumer.Feed` and `Kafka.Consumer.Drains`
--   follow one partition over all rounds; `Kafka.Consumer.Options` is New with options.go, and
--   processRecord.
-- - Notification: services/notification/internal. `Notification.Repo` is domain and repository/pg,
--   `Notification.Service` is service/notification.go, `Notification.Handler` is transport/kafka,
--   `Notification.Consumer` the consumer that internal/app/app.go runs on the router.
-- - Pipeline: an event of the order service's outbox as a record for the notification service, by the
--   connector of deploy/debezium/order-outbox.json.
-- - AppCtx: platform/appctx, with the box for an error as a pointer that contexts share.
-- - Gateway: services/gateway/internal. `Gateway.Client` is client/order.go and domain/order.go,
--   `Gateway.Http` is transport/http/v1/order with platform/http/bind and platform/http/response,
--   `Gateway.Middleware` is platform/http/middleware in the chain that internal/app sets up,
--   `Gateway.Router` is transport/http/router.go with platform/http/middleware/route.go.
-- - Catalog: services/product/internal, and services/order/internal/client/product.go.
-- - Account: services/user/internal (domain, repository/pg, service, transport/grpc), and
--   services/order/internal/client/user.go.
-- - Closer: platform/closer.
-- - Config: internal/config of the five services; `Config` has the sections that they share and New,
--   `Config.Services` the configurations and their Validate.
-- - Lifecycle: internal/app and cmd/main.go of the five services, with platform/postgres/postgres.go,
--   platform/listener and platform/grpc/grpcclient. `Lifecycle.Services` has what each New opens, in
--   order; `Lifecycle.Main` has Run, Close and main; `Lifecycle.Wiring` has what the configuration
--   becomes in telemetry, logger and debug server.
-- - Logger: platform/logger; `Logger.Options` is options.go and the settings of logger.go, and
--   `Logger.New` the chain of handlers that its New makes.
-- - Telemetry: platform/telemetry; `Telemetry.Build` is telemetry.go and config.go,
--   `Telemetry.ErrorHandler` is errorhandler.go, `Telemetry.Resource` is resource.go and
--   `Telemetry.Exporters` is exporters.go.
-- - Server: Serve of platform/http/httpserver, platform/grpc/grpcserver and platform/debugserver, and
--   the health server, with its Watch in `Server.Watch`; `Server.Headers` the headers of clients that
--   are dropped; `Server.Http` and `Server.Grpc` are New with the options of the two servers.
-- - DebugServer: platform/debugserver, handlers.go with its routes, the options and the profiling rates.
-- - Base: lists and integers over native numbers, 64-bit wrap-around, and UTF-8 on bytes.
-- - Examples: runs of the theorems on concrete values.
--
-- How they interact: `Order.Service.create_order` runs `Order.Repo` through `Postgres.within_tx`;
-- its errors pass `Rpc.chain` to `AppErr.Grpc.map_error` in `Gateway.Client`, and `Gateway.Http`
-- writes them. `Kafka.Consumer` calls a handler such as `Notification.Handler.handle`, whose state is
-- the store of `Notification.Repo`; `Notification.Consumer.run_consumer` is this composition, and
-- `Pipeline` joins it to `Order.Service.create_order`. `Gateway.Middleware.serve` runs the handlers of `Gateway.Http`.
-- `Lifecycle.Services.new_service` checks what `Config.new_config` returns and fills a `Closer` with what
-- it opens, which `Lifecycle.Main.main` closes.
--
-- Parameters. Code of other repositories and of the standard library is a parameter where the source
-- calls it: the answers of PostgreSQL to a statement, of Begin and of Commit, the identifiers of
-- uuid.NewV7, which texts are one UUID to PostgreSQL, the clock, json.Marshal and protojson,
-- protovalidate, ozzo-validation, uuid.Parse, the propagator of traces and the formatting of numbers.
-- The package status of grpc-go is the interface
-- `AppErr.Grpc.GrpcStatus`, with the laws that an error status survives the way through an error
-- value and that details are appended. The interleavings of the parallel lookups of an order are the
-- six orders in which they end. Debezium is the interface `Pipeline.IsEventRouter`, and what the polls
-- of franz-go may return is the relation `Kafka.Consumer.Feed.Feed`, and `Kafka.Consumer.Drains.Supply`
-- where no poll fails. Watch of grpc-go is the statuses that it sends. The SDK of OpenTelemetry is seen
-- through the options that it gets, and its merge of resources is `Telemetry.Resource.IsMerge`.
--
-- Bounds. No definition runs on fuel: loops are recursion on the list that the source ranges over,
-- and the endless loop of the consumer is recursion on the rounds that its environment gives. Totals
-- are integers reduced to 64 bits where the source adds and multiplies int64 values; a Go string is a
-- list of bytes.
--
-- Services. The endings of the calls that open and close something are given by a record: `World` for
-- New and Close of a service, `Providers` for telemetry, `Stopping` and a list of signals for Serve.
-- The rules of ozzo-validation are the interface `Config.Rules`, slog's handling of attribute lists is a
-- function that drops some empty groups.
--
-- Not modelled: other database sessions and their isolation, rebalances of the consumer group, the SDK
-- of OpenTelemetry and its exporters, the text that slog writes, timeouts as clocks (their effect is in
-- the endings above), how chi and the servers of the libraries match and read requests, the profiles
-- that the runtime writes, a panic of an HTTP handler that has written something, and generated code.
pub mod Base
pub mod Errors
pub mod AppErr
pub mod Rpc
pub mod Postgres
pub mod Order
pub mod Kafka
pub mod AppCtx
pub mod Gateway
pub mod Notification
pub mod Catalog
pub mod Closer
pub mod Config
pub mod Lifecycle
pub mod Account
pub mod Server
pub mod DebugServer
pub mod Logger
pub mod Telemetry
pub mod Pipeline
pub mod Examples
