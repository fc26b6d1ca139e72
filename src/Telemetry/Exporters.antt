-- ===== src/Telemetry/Exporters.antt =====
-- platform/telemetry/exporters.go: what the providers of OpenTelemetry are made with.
--
-- The exporters of OTLP are seen through the error of their constructors, and a provider through
-- the options that it gets. `getenv` is os.Getenv; the span limits that the SDK reads from its own
-- variables are an argument. Durations are numbers of nanoseconds.
use delivery_backend.Base.{ℕ, String, List, [], ◌∷◌, ◌++◌, ◌==◌, arith, if◌then◌else◌}
use delivery_backend.Base.Int.{ℤ, pos, negsuc, ◌≤ℤ◌}
use delivery_backend.Errors.{Err, nil, wrapped, Result, success, failure}
use delivery_backend.Telemetry.Resource.{Attributes}

abbrev pub default_metric_interval : ℕ
default_metric_interval = 10000000000

abbrev pub default_attribute_value_length_limit : ℤ
default_attribute_value_length_limit = pos 1024

-- sdktrace.SpanLimits: the length of a value, negative for none, and the other limits.
pub record SpanLimits : Type 0 where
  pub attribute_value_length_limit : ℤ
  pub counts : List ℤ

abbrev pub limited : ℤ → ℤ
limited (pos n) = pos n
limited (negsuc n) = default_attribute_value_length_limit

-- spanLimits, from sdktrace.NewSpanLimits.
unfoldable pub span_limits : SpanLimits → SpanLimits
span_limits limits = record limits {
  attribute_value_length_limit = limited limits.attribute_value_length_limit;
}

-- The options that the three kinds of providers get.
pub data ProviderOption : Type 0 where
  with_batcher with_log_processor : ProviderOption
  with_resource : Attributes → ProviderOption
  with_raw_span_limits : SpanLimits → ProviderOption
  -- a reader of metrics, with its interval where one is set
  with_reader : List ℕ → ProviderOption
  with_attribute_value_length_limit : ℤ → ProviderOption

-- newTracerProvider, newMeterProvider and newLoggerProvider, from the error of the exporter.
abbrev pub exported : String → List ProviderOption → Err → Result (List ProviderOption)
exported prefix options nil = success options
exported prefix options err = failure (wrapped prefix err "")

unfoldable pub new_tracer_provider : Err → Attributes → SpanLimits → Result (List ProviderOption)
new_tracer_provider err res limits =
    exported "telemetry: trace exporter: "
      (with_batcher ∷ with_resource res ∷ with_raw_span_limits (span_limits limits) ∷ []) err

module _ (getenv : String → String) where
  -- newPeriodicReader: the interval, unless the environment sets one.
  unfoldable pub reader_intervals : List ℕ
  reader_intervals =
      if getenv "OTEL_METRIC_EXPORT_INTERVAL" == "" then default_metric_interval ∷ [] else []

  unfoldable pub new_meter_provider : Err → Attributes → Result (List ProviderOption)
  new_meter_provider err res =
      exported "telemetry: metric exporter: "
        (with_reader reader_intervals ∷ with_resource res ∷ []) err

  abbrev pub env_log_attribute_value_length_limit : String
  env_log_attribute_value_length_limit = "OTEL_LOGRECORD_ATTRIBUTE_VALUE_LENGTH_LIMIT"

  unfoldable pub logger_provider_options : Attributes → List ProviderOption
  logger_provider_options res =
      (with_log_processor ∷ with_resource res ∷ [])
      ++ (if getenv env_log_attribute_value_length_limit == ""
          then with_attribute_value_length_limit default_attribute_value_length_limit ∷ []
          else [])

  unfoldable pub new_logger_provider : Err → Attributes → Result (List ProviderOption)
  new_logger_provider err res =
      exported "telemetry: log exporter: " (logger_provider_options res) err

-- sdkmetric.InstrumentKind
pub data InstrumentKind : Type 0 where
  counter up_down_counter histogram gauge : InstrumentKind
  observable_counter observable_up_down_counter observable_gauge : InstrumentKind

pub data Temporality : Type 0 where
  delta cumulative : Temporality

unfoldable pub delta_temporality : InstrumentKind → Temporality
delta_temporality counter = delta
delta_temporality histogram = delta
delta_temporality observable_counter = delta
delta_temporality _ = cumulative

limited_nonneg : (n : ℤ) → pos 0 ≤ℤ limited n
limited_nonneg (pos n) = omega arith
limited_nonneg (negsuc n) = omega arith

-- Whatever the environment sets, the length of a span's value is limited: to what the environment
-- says, or to the default where it says that there is no limit.
span_limits_bounded :
    (limits : SpanLimits) → pos 0 ≤ℤ (span_limits limits).attribute_value_length_limit
unfolding span_limits
span_limits_bounded limits = limited_nonneg limits.attribute_value_length_limit
