-- ===== src/Startup/Telemetry.antt =====
-- otel.go and metrics.go: what the start makes of the telemetry, and where it stops.
use tdiscuss.Base.{Bool, true, false, List, [], ◌∷◌, ◌++◌, if◌then◌else◌, Option, none, some}
use tdiscuss.Text.{Text, codes}

-- What the libraries answer. `create` is whether an instrument of a name can be made.
pub record Exporters : Type 0 where
  pub resource : Bool
  pub prometheus : Bool
  pub otlp_metrics : Bool
  pub otlp_logs : Bool
  pub otlp_traces : Bool
  pub create : Text → Bool

-- The instruments that are set, by their names; the others are nil.
abbrev pub Metrics : Type 0
Metrics = List Text

-- The loop over the definitions of one kind: it returns at the first error. The Boolean is whether
-- it returns nil.
unfoldable pub make_all : (Text → Bool) → List Text → Bool × Metrics
make_all create [] = (true, [])
make_all create (name ∷ names) =
    let (ok, made) = make_all create names in if create name then (ok, name ∷ made) else (false, [])

abbrev pub counters : List Text
counters = codes "http_requests_total" ∷ codes "http_errors_total" ∷ []

abbrev pub version_gauge : Text
version_gauge = codes "tdiscuss_build_info"

abbrev pub gauges : List Text
gauges = version_gauge ∷ []

abbrev pub histograms : List Text
histograms = codes "http_request_duration_seconds" ∷ codes "db_query_duration_seconds" ∷ []

abbrev and_then : Bool × Metrics → Bool × Metrics → Bool × Metrics
and_then (true, made) (ok, more) = (ok, made ++ more)
and_then (false, made) rest = (false, made)

unfoldable pub initialize_metrics : (Text → Bool) → Bool × Metrics
unfolding make_all
initialize_metrics create =
    and_then (make_all create counters)
      (and_then (make_all create gauges) (make_all create histograms))

-- The exporter of the metrics, by the flag.
abbrev pub metric_exporter : Bool → Exporters → Bool
metric_exporter otlp ex = if otlp then ex.otlp_metrics else ex.prometheus

-- None is an error, with which the configuration is nil. The error of `initializeMetrics` is
-- dropped.
unfoldable pub setup_telemetry : Bool → Exporters → Option Metrics
unfolding initialize_metrics
setup_telemetry otlp ex =
    if ex.resource
    then if metric_exporter otlp ex
      then if ex.otlp_logs
        then if ex.otlp_traces then some (initialize_metrics ex.create).1 else none
        else none
      else none
    else none
