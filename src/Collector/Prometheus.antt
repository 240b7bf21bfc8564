-- ===== src/Collector/Prometheus.antt =====
-- internal/collector/collector.go with internal/constants/metrics.go: queries to Prometheus, and whether the
-- metrics of a model are there and up to date.
use inferno_autoscaler.Base.{
  String, Bool, true, false, List, [], ◌∷◌, Option, none, some, ltb, ◌==◌, length, map,
  if◌then◌else◌, ℤ, pos, negsuc, Float, Double,
}
use Prim.Native.String.{◌++◌}
use inferno_autoscaler.Controller.Engines.{MetricsValidation}
use inferno_autoscaler.Collector.Queries.{extract_metric}

-- A sample of a vector: its value and its time.
pub record Reading (D : Type 0) : Type 0 where
  pub value : D
  pub timestamp : ℤ

-- The result of a query: an error, a vector, or a value of another type.
pub data QueryResult (D : Type 0) : Type 0 where
  failed : (error : String) → QueryResult D
  vector : List (Reading D) → QueryResult D
  no_vector : QueryResult D

-- What the collector calls, over a state that any call may change.
pub record Prometheus (D C : Type 0) : Type 0 where
  pub query : String → C → C × QueryResult D
  -- time.Since, in nanoseconds
  pub since : (timestamp : ℤ) → C → C × ℤ
  -- %v of a duration
  pub show_duration : ℤ → String

-- {model_name="...",namespace="..."}, as the queries of collector.go write it.
abbrev pub selector : (metric model_name namespace : String) → String
selector metric model_name namespace =
    metric ++ "{model_name=\"" ++ model_name ++ "\",namespace=\"" ++ namespace ++ "\"}"

abbrev pub sum_rate : (metric model_name namespace : String) → String
sum_rate metric model_name namespace =
    "sum(rate(" ++ selector metric model_name namespace ++ "[1m]))"

abbrev pub rate_ratio : (sum count model_name namespace : String) → String
rate_ratio sum count model_name namespace =
    sum_rate sum model_name namespace ++ "/" ++ sum_rate count model_name namespace

abbrev pub num_request_running : String
num_request_running = "vllm:num_requests_running"

abbrev pub fallback_query : (model_name : String) → String
fallback_query model_name = num_request_running ++ "{model_name=\"" ++ model_name ++ "\"}"

-- The results of the validation.
abbrev pub query_failed : String → MetricsValidation
query_failed error = record {
  available = false;
  reason = "PrometheusError";
  message = "Failed to query Prometheus: " ++ error;
}

abbrev pub missing : (model_name namespace advice : String) → MetricsValidation
missing model_name namespace advice = record {
  available = false;
  reason = "MetricsMissing";
  message =
      "No vLLM metrics found for model '" ++ model_name ++ "' in namespace '" ++ namespace ++ "'. "
      ++ advice;
}

abbrev pub stale : (model_name age : String) → MetricsValidation
stale model_name age = record {
  available = false;
  reason = "MetricsStale";
  message =
      "vLLM metrics for model '" ++ model_name ++ "' are stale (last update: " ++ age
      ++ " ago). ServiceMonitor may not be scraping correctly.";
}

abbrev pub metrics_found : MetricsValidation
metrics_found = record {
  available = true;
  reason = "MetricsFound";
  message = "vLLM metrics are available and up-to-date";
}

abbrev pub other_type_advice : String
other_type_advice =
    "Check ServiceMonitor configuration and ensure vLLM pods are exposing /metrics endpoint"

abbrev pub empty_advice : String
empty_advice =
    "Check: (1) ServiceMonitor exists in monitoring namespace, (2) ServiceMonitor selector matches "
    ++ "vLLM service labels, (3) vLLM pods are running and exposing /metrics endpoint, (4) "
    ++ "Prometheus is scraping the monitoring namespace"

-- age > 5*time.Minute
abbrev pub is_stale : ℤ → Bool
is_stale (pos n) = ltb 300_000_000_000 n
is_stale (negsuc n) = false

module _ {D C : Type 0} (prometheus : Prometheus D C) (model_name namespace : String) where
  -- The loop over the samples.
  unfoldable pub check_ages : List (Reading D) → C → C × MetricsValidation
  check_ages [] c = (c, metrics_found)
  check_ages (r ∷ readings) c =
      let (c', age) = prometheus.since r.timestamp c in
      let rest = check_ages readings c' in
      if is_stale age then (c', stale model_name (prometheus.show_duration age)) else rest

  -- From the samples of the fallback query on.
  abbrev pub check_readings : List (Reading D) → C → C × MetricsValidation
  check_readings readings c =
      if length readings == 0
      then (c, missing model_name namespace empty_advice)
      else check_ages readings c

  -- The result of the query without the namespace.
  abbrev pub validate_fallback : QueryResult D → C → C × MetricsValidation
  validate_fallback (failed error) c = (c, query_failed error)
  validate_fallback (vector readings) c = check_readings readings c
  validate_fallback no_vector c = check_readings [] c

  -- The result of the query with it.
  abbrev pub validate_result : QueryResult D → C → C × MetricsValidation
  validate_result (failed error) c = (c, query_failed error)
  validate_result (vector readings) c =
      let (c', result) = prometheus.query (fallback_query model_name) c in
      if length readings == 0 then validate_fallback result c' else check_ages readings c
  validate_result no_vector c = (c, missing model_name namespace other_type_advice)

  -- ValidateMetricsAvailability
  unfoldable pub validate_metrics_availability : C → C × MetricsValidation
  validate_metrics_availability c =
      let (c', result) = prometheus.query (selector num_request_running model_name namespace) c in
      validate_result result c'

module _ {D : Type 0} ⦃f : Float D⦄ ⦃d : Double D⦄ where
  -- What queryAndExtractMetric makes of the result of its query; `none` is an error.
  abbrev pub metric_of : QueryResult D → Option D
  metric_of (failed error) = none
  metric_of (vector readings) = some (extract_metric (some (map (λ r. r.value) readings)))
  metric_of no_vector = some (extract_metric none)

  -- queryAndExtractMetric
  unfoldable pub query_and_extract_metric :
      {C : Type 0} → Prometheus D C → String → C → C × Option D
  query_and_extract_metric prometheus query c =
      let (c', answer) = prometheus.query query c in (c', metric_of answer)
