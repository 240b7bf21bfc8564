-- ===== src/Collector/Tests.antt =====
-- The collector on a label value with a quote and a backslash, on a pod whose name two deployments match, on
-- a Prometheus that answers one of two queries, and on the metrics of two pods.
use inferno_autoscaler.Base.{
  ℕ, String, false, List, [], ◌∷◌, none, ◌≡◌, refl, ◌⊎◌, All, Table, codes, true, Option, length,
  insert, suc, ◌==◌, if◌then◌else◌, pos, of_nat, Milli, milli_float, milli_double,
}
use inferno_autoscaler.Controller.Types.{Deployment}
use inferno_autoscaler.Controller.Tests.{variant}
use inferno_autoscaler.Collector.Prometheus.{
  Reading, QueryResult, Prometheus, vector, validate_metrics_availability, check_ages,
  query_and_extract_metric,
}
use inferno_autoscaler.Collector.Status.{
  panicked, collect_values, status_of, add_metrics_to_opt_status,
}
use inferno_autoscaler.Collector.Available.{IsFresh, validate_metrics_availability-IsFresh}
use inferno_autoscaler.Collector.Queries.{escape_label_value, replace_all}
use inferno_autoscaler.Collector.Merging.{
  has_prefix, prefix_of, find_by_name, find_deployment, add_names, merge_pods, merge_metrics,
}
use inferno_autoscaler.Collector.Attribution.{IsAttributed, merge_metrics-IsAttributed}
use inferno_autoscaler.Collector.Matching.{IsLongest, find_by_name-IsLongest}

abbrev label_value : List ℕ
label_value = 34 ∷ 92 ∷ 97 ∷ []

-- A quote, and a quote that has a backslash in front already.
abbrev bare : List ℕ
bare = 34 ∷ []

abbrev quoted : List ℕ
quoted = 92 ∷ 34 ∷ []

-- Each character in turn: the quote and the backslash get a backslash in front.
escaped_test : escape_label_value label_value ≡ 92 ∷ 34 ∷ 92 ∷ 92 ∷ 97 ∷ []
unfolding escape_label_value replace_all
escaped_test = refl

abbrev deployment : String → Deployment
deployment name = record {
  name = name;
  namespace = "prod";
  status_replicas = 1;
  spec_replicas = none;
}

abbrev deployments : Table Deployment
deployments = ("llama", deployment "llama") ∷ ("llama-a100", deployment "llama-a100") ∷ []

find_by_name-IsLongest_example :
    let name = find_by_name "llama-a100-x" "" 0 deployments in
    ((name ≡ "") × All (λ e. has_prefix (codes "llama-a100-x") (prefix_of e.0) ≡ false) deployments)
    ⊎ IsLongest "llama-a100-x" deployments name
find_by_name-IsLongest_example = find_by_name-IsLongest "llama-a100-x" deployments

found_lem : find_by_name "llama-a100-x" "" 0 deployments ≡ "llama-a100"
unfolding find_by_name has_prefix
found_lem = refl

-- A Prometheus that has a sample only for the query without the namespace; its state counts the queries.
abbrev reading : Reading Milli
reading = record { value = of_nat 2; timestamp = pos 5 }

abbrev emulator : Prometheus Milli ℕ
emulator = record {
  query = λ q c. (suc c, if c == 0 then vector [] else vector (reading ∷ []));
  since = λ timestamp c. (c, pos 60_000_000_000);
  show_duration = λ age. "1m0s";
}

abbrev none_found : QueryResult Milli
none_found = vector []

available_lem : (validate_metrics_availability emulator "llama" "prod" 0).1.available ≡ true
unfolding validate_metrics_availability check_ages
available_lem = refl

validate_metrics_availability-IsFresh_example :
    IsFresh emulator "llama" "prod" none_found 1
    ⊎ ((none_found ≡ vector []) × IsFresh emulator "llama" "prod" (vector (reading ∷ [])) 2)
validate_metrics_availability-IsFresh_example =
    validate_metrics_availability-IsFresh emulator "llama" "prod" 0 available_lem

abbrev busy : Prometheus Milli ℕ
busy = record emulator { query = λ q c. (suc c, vector (reading ∷ [])) }

-- Five queries, then the panic of a deployment without replicas in its specification.
panics_lem :
    add_metrics_to_opt_status (λ x. "2.00") busy variant (deployment "llama") (of_nat 1) 0
    ≡ (5, panicked)
unfolding add_metrics_to_opt_status collect_values query_and_extract_metric status_of
panics_lem = refl

-- Without a client, a pod that only the queue query named is attributed by its name.
abbrev unlisted : (namespace : String) → Deployment → ℕ → ℕ × Option (List String)
unlisted namespace d c = (suc c, none)

abbrev queue : Table ℕ
queue = ("llama-a100-x", 3) ∷ ("stray", 1) ∷ []

abbrev no_usage : Table Milli
no_usage = []

merge_metrics-IsAttributed_example :
    All
      (IsAttributed unlisted false "prod" deployments no_usage queue "llama" [] no_usage)
      (merge_metrics unlisted false no_usage queue "llama" "prod" deployments [] no_usage 0).1
merge_metrics-IsAttributed_example =
    merge_metrics-IsAttributed unlisted false "prod" deployments no_usage queue "llama" [] no_usage
      0

one_replica_lem :
    length (merge_metrics unlisted false no_usage queue "llama" "prod" deployments [] no_usage 0).1
    ≡ 1
unfolding merge_metrics merge_pods find_deployment find_by_name has_prefix add_names insert
one_replica_lem = refl
