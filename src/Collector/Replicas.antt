-- ===== src/Collector/Replicas.antt =====
-- internal/collector/capacity_metrics.go: the queries for the replicas of a model, and CollectReplicaMetrics.
use inferno_autoscaler.Base.{
  ℕ, String, Bool, List, [], ◌++◌, Option, none, some, if◌then◌else◌, Table, codes, Float,
}
use inferno_autoscaler.Capacity.Types.{ReplicaMetrics}
use inferno_autoscaler.Controller.Types.{VariantAutoscaling, Deployment}
use inferno_autoscaler.Collector.Queries.{escape_label_value, time_limit, Sample, values_by_pod}
use inferno_autoscaler.Collector.Merging.{merge_metrics}

-- What the collector calls, over a state that any call may change.
pub record Sources (D C : Type 0) : Type 0 where
  -- A query with its time limit in nanoseconds: `none` is an error, `some none` a result that is no vector.
  pub query : (text : List ℕ) (limit : ℕ) → C → C × Option (Option (List (Sample D)))
  -- The time to the deadline of the context, if it has one; 0 if that has passed.
  pub remaining : C → Option ℕ
  -- int(x), of a number of requests
  pub to_count : D → ℕ
  -- The pods that the API lists by the selector of a deployment; `none` is an error.
  pub list_pods : (namespace : String) → Deployment → C → C × Option (List String)
  -- Whether the client is set.
  pub has_client : Bool

-- The query for a metric, with escaped label values.
unfoldable pub peak_query : (metric namespace model_id : String) → List ℕ
peak_query metric namespace model_id =
    codes "max by (pod) (max_over_time("
    ++ codes metric
    ++ codes "{namespace=\""
    ++ escape_label_value (codes namespace)
    ++ codes "\",model_name=\""
    ++ escape_label_value (codes model_id)
    ++ codes "\"}[1m]))"

-- 5*time.Second
abbrev pub query_timeout : ℕ
query_timeout = 5_000_000_000

module _ {D C : Type 0} (sources : Sources D C) where
  -- From the result of a query on.
  abbrev pub values_of :
      {V : Type 0} → (D → V) → Option (Option (List (Sample D))) → Option (Table V)
  values_of convert none = none
  values_of convert (some none) = some []
  values_of convert (some (some samples)) = some (values_by_pod convert [] samples)

  unfoldable pub query_by_pod :
      {V : Type 0} → (D → V) → (metric namespace model_id : String) → C → C × Option (Table V)
  query_by_pod convert metric namespace model_id c =
      let (c', result) =
        sources.query (peak_query metric namespace model_id)
          (time_limit query_timeout (sources.remaining c)) c in
      (c', values_of convert result)

  module _ (model_id namespace : String) where
    -- queryKvCacheMetrics and queryQueueMetrics; `none` is an error
    abbrev pub query_kv_cache_metrics : C → C × Option (Table D)
    query_kv_cache_metrics = query_by_pod (λ x. x) "vllm:kv_cache_usage_perc" namespace model_id

    abbrev pub query_queue_metrics : C → C × Option (Table ℕ)
    query_queue_metrics =
        query_by_pod sources.to_count "vllm:num_requests_waiting" namespace model_id

    -- The two queries in one of their orders: they run in parallel, and each writes results of its own.
    unfoldable pub query_both : (kv_first : Bool) → C → C × (Option (Table D) × Option (Table ℕ))
    query_both kv_first c =
        let (c1, kv) = query_kv_cache_metrics c in
        let (c2, queue) = query_queue_metrics c1 in
        let (d1, queue') = query_queue_metrics c in
        let (d2, kv') = query_kv_cache_metrics d1 in
        if kv_first then (c2, (kv, queue)) else (d2, (kv', queue'))

    module _ ⦃f : Float D⦄ where
      -- CollectReplicaMetrics; `none` is an error
      unfoldable pub collect_replica_metrics :
          (kv_first : Bool)
          → Table Deployment
          → Table VariantAutoscaling
          → (costs : Table D) → C
          → C × Option (List (ReplicaMetrics D))
      collect_replica_metrics kv_first deployments variants costs c =
          let (c', (kv, queue)) = query_both kv_first c in
          elim kv [
            | none ↦ (c', none)
            | some kv ↦ elim queue [
              | none ↦ (c', none)
              | some queue ↦
                  let (c2, metrics) =
                    merge_metrics sources.list_pods sources.has_client kv queue model_id namespace
                      deployments variants costs c' in
                  (c2, some metrics)
            ]
          ]
