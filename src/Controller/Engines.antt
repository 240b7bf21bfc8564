-- ===== src/Controller/Engines.antt =====
-- What the controller calls beside the Kubernetes client: the collector of metrics, the model-based
-- optimization, the process environment and the parsers of numbers and durations.
use inferno_autoscaler.Base.{ℕ, String, Bool, List, Option, Table, ℤ}
use inferno_autoscaler.Capacity.Types.{ReplicaMetrics}
use inferno_autoscaler.Controller.Types.{VariantAutoscaling, Deployment, CurrentAlloc}

-- MetricsValidationResult of the collector
pub record MetricsValidation : Type 0 where
  pub available : Bool
  pub reason : String
  pub message : String

-- What the model-based optimization of a model gives: the variants that were prepared, and the
-- replicas of the optimized allocations.
pub record Optimized : Type 0 where
  pub prepared : List VariantAutoscaling
  pub replicas : Table ℕ

pub record Engines (F C : Type 0) : Type 0 where
  -- CollectReplicaMetrics; `none` is an error
  pub collect_replica_metrics :
      (model_id namespace : String)
      → Table Deployment
      → Table VariantAutoscaling
      → (costs : Table F) → C
      → C × Option (List (ReplicaMetrics F))
  -- ValidateMetricsAvailability
  pub validate_availability : (model_id namespace : String) → C → C × MetricsValidation
  -- AddMetricsToOptStatus
  pub current_allocation :
      VariantAutoscaling → Deployment → (cost : F) → C → C × Option CurrentAlloc
  -- Reading the ConfigMaps, preparing the variants, the model analyzer and the optimizer; `none` is an
  -- error of any of them.
  pub optimize_model : List VariantAutoscaling → C → C × Option Optimized
  -- os.Getenv
  pub getenv : String → String
  -- strconv.ParseFloat and time.ParseDuration
  pub parse_float : String → Option F
  pub parse_duration : String → Option ℤ
  -- The order in which a `range` loop visits the map of AnalyzeModelCapacity.
  pub visit : Table (List (ReplicaMetrics F)) → Table (List (ReplicaMetrics F))
