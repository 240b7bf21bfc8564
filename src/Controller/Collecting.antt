-- ===== src/Controller/Collecting.antt =====
-- internal/controller/variantautoscaling_controller.go: collectMetricsForCapacityMode and
-- runCapacityAnalysis.
use inferno_autoscaler.Base.{
  ℕ, String, true, List, [], ◌∷◌, Option, none, some, if◌then◌else◌, Table, lookup_or, insert,
  str_eq, Float, of_nat,
}
use inferno_autoscaler.Capacity.Types.{
  ModelCapacityAnalysis, VariantReplicaState, CapacityScalingConfig, ReplicaMetrics,
}
use inferno_autoscaler.Capacity.Analysis.{analyze_model_capacity}
use inferno_autoscaler.Capacity.Targets.{calculate_capacity_targets}
use inferno_autoscaler.Controller.Types.{
  VariantAutoscaling, Deployment, metrics_available, metrics_reason, metrics_message,
}
use inferno_autoscaler.Controller.Client.{Client, set_condition}
use inferno_autoscaler.Controller.Engines.{Engines}
use inferno_autoscaler.Controller.Groups.{build_variant_states}

module _ {F C : Type 0} ⦃f : Float F⦄ (client : Client C) (engines : Engines F C) where
  -- The latest version of a resource, from the validation of its metrics on; it is kept under its name
  -- if its metrics are available.
  unfoldable pub collect_latest :
      (model_id : String)
      → Deployment
      → (cost : F) → VariantAutoscaling
      → Table VariantAutoscaling
      → C
      → Table VariantAutoscaling × C
  collect_latest model_id deployment cost latest variants c =
      let (c', validation) = engines.validate_availability model_id deployment.namespace c in
      let checked =
        set_condition client (client.now c') latest metrics_available true
          (metrics_reason validation.reason) (metrics_message validation.message) in
      let (c2, allocation) = engines.current_allocation checked deployment cost c' in
      if validation.available
      then elim allocation [
        | none ↦ (variants, c2)
        | some a ↦ (insert checked.name (record checked { current_alloc = a }) variants, c2)
      ]
      else (variants, c')

  -- From the reads on, for a resource with a label and a cost.
  unfoldable pub collect_deployed :
      VariantAutoscaling → (cost : F) → Table VariantAutoscaling → C → Table VariantAutoscaling × C
  collect_deployed va cost variants c =
      let (c', deployment) = client.get_deployment va.name va.namespace c in
      elim deployment [
        | none ↦ (variants, c')
        | some d ↦
            let (c2, latest) = client.get_variant d.name d.namespace c' in
            elim latest [
              | none ↦ (variants, c2)
              | some latest ↦ collect_latest va.model_id d cost latest variants c2
            ]
      ]

  -- The body of the loop of collectMetricsForCapacityMode.
  unfoldable pub collect_variant :
      VariantAutoscaling → Table VariantAutoscaling → C → Table VariantAutoscaling × C
  collect_variant va variants c =
      if str_eq (lookup_or "" "inference.optimization/acceleratorName" va.labels) ""
      then (variants, c)
      else if str_eq va.variant_cost ""
      then (variants, c)
      else elim (engines.parse_float va.variant_cost) [
        | none ↦ (variants, c)
        | some cost ↦ collect_deployed va cost variants c
      ]

  -- collectMetricsForCapacityMode, which gives no error
  unfoldable pub collect_metrics :
      List VariantAutoscaling → Table VariantAutoscaling → C → Table VariantAutoscaling × C
  collect_metrics [] variants c = (variants, c)
  collect_metrics (va ∷ vas) variants c =
      let (variants', c') = collect_variant va variants c in collect_metrics vas variants' c'

-- The maps that runCapacityAnalysis builds.
pub record Inputs (F : Type 0) : Type 0 where
  pub costs : Table F
  pub deployments : Table Deployment
  pub variants : Table VariantAutoscaling

-- What runCapacityAnalysis returns: an error, nothing where there are no metrics, or the targets.
pub data CapacityResult (F : Type 0) : Type 0 where
  analysis_failed : CapacityResult F
  no_analysis : CapacityResult F
  analysed : Table ℕ → ModelCapacityAnalysis F → List VariantReplicaState → CapacityResult F

module _ {F C : Type 0} ⦃f : Float F⦄ (client : Client C) (engines : Engines F C) where
  -- 10 by default, or where the text is no number
  abbrev pub cost_of_variant : VariantAutoscaling → F
  cost_of_variant va =
      if str_eq va.variant_cost ""
      then of_nat 10
      else elim (engines.parse_float va.variant_cost) [ none ↦ of_nat 10 | some cost ↦ cost ]

  abbrev pub add_input : VariantAutoscaling → Option Deployment → Inputs F → Inputs F
  add_input va none inputs = record inputs {
    costs = insert va.name (cost_of_variant va) inputs.costs;
  }
  add_input va (some d) inputs = record {
    costs = insert va.name (cost_of_variant va) inputs.costs;
    deployments = insert va.name d inputs.deployments;
    variants = insert va.name va inputs.variants;
  }

  unfoldable pub gather_inputs : List VariantAutoscaling → Inputs F → C → Inputs F × C
  gather_inputs [] inputs c = (inputs, c)
  gather_inputs (va ∷ vas) inputs c =
      let (c', deployment) = client.get_deployment va.name va.namespace c in
      gather_inputs vas (add_input va deployment inputs) c'

  -- From the metrics on; there are some.
  unfoldable pub analyse_metrics :
      (model_id namespace : String)
      → List VariantAutoscaling
      → CapacityScalingConfig F
      → List (ReplicaMetrics F)
      → C
      → CapacityResult F × C
  analyse_metrics model_id namespace vas config metrics c =
      let analysis =
        analyze_model_capacity (client.now c) engines.visit model_id namespace metrics config in
      let (c', states) = build_variant_states client vas c in
      (analysed (calculate_capacity_targets (some analysis) states) analysis states, c')

  abbrev pub analyse_collected :
      (model_id namespace : String)
      → List VariantAutoscaling
      → CapacityScalingConfig F
      → Option (List (ReplicaMetrics F))
      → C
      → CapacityResult F × C
  analyse_collected model_id namespace vas config none c = (analysis_failed, c)
  analyse_collected model_id namespace vas config (some []) c = (no_analysis, c)
  analyse_collected model_id namespace vas config (some (m ∷ ms)) c =
      analyse_metrics model_id namespace vas config (m ∷ ms) c

  unfoldable pub run_capacity_analysis :
      (model_id : String)
      → List VariantAutoscaling
      → CapacityScalingConfig F
      → C
      → CapacityResult F × C
  run_capacity_analysis model_id [] config c = (analysis_failed, c)
  run_capacity_analysis model_id (va ∷ vas) config c =
      let all = va ∷ vas in
      let (inputs, c1) =
        gather_inputs all (record { costs = []; deployments = []; variants = [] }) c in
      let (c2, metrics) =
        engines.collect_replica_metrics model_id va.namespace inputs.deployments inputs.variants
          inputs.costs c1 in
      analyse_collected model_id va.namespace all config metrics c2
