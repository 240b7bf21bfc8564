-- ===== src/Controller/Decisions.antt =====
-- internal/controller/variantautoscaling_controller.go: the decisions where one engine decides alone.
use inferno_autoscaler.Base.{
  ℕ, String, true, false, List, [], ◌∷◌, Option, none, some, if◌then◌else◌, Table, lookup,
  lookup_or, str_eq, Float, nought,
}
use inferno_autoscaler.Capacity.Types.{
  VariantCapacityAnalysis, ModelCapacityAnalysis, VariantReplicaState, capacity_only_reason,
  model_only_reason, VariantDecision,
}
use inferno_autoscaler.Capacity.Targets.{no_state, state_map}
use inferno_autoscaler.Capacity.Arbitration.{
  action_to, variant_analysis_map, accelerator_of, cost_of,
}
use inferno_autoscaler.Controller.Types.{VariantAutoscaling}

-- The accelerator of the current allocation, or that of the label.
abbrev pub accelerator_name_of : VariantAutoscaling → String
accelerator_name_of va =
    if str_eq va.current_alloc.accelerator ""
    then lookup_or "" "inference.optimization/acceleratorName" va.labels
    else va.current_alloc.accelerator

module _ {F : Type 0} ⦃f : Float F⦄ where
  abbrev pub capacity_decision :
      ModelCapacityAnalysis F
      → Option (VariantCapacityAnalysis F)
      → VariantReplicaState
      → (variant_name : String) (target : ℕ) → VariantDecision F
  capacity_decision analysis variant state variant_name target =
      let action = action_to target state.current_replicas in
      record {
        variant_name = variant_name;
        namespace = analysis.namespace;
        model_id = analysis.model_id;
        accelerator_name = accelerator_of variant;
        cost = cost_of variant;
        action = action;
        current_replicas = state.current_replicas;
        target_replicas = target;
        desired_replicas = state.desired_replicas;
        reason = capacity_only_reason action;
        capacity_based = true;
        model_based_decision = false;
        safety_override = false;
        capacity_only = true;
      }

  -- The loop of convertCapacityTargetsToDecisions.
  unfoldable pub convert_targets :
      ModelCapacityAnalysis F
      → Table (VariantCapacityAnalysis F)
      → Table VariantReplicaState
      → Table ℕ
      → List (VariantDecision F)
  convert_targets analysis variants states [] = []
  convert_targets analysis variants states ((name, target) ∷ targets) =
      capacity_decision analysis (lookup name variants) (lookup_or no_state name states) name target
      ∷ convert_targets analysis variants states targets

  unfoldable pub convert_capacity_targets :
      Table ℕ → ModelCapacityAnalysis F → List VariantReplicaState → List (VariantDecision F)
  unfolding convert_targets variant_analysis_map state_map
  convert_capacity_targets targets analysis states =
      convert_targets analysis (variant_analysis_map [] analysis.variant_analyses)
        (state_map [] states) targets

  abbrev pub model_decision : (model_id : String) → VariantAutoscaling → ℕ → VariantDecision F
  model_decision model_id va target =
      let current = va.current_alloc.num_replicas in
      record {
        variant_name = va.name;
        namespace = va.namespace;
        model_id = model_id;
        accelerator_name = accelerator_name_of va;
        cost = nought;
        action = action_to target current;
        current_replicas = current;
        target_replicas = target;
        desired_replicas = 0;
        reason = model_only_reason;
        capacity_based = false;
        model_based_decision = true;
        safety_override = false;
        capacity_only = false;
      }

  -- The decisions of the model-only mode, one for each prepared variant that has a target.
  unfoldable pub model_decisions :
      (model_id : String) → Table ℕ → List VariantAutoscaling → List (VariantDecision F)
  model_decisions model_id targets [] = []
  model_decisions model_id targets (va ∷ vas) =
      let rest = model_decisions model_id targets vas in
      elim (lookup va.name targets) [
        | none ↦ rest
        | some target ↦ model_decision model_id va target ∷ rest
      ]
