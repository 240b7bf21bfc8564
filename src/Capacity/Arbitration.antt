-- ===== src/Capacity/Arbitration.antt =====
-- internal/capacity/analyzer.go: ArbitrateWithModelBased with arbitrateVariant.
pub mod Matrix
use inferno_autoscaler.Base.{
  ℕ, String, Bool, true, false, not, ◌&&◌, ◌||◌, List, [], ◌∷◌, Option, none, some, ltb,
  if◌then◌else◌, Table, lookup, lookup_or, insert, Float, nought,
}
use inferno_autoscaler.Capacity.Types.{
  VariantCapacityAnalysis, ModelCapacityAnalysis, VariantReplicaState, CapacityAction, scale_up,
  scale_down, no_change, capacity_veto, safety_block, capacity_driven, model_based, no_action,
  VariantDecision, DecisionReason,
}

-- The action that takes the current replicas to a target.
abbrev pub action_to : (target current : ℕ) → CapacityAction
action_to target current =
    if ltb current target then scale_up else if ltb target current then scale_down else no_change

-- What the decision matrix sets of a decision.
pub record Verdict : Type 0 where
  pub action : CapacityAction
  pub target_replicas : ℕ
  pub reason : DecisionReason
  pub safety_override : Bool
  pub capacity_based : Bool
  pub model_based_decision : Bool

module _ (current capacity_target model_based_target : ℕ) where
  abbrev veto : Verdict
  veto = record {
    action = no_change;
    target_replicas = current;
    reason = capacity_veto capacity_target model_based_target;
    safety_override = true;
    capacity_based = true;
    model_based_decision = true;
  }

  abbrev block : Verdict
  block = record {
    action = no_change;
    target_replicas = current;
    reason = safety_block model_based_target;
    safety_override = true;
    capacity_based = true;
    model_based_decision = true;
  }

  abbrev follow_capacity : Verdict
  follow_capacity = record {
    action = scale_up;
    target_replicas = capacity_target;
    reason = capacity_driven capacity_target;
    safety_override = false;
    capacity_based = true;
    model_based_decision = false;
  }

  abbrev follow_model : CapacityAction → Verdict
  follow_model action = record {
    action = action;
    target_replicas = model_based_target;
    reason = model_based action model_based_target;
    safety_override = false;
    capacity_based = false;
    model_based_decision = true;
  }

  abbrev keep : Verdict
  keep = record {
    action = no_change;
    target_replicas = current;
    reason = no_action;
    safety_override = false;
    capacity_based = false;
    model_based_decision = false;
  }

  -- The cases in the order of the switch: the capacity action, the model-based action, and whether the
  -- analysis is there and says that a scale-down is unsafe.
  unfoldable pub decide_matrix : CapacityAction → CapacityAction → Bool → Verdict
  decide_matrix scale_up scale_down unsafe = veto
  decide_matrix capacity scale_down true = block
  decide_matrix scale_up no_change unsafe = follow_capacity
  decide_matrix capacity scale_up unsafe = follow_model scale_up
  decide_matrix capacity scale_down unsafe = follow_model scale_down
  decide_matrix capacity model unsafe = keep

module _ {F : Type 0} ⦃f : Float F⦄ where
  abbrev pub is_unsafe : Option (ModelCapacityAnalysis F) → Bool
  is_unsafe none = false
  is_unsafe (some a) = not a.scale_down_safe

  abbrev namespace_of : Option (ModelCapacityAnalysis F) → String
  namespace_of none = ""
  namespace_of (some a) = a.namespace

  abbrev model_id_of : Option (ModelCapacityAnalysis F) → String
  model_id_of none = ""
  model_id_of (some a) = a.model_id

  abbrev pub accelerator_of : Option (VariantCapacityAnalysis F) → String
  accelerator_of none = ""
  accelerator_of (some va) = va.accelerator_name

  abbrev pub cost_of : Option (VariantCapacityAnalysis F) → F
  cost_of none = nought
  cost_of (some va) = va.cost

  unfoldable pub arbitrate_variant :
      Option (ModelCapacityAnalysis F)
      → Option (VariantCapacityAnalysis F)
      → VariantReplicaState
      → (capacity_target model_based_target : ℕ) → VariantDecision F
  arbitrate_variant analysis variant state capacity_target model_based_target =
      let current = state.current_replicas in
      let v =
        decide_matrix current capacity_target model_based_target (action_to capacity_target current)
          (action_to model_based_target current) (is_unsafe analysis) in
      record {
        variant_name = state.variant_name;
        namespace = namespace_of analysis;
        model_id = model_id_of analysis;
        accelerator_name = accelerator_of variant;
        cost = cost_of variant;
        action = v.action;
        current_replicas = current;
        target_replicas = v.target_replicas;
        desired_replicas = state.desired_replicas;
        reason = v.reason;
        capacity_based = v.capacity_based;
        model_based_decision = v.model_based_decision;
        safety_override = v.safety_override;
        capacity_only = false;
      }

  unfoldable pub variant_analysis_map :
      Table (VariantCapacityAnalysis F)
      → List (VariantCapacityAnalysis F)
      → Table (VariantCapacityAnalysis F)
  variant_analysis_map m [] = m
  variant_analysis_map m (va ∷ vas) = variant_analysis_map (insert va.variant_name va m) vas

  abbrev pub analysis_map : Option (ModelCapacityAnalysis F) → Table (VariantCapacityAnalysis F)
  analysis_map none = []
  analysis_map (some a) = variant_analysis_map [] a.variant_analyses

  -- The loop of ArbitrateWithModelBased.
  unfoldable pub arbitrate_states :
      Option (ModelCapacityAnalysis F)
      → Table (VariantCapacityAnalysis F)
      → (capacity_targets model_based_targets : Table ℕ) → List VariantReplicaState
      → List (VariantDecision F)
  arbitrate_states analysis variants capacity_targets model_based_targets [] = []
  arbitrate_states analysis variants capacity_targets model_based_targets (s ∷ ss) =
      arbitrate_variant analysis (lookup s.variant_name variants) s
        (lookup_or 0 s.variant_name capacity_targets)
        (lookup_or 0 s.variant_name model_based_targets)
      ∷ arbitrate_states analysis variants capacity_targets model_based_targets ss

  unfoldable pub arbitrate_with_model_based :
      Option (ModelCapacityAnalysis F)
      → (capacity_targets model_based_targets : Table ℕ) → List VariantReplicaState
      → List (VariantDecision F)
  arbitrate_with_model_based analysis capacity_targets model_based_targets states =
      arbitrate_states analysis (analysis_map analysis) capacity_targets model_based_targets states
