-- ===== src/Capacity/Types.antt =====
-- internal/interfaces/capacity_analyzer.go and capacity_scaling.go: the data of the analyzer.
use inferno_autoscaler.Base.{ℕ, ℤ, String, Bool, List}

pub record ReplicaMetrics (F : Type 0) : Type 0 where
  pub pod_name : String
  pub kv_cache_usage : F
  pub queue_length : ℕ
  pub variant_name : String
  pub namespace : String
  pub model_id : String
  pub accelerator_name : String
  pub cost : F

pub record VariantCapacityAnalysis (F : Type 0) : Type 0 where
  pub variant_name : String
  pub accelerator_name : String
  pub cost : F
  pub replica_count : ℕ
  pub non_saturated_count : ℕ
  pub max_kv_cache_usage : F
  pub max_queue_length : ℕ
  pub avg_spare_kv_capacity : F
  pub avg_spare_queue_length : F
  pub saturated_replicas : List String

-- The text of ScaleUpReason, by its format and the values printed into it.
pub data ScaleUpReason (F : Type 0) : Type 0 where
  no_reason : ScaleUpReason F
  both_low : (kv kv_trigger queue queue_trigger : F) → ScaleUpReason F
  kv_low : (kv kv_trigger : F) → ScaleUpReason F
  queue_low : (queue queue_trigger : F) → ScaleUpReason F

pub record ModelCapacityAnalysis (F : Type 0) : Type 0 where
  pub model_id : String
  pub namespace : String
  -- the reading of the clock, in nanoseconds
  pub analyzed_at : ℤ
  pub total_replicas : ℕ
  pub non_saturated_count : ℕ
  pub avg_spare_kv_capacity : F
  pub avg_spare_queue_length : F
  pub should_scale_up : Bool
  pub should_scale_down : Bool
  pub scale_up_reason : ScaleUpReason F
  pub scale_down_safe : Bool
  pub variant_analyses : List (VariantCapacityAnalysis F)

pub record VariantReplicaState : Type 0 where
  pub variant_name : String
  pub current_replicas : ℕ
  -- 0 if not set
  pub desired_replicas : ℕ

pub data CapacityAction : Type 0 where
  scale_up scale_down no_change : CapacityAction

-- The text of a decision's Reason, by its format and the values printed into it.
pub data DecisionReason : Type 0 where
  capacity_veto : (capacity_target model_based_target : ℕ) → DecisionReason
  safety_block : (model_based_target : ℕ) → DecisionReason
  capacity_driven : (capacity_target : ℕ) → DecisionReason
  model_based : (action : CapacityAction) (model_based_target : ℕ) → DecisionReason
  no_action : DecisionReason
  capacity_only_reason : (action : CapacityAction) → DecisionReason
  model_only_reason : DecisionReason

pub record VariantDecision (F : Type 0) : Type 0 where
  pub variant_name : String
  pub namespace : String
  pub model_id : String
  pub accelerator_name : String
  pub cost : F
  pub action : CapacityAction
  pub current_replicas : ℕ
  pub target_replicas : ℕ
  pub desired_replicas : ℕ
  pub reason : DecisionReason
  pub capacity_based : Bool
  pub model_based_decision : Bool
  pub safety_override : Bool
  pub capacity_only : Bool

pub record CapacityScalingConfig (F : Type 0) : Type 0 where
  pub model_id : String
  pub namespace : String
  pub kv_cache_threshold : F
  pub queue_length_threshold : F
  pub kv_spare_trigger : F
  pub queue_spare_trigger : F
