-- ===== src/Controller/Types.antt =====
-- api/v1alpha1/variantautoscaling_types.go: the resource that the controller reconciles. Of the
-- metadata it has what the code reads.
use inferno_autoscaler.Base.{ℕ, ℤ, String, Bool, List, Option, Table}
use inferno_autoscaler.Capacity.Types.{DecisionReason}

-- All of these are texts in the resource.
pub record LoadProfile : Type 0 where
  pub arrival_rate : String
  pub avg_input_tokens : String
  pub avg_output_tokens : String

-- Allocation
pub record CurrentAlloc : Type 0 where
  pub accelerator : String
  pub num_replicas : ℕ
  pub max_batch : ℕ
  pub variant_cost : String
  pub itl_average : String
  pub ttft_average : String
  pub load : LoadProfile

pub record OptimizedAlloc : Type 0 where
  pub last_run_time : ℤ
  pub accelerator : String
  pub num_replicas : ℕ

pub record PerfParms : Type 0 where
  pub decode_parms : Table String
  pub prefill_parms : Table String

pub record AcceleratorProfile : Type 0 where
  pub acc : String
  pub acc_count : ℕ
  pub perf_parms : PerfParms
  pub max_batch_size : ℕ

pub data ConditionType : Type 0 where
  metrics_available optimization_ready : ConditionType

-- The reasons that the controller sets.
pub data ConditionReason : Type 0 where
  capacity_safety_override : ConditionReason
  capacity_only_mode : ConditionReason
  optimization_succeeded : ConditionReason
  metrics_reason : String → ConditionReason

-- The text of a message, by its format and the values printed into it.
pub data ConditionMessage : Type 0 where
  safety_override_message : DecisionReason → ConditionMessage
  capacity_only_message : DecisionReason → (target : ℕ) → ConditionMessage
  hybrid_message : DecisionReason → (target : ℕ) → ConditionMessage
  metrics_message : String → ConditionMessage

-- `status` is whether it is ConditionTrue.
pub record Condition : Type 0 where
  pub type : ConditionType
  pub status : Bool
  pub observed_generation : ℕ
  pub last_transition_time : ℤ
  pub reason : ConditionReason
  pub message : ConditionMessage

pub record VariantAutoscaling : Type 0 where
  pub name : String
  pub namespace : String
  pub labels : Table String
  pub generation : ℕ
  -- whether DeletionTimestamp is set
  pub is_deleted : Bool
  pub model_id : String
  pub accelerators : List AcceleratorProfile
  pub variant_cost : String
  pub current_alloc : CurrentAlloc
  pub desired_alloc : OptimizedAlloc
  -- Status.Actuation.Applied
  pub applied : Bool
  pub conditions : List Condition

-- What the code reads of a Deployment.
pub record Deployment : Type 0 where
  pub name : String
  pub namespace : String
  pub status_replicas : ℕ
  pub spec_replicas : Option ℕ
