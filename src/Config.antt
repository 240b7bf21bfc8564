-- ===== src/Config.antt =====
-- pkg/config: the specifications of a system (types.go), the saturation policies (config.go) and the
-- defaults (defaults.go).
pub mod Policies
mod Tests
use inferno_autoscaler.Base.{ℕ, String, Bool, List, if◌then◌else◌, str_eq, Float, nought}

pub record PowerSpec (F : Type 0) : Type 0 where
  pub idle : ℕ
  pub full : ℕ
  pub mid_power : ℕ
  pub mid_util : F

pub record AcceleratorSpec (F : Type 0) : Type 0 where
  pub name : String
  pub type : String
  pub multiplicity : ℕ
  pub mem_size : ℕ
  pub mem_bw : ℕ
  pub power : PowerSpec F
  pub cost : F

pub record AcceleratorCount : Type 0 where
  pub type : String
  pub count : ℕ

pub record DecodeParms (F : Type 0) : Type 0 where
  pub alpha : F
  pub beta : F

pub record PrefillParms (F : Type 0) : Type 0 where
  pub gamma : F
  pub delta : F

pub record ModelAcceleratorPerfData (F : Type 0) : Type 0 where
  pub name : String
  pub acc : String
  pub acc_count : ℕ
  pub max_batch_size : ℕ
  pub at_tokens : ℕ
  pub decode_parms : DecodeParms F
  pub prefill_parms : PrefillParms F

pub record ModelTarget (F : Type 0) : Type 0 where
  pub model : String
  pub slo_itl : F
  pub slo_ttft : F
  pub slo_tps : F

pub record ServiceClassSpec (F : Type 0) : Type 0 where
  pub name : String
  pub priority : ℕ
  pub model_targets : List (ModelTarget F)

pub record ServerLoadSpec (F : Type 0) : Type 0 where
  pub arrival_rate : F
  pub avg_in_tokens : ℕ
  pub avg_out_tokens : ℕ

pub record AllocationData (F : Type 0) : Type 0 where
  pub accelerator : String
  pub num_replicas : ℕ
  pub max_batch : ℕ
  pub cost : F
  pub itl_average : F
  pub ttft_average : F
  pub load : ServerLoadSpec F

pub record ServerSpec (F : Type 0) : Type 0 where
  pub name : String
  pub class : String
  pub model : String
  pub keep_accelerator : Bool
  pub min_num_replicas : ℕ
  pub max_batch_size : ℕ
  pub current_alloc : AllocationData F
  pub desired_alloc : AllocationData F

pub record OptimizerSpec : Type 0 where
  pub unlimited : Bool
  pub delayed_best_effort : Bool
  pub saturation_policy : String

-- SystemSpec, with the one-field records around its lists left out.
pub record SystemSpec (F : Type 0) : Type 0 where
  pub accelerators : List (AcceleratorSpec F)
  pub models : List (ModelAcceleratorPerfData F)
  pub service_classes : List (ServiceClassSpec F)
  pub servers : List (ServerSpec F)
  pub optimizer : OptimizerSpec
  pub capacity : List AcceleratorCount

pub data SaturatedAllocationPolicy : Type 0 where
  no_policy priority_exhaustive priority_round_robin round_robin : SaturatedAllocationPolicy

abbrev pub default_saturated_allocation_policy : SaturatedAllocationPolicy
default_saturated_allocation_policy = no_policy

unfoldable pub policy_enum : String → SaturatedAllocationPolicy
policy_enum s =
    if str_eq s "None"
    then no_policy
    else if str_eq s "PriorityExhaustive"
    then priority_exhaustive
    else if str_eq s "PriorityRoundRobin"
    then priority_round_robin
    else if str_eq s "RoundRobin"
    then round_robin
    else default_saturated_allocation_policy

abbrev pub policy_string : SaturatedAllocationPolicy → String
policy_string no_policy = "None"
policy_string priority_exhaustive = "PriorityExhaustive"
policy_string priority_round_robin = "PriorityRoundRobin"
policy_string round_robin = "RoundRobin"

abbrev pub max_queue_to_batch_ratio : ℕ
max_queue_to_batch_ratio = 10

abbrev pub default_service_class_name : String
default_service_class_name = "Free"

abbrev pub default_low_priority : ℕ
default_low_priority = 100

abbrev pub default_high_priority : ℕ
default_high_priority = 1

abbrev pub default_service_class_priority : ℕ
default_service_class_priority = default_low_priority

module _ {F : Type 0} ⦃f : Float F⦄ where
  abbrev pub accel_penalty_factor : F
  accel_penalty_factor = f.decimal 1 1

  -- config.AllocationData{}
  abbrev pub empty_allocation_data : AllocationData F
  empty_allocation_data = record {
    accelerator = "";
    num_replicas = 0;
    max_batch = 0;
    cost = nought;
    itl_average = nought;
    ttft_average = nought;
    load = record { arrival_rate = nought; avg_in_tokens = 0; avg_out_tokens = 0 };
  }
