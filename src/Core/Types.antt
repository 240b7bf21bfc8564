-- ===== src/Core/Types.antt =====
-- pkg/core: the types of the system's parts. A pointer that is never nil is its value; one that may be
-- nil is an Option. `allocation` of a server is a copy of one of `all_allocations`: the solver, which
-- changes such an allocation in place, writes both (Solver).
use inferno_autoscaler.Base.{ℕ, String, Bool, Option, Table}
use inferno_autoscaler.Config.{
  AcceleratorSpec, ModelAcceleratorPerfData, ServerLoadSpec, ServerSpec, AllocationData,
}

pub record Accelerator (F : Type 0) : Type 0 where
  pub name : String
  pub spec : AcceleratorSpec F
  pub slope_low : F
  pub slope_high : F

pub record Model (F : Type 0) : Type 0 where
  pub name : String
  pub perf_data : Table (ModelAcceleratorPerfData F)
  pub num_instances : Table ℕ

pub record Target (F : Type 0) : Type 0 where
  pub itl : F
  pub ttft : F
  pub tps : F

pub record ServiceClass (F : Type 0) : Type 0 where
  pub name : String
  pub priority : ℕ
  pub targets : Table (Target F)

pub record Allocation (F : Type 0) : Type 0 where
  pub accelerator : String
  pub num_replicas : ℕ
  pub batch_size : ℕ
  pub cost : F
  pub value : F
  pub itl : F
  pub ttft : F
  pub rho : F
  pub max_arrv_rate_per_replica : F

pub record AllocationDiff (F : Type 0) : Type 0 where
  pub old_accelerator : String
  pub new_accelerator : String
  pub old_num_replicas : ℕ
  pub new_num_replicas : ℕ
  pub cost_diff : F

pub record Server (F : Type 0) : Type 0 where
  pub name : String
  pub service_class_name : String
  pub model_name : String
  pub keep_accelerator : Bool
  pub min_num_replicas : ℕ
  pub max_batch_size : ℕ
  pub load : ServerLoadSpec F
  pub all_allocations : Table (Allocation F)
  pub allocation : Option (Allocation F)
  pub cur_allocation : Option (Allocation F)
  pub spec : ServerSpec F

pub record AllocationByType (F : Type 0) : Type 0 where
  pub name : String
  pub count : ℕ
  pub limit : ℕ
  pub cost : F

pub record System (F : Type 0) : Type 0 where
  pub accelerators : Table (Accelerator F)
  pub models : Table (Model F)
  pub service_classes : Table (ServiceClass F)
  pub servers : Table (Server F)
  pub capacity : Table ℕ
  pub allocation_by_type : Table (AllocationByType F)
  pub allocation_solution : Option (Table (AllocationData F))
