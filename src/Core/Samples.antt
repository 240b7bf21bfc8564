-- ===== src/Core/Samples.antt =====
-- A small system in thousandths: one accelerator type with three units, a model that takes one of them
-- per replica, and two servers of different priorities.
use inferno_autoscaler.Base.{ℕ, String, false, [], ◌∷◌, none, some, Milli, pos}
use inferno_autoscaler.Config.{
  AcceleratorSpec, ModelAcceleratorPerfData, ServiceClassSpec, ServerLoadSpec, AllocationData,
  ServerSpec, OptimizerSpec, SystemSpec,
}
use inferno_autoscaler.Core.Types.{ServiceClass, Allocation, Server, System}

abbrev pub accelerator_spec : AcceleratorSpec Milli
accelerator_spec = record {
  name = "A100";
  type = "gpu";
  multiplicity = 1;
  mem_size = 80;
  mem_bw = 2000;
  power = record { idle = 50; full = 300; mid_power = 150; mid_util = pos 500 };
  cost = pos 40_000;
}

abbrev pub perf_data : ModelAcceleratorPerfData Milli
perf_data = record {
  name = "llama";
  acc = "A100";
  acc_count = 1;
  max_batch_size = 8;
  at_tokens = 100;
  decode_parms = record { alpha = pos 20_000; beta = pos 400 };
  prefill_parms = record { gamma = pos 5_000; delta = pos 100 };
}

abbrev pub class_spec : String → ℕ → ServiceClassSpec Milli
class_spec name priority = record {
  name = name;
  priority = priority;
  model_targets =
      record { model = "llama"; slo_itl = pos 24_000; slo_ttft = pos 500_000; slo_tps = pos 0 }
      ∷ [];
}

abbrev pub load : ServerLoadSpec Milli
load = record { arrival_rate = pos 60_000; avg_in_tokens = 100; avg_out_tokens = 50 }

abbrev pub allocation_data_of : ℕ → AllocationData Milli
allocation_data_of n = record {
  accelerator = "A100";
  num_replicas = n;
  max_batch = 8;
  cost = pos 40_000;
  itl_average = pos 20_000;
  ttft_average = pos 100_000;
  load = load;
}

abbrev pub server_spec : String → String → ServerSpec Milli
server_spec name class = record {
  name = name;
  class = class;
  model = "llama";
  keep_accelerator = false;
  min_num_replicas = 1;
  max_batch_size = 0;
  current_alloc = allocation_data_of 1;
  desired_alloc = allocation_data_of 1;
}

abbrev pub greedy_spec : String → OptimizerSpec
greedy_spec policy = record {
  unlimited = false;
  delayed_best_effort = false;
  saturation_policy = policy;
}

abbrev pub system_spec : SystemSpec Milli
system_spec = record {
  accelerators = accelerator_spec ∷ [];
  models = perf_data ∷ [];
  service_classes = class_spec "Premium" 1 ∷ class_spec "Wrong" 0 ∷ [];
  servers = server_spec "s1" "Premium" ∷ server_spec "s2" "" ∷ [];
  optimizer = greedy_spec "PriorityExhaustive";
  capacity = record { type = "gpu"; count = 3 } ∷ [];
}

-- A candidate of `n` replicas.
abbrev pub candidate : ℕ → Milli → Allocation Milli
candidate n value = record {
  accelerator = "A100";
  num_replicas = n;
  batch_size = 8;
  cost = pos 40_000;
  value = value;
  itl = pos 20_000;
  ttft = pos 100_000;
  rho = pos 500;
  max_arrv_rate_per_replica = pos 100_000;
}

abbrev pub server : String → String → ℕ → Server Milli
server name class n = record {
  name = name;
  service_class_name = class;
  model_name = "llama";
  keep_accelerator = false;
  min_num_replicas = 1;
  max_batch_size = 0;
  load = load;
  all_allocations = ("A100", candidate n (pos 40_000)) ∷ [];
  allocation = none;
  cur_allocation = some (candidate 1 (pos 0));
  spec = server_spec name class;
}

abbrev pub premium : ServiceClass Milli
premium = record {
  name = "Premium";
  priority = 1;
  targets = ("llama", record { itl = pos 24_000; ttft = pos 500_000; tps = pos 0 }) ∷ [];
}

-- "s1" asks for two of the three units, and "s2" for two, of which one is left.
abbrev pub system : System Milli
system = record {
  accelerators =
      (
        "A100",
        record { name = "A100"; spec = accelerator_spec; slope_low = pos 0; slope_high = pos 0 },
      )
      ∷ [];
  models =
      (
        "llama",
        record {
          name = "llama";
          perf_data = ("A100", perf_data) ∷ [];
          num_instances = ("A100", 1) ∷ [];
        },
      )
      ∷ [];
  service_classes = ("Premium", premium) ∷ [];
  servers = ("s2", server "s2" "Free" 2) ∷ ("s1", server "s1" "Premium" 2) ∷ [];
  capacity = ("gpu", 3) ∷ [];
  allocation_by_type = [];
  allocation_solution = none;
}
