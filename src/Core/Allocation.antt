-- ===== src/Core/Allocation.antt =====
-- pkg/core/allocation.go: the operations of an allocation, without CreateAllocation.
use inferno_autoscaler.Base.{
  ℕ, String, Bool, Option, none, some, ◌==◌, str_eq, if◌then◌else◌, Float, of_nat, nought,
}
use inferno_autoscaler.Config.{AllocationData, accel_penalty_factor}
use inferno_autoscaler.Core.Types.{Allocation, AllocationDiff}

module _ {F : Type 0} ⦃f : Float F⦄ where
  open f use {add, sub, mul, lt}

  unfoldable pub max_rpm : Allocation F → F
  max_rpm a = mul (mul a.max_arrv_rate_per_replica (of_nat 1000)) (of_nat 60)

  unfoldable pub is_saturated : Allocation F → F → Bool
  unfolding max_rpm
  is_saturated a total_rate = lt (mul (of_nat a.num_replicas) (max_rpm a)) total_rate

  unfoldable pub transition_penalty : Allocation F → Allocation F → F
  transition_penalty a b =
      if str_eq a.accelerator b.accelerator
      then (if a.num_replicas == b.num_replicas then nought else sub b.cost a.cost)
      else add (mul accel_penalty_factor (add a.cost b.cost)) (sub b.cost a.cost)

  -- AllocationData leaves the load at its zero value.
  unfoldable pub allocation_data : Allocation F → AllocationData F
  allocation_data a = record {
    accelerator = a.accelerator;
    num_replicas = a.num_replicas;
    max_batch = a.batch_size;
    cost = a.cost;
    itl_average = a.itl;
    ttft_average = a.ttft;
    load = record { arrival_rate = nought; avg_in_tokens = 0; avg_out_tokens = 0 };
  }

  unfoldable pub allocation_from_data : AllocationData F → Allocation F
  allocation_from_data d = record {
    accelerator = d.accelerator;
    num_replicas = d.num_replicas;
    batch_size = d.max_batch;
    cost = d.cost;
    value = nought;
    itl = d.itl_average;
    ttft = d.ttft_average;
    rho = nought;
    max_arrv_rate_per_replica = nought;
  }

  abbrev old_side : Option (Allocation F) → String × ℕ × F
  old_side none = ("none", 0, nought)
  old_side (some a) = (a.accelerator, a.num_replicas, a.cost)

  abbrev diff_of : (old new : String × ℕ × F) → AllocationDiff F
  diff_of old new = record {
    old_accelerator = old.0;
    new_accelerator = new.0;
    old_num_replicas = old.1;
    new_num_replicas = new.1;
    cost_diff = sub new.2 old.2;
  }

  -- `none` is nil.
  unfoldable pub create_allocation_diff :
      Option (Allocation F) → Option (Allocation F) → Option (AllocationDiff F)
  create_allocation_diff none none = none
  create_allocation_diff a b = some (diff_of (old_side a) (old_side b))
