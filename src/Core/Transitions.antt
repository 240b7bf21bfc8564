-- ===== src/Core/Transitions.antt =====
-- From a server's allocation to its desired allocation, and from there to its current one.
use inferno_autoscaler.Base.{some, ◌≡◌, refl, Float, nought}
use inferno_autoscaler.Core.Types.{Allocation, Server}
use inferno_autoscaler.Core.Allocation.{allocation_data, allocation_from_data}
use inferno_autoscaler.Core.Server.{set_allocation, update_desired_alloc, apply_desired_alloc}

module _ {F : Type 0} ⦃f : Float F⦄ where
  -- What an allocation keeps as allocation data: everything but its value, its utilisation and its
  -- maximum arrival rate.
  abbrev pub as_current : Allocation F → Allocation F
  as_current a = record a { value = nought; rho = nought; max_arrv_rate_per_replica = nought }

  -- SetAllocation and then ApplyDesiredAlloc make an allocation the current one, but for its value,
  -- its utilisation and its maximum arrival rate, which are zero. The allocation and the server's load
  -- stay, and its specification has the same current and desired allocation.
  pub apply_desired_alloc-set_allocation :
      (s : Server F) (a : Allocation F)
      → let s' = apply_desired_alloc (set_allocation (some a) s) in
        (s'.cur_allocation ≡ some (as_current a))
        × (s'.allocation ≡ some a)
        × (s'.load ≡ s.load)
        × (s'.spec.current_alloc ≡ s'.spec.desired_alloc)
  unfolding apply_desired_alloc set_allocation update_desired_alloc allocation_from_data
      allocation_data
  apply_desired_alloc-set_allocation s a = (refl, refl, refl, refl)
