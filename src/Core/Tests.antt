-- ===== src/Core/Tests.antt =====
-- The theorems of the core on the small system.
use inferno_autoscaler.Base.{◌≡◌, refl, arith, some, lookup, Milli, pos, milli_float, str_eq_iff}
use inferno_autoscaler.Core.Server.{set_allocation, apply_desired_alloc}
use inferno_autoscaler.Core.System.{new_system, set_from_spec}
use inferno_autoscaler.Core.WellFormed.{IsWellFormed, set_from_spec-IsWellFormed}
use inferno_autoscaler.Core.Transitions.{as_current, apply_desired_alloc-set_allocation}
use inferno_autoscaler.Core.Samples.{system_spec, server, candidate, system}

new_system_lem : IsWellFormed {F = Milli} new_system
unfolding new_system
new_system_lem = (tt, tt, tt, tt)

set_from_spec-IsWellFormed_example : IsWellFormed (set_from_spec new_system system_spec).0
set_from_spec-IsWellFormed_example =
    set_from_spec-IsWellFormed new_system system_spec new_system_lem

system_lem : IsWellFormed system
unfolding lookup
system_lem = (
  ((refl, refl), tt),
  ((refl, (omega arith, tt)), tt),
  ((refl, omega arith, omega arith), tt),
  (
    (refl, λ e. ground (arith, e, str_eq_iff "Free" "")),
    ((refl, λ e. ground (arith, e, str_eq_iff "Premium" "")), tt),
  ),
)

apply_desired_alloc-set_allocation_example :
    let s = server "s1" "Premium" 2 in
    let a = candidate 2 (pos 40_000) in
    let s' = apply_desired_alloc (set_allocation (some a) s) in
    (s'.cur_allocation ≡ some (as_current a))
    × (s'.allocation ≡ some a)
    × (s'.load ≡ s.load)
    × (s'.spec.current_alloc ≡ s'.spec.desired_alloc)
apply_desired_alloc-set_allocation_example =
    apply_desired_alloc-set_allocation (server "s1" "Premium" 2) (candidate 2 (pos 40_000))
