-- ===== src/Solver/Tests.antt =====
-- The solver on the small system.
use mathlib.Core.List.{Perm}
use inferno_autoscaler.Base.{
  of_option, ◌≡◌, refl, List, some, All, All-map_imp, true, lookup, IsKeyed, Table, String, Milli,
  Milli-IsOrdered, milli_float,
}
use inferno_autoscaler.Core.Types.{AllocationDiff, Server, System}
use inferno_autoscaler.Core.Samples.{system, server, greedy_spec}
use inferno_autoscaler.Solver.Entries.{
  ServerEntry, sort_func, order_func, make_entries, make_priority_groups,
}
use inferno_autoscaler.Solver.Allocate.{Pool, allocate}
use inferno_autoscaler.Solver.Solve.{
  start_pool, solve, solve_unlimited, solve_greedy, best_effort, optimize,
}
use inferno_autoscaler.Config.{OptimizerSpec}
use inferno_autoscaler.Solver.Differences.{Differs, current_of, solve-diffs}
use inferno_autoscaler.Solver.Unlimited.{IsBest, solve_unlimited-IsBest}
use inferno_autoscaler.Solver.Priorities.{AreGroups, flatten, groups-AreGroups}
use inferno_autoscaler.Solver.Usage.{used, PoolFits, Known}
use inferno_autoscaler.Solver.Usage.Rounds.{IsReady}
use inferno_autoscaler.Solver.Usage.Capacity.{
  HasNames, IsWithin, allocate-capacity, best_effort-capacity, solve_greedy-capacity,
  start_pool-Fits, entries-IsServable,
}
use inferno_autoscaler.Solver.Usage.ByType.{Reports, optimize-limits}

abbrev unlimited_spec : OptimizerSpec
unlimited_spec = record (greedy_spec "None") { unlimited = true }

abbrev entries : List (ServerEntry Milli)
entries = sort_func order_func (make_entries system system.servers)

entries-IsReady : All IsReady entries
entries-IsReady = All-map_imp (λ e h. h.0) entries (entries-IsServable system)

entries-Known : Known (start_pool system) entries
entries-Known = All-map_imp (λ e h. h.1) entries (entries-IsServable system)

allocate-capacity_example :
    (end : Pool Milli × List (ServerEntry Milli)) × (allocate order_func system
        (start_pool system)
        entries
      ≡ some end)
    × PoolFits system system.capacity end.0
    × HasNames (start_pool system).servers end.0.servers
    × Known end.0 end.1
allocate-capacity_example =
    allocate-capacity system order_func (start_pool system) entries entries-IsReady entries-Known
      (start_pool-Fits system)

best_effort-capacity_example :
    (end : Pool Milli) × (best_effort system "RoundRobin" (start_pool system) entries ≡ some end)
    × PoolFits system system.capacity end
    × HasNames (start_pool system).servers end.servers
best_effort-capacity_example =
    best_effort-capacity system "RoundRobin" (start_pool system) entries entries-Known
      (start_pool-Fits system)

solve_greedy-capacity_example :
    IsWithin system (solve_greedy (greedy_spec "PriorityExhaustive") system)
solve_greedy-capacity_example = solve_greedy-capacity system (greedy_spec "PriorityExhaustive")

optimize-limits_example :
    (sys' : System Milli) × (optimize (greedy_spec "PriorityRoundRobin") system ≡ some sys')
    × All (Reports system sys'.servers) sys'.allocation_by_type
    × ((type : String)
        → of_option (λ b. b.count) (lookup type sys'.allocation_by_type)
          ≡ used system type sys'.servers)
optimize-limits_example = optimize-limits system (greedy_spec "PriorityRoundRobin") refl

solve_unlimited-IsBest_example :
    (s' : Server Milli) × (lookup "s1" (solve_unlimited system).servers ≡ some s')
    × IsBest Milli-IsOrdered (server "s1" "Premium" 2).all_allocations s'.allocation
    × (s'.all_allocations ≡ (server "s1" "Premium" 2).all_allocations)
unfolding lookup
solve_unlimited-IsBest_example =
    solve_unlimited-IsBest Milli-IsOrdered system "s1" (server "s1" "Premium" 2) refl

groups-AreGroups_example :
    let gs = make_priority_groups (sort_func order_func (make_entries system system.servers)) in
    AreGroups gs × Perm (flatten gs) (make_entries system system.servers)
groups-AreGroups_example = groups-AreGroups system

system_IsKeyed : IsKeyed system.servers
unfolding lookup
system_IsKeyed = (refl, (refl, tt))

solve-diffs_example :
    (d : Table (AllocationDiff Milli)) × (solve unlimited_spec system
      ≡ some (solve_unlimited system, d))
    × ((name : String)
        → Differs
            (current_of (lookup name system.servers))
            (lookup name (solve_unlimited system).servers)
            (lookup name d))
solve-diffs_example = solve-diffs unlimited_spec system refl system_IsKeyed
