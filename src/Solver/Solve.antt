-- ===== src/Solver/Solve.antt =====
-- pkg/solver: solver.go (Solve, SolveUnlimited), optimizer.go, the rest of greedy.go (SolveGreedy,
-- bestEffort), and pkg/manager/manager.go.
use inferno_autoscaler.Base.{
  String, List, [], ◌∷◌, Option, none, some, if◌then◌else◌, Table, lookup, insert, map, Float,
}
use inferno_autoscaler.Config.{
  OptimizerSpec, policy_enum, no_policy, priority_exhaustive, priority_round_robin, round_robin,
}
use inferno_autoscaler.Core.Types.{Allocation, AllocationDiff, Server, System}
use inferno_autoscaler.Core.Allocation.{create_allocation_diff}
use inferno_autoscaler.Core.Server.{set_allocation, remove_allocation}
use inferno_autoscaler.Core.System.{allocate_by_type}
use inferno_autoscaler.Solver.Entries.{
  ServerEntry, sort_func, order_func, make_entries, make_priority_groups,
}
use inferno_autoscaler.Solver.Allocate.{Pool, allocate}
use inferno_autoscaler.Solver.BestEffort.{allocate_maximally}
use inferno_autoscaler.Solver.RoundRobin.{allocate_equally}

module _ {F : Type 0} ⦃f : Float F⦄ where
  open f use {lt, max_float}

  -- The loop over the candidates: the least value so far, and its allocation.
  unfoldable pub min_allocation :
      F → Option (Allocation F) → Table (Allocation F) → Option (Allocation F)
  min_allocation min_val best [] = best
  min_allocation min_val best ((key, a) ∷ rest) =
      if lt a.value min_val
      then min_allocation a.value (some a) rest
      else min_allocation min_val best rest

  abbrev pub allocate_min : Server F → Server F
  allocate_min s = elim (min_allocation max_float none s.all_allocations) [
    | none ↦ remove_allocation s
    | some a ↦ set_allocation (some a) (remove_allocation s)
  ]

  abbrev pub map_servers : (Server F → Server F) → Table (Server F) → Table (Server F)
  map_servers g = map (λ e. (e.0, g e.1))

  unfoldable pub solve_unlimited : System F → System F
  solve_unlimited sys = record sys { servers = map_servers allocate_min sys.servers }

  -- allocateEqually on each group in turn.
  unfoldable pub allocate_groups : System F → Pool F → List (List (ServerEntry F)) → Option (Pool F)
  allocate_groups sys pool [] = some pool
  allocate_groups sys pool (g ∷ gs) = elim (allocate_equally sys pool g) [
    | none ↦ none
    | some pool' ↦ allocate_groups sys pool' gs
  ]

  unfoldable pub best_effort : System F → String → Pool F → List (ServerEntry F) → Option (Pool F)
  best_effort sys policy pool un = elim (policy_enum policy) [
    | priority_exhaustive ↦ allocate_maximally sys pool un
    | priority_round_robin ↦ allocate_groups sys pool (make_priority_groups un)
    | round_robin ↦ allocate_equally sys pool un
    | no_policy ↦ some pool
  ]

  -- allocate, then best effort for what it leaves.
  unfoldable pub serve_group : System F → String → Pool F → List (ServerEntry F) → Option (Pool F)
  serve_group sys policy pool es = elim (allocate order_func sys pool es) [
    | none ↦ none
    | some (pool', un) ↦ best_effort sys policy pool' un
  ]

  unfoldable pub serve_groups :
      System F → String → Pool F → List (List (ServerEntry F)) → Option (Pool F)
  serve_groups sys policy pool [] = some pool
  serve_groups sys policy pool (g ∷ gs) = elim (serve_group sys policy pool g) [
    | none ↦ none
    | some pool' ↦ serve_groups sys policy pool' gs
  ]

  -- The pool at the start: all capacity, and no server with an allocation.
  abbrev pub start_pool : System F → Pool F
  start_pool sys = record {
    available = sys.capacity;
    servers = map_servers remove_allocation sys.servers;
  }

  unfoldable pub solve_greedy : OptimizerSpec → System F → Option (System F)
  solve_greedy spec sys =
      let es = sort_func order_func (make_entries sys sys.servers) in
      let pool =
        if spec.delayed_best_effort
        then serve_group sys spec.saturation_policy (start_pool sys) es
        else serve_groups sys spec.saturation_policy (start_pool sys) (make_priority_groups es) in
      elim pool [ none ↦ none | some p ↦ some (record sys { servers = p.servers }) ]

  -- The current allocations, by server.
  unfoldable pub snapshot : Table (Server F) → Table (Allocation F)
  snapshot [] = []
  snapshot ((name, s) ∷ rest) = elim s.cur_allocation [
    | none ↦ snapshot rest
    | some a ↦ insert name a (snapshot rest)
  ]

  unfoldable pub diffs : Table (Allocation F) → Table (Server F) → Table (AllocationDiff F)
  diffs current [] = []
  diffs current ((name, s) ∷ rest) =
      elim (create_allocation_diff (lookup name current) s.allocation) [
        | none ↦ diffs current rest
        | some d ↦ insert name d (diffs current rest)
      ]

  -- The system after Solve, with the solver's AllocationDiff.
  unfoldable pub solve : OptimizerSpec → System F → Option (System F × Table (AllocationDiff F))
  solve spec sys =
      let current = snapshot sys.servers in
      let solved = if spec.unlimited then some (solve_unlimited sys) else solve_greedy spec sys in
      elim solved [ none ↦ none | some sys' ↦ some (sys', diffs current sys'.servers) ]

  -- Manager.Optimize with an optimizer that has its spec: Solve, then AllocateByType.
  unfoldable pub optimize : OptimizerSpec → System F → Option (System F)
  optimize spec sys = elim (solve spec sys) [
    | none ↦ none
    | some (sys', diff) ↦ some (allocate_by_type sys')
  ]
