-- ===== src/Solver/Usage/Capacity.antt =====
-- SolveGreedy and Manager.Optimize keep within the capacity of every accelerator type.
use Prim.Native.Nat.{Ordering}
use inferno_autoscaler.Base.{
  ◌≤◌, String, List, [], ◌∷◌, Option, none, some, ◌≡◌, refl, arith, All, All-map_imp, Table,
  lookup_or, Float, inl, inr, Bool-cases,
}
use inferno_autoscaler.Config.{
  OptimizerSpec, SaturatedAllocationPolicy, policy_enum, no_policy, priority_exhaustive,
  priority_round_robin, round_robin,
}
use inferno_autoscaler.Core.Types.{Server, System}
use inferno_autoscaler.Core.Server.{remove_allocation}
use inferno_autoscaler.Solver.Entries.{
  ServerEntry, order_func, sort_func, make_entries, make_priority_groups,
}
use inferno_autoscaler.Solver.Allocate.{allocate, Pool}
use inferno_autoscaler.Solver.BestEffort.{allocate_maximally}
use inferno_autoscaler.Solver.RoundRobin.{allocate_equally}
use inferno_autoscaler.Solver.Solve.{
  allocate_groups, best_effort, serve_group, serve_groups, start_pool, solve_greedy,
}
use inferno_autoscaler.Solver.Usage.{PoolFits, IsKnown, Known, Known-Extends, Extends, used}
use inferno_autoscaler.Solver.Usage.Rounds.{IsReady}
use inferno_autoscaler.Solver.Usage.Greedy.{allocate-Ends}
use inferno_autoscaler.Solver.Usage.Maximal.{
  Keeps, Follows-refl, Follows-trans, allocate_maximally-Keeps,
}
use inferno_autoscaler.Solver.Usage.Equal.{allocate_equally-Keeps}
use inferno_autoscaler.Solver.Usage.Groups.{
  sort_func-All, make_priority_groups-All, names-IsKnown, map_servers-Extends,
  remove_allocation-used, make_entries-IsReady,
}

module _ {F : Type 0} ⦃f : Float F⦄ where
  -- The names of some servers are in another map too.
  abbrev pub HasNames : Table (Server F) → Table (Server F) → Type 0
  HasNames old new = All (λ e. IsKnown new e.0) old

  Extends-HasNames : (old new : Table (Server F)) → Extends old new → HasNames old new
  Extends-HasNames old new x = All-map_imp (λ e. x e.0) old (names-IsKnown old)

module _ {F : Type 0} ⦃f : Float F⦄ (sys : System F) where
  abbrev Run : Pool F → Option (Pool F) → Type 0
  Run = Keeps sys sys.capacity

  allocate_groups-Keeps :
      (pool : Pool F) (gs : List (List (ServerEntry F)))
      → All (Known pool) gs
      → Run pool (allocate_groups sys pool gs)
  unfolding allocate_groups
  allocate_groups-Keeps pool [] known = (pool, refl, Follows-refl sys sys.capacity pool)
  allocate_groups-Keeps pool (g ∷ gs) (k, ks) =
      let (new, e1, x) = allocate_equally-Keeps sys sys.capacity pool g k in
      let (end, e2, y) =
        allocate_groups-Keeps new gs (All-map_imp (λ es. Known-Extends pool new es x.1) gs ks) in
      (end, rw (allocate_groups, e1) e2, Follows-trans sys sys.capacity pool new end x y)

  pub best_effort-Keeps :
      (policy : String) (pool : Pool F) (un : List (ServerEntry F))
      → Known pool un
      → Run pool (best_effort sys policy pool un)
  unfolding best_effort
  best_effort-Keeps policy pool un known = go (policy_enum policy)
    where
      go :
          (p : SaturatedAllocationPolicy)
          → Run pool (elim p [
            | priority_exhaustive ↦ allocate_maximally sys pool un
            | priority_round_robin ↦ allocate_groups sys pool (make_priority_groups un)
            | round_robin ↦ allocate_equally sys pool un
            | no_policy ↦ some pool
          ])
      go priority_exhaustive = allocate_maximally-Keeps sys sys.capacity pool un known
      go priority_round_robin =
          allocate_groups-Keeps pool (make_priority_groups un)
            (make_priority_groups-All (λ e. IsKnown pool.servers e.server_name) un known)
      go round_robin = allocate_equally-Keeps sys sys.capacity pool un known
      go no_policy = (pool, refl, Follows-refl sys sys.capacity pool)

  -- allocate ends without a panic, in every order of its queue, when each entry starts at its first
  -- candidate and names a server that exists. If the units in use and the available units are within
  -- the capacity of each type, they are so afterwards; no server is lost, and the entries that it
  -- returns name servers that exist.
  pub allocate-capacity :
      (order : ServerEntry F → ServerEntry F → Ordering) (pool : Pool F) (es : List (ServerEntry F))
      → All IsReady es
      → Known pool es
      → PoolFits sys sys.capacity pool
      → (end : Pool F × List (ServerEntry F)) × (allocate order sys pool es ≡ some end)
        × PoolFits sys sys.capacity end.0
        × HasNames pool.servers end.0.servers
        × Known end.0 end.1
  allocate-capacity order pool es ready known fits =
      let (end, e, fits', un, x) = allocate-Ends order sys sys.capacity pool es ready known fits in
      (end, e, fits', Extends-HasNames pool.servers end.0.servers x, un)

  -- Best effort, under every policy, ends without a panic for entries of servers that exist. If the
  -- units in use and the available units are within the capacity of each type, they are so afterwards,
  -- and no server is lost.
  pub best_effort-capacity :
      (policy : String) (pool : Pool F) (un : List (ServerEntry F))
      → Known pool un
      → PoolFits sys sys.capacity pool
      → (end : Pool F) × (best_effort sys policy pool un ≡ some end)
        × PoolFits sys sys.capacity end
        × HasNames pool.servers end.servers
  best_effort-capacity policy pool un known fits =
      let (end, e, x) = best_effort-Keeps policy pool un known in
      (end, e, x.0 fits, Extends-HasNames pool.servers end.servers x.1)

  -- A run that ends within the capacity, and loses no server.
  abbrev pub Serves : Pool F → Option (Pool F) → Type 0
  Serves pool r =
      (end : Pool F) × (r ≡ some end)
      × PoolFits sys sys.capacity end
      × Extends pool.servers end.servers

  abbrev pub IsServable : Pool F → ServerEntry F → Type 0
  IsServable pool e = IsReady e × IsKnown pool.servers e.server_name

  serve_group-Serves :
      (policy : String) (pool : Pool F) (es : List (ServerEntry F))
      → All (IsServable pool) es
      → PoolFits sys sys.capacity pool
      → Serves pool (serve_group sys policy pool es)
  unfolding serve_group
  serve_group-Serves policy pool es ready fits =
      let ((mid, un), e1, fits1, known, x) =
        allocate-Ends order_func sys sys.capacity pool es (All-map_imp (λ e h. h.0) es ready)
          (All-map_imp (λ e h. h.1) es ready) fits in
      let (end, e2, y) = best_effort-Keeps policy mid un known in
      (end, rw (serve_group, e1) e2, y.0 fits1, λ n k. y.1 n (x n k))

  serve_groups-Serves :
      (policy : String) (pool : Pool F) (gs : List (List (ServerEntry F)))
      → All (All (IsServable pool)) gs
      → PoolFits sys sys.capacity pool
      → Serves pool (serve_groups sys policy pool gs)
  unfolding serve_groups
  serve_groups-Serves policy pool [] ready fits = (pool, refl, fits, λ n k. k)
  serve_groups-Serves policy pool (g ∷ gs) (r, rs) fits =
      let (mid, e1, fits1, x) = serve_group-Serves policy pool g r fits in
      let (end, e2, fits2, y) =
        serve_groups-Serves policy mid gs
          (All-map_imp (λ es. All-map_imp (λ e h. (h.0, x e.server_name h.1)) es) gs rs) fits1 in
      (end, rw (serve_groups, e1) e2, fits2, λ n k. y n (x n k))

  pub start_pool-Fits : PoolFits sys sys.capacity (start_pool sys)
  start_pool-Fits type = omega (arith, remove_allocation-used sys type sys.servers)

  pub entries-IsServable :
      All (IsServable (start_pool sys)) (sort_func order_func (make_entries sys sys.servers))
  entries-IsServable =
      sort_func-All order_func (IsServable (start_pool sys)) (make_entries sys sys.servers) (
        make_entries-IsReady sys (start_pool sys).servers sys.servers (
          All-map_imp (λ e. map_servers-Extends remove_allocation sys.servers e.0) sys.servers
            (names-IsKnown sys.servers)))

  -- A result that keeps within the capacity, with nothing changed but the servers, all kept.
  abbrev pub IsWithin : Option (System F) → Type 0
  IsWithin r =
      (sys' : System F) × (r ≡ some sys')
      × ((type : String) → used sys type sys'.servers ≤ lookup_or 0 type sys.capacity)
      × (sys' ≡ record sys { servers = sys'.servers })
      × HasNames sys.servers sys'.servers

  Serves-IsWithin :
      (r : Option (Pool F))
      → Serves (start_pool sys) r
      → IsWithin (elim r [ none ↦ none | some p ↦ some (record sys { servers = p.servers }) ])
  Serves-IsWithin r (end, e, fits, x) = (
    record sys { servers = end.servers },
    rw e refl,
    λ type. omega (arith, fits type),
    refl,
    Extends-HasNames sys.servers end.servers
        (λ n k. x n (map_servers-Extends remove_allocation sys.servers n k)),
  )

  -- SolveGreedy ends without a panic on every system and under every policy, in one pass or with
  -- delayed best effort. The allocations that it leaves take, of every accelerator type, no more units
  -- than the capacity has; it changes nothing but the servers, and loses none of them.
  pub solve_greedy-capacity : (spec : OptimizerSpec) → IsWithin (solve_greedy spec sys)
  unfolding solve_greedy
  solve_greedy-capacity spec =
      let es = sort_func order_func (make_entries sys sys.servers) in
      elim (Bool-cases spec.delayed_best_effort) [
        | inl delayed ↦
            rw (solve_greedy, delayed)
              (Serves-IsWithin _ (
                serve_group-Serves spec.saturation_policy (start_pool sys) es entries-IsServable
                  start_pool-Fits))
        | inr now ↦
            rw (solve_greedy, now)
              (Serves-IsWithin _ (
                serve_groups-Serves spec.saturation_policy (start_pool sys)
                  (make_priority_groups es)
                  (make_priority_groups-All (IsServable (start_pool sys)) es entries-IsServable)
                  start_pool-Fits))
      ]
