-- ===== src/Controller/Optimal.antt =====
-- internal/optimizer/optimizer.go: which allocations the engine gives with unlimited capacity.
use inferno_autoscaler.Base.{
  ℕ, String, true, List, [], ◌∷◌, Option, none, some, ◌==◌, ◌≡◌, refl, sym, ◌∙◌, subst, arith, inl,
  inr, Bool-cases, length, All, All-of_mem, Table, lookup, insert, insert-All, lookup-All, Float,
  IsOrdered, ℤ,
}
use mathlib.Core.List.{Memᴰ}
use mathlib.Core.Option.{some-injective}
use inferno_autoscaler.Config.{AllocationData, OptimizerSpec}
use inferno_autoscaler.Core.Types.{Allocation, Server, System}
use inferno_autoscaler.Core.Allocation.{allocation_data}
use inferno_autoscaler.Core.System.{solution_of, generate_solution, allocate_by_type}
use inferno_autoscaler.Solver.Solve.{allocate_min, map_servers, solve_unlimited, solve, optimize}
use inferno_autoscaler.Solver.Unlimited.{IsCandidate, NoneBelow, IsBest, allocate_min-IsBest}
use inferno_autoscaler.Controller.Types.{VariantAutoscaling, OptimizedAlloc}
use inferno_autoscaler.Controller.Optimizing.{
  full_name, create_optimized_alloc, optimized_allocs, solved_allocs, optimize_engine,
}

module _ {F : Type 0} ⦃f : Float F⦄ (laws : IsOrdered F) (sys : System F) where
  -- The accelerator and the replicas are those of a candidate of a server of this name, below whose
  -- value no candidate of the server is.
  abbrev pub IsOptimal : (name accelerator : String) (num_replicas : ℕ) → Type 0
  IsOptimal name accelerator num_replicas =
      (s : Server F) × (a : Allocation F) × Memᴰ (name, s) sys.servers
      × IsCandidate laws a s.all_allocations
      × NoneBelow laws a.value s.all_allocations
      × (accelerator ≡ a.accelerator)
      × (num_replicas ≡ a.num_replicas)

  abbrev IsSolved : String × AllocationData F → Type 0
  IsSolved (name, solved) = IsOptimal name solved.accelerator solved.num_replicas

  -- What an entry of the servers after the solver adds to the solution.
  abbrev Solves : String × Server F → Type 0
  Solves (name, v) =
      (a : Allocation F)
      → v.allocation ≡ some a
      → IsSolved (name, record (allocation_data a) { load = v.load })

  allocated-Solves :
      (name : String) (s : Server F) (o : Option (Allocation F))
      → Memᴰ (name, s) sys.servers
      → IsBest laws s.all_allocations o
      → (a : Allocation F) → o ≡ some a
      → IsSolved (name, record (allocation_data a) { load = s.load })
  unfolding allocation_data
  allocated-Solves name s none m best a h = cc
  allocated-Solves name s (some b) m (candidate, below) a h =
      subst (λ x. IsSolved (name, record (allocation_data x) { load = s.load }))
        (some-injective b a h) (s, b, m, candidate, below, refl, refl)

  allocate_min-Solves :
      (e : String × Server F) → Memᴰ e sys.servers → Solves (e.0, allocate_min e.1)
  unfolding allocation_data
  allocate_min-Solves (name, s) m =
      allocated-Solves name s (allocate_min s).allocation m (allocate_min-IsBest laws s)

  mapped-Solves :
      (vs : Table (Server F))
      → All (λ e. Memᴰ e sys.servers) vs
      → All Solves (map_servers allocate_min vs)
  mapped-Solves [] m = tt
  mapped-Solves (e ∷ vs) (m, ms) = (allocate_min-Solves e m, mapped-Solves vs ms)

  added-IsSolved :
      (name : String) (v : Server F) (solution : Table (AllocationData F))
      (o : Option (Allocation F))
      → ((a : Allocation F)
          → o ≡ some a
          → IsSolved (name, record (allocation_data a) { load = v.load }))
      → All IsSolved solution
      → All IsSolved (
          let out : Table (AllocationData F) = elim o [
            | none ↦ solution
            | some a ↦ insert name (record (allocation_data a) { load = v.load }) solution
          ] in
          out)
  added-IsSolved name v solution none solves h = h
  added-IsSolved name v solution (some a) solves h =
      insert-All IsSolved name (record (allocation_data a) { load = v.load }) solution
        (solves a refl) h

  solution_of-IsSolved :
      (vs : Table (Server F)) (solution : Table (AllocationData F))
      → All IsSolved solution
      → All Solves vs
      → All IsSolved (solution_of solution vs)
  unfolding solution_of
  solution_of-IsSolved [] solution h hs = h
  solution_of-IsSolved ((name, v) ∷ vs) solution h (solves, hs) =
      solution_of-IsSolved vs _ (added-IsSolved name v solution v.allocation solves h) hs

  module _ (all : List VariantAutoscaling) (now : ℤ) where
    -- The entry of a variant, under its name alone.
    abbrev pub IsOptimized : String × OptimizedAlloc → Type 0
    IsOptimized (name, o) =
        (va : VariantAutoscaling) × Memᴰ va all
        × (va.name ≡ name)
        × IsOptimal (full_name va.name va.namespace) o.accelerator o.num_replicas

    module _ (solution : Table (AllocationData F)) (solved : All IsSolved solution) where
      found-IsOptimized :
          (va : VariantAutoscaling) (found : Option (AllocationData F))
          (allocs : Table OptimizedAlloc)
          → Memᴰ va all
          → lookup (full_name va.name va.namespace) solution ≡ found
          → All IsOptimized allocs
          → All IsOptimized (
              let created : Option OptimizedAlloc = elim found [
                | none ↦ none
                | some solved ↦ some (record {
                  last_run_time = now;
                  accelerator = solved.accelerator;
                  num_replicas = solved.num_replicas;
                })
              ] in
              let out : Table OptimizedAlloc = elim created [
                | none ↦ allocs
                | some a ↦ insert va.name a allocs
              ] in
              out)
      found-IsOptimized va none allocs m h hs = hs
      found-IsOptimized va (some x) allocs m h hs =
          insert-All IsOptimized va.name
            (record {
              last_run_time = now;
              accelerator = x.accelerator;
              num_replicas = x.num_replicas;
            })
            allocs
            (va, m, refl, lookup-All IsSolved (full_name va.name va.namespace) solution h solved) hs

      optimized_allocs-IsOptimized :
          (vas : List VariantAutoscaling) (allocs : Table OptimizedAlloc)
          → All (λ va. Memᴰ va all) vas
          → All IsOptimized allocs
          → All IsOptimized (optimized_allocs allocs solution now vas)
      unfolding optimized_allocs create_optimized_alloc
      optimized_allocs-IsOptimized [] allocs ms hs = hs
      optimized_allocs-IsOptimized (va ∷ vas) allocs (m, ms) hs =
          optimized_allocs-IsOptimized vas _ ms (
            found-IsOptimized va (lookup (full_name va.name va.namespace) solution) allocs m refl
              hs)

    solved_allocs-IsOptimized :
        (sys2 sys' : System F) (allocs : Table OptimizedAlloc)
        → All Solves sys2.servers
        → solved_allocs now all sys2 ≡ some (sys', allocs)
        → All IsOptimized allocs
    unfolding generate_solution
    solved_allocs-IsOptimized sys2 sys' allocs solves h =
        let solution = solution_of [] sys2.servers in
        let solved = solution_of-IsSolved sys2.servers [] tt solves in
        elim (Bool-cases (length solution == 0)) [
          | inl empty ↦ ground (arith, h, empty)
          | inr full ↦
              let same : optimized_allocs [] solution now all ≡ allocs = ground (arith, h, full) in
              subst (All IsOptimized) same (
                optimized_allocs-IsOptimized solution solved all [] (All-of_mem all (λ va m. m)) tt)
        ]

    optimize_engine-unlimited :
        (spec : OptimizerSpec)
        → spec.unlimited ≡ true
        → optimize_engine spec sys all now
          ≡ solved_allocs now all (allocate_by_type (solve_unlimited sys))
    unfolding optimize_engine optimize solve
    optimize_engine-unlimited spec unlimited = rw unlimited refl

    -- With unlimited capacity, the allocation that the engine's Optimize gives under a variant's name
    -- has the accelerator and the replicas of a candidate of the server with the full name of a variant
    -- of that name, and no candidate of this server has a value below the candidate's. The order is
    -- that of IEEE 754.
    pub optimize_engine-IsOptimized :
        (spec : OptimizerSpec) (sys' : System F) (allocs : Table OptimizedAlloc)
        → spec.unlimited ≡ true
        → optimize_engine spec sys all now ≡ some (sys', allocs)
        → All IsOptimized allocs
    unfolding solve_unlimited allocate_by_type
    optimize_engine-IsOptimized spec sys' allocs unlimited h =
        solved_allocs-IsOptimized (allocate_by_type (solve_unlimited sys)) sys' allocs
          (mapped-Solves sys.servers (All-of_mem sys.servers (λ e m. m)))
          (sym (optimize_engine-unlimited spec unlimited) ∙ h)
