-- ===== src/Controller/Optimizing.antt =====
-- internal/modelanalyzer (analyzer.go, utils.go), internal/optimizer/optimizer.go and the adapters of
-- internal/utils/utils.go: the model-based optimization on a system.
use inferno_autoscaler.Base.{
  String, List, [], ◌∷◌, Option, none, some, ◌==◌, if◌then◌else◌, length, Table, lookup, insert,
  Float, of_nat, Double, Conversion, ℤ,
}
use Prim.Native.String.{◌++◌}
use inferno_autoscaler.Config.{AllocationData, OptimizerSpec}
use inferno_autoscaler.Core.Types.{Allocation, System}
use inferno_autoscaler.Core.Candidates.{calculate_server}
use inferno_autoscaler.Core.System.{generate_solution}
use inferno_autoscaler.Solver.Solve.{optimize}
use inferno_autoscaler.Controller.Types.{VariantAutoscaling, OptimizedAlloc}

-- FullName
abbrev pub full_name : (name namespace : String) → String
full_name name namespace = name ++ ":" ++ namespace

-- The reason, a constant text, is left out.
pub record ModelAcceleratorAllocation (F D : Type 0) : Type 0 where
  pub allocation : Option (Allocation F)
  pub required_prefill_qps : D
  pub required_decode_qps : D

module _ {F D : Type 0} ⦃f : Float F⦄ ⦃c : Conversion F D⦄ where
  abbrev pub accelerator_allocation : Allocation F → ModelAcceleratorAllocation F D
  accelerator_allocation a =
      let qps = c.widen (f.mul a.max_arrv_rate_per_replica (of_nat 1000)) in
      record { allocation = some a; required_prefill_qps = qps; required_decode_qps = qps }

  -- CreateModelAnalyzeResponseFromAllocations, a map with the keys of the allocations
  unfoldable pub response_of : Table (Allocation F) → Table (ModelAcceleratorAllocation F D)
  response_of [] = []
  response_of ((key, a) ∷ allocations) = (key, accelerator_allocation a) ∷ response_of allocations

-- CreateAllocationsFromModelAnalyzeResponse
unfoldable pub allocations_of :
    {F D : Type 0} → Table (ModelAcceleratorAllocation F D) → Table (Allocation F)
allocations_of [] = []
allocations_of ((key, r) ∷ response) = elim r.allocation [
  | none ↦ allocations_of response
  | some a ↦ (key, a) ∷ allocations_of response
]

module _ {F : Type 0} (D : Type 0) ⦃f : Float F⦄ ⦃e : Float D⦄ ⦃d : Double D⦄
    ⦃c : Conversion F D⦄ where
  -- AnalyzeModel, which changes the server in the system.
  unfoldable pub analyze_model :
      System F → VariantAutoscaling → System F × Table (ModelAcceleratorAllocation F D)
  unfolding response_of
  analyze_model sys va =
      let name = full_name va.name va.namespace in
      elim (lookup name sys.servers) [
        | none ↦ (sys, [])
        | some s ↦
            let s' = calculate_server D sys sys.accelerators s in
            (record sys { servers = insert name s' sys.servers }, response_of s'.all_allocations)
      ]

module _ {F : Type 0} where
  -- CreateOptimizedAlloc, at the time `now`; `none` is an error
  unfoldable pub create_optimized_alloc :
      (name namespace : String) → Table (AllocationData F) → (now : ℤ) → Option OptimizedAlloc
  create_optimized_alloc name namespace solution now =
      elim (lookup (full_name name namespace) solution) [
        | none ↦ none
        | some solved ↦ some (record {
          last_run_time = now;
          accelerator = solved.accelerator;
          num_replicas = solved.num_replicas;
        })
      ]

  -- The loop of the engine's Optimize.
  unfoldable pub optimized_allocs :
      Table OptimizedAlloc
      → Table (AllocationData F)
      → (now : ℤ) → List VariantAutoscaling
      → Table OptimizedAlloc
  optimized_allocs allocs solution now [] = allocs
  optimized_allocs allocs solution now (va ∷ vas) =
      optimized_allocs
        (elim (create_optimized_alloc va.name va.namespace solution now) [
          | none ↦ allocs
          | some a ↦ insert va.name a allocs
        ])
        solution now vas

module _ {F : Type 0} ⦃f : Float F⦄ where
  -- From the optimized system on; an empty solution is an error.
  abbrev pub solved_allocs :
      (now : ℤ) → List VariantAutoscaling → System F → Option (System F × Table OptimizedAlloc)
  solved_allocs now vas sys =
      let (sys', solution) = generate_solution sys in
      if length solution == 0 then none else some (sys', optimized_allocs [] solution now vas)

  -- The engine's Optimize, at the time `now`.
  unfoldable pub optimize_engine :
      OptimizerSpec
      → System F
      → List VariantAutoscaling
      → (now : ℤ) → Option (System F × Table OptimizedAlloc)
  optimize_engine spec sys vas now = elim (optimize spec sys) [
    | none ↦ none
    | some sys' ↦ solved_allocs now vas sys'
  ]
