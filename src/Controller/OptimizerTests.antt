-- ===== src/Controller/OptimizerTests.antt =====
-- The engine on the small system, with one server of the full name of a variant.
use inferno_autoscaler.Base.{
  false, true, [], ◌∷◌, Option, none, some, ◌≡◌, refl, All, Table, insert, Milli, Milli-IsOrdered,
  milli_float, pos,
}
use inferno_autoscaler.Config.{OptimizerSpec}
use inferno_autoscaler.Core.Types.{System}
use inferno_autoscaler.Core.Server.{set_allocation}
use inferno_autoscaler.Core.System.{generate_solution, solution_of, allocate_by_type}
use inferno_autoscaler.Solver.Solve.{optimize, solve, solve_unlimited, min_allocation}
use inferno_autoscaler.Core.Samples.{system, server}
use inferno_autoscaler.Controller.Types.{OptimizedAlloc}
use inferno_autoscaler.Controller.Optimizing.{optimize_engine}
use inferno_autoscaler.Controller.Optimal.{IsOptimized, optimize_engine-IsOptimized}
use inferno_autoscaler.Controller.Tests.{variant}

abbrev variant_system : System Milli
variant_system = record system {
  servers =
      ("llama-a100:prod", record (server "llama-a100:prod" "Premium" 2) { model_name = "llama" })
      ∷ [];
}

abbrev unlimited : OptimizerSpec
unlimited = record { unlimited = true; delayed_best_effort = false; saturation_policy = "" }

abbrev or_none : Option (System Milli × Table OptimizedAlloc) → System Milli × Table OptimizedAlloc
or_none none = (system, [])
or_none (some out) = out

abbrev out : System Milli × Table OptimizedAlloc
out = or_none (optimize_engine unlimited variant_system (variant ∷ []) (pos 7))

optimized_lem :
    optimize_engine unlimited variant_system (variant ∷ []) (pos 7) ≡ some (out.0, out.1)
unfolding optimize_engine optimize solve generate_solution solution_of allocate_by_type
    solve_unlimited min_allocation set_allocation insert
optimized_lem = refl

optimize_engine-IsOptimized_example :
    All (IsOptimized Milli-IsOrdered variant_system (variant ∷ []) (pos 7)) out.1
optimize_engine-IsOptimized_example =
    optimize_engine-IsOptimized Milli-IsOrdered variant_system (variant ∷ []) (pos 7) unlimited
      out.0 out.1 refl optimized_lem
