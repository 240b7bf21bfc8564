-- ===== src/Core/CreationTests.antt =====
-- The theorems about the candidate allocations on the small system.
use inferno_autoscaler.Base.{
  ℕ, ◌≡◌, refl, subst, arith, IsNumber, Option, none, some, [], ◌∷◌, lookup, Milli, Milli-IsOrdered,
  of_nat, nought, pos, milli_float, milli_double, milli_conversion, false,
}
use inferno_autoscaler.Core.Types.{Allocation, System}
use inferno_autoscaler.Core.Server.{candidate_accelerators}
use inferno_autoscaler.Core.Creation.{
  Parts, find_parts, zero_load_allocation, create_from, create_allocation,
}
use inferno_autoscaler.Core.Candidates.{re_allocate, calculate_server}
use inferno_autoscaler.Core.Feasible.{IsFeasible, create_allocation-IsFeasible}
use inferno_autoscaler.Core.Least.{IsLeast, re_allocate-IsLeast}
use inferno_autoscaler.Core.Calculated.{listed, penalised, calculate_server-candidates}
use inferno_autoscaler.Core.Samples.{system, server, perf_data, accelerator_spec}

natural_lem : (n : ℕ) → milli_float.lt (of_nat n) nought ≡ false
natural_lem n = ground arith

-- The system without traffic.
abbrev idle_system : System Milli
idle_system = record system {
  servers =
      (
        "s1",
        record (server "s1" "Premium" 2) {
          load = record { arrival_rate = pos 0; avg_in_tokens = 100; avg_out_tokens = 50 };
        },
      )
      ∷ [];
}

abbrev idle_parts : Parts Milli
idle_parts = record {
  acc = record { name = "A100"; spec = accelerator_spec; slope_low = pos 0; slope_high = pos 0 };
  server = record (server "s1" "Premium" 2) {
    load = record { arrival_rate = pos 0; avg_in_tokens = 100; avg_out_tokens = 50 };
  };
  model = record {
    name = "llama";
    perf_data = ("A100", perf_data) ∷ [];
    num_instances = ("A100", 1) ∷ [];
  };
  perf = perf_data;
  target = record { itl = pos 24_000; ttft = pos 500_000; tps = pos 0 };
}

created_lem :
    create_allocation Milli idle_system "s1" "A100" ≡ some (zero_load_allocation idle_parts)
unfolding create_allocation find_parts create_from lookup
created_lem = refl

create_allocation-IsFeasible_example :
    (p : Parts Milli) × (find_parts idle_system "s1" "A100" ≡ some p)
    × (milli_float.lt p.server.load.arrival_rate nought ≡ false)
    × IsFeasible p "A100" (zero_load_allocation idle_parts)
unfolding lookup
create_allocation-IsFeasible_example =
    create_allocation-IsFeasible Milli Milli-IsOrdered natural_lem idle_system "s1" "A100"
      (zero_load_allocation idle_parts) ((refl, refl), tt) created_lem

same_allocation :
    (a b : Allocation Milli) (o : Option (Allocation Milli)) → o ≡ some a → o ≡ some b → a ≡ b
same_allocation a b o p q = cc

-- Its one candidate costs 40.
marked_lem :
    (a : Allocation Milli)
    → create_allocation Milli idle_system "s1" "A100" ≡ some a
    → IsNumber a.value × (milli_float.eq a.value nought ≡ false)
unfolding zero_load_allocation lookup
marked_lem a made =
    subst (λ x. IsNumber x.value × (milli_float.eq x.value nought ≡ false))
      (same_allocation (zero_load_allocation idle_parts) a
        (create_allocation Milli idle_system "s1" "A100") created_lem made)
      (refl, refl)

re_allocate-IsLeast_example :
    IsLeast Milli Milli-IsOrdered idle_system "s1" (re_allocate Milli idle_system "s1")
re_allocate-IsLeast_example =
    re_allocate-IsLeast Milli Milli-IsOrdered idle_system "s1" (marked_lem, tt)

calculate_server-candidates_example :
    lookup "A100"
      (calculate_server Milli system system.accelerators (server "s1" "Premium" 2)).all_allocations
    ≡ listed Milli
        (lookup "A100" (candidate_accelerators (server "s1" "Premium" 2) system.accelerators))
        none
        (penalised Milli
          (server "s1" "Premium" 2).cur_allocation
          (create_allocation Milli system "s1" "A100"))
calculate_server-candidates_example =
    calculate_server-candidates Milli system system.accelerators (server "s1" "Premium" 2) "A100"
      ((refl, refl), tt)
