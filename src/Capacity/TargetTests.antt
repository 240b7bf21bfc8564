-- ===== src/Capacity/TargetTests.antt =====
-- The targets and the arbitration on an analysis of two variants, in thousandths.
use inferno_autoscaler.Base.{
  ℕ, ◌+◌, ◌-◌, ◌<◌, ◌≤◌, true, false, ◌≡◌, ◌⊎◌, refl, arith, List, [], ◌∷◌, some, All, milli_float,
  insert, lookup, map, Milli, Milli-IsOrdered, pos,
}
use inferno_autoscaler.Capacity.Types.{
  VariantCapacityAnalysis, ModelCapacityAnalysis, VariantReplicaState, VariantDecision, no_reason,
}
use inferno_autoscaler.Capacity.Targets.{state_map, calculate_capacity_targets}
use inferno_autoscaler.Capacity.Targets.Steps.{targets-step}
use inferno_autoscaler.Capacity.Targets.Cost.{
  NotCheaper, NotDearer, ChangesBest, MayRise, MayFall, targets-cheapest, targets-dearest,
}
use inferno_autoscaler.Capacity.Arbitration.{
  decide_matrix, is_unsafe, arbitrate_variant, arbitrate_with_model_based,
}
use inferno_autoscaler.Capacity.Arbitration.Matrix.{
  arbitrate_variant-safe, arbitrate_with_model_based_lem,
}

abbrev variant_a : VariantCapacityAnalysis Milli
variant_a = record {
  variant_name = "a";
  accelerator_name = "A100";
  cost = pos 40_000;
  replica_count = 2;
  non_saturated_count = 1;
  max_kv_cache_usage = pos 900;
  max_queue_length = 1;
  avg_spare_kv_capacity = pos 50;
  avg_spare_queue_length = pos 4000;
  saturated_replicas = "p1" ∷ [];
}

abbrev variant_b : VariantCapacityAnalysis Milli
variant_b = record variant_a {
  variant_name = "b";
  cost = pos 20_000;
  replica_count = 1;
  saturated_replicas = [];
}

-- An analysis of both variants that recommends a scale-up, and one that calls a scale-down safe.
abbrev growing : ModelCapacityAnalysis Milli
growing = record {
  model_id = "llama";
  namespace = "default";
  analyzed_at = pos 0;
  total_replicas = 3;
  non_saturated_count = 2;
  avg_spare_kv_capacity = pos 50;
  avg_spare_queue_length = pos 4000;
  should_scale_up = true;
  should_scale_down = false;
  scale_up_reason = no_reason;
  scale_down_safe = false;
  variant_analyses = variant_a ∷ variant_b ∷ [];
}

abbrev relaxed : ModelCapacityAnalysis Milli
relaxed = record growing { should_scale_up = false; scale_down_safe = true }

-- The desired replicas of "a" are as they are; those of "b" are not yet reached.
abbrev state_a : VariantReplicaState
state_a = record { variant_name = "a"; current_replicas = 2; desired_replicas = 2 }

abbrev state_b : VariantReplicaState
state_b = record { variant_name = "b"; current_replicas = 1; desired_replicas = 4 }

abbrev states : List VariantReplicaState
states = state_a ∷ state_b ∷ []

targets-step_example :
    (t : ℕ) × (lookup "a" (calculate_capacity_targets (some growing) states) ≡ some t)
    × ((t ≡ 2)
        ⊎ (true ≡ true) × (t ≡ 2 + 1)
        ⊎ (true ≡ false) × (false ≡ true) × (1 ≤ t) × (t + 1 ≡ 2))
unfolding lookup insert state_map
targets-step_example = targets-step growing states "a" (refl, (refl, tt)) refl refl

targets-cheapest_example :
    ChangesBest Milli-IsOrdered growing states
      (refl, (refl, tt))
      NotCheaper
      (MayRise Milli-IsOrdered growing states (refl, (refl, tt)))
      (λ b. b.replica_count + 1)
targets-cheapest_example =
    targets-cheapest Milli-IsOrdered growing states (refl, (refl, tt)) (λ e. ground (arith, e)) refl

targets-dearest_example :
    ChangesBest Milli-IsOrdered relaxed states
      (refl, (refl, tt))
      NotDearer
      (MayFall Milli-IsOrdered relaxed states (refl, (refl, tt)))
      (λ b. b.replica_count - 1)
targets-dearest_example =
    targets-dearest Milli-IsOrdered relaxed states (refl, (refl, tt)) (λ e. ground (arith, e)) refl
      refl

-- The decision for "b": the capacity target is 1, its current replicas, and the model's is 0.
abbrev shrink : VariantDecision Milli
shrink = arbitrate_variant (some relaxed) (some variant_b) state_b 1 0

shrink_lem : shrink.target_replicas < 1
unfolding arbitrate_variant decide_matrix
shrink_lem = ground arith

arbitrate_variant-safe_example :
    (1 ≤ 1) × (is_unsafe (some relaxed) ≡ false) × (shrink.target_replicas ≡ 0)
arbitrate_variant-safe_example =
    arbitrate_variant-safe (some relaxed) (some variant_b) state_b 1 0 shrink_lem

-- The decision for "a", whose capacity target is 3 and whose model target is 1.
abbrev veto_a : VariantDecision Milli
veto_a = arbitrate_variant (some growing) (some variant_a) state_a 3 1

arbitrate_with_model_based_lem_example :
    let decisions =
      arbitrate_with_model_based (some growing) (("a", 3) ∷ []) (("a", 1) ∷ []) states in
    (map (λ d. d.variant_name) decisions ≡ "a" ∷ "b" ∷ [])
    × ((is_unsafe (some growing) ≡ false)
        ⊎ All (λ d. d.current_replicas ≤ d.target_replicas) decisions)
arbitrate_with_model_based_lem_example =
    arbitrate_with_model_based_lem (some growing) (("a", 3) ∷ []) (("a", 1) ∷ []) states
