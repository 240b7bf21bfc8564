-- ===== src/Capacity/Tests.antt =====
-- The analysis and the configuration on two replicas of one variant and one of another, in thousandths.
use mathlib.Core.List.{Perm}
use mathlib.Core.List.Perm
use inferno_autoscaler.Base.{
  All, ℕ, ◌≤◌, true, false, ◌≡◌, ◌⊎◌, inl, refl, arith, List, [], ◌∷◌, none, some, String, of_nat,
  milli_float, length, Milli, pos, if◌then◌else◌,
}
use inferno_autoscaler.Capacity.Types.{ReplicaMetrics, CapacityScalingConfig}
use inferno_autoscaler.Capacity.ScalingConfig.{
  merge, validate, threshold_below_trigger, validate-merge,
}
use inferno_autoscaler.Capacity.Analysis.{is_saturated, analyze_variant, analyze_model_capacity}
use inferno_autoscaler.Capacity.Analysis.Saturation.{non_saturated}
use inferno_autoscaler.Capacity.Analysis.Grouping.{Groups, replicas_of}
use inferno_autoscaler.Capacity.Analysis.Totals.{
  analyze_model_capacity-counts, analyze_model_capacity-variants,
}
use inferno_autoscaler.Capacity.Analysis.Decisions.{
  analyze_model_capacity-safe, analyze_model_capacity-all_saturated,
}
use inferno_autoscaler.Capacity.Analysis.Maxima.{IsMean, spares, analyze_variant-averages}

abbrev config : CapacityScalingConfig Milli
config = record {
  model_id = "llama";
  namespace = "default";
  kv_cache_threshold = pos 800;
  queue_length_threshold = pos 5000;
  kv_spare_trigger = pos 100;
  queue_spare_trigger = pos 3000;
}

abbrev replica : String → String → Milli → ℕ → ReplicaMetrics Milli
replica pod variant usage queue = record {
  pod_name = pod;
  kv_cache_usage = usage;
  queue_length = queue;
  variant_name = variant;
  namespace = "default";
  model_id = "llama";
  accelerator_name = "A100";
  cost = pos 40_000;
}

-- One of the two replicas of "a" is saturated.
abbrev metrics : List (ReplicaMetrics Milli)
metrics =
    replica "p1" "a" (pos 900) 1 ∷ replica "p2" "b" (pos 300) 1 ∷ replica "p3" "a" (pos 200) 0 ∷ []

abbrev full_metrics : List (ReplicaMetrics Milli)
full_metrics = replica "p1" "a" (pos 900) 1 ∷ replica "p2" "b" (pos 300) 7 ∷ []

-- The order of a visit that leaves the map as it is.
abbrev in_order : Groups Milli → Groups Milli
in_order t = t

in_order-Perm : (t : Groups Milli) → Perm (in_order t) t
in_order-Perm t = Perm.refl t

config_valid : validate config ≡ none
unfolding validate
config_valid = refl

-- A threshold of 0.05, which is below the base's trigger.
abbrev low_threshold : CapacityScalingConfig Milli
low_threshold = record config { kv_cache_threshold = pos 50; kv_spare_trigger = pos 0 }

low_threshold_valid : validate low_threshold ≡ none
unfolding validate
low_threshold_valid = refl

validate-merge_example :
    let m = merge config low_threshold in
    validate m ≡ (
      if milli_float.lt m.kv_cache_threshold m.kv_spare_trigger
      then some (threshold_below_trigger m.kv_cache_threshold m.kv_spare_trigger)
      else none)
validate-merge_example = validate-merge config low_threshold config_valid low_threshold_valid

analyze_model_capacity-counts_example :
    let a = analyze_model_capacity (pos 0) in_order "llama" "default" metrics config in
    (a.total_replicas ≡ 3) × (a.non_saturated_count ≡ length (non_saturated config metrics))
analyze_model_capacity-counts_example =
    analyze_model_capacity-counts (pos 0) in_order "llama" "default" metrics config in_order-Perm

analyze_model_capacity-variants_example :
    All
      (λ va. va.replica_count ≡ length (replicas_of va.variant_name metrics))
      (analyze_model_capacity (pos 0) in_order "llama" "default" metrics config).variant_analyses
analyze_model_capacity-variants_example =
    analyze_model_capacity-variants (pos 0) in_order "llama" "default" metrics config in_order-Perm

analyze_model_capacity-safe_example :
    let a = analyze_model_capacity (pos 0) in_order "llama" "default" metrics config in
    (a.should_scale_down ≡ false) × ((a.scale_down_safe ≡ false) ⊎ (2 ≤ a.non_saturated_count))
analyze_model_capacity-safe_example =
    analyze_model_capacity-safe (pos 0) in_order "llama" "default" metrics config in_order-Perm

full_lem : non_saturated config full_metrics ≡ []
unfolding is_saturated
full_lem = refl

analyze_model_capacity-all_saturated_example :
    let a = analyze_model_capacity (pos 0) in_order "llama" "default" full_metrics config in
    (a.should_scale_up ≡ true) × (a.scale_down_safe ≡ false)
analyze_model_capacity-all_saturated_example =
    analyze_model_capacity-all_saturated (pos 0) in_order "llama" "default" full_metrics config
      in_order-Perm (λ e. ground (arith, e)) full_lem (inl refl)

analyze_variant-averages_example :
    let va = analyze_variant "a" metrics config in
    let spare = non_saturated config metrics in
    IsMean va.avg_spare_kv_capacity (spares (λ m. m.kv_cache_usage) (pos 800) spare)
    × IsMean va.avg_spare_queue_length (spares (λ m. of_nat m.queue_length) (pos 5000) spare)
analyze_variant-averages_example = analyze_variant-averages "a" metrics config
