-- ===== src/Capacity/Analysis.antt =====
-- internal/capacity/analyzer.go: AnalyzeModelCapacity with analyzeVariant, shouldScaleUp and
-- isScaleDownSafe.
pub mod Saturation
pub mod Grouping
pub mod Totals
pub mod Decisions
pub mod Maxima
use inferno_autoscaler.Base.{
  ℕ, ℤ, suc, ◌+◌, ◌-◌, ◌<◌, String, Bool, true, false, not, ◌&&◌, ◌||◌, ◌≡◌, List, [], ◌∷◌, ◌++◌,
  Option, none, some, arith, ltb, leb, if◌then◌else◌, length, select, Table, lookup_or, group_onto,
  insert, Float, of_nat, nought, ge,
}
use inferno_autoscaler.Capacity.Types.{
  ReplicaMetrics, VariantCapacityAnalysis, ModelCapacityAnalysis, CapacityScalingConfig,
  ScaleUpReason, no_reason, both_low, kv_low, queue_low,
}

-- MinNonSaturatedReplicasForScaleDown
abbrev pub min_non_saturated_replicas : ℕ
min_non_saturated_replicas = 2

-- The variables of the loop of analyzeVariant.
pub record ReplicaScan (F : Type 0) : Type 0 where
  pub total_spare_kv : F
  pub total_spare_queue : F
  pub non_saturated_count : ℕ
  pub saturated_replicas : List String
  pub max_kv_cache_usage : F
  pub max_queue_length : ℕ

-- The variables of the loop of AnalyzeModelCapacity.
pub record VariantScan (F : Type 0) : Type 0 where
  pub variant_analyses : List (VariantCapacityAnalysis F)
  pub total_spare_kv : F
  pub total_spare_queue : F
  pub non_saturated_count : ℕ
  pub max_kv_usage : F
  pub max_queue_len : ℕ

module _ {F : Type 0} where
  -- variantCounts[metric.VariantName]++
  unfoldable pub count_variants : Table ℕ → List (ReplicaMetrics F) → Table ℕ
  count_variants counts [] = counts
  count_variants counts (m ∷ ms) =
      count_variants (insert m.variant_name (lookup_or 0 m.variant_name counts + 1) counts) ms

  -- An empty slice for every variant that was counted (the count is its capacity alone).
  unfoldable pub preallocate :
      Table (List (ReplicaMetrics F)) → Table ℕ → Table (List (ReplicaMetrics F))
  preallocate variants [] = variants
  preallocate variants ((name, count) ∷ counts) = preallocate (insert name [] variants) counts

  unfoldable pub populate :
      Table (List (ReplicaMetrics F)) → List (ReplicaMetrics F) → Table (List (ReplicaMetrics F))
  unfolding group_onto
  populate = group_onto (λ m. m.variant_name)

  unfoldable pub variant_map : List (ReplicaMetrics F) → Table (List (ReplicaMetrics F))
  variant_map ms = populate (preallocate [] (count_variants [] ms)) ms

  abbrev pub first_accelerator : List (ReplicaMetrics F) → String
  first_accelerator [] = ""
  first_accelerator (m ∷ _) = m.accelerator_name

module _ {F : Type 0} ⦃f : Float F⦄ where
  open f use {add, sub, mul, div, lt, eq}

  abbrev pub first_cost : List (ReplicaMetrics F) → F
  first_cost [] = nought
  first_cost (m ∷ _) = m.cost

  unfoldable pub is_saturated : CapacityScalingConfig F → ReplicaMetrics F → Bool
  is_saturated config m =
      ge m.kv_cache_usage config.kv_cache_threshold
      || ge (of_nat m.queue_length) config.queue_length_threshold

  abbrev pub empty_replica_scan : ReplicaScan F
  empty_replica_scan = record {
    total_spare_kv = nought;
    total_spare_queue = nought;
    non_saturated_count = 0;
    saturated_replicas = [];
    max_kv_cache_usage = nought;
    max_queue_length = 0;
  }

  -- The branch of the loop body on whether the replica is saturated.
  unfoldable pub scan_saturation :
      CapacityScalingConfig F → ReplicaScan F → ReplicaMetrics F → ReplicaScan F
  scan_saturation config s m =
      if is_saturated config m
      then record s { saturated_replicas = s.saturated_replicas ++ (m.pod_name ∷ []) }
      else record s {
        total_spare_kv = add s.total_spare_kv (sub config.kv_cache_threshold m.kv_cache_usage);
        total_spare_queue =
            add s.total_spare_queue (sub config.queue_length_threshold (of_nat m.queue_length));
        non_saturated_count = s.non_saturated_count + 1;
      }

  -- Track max usage.
  unfoldable pub scan_maxima : ReplicaScan F → ReplicaMetrics F → ReplicaScan F
  scan_maxima s m = record s {
    max_kv_cache_usage =
        if lt s.max_kv_cache_usage m.kv_cache_usage then m.kv_cache_usage else s.max_kv_cache_usage;
    max_queue_length =
        if ltb s.max_queue_length m.queue_length then m.queue_length else s.max_queue_length;
  }

  unfoldable pub scan_replicas :
      CapacityScalingConfig F → ReplicaScan F → List (ReplicaMetrics F) → ReplicaScan F
  scan_replicas config s [] = s
  scan_replicas config s (m ∷ ms) =
      scan_replicas config (scan_maxima (scan_saturation config s m) m) ms

  -- The average that stays 0 where nothing was counted.
  abbrev pub average : F → ℕ → F
  average total count = if ltb 0 count then div total (of_nat count) else nought

  unfoldable pub analyze_variant :
      String → List (ReplicaMetrics F) → CapacityScalingConfig F → VariantCapacityAnalysis F
  analyze_variant name metrics config =
      let s = scan_replicas config empty_replica_scan metrics in
      record {
        variant_name = name;
        accelerator_name = first_accelerator metrics;
        cost = first_cost metrics;
        replica_count = length metrics;
        non_saturated_count = s.non_saturated_count;
        max_kv_cache_usage = s.max_kv_cache_usage;
        max_queue_length = s.max_queue_length;
        avg_spare_kv_capacity = average s.total_spare_kv s.non_saturated_count;
        avg_spare_queue_length = average s.total_spare_queue s.non_saturated_count;
        saturated_replicas = s.saturated_replicas;
      }

  unfoldable pub should_scale_up : F → F → CapacityScalingConfig F → Bool × ScaleUpReason F
  should_scale_up avg_kv avg_queue config =
      let kv_triggered = lt avg_kv config.kv_spare_trigger in
      let queue_triggered = lt avg_queue config.queue_spare_trigger in
      if not kv_triggered && not queue_triggered
      then (false, no_reason)
      else if kv_triggered && queue_triggered
      then (true, both_low avg_kv config.kv_spare_trigger avg_queue config.queue_spare_trigger)
      else if kv_triggered
      then (true, kv_low avg_kv config.kv_spare_trigger)
      else (true, queue_low avg_queue config.queue_spare_trigger)

  unfoldable pub kv_load : F → List (ReplicaMetrics F) → F
  kv_load total [] = total
  kv_load total (m ∷ ms) = kv_load (add total m.kv_cache_usage) ms

  unfoldable pub queue_load : ℕ → List (ReplicaMetrics F) → ℕ
  queue_load total [] = total
  queue_load total (m ∷ ms) = queue_load (total + m.queue_length) ms

  -- Whether the spare capacity after spreading a load over one replica less meets the trigger.
  abbrev pub has_headroom : (threshold trigger total : F) → ℕ → Bool
  has_headroom threshold trigger total remaining =
      ge (sub threshold (div total (of_nat remaining))) trigger

  -- (shouldScaleDown, isSafe)
  unfoldable pub is_scale_down_safe :
      List (ReplicaMetrics F) → CapacityScalingConfig F → Bool × Bool
  is_scale_down_safe metrics config =
      let spare = select (λ m. not (is_saturated config m)) metrics in
      let count = length spare in
      if ltb count min_non_saturated_replicas
      then (false, false)
      else let remaining = count - 1 in
        let kv_safe =
          has_headroom config.kv_cache_threshold config.kv_spare_trigger (kv_load nought spare)
            remaining in
        let queue_safe =
          has_headroom config.queue_length_threshold config.queue_spare_trigger
            (of_nat (queue_load 0 spare)) remaining in
        (false, kv_safe && queue_safe)

  abbrev pub empty_variant_scan : VariantScan F
  empty_variant_scan = record {
    variant_analyses = [];
    total_spare_kv = nought;
    total_spare_queue = nought;
    non_saturated_count = 0;
    max_kv_usage = nought;
    max_queue_len = 0;
  }

  unfoldable pub scan_variant : VariantScan F → VariantCapacityAnalysis F → VariantScan F
  scan_variant s va = record {
    variant_analyses = s.variant_analyses ++ (va ∷ []);
    non_saturated_count = s.non_saturated_count + va.non_saturated_count;
    total_spare_kv =
        add s.total_spare_kv (mul va.avg_spare_kv_capacity (of_nat va.non_saturated_count));
    total_spare_queue =
        add s.total_spare_queue (mul va.avg_spare_queue_length (of_nat va.non_saturated_count));
    max_kv_usage =
        if lt s.max_kv_usage va.max_kv_cache_usage then va.max_kv_cache_usage else s.max_kv_usage;
    max_queue_len =
        if ltb s.max_queue_len va.max_queue_length then va.max_queue_length else s.max_queue_len;
  }

  unfoldable pub scan_variants :
      CapacityScalingConfig F → VariantScan F → Table (List (ReplicaMetrics F)) → VariantScan F
  scan_variants config s [] = s
  scan_variants config s ((name, metrics) ∷ variants) =
      scan_variants config (scan_variant s (analyze_variant name metrics config)) variants

  -- The analysis of a model with no replica.
  abbrev pub empty_analysis : ℤ → String → String → ModelCapacityAnalysis F
  empty_analysis now model_id namespace = record {
    model_id = model_id;
    namespace = namespace;
    analyzed_at = now;
    total_replicas = 0;
    non_saturated_count = 0;
    avg_spare_kv_capacity = nought;
    avg_spare_queue_length = nought;
    should_scale_up = false;
    should_scale_down = false;
    scale_up_reason = no_reason;
    scale_down_safe = false;
    variant_analyses = [];
  }

  -- `now` is the clock, and `visit` the order in which `range variantMap` goes through the map.
  module _ (now : ℤ) (visit : Table (List (ReplicaMetrics F)) → Table (List (ReplicaMetrics F)))
      (model_id namespace : String) where
    unfoldable pub analyze_model_capacity :
        List (ReplicaMetrics F) → CapacityScalingConfig F → ModelCapacityAnalysis F
    analyze_model_capacity [] config = empty_analysis now model_id namespace
    analyze_model_capacity (m ∷ ms) config =
        let metrics = m ∷ ms in
        let s = scan_variants config empty_variant_scan (visit (variant_map metrics)) in
        let avg_kv = average s.total_spare_kv s.non_saturated_count in
        let avg_queue = average s.total_spare_queue s.non_saturated_count in
        let up = should_scale_up avg_kv avg_queue config in
        let down = is_scale_down_safe metrics config in
        record {
          model_id = model_id;
          namespace = namespace;
          analyzed_at = now;
          total_replicas = length metrics;
          non_saturated_count = s.non_saturated_count;
          avg_spare_kv_capacity = avg_kv;
          avg_spare_queue_length = avg_queue;
          should_scale_up = up.0;
          should_scale_down = down.0;
          scale_up_reason = up.1;
          scale_down_safe = down.1;
          variant_analyses = s.variant_analyses;
        }
