-- ===== src/Capacity/Analysis/Maxima.antt =====
-- The worst-case metrics of analyzeVariant and its averages.
use inferno_autoscaler.Base.{
  ℕ, String, false, ◌≡◌, refl, List, [], ◌∷◌, arith, length, map, ap, sym, ◌∙◌, Float, of_nat,
  nought, IsOrdered, IsNumber, All, ◌≤◌, pos,
}
use inferno_autoscaler.Capacity.Types.{ReplicaMetrics, CapacityScalingConfig}
use inferno_autoscaler.Capacity.Analysis.{
  ReplicaScan, scan_saturation, scan_maxima, scan_replicas, analyze_variant, empty_replica_scan,
  average,
}
use inferno_autoscaler.Capacity.Analysis.Saturation.{non_saturated, scan_replicas-count}

module _ {F : Type 0} ⦃f : Float F⦄ where
  open f use {add, sub, div, lt}

  -- The sum of a list, from left to right, onto a first value.
  unfoldable pub sum_onto : F → List F → F
  sum_onto total [] = total
  sum_onto total (x ∷ xs) = sum_onto (add total x) xs

  -- The distances of some values below a threshold.
  abbrev pub spares : (ReplicaMetrics F → F) → F → List (ReplicaMetrics F) → List F
  spares usage threshold = map (λ m. sub threshold (usage m))

  -- A mean of values: their sum divided by their number, and 0 of none.
  abbrev pub IsMean : F → List F → Type 0
  IsMean x [] = x ≡ nought
  IsMean x (y ∷ ys) = x ≡ div (sum_onto nought (y ∷ ys)) (of_nat (length (y ∷ ys)))

  scan_replicas-spare :
      (config : CapacityScalingConfig F) (s : ReplicaScan F) (ms : List (ReplicaMetrics F))
      → let t = scan_replicas config s ms in
        (t.total_spare_kv
          ≡ sum_onto s.total_spare_kv
              (spares (λ m. m.kv_cache_usage) config.kv_cache_threshold (non_saturated config ms)))
        × (t.total_spare_queue
            ≡ sum_onto s.total_spare_queue (
                spares
                  (λ m. of_nat m.queue_length)
                  config.queue_length_threshold
                  (non_saturated config ms)))
  unfolding scan_replicas scan_saturation scan_maxima sum_onto
  scan_replicas-spare config s [] = (refl, refl)
  scan_replicas-spare config s (m ∷ ms) =
      ground (arith, scan_replicas-spare config (scan_maxima (scan_saturation config s m) m) ms)

  average-IsMean :
      (x : F) (ys : List F) (n : ℕ)
      → n ≡ length ys
      → x ≡ average (sum_onto nought ys) n
      → IsMean x ys
  average-IsMean x [] n e h = ground (arith, e, h)
  average-IsMean x (y ∷ ys) n e h = ground (arith, e, h)

  length-spares :
      (usage : ReplicaMetrics F → F) (threshold : F) (ms : List (ReplicaMetrics F))
      → length (spares usage threshold ms) ≡ length ms
  length-spares usage threshold [] = refl
  length-spares usage threshold (m ∷ ms) = omega (arith, length-spares usage threshold ms)

  -- The averages of analyzeVariant are means over exactly the non-saturated replicas: the sum of
  -- threshold minus usage over them, divided by their number, and 0 where there is none.
  pub analyze_variant-averages :
      (name : String) (ms : List (ReplicaMetrics F)) (config : CapacityScalingConfig F)
      → let va = analyze_variant name ms config in
        let spare = non_saturated config ms in
        IsMean va.avg_spare_kv_capacity
          (spares (λ m. m.kv_cache_usage) config.kv_cache_threshold spare)
        × IsMean va.avg_spare_queue_length
            (spares (λ m. of_nat m.queue_length) config.queue_length_threshold spare)
  unfolding analyze_variant
  analyze_variant-averages name ms config =
      let s = scan_replicas config empty_replica_scan ms in
      let spare = non_saturated config ms in
      let (kv, queue) = scan_replicas-spare config empty_replica_scan ms in
      let counted : s.non_saturated_count ≡ length spare =
        omega (arith, scan_replicas-count config empty_replica_scan ms) in
      let mean : (usage : ReplicaMetrics F → F) (threshold total : F)
          → total ≡ sum_onto nought (spares usage threshold spare)
          → IsMean (average total s.non_saturated_count) (spares usage threshold spare) =
        λ usage threshold total same.
          average-IsMean (average total s.non_saturated_count) (spares usage threshold spare)
            s.non_saturated_count (counted ∙ sym (length-spares usage threshold spare))
            (ap (λ x. average x s.non_saturated_count) same) in
      (
        mean (λ m. m.kv_cache_usage) config.kv_cache_threshold s.total_spare_kv kv,
        mean (λ m. of_nat m.queue_length) config.queue_length_threshold s.total_spare_queue queue,
      )

  module _ (laws : IsOrdered F) where
    open laws use {lt_asym, not_lt_trans, lt-IsNumber, of_int-IsNumber, lt_irrefl}

    -- No metric in the list is above the maxima.
    abbrev pub Dominates : F → ℕ → List (ReplicaMetrics F) → Type 0
    Dominates kv queue = All (λ m. (lt kv m.kv_cache_usage ≡ false) × (m.queue_length ≤ queue))

    scan_maxima-step :
        (config : CapacityScalingConfig F) (s : ReplicaScan F) (m : ReplicaMetrics F)
        → IsNumber s.max_kv_cache_usage
        → let t = scan_maxima (scan_saturation config s m) m in
          IsNumber t.max_kv_cache_usage
          × (lt t.max_kv_cache_usage m.kv_cache_usage ≡ false)
          × (lt t.max_kv_cache_usage s.max_kv_cache_usage ≡ false)
          × (m.queue_length ≤ t.max_queue_length)
          × (s.max_queue_length ≤ t.max_queue_length)
    unfolding scan_saturation scan_maxima
    scan_maxima-step config s m num =
        let kv = s.max_kv_cache_usage in
        ground (
          arith,
          lt-IsNumber kv m.kv_cache_usage,
          lt_asym kv m.kv_cache_usage,
          lt_irrefl kv,
          lt_irrefl m.kv_cache_usage,
        )

    scan_replicas-Dominates :
        (config : CapacityScalingConfig F) (s : ReplicaScan F) (ms : List (ReplicaMetrics F))
        → IsNumber s.max_kv_cache_usage
        → let t = scan_replicas config s ms in
          (lt t.max_kv_cache_usage s.max_kv_cache_usage ≡ false)
          × (s.max_queue_length ≤ t.max_queue_length)
          × Dominates t.max_kv_cache_usage t.max_queue_length ms
    unfolding scan_replicas
    scan_replicas-Dominates config s [] num = (lt_irrefl _, omega arith, tt)
    scan_replicas-Dominates config s (m ∷ ms) num =
        let t = scan_maxima (scan_saturation config s m) m in
        let r = scan_replicas config t ms in
        let (num', above, up, q, qup) = scan_maxima-step config s m num in
        let (top, qtop, rest) = scan_replicas-Dominates config t ms num' in
        (
          not_lt_trans _ _ _ num' up top,
          omega arith,
          ((not_lt_trans _ _ _ num' above top, omega arith), rest),
        )

    -- For floats that are ordered as IEEE 754 has it, no replica of the variant uses more KV cache
    -- than MaxKvCacheUsage and none has a longer queue than MaxQueueLength.
    pub analyze_variant-Dominates :
        (name : String) (ms : List (ReplicaMetrics F)) (config : CapacityScalingConfig F)
        → let va = analyze_variant name ms config in
          Dominates va.max_kv_cache_usage va.max_queue_length ms
    unfolding analyze_variant
    analyze_variant-Dominates name ms config =
        (scan_replicas-Dominates config empty_replica_scan ms (of_int-IsNumber (pos 0))).2
