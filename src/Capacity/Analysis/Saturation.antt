-- ===== src/Capacity/Analysis/Saturation.antt =====
-- Which replicas analyzeVariant counts as saturated.
use inferno_autoscaler.Base.{
  ◌+◌, String, not, ◌≡◌, refl, List, [], ◌∷◌, ◌++◌, map, arith, length, select, Float,
}
use inferno_autoscaler.Capacity.Types.{ReplicaMetrics, CapacityScalingConfig}
use inferno_autoscaler.Capacity.Analysis.{
  ReplicaScan, is_saturated, scan_saturation, scan_maxima, scan_replicas, analyze_variant,
  empty_replica_scan,
}
use mathlib.Core.List.{append_assoc, append-nil}

module _ {F : Type 0} ⦃f : Float F⦄ where
  abbrev pub saturated : CapacityScalingConfig F → List (ReplicaMetrics F) → List (ReplicaMetrics F)
  saturated config = select (is_saturated config)

  abbrev pub non_saturated :
      CapacityScalingConfig F → List (ReplicaMetrics F) → List (ReplicaMetrics F)
  non_saturated config = select (λ m. not (is_saturated config m))

  pub length-select_split :
      (config : CapacityScalingConfig F) (ms : List (ReplicaMetrics F))
      → length (saturated config ms) + length (non_saturated config ms) ≡ length ms
  length-select_split config [] = omega arith
  length-select_split config (m ∷ ms) = ground (arith, length-select_split config ms)

  length-map_pod : (ms : List (ReplicaMetrics F)) → length (map (λ m. m.pod_name) ms) ≡ length ms
  length-map_pod [] = refl
  length-map_pod (m ∷ ms) = omega (arith, length-map_pod ms)

  pub scan_replicas-count :
      (config : CapacityScalingConfig F) (s : ReplicaScan F) (ms : List (ReplicaMetrics F))
      → (scan_replicas config s ms).non_saturated_count
        ≡ s.non_saturated_count + length (non_saturated config ms)
  unfolding scan_replicas scan_saturation scan_maxima
  scan_replicas-count config s [] = omega arith
  scan_replicas-count config s (m ∷ ms) =
      ground (arith, scan_replicas-count config (scan_maxima (scan_saturation config s m) m) ms)

  scan_replicas-saturated :
      (config : CapacityScalingConfig F) (s : ReplicaScan F) (ms : List (ReplicaMetrics F))
      → (scan_replicas config s ms).saturated_replicas
        ≡ s.saturated_replicas ++ map (λ m. m.pod_name) (saturated config ms)
  unfolding scan_replicas scan_saturation scan_maxima
  scan_replicas-saturated config s [] = simp append-nil
  scan_replicas-saturated config s (m ∷ ms) = ground (
    arith,
    scan_replicas-saturated config (scan_maxima (scan_saturation config s m) m) ms,
    append_assoc s.saturated_replicas (m.pod_name ∷ [])
        (map (λ m. m.pod_name) (saturated config ms)),
  )

  -- analyzeVariant counts every replica once: the pods that it lists are those of the saturated
  -- replicas, in order, and the rest are its non-saturated replicas.
  pub analyze_variant-counts :
      (name : String) (ms : List (ReplicaMetrics F)) (config : CapacityScalingConfig F)
      → let va = analyze_variant name ms config in
        (va.replica_count ≡ length ms)
        × (va.saturated_replicas ≡ map (λ m. m.pod_name) (saturated config ms))
        × (va.non_saturated_count ≡ length (non_saturated config ms))
        × (length va.saturated_replicas + va.non_saturated_count ≡ va.replica_count)
  unfolding analyze_variant
  analyze_variant-counts name ms config =
      let pods = map (λ m. m.pod_name) (saturated config ms) in
      let listed = scan_replicas-saturated config empty_replica_scan ms in
      let counted = scan_replicas-count config empty_replica_scan ms in
      (
        refl,
        listed,
        omega (arith, counted),
        rw listed (
            omega (
              arith,
              counted,
              length-select_split config ms,
              length-map_pod (saturated config ms),
            )),
      )
