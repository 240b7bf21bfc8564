-- ===== src/Capacity/Analysis/Totals.antt =====
-- What AnalyzeModelCapacity adds up over the variants.
use inferno_autoscaler.Base.{
  ℤ, ◌+◌, String, Bool, not, ◌≡◌, refl, List, [], ◌∷◌, ◌++◌, map, arith, length, select, Float, All,
  All-map_imp, sum_values, sum_by-Perm, IsKeyed-All-Finds, Finds, All-Perm,
}
use mathlib.Core.List.Perm
use mathlib.Core.List.{Perm, append_assoc, append-nil}
use native.Mathlib.Nat.{ℕ_set}
use inferno_autoscaler.Capacity.Types.{
  ReplicaMetrics, VariantCapacityAnalysis, CapacityScalingConfig,
}
use inferno_autoscaler.Capacity.Analysis.{
  VariantScan, is_saturated, analyze_variant, variant_map, scan_variant, scan_variants,
  empty_variant_scan, analyze_model_capacity,
}
use inferno_autoscaler.Capacity.Analysis.Saturation.{non_saturated, analyze_variant-counts}
use inferno_autoscaler.Capacity.Analysis.Grouping.{
  Groups, replicas_of, variant_map_lem, variant_map-sum,
}

module _ {F : Type 0} ⦃f : Float F⦄ where
  select-snoc :
      (p : ReplicaMetrics F → Bool) (xs : List (ReplicaMetrics F)) (m : ReplicaMetrics F)
      → length (select p (xs ++ (m ∷ []))) ≡ length (select p xs) + length (select p (m ∷ []))
  select-snoc p [] m = omega arith
  select-snoc p (x ∷ xs) m = ground (arith, select-snoc p xs m)

  select-cons :
      (p : ReplicaMetrics F → Bool) (m : ReplicaMetrics F) (xs : List (ReplicaMetrics F))
      → length (select p (m ∷ xs)) ≡ length (select p (m ∷ [])) + length (select p xs)
  select-cons p m xs = ground arith

  scan_variants-count :
      (config : CapacityScalingConfig F) (s : VariantScan F) (t : Groups F)
      → (scan_variants config s t).non_saturated_count
        ≡ s.non_saturated_count + sum_values (λ ms. length (non_saturated config ms)) t
  unfolding scan_variants scan_variant
  scan_variants-count config s [] = omega arith
  scan_variants-count config s ((n, ms) ∷ t) =
      let va = analyze_variant n ms config in
      omega (
        arith,
        scan_variants-count config (scan_variant s va) t,
        (analyze_variant-counts n ms config).2,
      )

  abbrev analyses : CapacityScalingConfig F → Groups F → List (VariantCapacityAnalysis F)
  analyses config = map (λ e. analyze_variant e.0 e.1 config)

  abbrev Counts : List (ReplicaMetrics F) → VariantCapacityAnalysis F → Type 0
  Counts ms va = va.replica_count ≡ length (replicas_of va.variant_name ms)

  abbrev IsGroup : List (ReplicaMetrics F) → String × List (ReplicaMetrics F) → Type 0
  IsGroup ms e = length e.1 ≡ length (replicas_of e.0 ms)

  analyses-Counts :
      (config : CapacityScalingConfig F) (all : List (ReplicaMetrics F)) (t : Groups F)
      → All (IsGroup all) t
      → All (Counts all) (analyses config t)
  unfolding analyze_variant
  analyses-Counts config all [] h = tt
  analyses-Counts config all (e ∷ t) h = (h.0, analyses-Counts config all t h.1)

  scan_variants-analyses :
      (config : CapacityScalingConfig F) (s : VariantScan F) (t : Groups F)
      → (scan_variants config s t).variant_analyses ≡ s.variant_analyses ++ analyses config t
  unfolding scan_variants scan_variant
  scan_variants-analyses config s [] = simp append-nil
  scan_variants-analyses config s ((n, ms) ∷ t) =
      let va = analyze_variant n ms config in
      ground (
        arith,
        scan_variants-analyses config (scan_variant s va) t,
        append_assoc s.variant_analyses (va ∷ []) (analyses config t),
      )

  -- In whatever order the variants are visited, the analysis counts every replica once: the total is
  -- the number of metrics, and NonSaturatedCount is the number of those that are not saturated.
  pub analyze_model_capacity-counts :
      (now : ℤ) (visit : Groups F → Groups F) (model_id namespace : String)
      (ms : List (ReplicaMetrics F)) (config : CapacityScalingConfig F)
      → ((t : Groups F) → Perm (visit t) t)
      → let a = analyze_model_capacity now visit model_id namespace ms config in
        (a.total_replicas ≡ length ms) × (a.non_saturated_count ≡ length (non_saturated config ms))
  unfolding analyze_model_capacity
  analyze_model_capacity-counts now visit model_id namespace [] config perm = (refl, refl)
  analyze_model_capacity-counts now visit model_id namespace (m ∷ ms) config perm =
      let g = λ (xs : List (ReplicaMetrics F)). length (non_saturated config xs) in
      let p = λ (x : ReplicaMetrics F). not (is_saturated config x) in
      let groups = variant_map (m ∷ ms) in
      (
        refl,
        omega (
          arith,
          scan_variants-count config empty_variant_scan (visit groups),
          sum_by-Perm (λ e. g e.1) (perm groups),
          variant_map-sum g refl (select-snoc p) (select-cons p) (m ∷ ms),
        ),
      )

  -- In whatever order the variants are visited, every variant analysis counts exactly the replicas
  -- whose metrics carry its variant's name.
  pub analyze_model_capacity-variants :
      (now : ℤ) (visit : Groups F → Groups F) (model_id namespace : String)
      (ms : List (ReplicaMetrics F)) (config : CapacityScalingConfig F)
      → ((t : Groups F) → Perm (visit t) t)
      → All
          (λ va. va.replica_count ≡ length (replicas_of va.variant_name ms))
          (analyze_model_capacity now visit model_id namespace ms config).variant_analyses
  unfolding analyze_model_capacity
  analyze_model_capacity-variants now visit model_id namespace [] config perm = tt
  analyze_model_capacity-variants now visit model_id namespace (m ∷ ms) config perm =
      let all = m ∷ ms in
      let groups = variant_map all in
      let (keyed, holds) = variant_map_lem all in
      let grouped : All (IsGroup all) groups =
        All-map_imp {P = Finds groups} (λ (n, xs) found. ground (arith, holds n)) groups
          (IsKeyed-All-Finds groups keyed) in
      let visited =
        All-Perm (IsGroup all) (λ e. ℕ_set _ _) groups (visit groups) (Perm.symm (perm groups))
          grouped in
      rw (scan_variants-analyses config empty_variant_scan (visit groups))
        (analyses-Counts config all (visit groups) visited)
