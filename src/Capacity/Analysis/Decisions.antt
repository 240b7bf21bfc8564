-- ===== src/Capacity/Analysis/Decisions.antt =====
-- The scaling recommendations of AnalyzeModelCapacity.
use inferno_autoscaler.Base.{
  ℤ, String, true, false, ◌≡◌, ◌≢◌, ◌↔◌, refl, List, [], ◌∷◌, arith, length, Float, nought, ◌≤◌,
  ◌⊎◌, inl, inr, Bool-cases,
}
use mathlib.Core.List.{Perm}
use inferno_autoscaler.Capacity.Types.{ReplicaMetrics, CapacityScalingConfig, no_reason}
use inferno_autoscaler.Capacity.Analysis.{
  should_scale_up, is_scale_down_safe, analyze_model_capacity,
}
use inferno_autoscaler.Capacity.Analysis.Grouping.{Groups}
use inferno_autoscaler.Capacity.Analysis.Saturation.{non_saturated}
use inferno_autoscaler.Capacity.Analysis.Totals.{analyze_model_capacity-counts}

module _ {F : Type 0} ⦃f : Float F⦄ where
  open f use {lt}

  is_scale_down_safe-count :
      (ms : List (ReplicaMetrics F)) (config : CapacityScalingConfig F)
      → (is_scale_down_safe ms config).1 ≡ true
      → 2 ≤ length (non_saturated config ms)
  unfolding is_scale_down_safe
  is_scale_down_safe-count ms config h = ground arith

  -- A recommendation to scale up comes with a reason, and a reason with a recommendation: the reason
  -- is empty exactly where both averages meet their triggers.
  pub should_scale_up_iff :
      (kv queue : F) (config : CapacityScalingConfig F)
      → let (up, reason) = should_scale_up kv queue config in
        ((up ≡ false) ↔ (reason ≡ no_reason))
        × ((up ≡ true) ↔ (
            (lt kv config.kv_spare_trigger ≡ true) ⊎ (lt queue config.queue_spare_trigger ≡ true)))
  unfolding should_scale_up
  should_scale_up_iff kv queue config =
      ((λ h. ground arith, λ h. ground arith), (λ h. ground arith, λ h. ground arith))

  module _ (now : ℤ) (visit : Groups F → Groups F) (model_id namespace : String) where
    -- Whatever the order in which the variants are visited, the analyzer never asks for a scale-down
    -- (ShouldScaleDown is false), and it calls one safe only if at least two replicas of the model
    -- are not saturated, so that one is left to take the load.
    pub analyze_model_capacity-safe :
        (ms : List (ReplicaMetrics F)) (config : CapacityScalingConfig F)
        → ((t : Groups F) → Perm (visit t) t)
        → let a = analyze_model_capacity now visit model_id namespace ms config in
          (a.should_scale_down ≡ false)
          × ((a.scale_down_safe ≡ false) ⊎ (2 ≤ a.non_saturated_count))
    unfolding analyze_model_capacity is_scale_down_safe
    analyze_model_capacity-safe [] config perm = ground arith
    analyze_model_capacity-safe (m ∷ ms) config perm =
        let counts =
          analyze_model_capacity-counts now visit model_id namespace (m ∷ ms) config perm in
        (
          ground arith,
          elim (Bool-cases (is_scale_down_safe (m ∷ ms) config).1) [
            | inl safe ↦
                inr (omega (arith, counts.1, is_scale_down_safe-count (m ∷ ms) config safe))
            | inr unsafe ↦ inl unsafe
          ],
        )

    -- If there are replicas and every one is saturated, and a trigger is above 0, then the analyzer
    -- recommends a scale-up and does not call a scale-down safe.
    pub analyze_model_capacity-all_saturated :
        (ms : List (ReplicaMetrics F)) (config : CapacityScalingConfig F)
        → ((t : Groups F) → Perm (visit t) t)
        → ms ≢ []
        → non_saturated config ms ≡ []
        → (lt nought config.kv_spare_trigger ≡ true) ⊎ (lt nought config.queue_spare_trigger ≡ true)
        → let a = analyze_model_capacity now visit model_id namespace ms config in
          (a.should_scale_up ≡ true) × (a.scale_down_safe ≡ false)
    unfolding analyze_model_capacity is_scale_down_safe should_scale_up
    analyze_model_capacity-all_saturated [] config perm some full trigger = absurd (some refl)
    analyze_model_capacity-all_saturated (m ∷ ms) config perm some full trigger =
        let counts =
          analyze_model_capacity-counts now visit model_id namespace (m ∷ ms) config perm in
        ground (arith, counts.1)
