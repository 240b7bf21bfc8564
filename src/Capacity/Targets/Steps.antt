-- ===== src/Capacity/Targets/Steps.antt =====
-- What CalculateCapacityTargets promises of each variant.
use inferno_autoscaler.Base.{
  ℕ, ◌+◌, ◌≤◌, String, true, false, ◌≡◌, ◌≢◌, ◌⊎◌, refl, List, [], ◌∷◌, Option, none, some, arith,
  Bool-cases, inl, inr, lookup, str_eq, str_eq_iff, Float, ◌∙◌,
}
use inferno_autoscaler.Capacity.Types.{
  VariantCapacityAnalysis, VariantReplicaState, ModelCapacityAnalysis,
}
use inferno_autoscaler.Capacity.Targets.{is_preserved, calculate_capacity_targets}
use inferno_autoscaler.Capacity.Targets.Preserved.{
  state_of, latest, has_name, IsDistinct, latest_mem, latest-has_name,
}
use inferno_autoscaler.Capacity.Targets.Change.{
  change, after_change, IsAllowed, change-IsAllowed, scale_targets-lookup,
}

module _ {F : Type 0} ⦃f : Float F⦄ (a : ModelCapacityAnalysis F)
    (states : List VariantReplicaState) where
  pub targets_lem :
      (k : String)
      → a.variant_analyses ≢ []
      → lookup k (calculate_capacity_targets (some a) states)
        ≡ after_change a states (change a states) k
  unfolding calculate_capacity_targets
  targets_lem k some_variant = ground (arith, scale_targets-lookup a states k)

  pub some_analysis :
      (k : String) (vas : List (VariantCapacityAnalysis F)) {va : VariantCapacityAnalysis F}
      → latest k vas ≡ some va
      → vas ≢ []
  some_analysis k [] e = cc
  some_analysis k (v ∷ vas) e = cc

  -- A variant whose state asks for a number of replicas that is not 0 and not the current number
  -- keeps that number as its target, whatever the analysis recommends.
  targets-preserved :
      (k : String) {va : VariantCapacityAnalysis F}
      → latest k a.variant_analyses ≡ some va
      → is_preserved (state_of states k) ≡ true
      → lookup k (calculate_capacity_targets (some a) states)
        ≡ some (state_of states k).desired_replicas
  targets-preserved k {va} e p =
      let named = latest-has_name k a.variant_analyses va e in
      targets_lem k (some_analysis k a.variant_analyses e)
      ∙ go (change a states) (change-IsAllowed a states) named.0
    where
      go :
          (c : Option (VariantCapacityAnalysis F × ℕ))
          → IsAllowed a states c
          → has_name k a.variant_analyses ≡ true
          → after_change a states c k ≡ some (state_of states k).desired_replicas
      go none h n = ground arith
      go (some (b, t)) (m, free, step) n = ground (arith, str_eq_iff b.variant_name k)

  -- The target of any other analysed variant, where no two analyses are of one variant, is its number
  -- of ready replicas, or one more if the analysis recommends a scale-up, or one less, but never
  -- below 1, if it does not and calls a scale-down safe.
  pub targets-step :
      (k : String) {va : VariantCapacityAnalysis F}
      → IsDistinct a.variant_analyses
      → latest k a.variant_analyses ≡ some va
      → is_preserved (state_of states k) ≡ false
      → (t : ℕ) × (lookup k (calculate_capacity_targets (some a) states) ≡ some t)
        × ((t ≡ va.replica_count)
            ⊎ (a.should_scale_up ≡ true) × (t ≡ va.replica_count + 1)
            ⊎ (a.should_scale_up ≡ false)
              × (a.scale_down_safe ≡ true)
              × (1 ≤ t)
              × (t + 1 ≡ va.replica_count))
  targets-step k {va} d e p =
      let whole = targets_lem k (some_analysis k a.variant_analyses e) in
      let (t, found, step) = go (change a states) (change-IsAllowed a states) in
      (t, whole ∙ found, step)
    where
      go :
          (c : Option (VariantCapacityAnalysis F × ℕ))
          → IsAllowed a states c
          → (t : ℕ) × (after_change a states c k ≡ some t)
            × ((t ≡ va.replica_count)
                ⊎ (a.should_scale_up ≡ true) × (t ≡ va.replica_count + 1)
                ⊎ (a.should_scale_up ≡ false)
                  × (a.scale_down_safe ≡ true)
                  × (1 ≤ t)
                  × (t + 1 ≡ va.replica_count))
      go none h = (va.replica_count, ground arith, inl refl)
      go (some (b, t)) (m, free, step) = elim (Bool-cases (str_eq b.variant_name k)) [
        | inl same ↦
            let held = latest_mem b a.variant_analyses d m in
            let one : b.replica_count ≡ va.replica_count =
              ground (arith, held, e, str_eq_iff b.variant_name k) in
            (
              t,
              rw same,
              elim step [
                | inl (up, n) ↦ inr (inl (up, omega arith))
                | inr (flat, safe, l, n) ↦ inr (inr (flat, safe, omega arith, omega arith))
              ],
            )
        | inr other ↦ (va.replica_count, ground arith, inl refl)
      ]
