-- ===== src/Capacity/Targets/Change.antt =====
-- The one target that the capacity action of CalculateCapacityTargets changes.
use inferno_autoscaler.Base.{
  All-of_mem, sym, ◌∙◌, ℕ, ◌+◌, ◌-◌, ◌≤◌, String, Bool, true, false, ◌≡◌, ◌⊎◌, refl, List, Option,
  none, some, arith, if◌then◌else◌, inl, inr, Table, lookup, lookup-insert, str_eq, Float,
}
use mathlib.Core.List.{Memᴰ}
use inferno_autoscaler.Capacity.Types.{
  VariantCapacityAnalysis, VariantReplicaState, ModelCapacityAnalysis,
}
use inferno_autoscaler.Capacity.Targets.{
  is_cheaper, is_dearer, skip_cheapest, skip_dearest, find_cheapest, find_dearest, preservation,
  scale_targets, calculate_capacity_targets, raise_target, lower_target,
}
use inferno_autoscaler.Capacity.Targets.Choice.{Holds, find_best-Holds}
use inferno_autoscaler.Capacity.Targets.Preserved.{
  is_kept, base_target, preservation-targets, preservation-preserved,
}

module _ {F : Type 0} ⦃f : Float F⦄ (a : ModelCapacityAnalysis F)
    (states : List VariantReplicaState) where
  abbrev pub vas : List (VariantCapacityAnalysis F)
  vas = a.variant_analyses

  abbrev pub targets : Table ℕ
  targets = calculate_capacity_targets (some a) states

  abbrev pub kept : Table Bool
  kept = (preservation a states).preserved

  abbrev pub raised : Option (VariantCapacityAnalysis F) → Option (VariantCapacityAnalysis F × ℕ)
  raised none = none
  raised (some b) = some (b, b.replica_count + 1)

  abbrev pub lowered : Option (VariantCapacityAnalysis F) → Option (VariantCapacityAnalysis F × ℕ)
  lowered none = none
  lowered (some b) = some (b, b.replica_count - 1)

  -- The variant that the capacity action changes, and its new target.
  abbrev pub change : Option (VariantCapacityAnalysis F × ℕ)
  change =
      if a.should_scale_up
      then raised (find_cheapest kept vas)
      else if a.scale_down_safe
      then lowered (find_dearest kept vas)
      else none

  abbrev pub after_change : Option (VariantCapacityAnalysis F × ℕ) → String → Option ℕ
  after_change none k = base_target a states k
  after_change (some (b, n)) k = if str_eq b.variant_name k then some n else base_target a states k

  pub scale_targets-lookup :
      (k : String) → lookup k (scale_targets a (preservation a states)) ≡ after_change change k
  unfolding scale_targets
  scale_targets-lookup k = branch a.should_scale_up a.scale_down_safe
    where
      base : lookup k (preservation a states).targets ≡ base_target a states k
      base = preservation-targets a states k

      up_case :
          (o : Option (VariantCapacityAnalysis F))
          → lookup k (raise_target o (preservation a states).targets) ≡ after_change (raised o) k
      up_case none = base
      up_case (some b) = rw (lookup-insert, base)

      down_case :
          (o : Option (VariantCapacityAnalysis F))
          → lookup k (lower_target o (preservation a states).targets) ≡ after_change (lowered o) k
      down_case none = base
      down_case (some b) = rw (lookup-insert, base)

      branch :
          (up safe : Bool)
          → lookup k (
              if up
              then raise_target (find_cheapest kept vas) (preservation a states).targets
              else if safe
              then lower_target (find_dearest kept vas) (preservation a states).targets
              else (preservation a states).targets)
            ≡ after_change
                (if up
                  then raised (find_cheapest kept vas)
                  else if safe
                  then lowered (find_dearest kept vas)
                  else none)
                k
      branch true safe = up_case (find_cheapest kept vas)
      branch false true = down_case (find_dearest kept vas)
      branch false false = base

  -- The changed variant is analysed and not preserved; its target is one more than its ready replicas
  -- on a scale-up, one less of at least two on a scale-down.
  abbrev pub IsAllowed : Option (VariantCapacityAnalysis F × ℕ) → Type 0
  IsAllowed none = Unit
  IsAllowed (some (b, n)) =
      Memᴰ b vas
      × (is_kept a states b.variant_name ≡ false)
      × ((a.should_scale_up ≡ true) × (n ≡ b.replica_count + 1)
          ⊎ (a.should_scale_up ≡ false)
            × (a.scale_down_safe ≡ true)
            × (2 ≤ b.replica_count)
            × (n + 1 ≡ b.replica_count))

  abbrev NotKept : VariantCapacityAnalysis F → Type 0
  NotKept b = Memᴰ b vas × (is_kept a states b.variant_name ≡ false)

  abbrev Lowerable : VariantCapacityAnalysis F → Type 0
  Lowerable b = Memᴰ b vas × (is_kept a states b.variant_name ≡ false) × (2 ≤ b.replica_count)

  cheapest-NotKept : Holds is_cheaper (skip_cheapest kept) NotKept (find_cheapest kept vas)
  unfolding find_cheapest
  cheapest-NotKept =
      find_best-Holds is_cheaper (skip_cheapest kept) NotKept none vas tt
        (All-of_mem vas (λ va m s. (m, sym (preservation-preserved a states va.variant_name) ∙ s)))

  dearest-Lowerable : Holds is_dearer (skip_dearest kept) Lowerable (find_dearest kept vas)
  unfolding find_dearest
  dearest-Lowerable = find_best-Holds is_dearer (skip_dearest kept) Lowerable none vas tt (
      All-of_mem vas (λ va m s.
        (m, ground (arith, preservation-preserved a states va.variant_name), ground arith)))

  pub change-IsAllowed : IsAllowed change
  change-IsAllowed = branch a.should_scale_up a.scale_down_safe refl refl
    where
      up_case :
          (o : Option (VariantCapacityAnalysis F))
          → a.should_scale_up ≡ true
          → Holds is_cheaper (skip_cheapest kept) NotKept o
          → IsAllowed (raised o)
      up_case none e h = tt
      up_case (some b) e (m, n) = (m, n, inl (e, refl))

      down_case :
          (o : Option (VariantCapacityAnalysis F))
          → a.should_scale_up ≡ false
          → a.scale_down_safe ≡ true
          → Holds is_dearer (skip_dearest kept) Lowerable o
          → IsAllowed (lowered o)
      down_case none e d h = tt
      down_case (some b) e d (m, n, l) = (m, n, inr (e, d, l, omega arith))

      branch :
          (up safe : Bool)
          → a.should_scale_up ≡ up
          → a.scale_down_safe ≡ safe
          → IsAllowed (
              if up
              then raised (find_cheapest kept vas)
              else if safe
              then lowered (find_dearest kept vas)
              else none)
      branch true safe e d = up_case _ e cheapest-NotKept
      branch false true e d = down_case _ e d dearest-Lowerable
      branch false false e d = tt
