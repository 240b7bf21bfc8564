-- ===== src/Capacity/Targets/Cost.antt =====
-- Which variant CalculateCapacityTargets scales.
use inferno_autoscaler.Base.{
  ap, ℕ, ◌+◌, ◌-◌, ◌≤◌, String, Bool, true, false, ◌≡◌, ◌≢◌, ◌⊎◌, refl, List, [], Option, none,
  some, arith, if◌then◌else◌, if_true, if_false, inl, inr, All, All-map_imp, lookup, str_eq, str_lt,
  Float, IsOrdered, IsNumber, sym, ◌∙◌,
}
use mathlib.Core.List.{Memᴰ}
use inferno_autoscaler.Capacity.Types.{
  VariantCapacityAnalysis, VariantReplicaState, ModelCapacityAnalysis,
}
use inferno_autoscaler.Capacity.Targets.{
  is_cheaper, is_dearer, skip_cheapest, skip_dearest, find_cheapest, find_dearest,
  calculate_capacity_targets,
}
use inferno_autoscaler.Capacity.Targets.Choice.{
  IsChoice, find_best-IsChoice, is_cheaper-IsPreference, is_dearer-IsPreference,
}
use inferno_autoscaler.Capacity.Targets.Preserved.{is_kept, base_target, preservation-preserved}
use inferno_autoscaler.Capacity.Targets.Change.{change, after_change, kept, raised, lowered}
use inferno_autoscaler.Capacity.Targets.Steps.{targets_lem}

-- What is said of the candidates that are not skipped, as an alternative for all of them.
skipped_or : {A B : Type 0} (skip : Bool) → (skip ≡ true → ¬ A) → (skip ≡ false → B) → (¬ A) ⊎ B
skipped_or true skipped free = inl (skipped refl)
skipped_or false skipped free = inr (free refl)

module _ {F : Type 0} ⦃f : Float F⦄ where
  -- The cost is not below another variant's, or it is the same and the name does not come first.
  abbrev pub NotCheaper : VariantCapacityAnalysis F → VariantCapacityAnalysis F → Type 0
  NotCheaper va b =
      (f.lt va.cost b.cost ≡ false)
      × ((f.eq va.cost b.cost ≡ false) ⊎ (str_lt va.variant_name b.variant_name ≡ false))

  -- The cost is not above another variant's, or it is the same and the name does not come last.
  abbrev pub NotDearer : VariantCapacityAnalysis F → VariantCapacityAnalysis F → Type 0
  NotDearer va b =
      (f.lt b.cost va.cost ≡ false)
      × ((f.eq va.cost b.cost ≡ false) ⊎ (str_lt b.variant_name va.variant_name ≡ false))

  is_cheaper-NotCheaper :
      (va b : VariantCapacityAnalysis F) → is_cheaper va b ≡ false → NotCheaper va b
  is_cheaper-NotCheaper va b h = ground (arith, h)

  is_dearer-NotDearer : (va b : VariantCapacityAnalysis F) → is_dearer va b ≡ false → NotDearer va b
  is_dearer-NotDearer va b h = ground (arith, h)

module _ {F : Type 0} ⦃f : Float F⦄ (laws : IsOrdered F) (a : ModelCapacityAnalysis F)
    (states : List VariantReplicaState)
    (costs : All (λ va. IsNumber va.cost) a.variant_analyses) where
  -- The target of one variant changes to `n`; every other one is as before the capacity action.
  abbrev pub OnlyChanges : VariantCapacityAnalysis F → ℕ → Type 0
  OnlyChanges b n =
      (k : String)
      → lookup k (calculate_capacity_targets (some a) states)
        ≡ (if str_eq b.variant_name k then some n else base_target a states k)

  abbrev pub NothingChanges : Type 0
  NothingChanges =
      (k : String) → lookup k (calculate_capacity_targets (some a) states) ≡ base_target a states k

  abbrev pub MayRise : VariantCapacityAnalysis F → Type 0
  MayRise va = is_kept a states va.variant_name ≡ false

  abbrev pub MayFall : VariantCapacityAnalysis F → Type 0
  MayFall va = (is_kept a states va.variant_name ≡ false) × (2 ≤ va.replica_count)

  -- Either no variant may change and no target does, or exactly one target changes, to `new`: that of
  -- a variant that may change and that no variant which may change is better than.
  abbrev pub ChangesBest :
      (VariantCapacityAnalysis F → VariantCapacityAnalysis F → Type 0)
      → (VariantCapacityAnalysis F → Type 0)
      → (VariantCapacityAnalysis F → ℕ)
      → Type 0
  ChangesBest NotBetter May new =
      (All (λ va. ¬ May va) a.variant_analyses × NothingChanges)
      ⊎ ((b : VariantCapacityAnalysis F) × Memᴰ b a.variant_analyses
          × May b
          × All (λ va. (¬ May va) ⊎ NotBetter va b) a.variant_analyses
          × OnlyChanges b (new b))

  change_up :
      a.should_scale_up ≡ true
      → {o : Option (VariantCapacityAnalysis F)}
      → find_cheapest (kept a states) a.variant_analyses ≡ o
      → change a states ≡ raised a states o
  change_up up e = if_true _ _ up ∙ ap (raised a states) e

  change_down :
      a.should_scale_up ≡ false
      → a.scale_down_safe ≡ true
      → {o : Option (VariantCapacityAnalysis F)}
      → find_dearest (kept a states) a.variant_analyses ≡ o
      → change a states ≡ lowered a states o
  change_down flat safe e = if_false _ _ flat ∙ (if_true _ _ safe ∙ ap (lowered a states) e)

  targets_of_change :
      a.variant_analyses ≢ []
      → {c : Option (VariantCapacityAnalysis F × ℕ)} → change a states ≡ c
      → (k : String)
      → lookup k (calculate_capacity_targets (some a) states) ≡ after_change a states c k
  targets_of_change some_variant e k =
      targets_lem a states k some_variant ∙ ap (λ c. after_change a states c k) e

  cheapest-IsChoice :
      IsChoice is_cheaper
        (skip_cheapest (kept a states))
        a.variant_analyses
        (find_cheapest (kept a states) a.variant_analyses)
  unfolding find_cheapest
  cheapest-IsChoice =
      find_best-IsChoice is_cheaper (skip_cheapest (kept a states)) (is_cheaper-IsPreference laws)
        a.variant_analyses costs

  dearest-IsChoice :
      IsChoice is_dearer
        (skip_dearest (kept a states))
        a.variant_analyses
        (find_dearest (kept a states) a.variant_analyses)
  unfolding find_dearest
  dearest-IsChoice =
      find_best-IsChoice is_dearer (skip_dearest (kept a states)) (is_dearer-IsPreference laws)
        a.variant_analyses costs

  -- If the analysis recommends a scale-up (and its costs are numbers in the order of IEEE 754), then
  -- exactly one target changes, that of a cheapest variant among those whose desired replicas are not
  -- preserved (the one with the first name if several are as cheap), and it becomes the variant's
  -- ready replicas plus one; if all are preserved no target changes.
  pub targets-cheapest :
      a.variant_analyses ≢ []
      → a.should_scale_up ≡ true
      → ChangesBest NotCheaper MayRise (λ b. b.replica_count + 1)
  targets-cheapest some_variant up =
      go (find_cheapest (kept a states) a.variant_analyses) refl cheapest-IsChoice
    where
      go :
          (o : Option (VariantCapacityAnalysis F))
          → find_cheapest (kept a states) a.variant_analyses ≡ o
          → IsChoice is_cheaper (skip_cheapest (kept a states)) a.variant_analyses o
          → ChangesBest NotCheaper MayRise (λ b. b.replica_count + 1)
      go none e c = inl (
        All-map_imp (λ va s n. ground (arith, preservation-preserved a states va.variant_name))
            a.variant_analyses c,
        targets_of_change some_variant (change_up up e),
      )
      go (some b) e (m, free, best) = inr (
        b,
        m,
        sym (preservation-preserved a states b.variant_name) ∙ free,
        All-map_imp
            (λ va h.
              skipped_or (skip_cheapest (kept a states) va)
                (λ skip n. ground (arith, n, skip, preservation-preserved a states va.variant_name))
                (λ free. is_cheaper-NotCheaper va b (h free)))
            a.variant_analyses best,
        targets_of_change some_variant (change_up up e),
      )

  -- If the analysis does not recommend a scale-up but calls a scale-down safe (and its costs are
  -- numbers in the order of IEEE 754), then exactly one target changes, that of a most expensive
  -- variant among those that have at least two ready replicas and whose desired replicas are not
  -- preserved (the one with the last name if several are as expensive), and it becomes the variant's
  -- ready replicas minus one; if there is no such variant no target changes.
  pub targets-dearest :
      a.variant_analyses ≢ []
      → a.should_scale_up ≡ false
      → a.scale_down_safe ≡ true
      → ChangesBest NotDearer MayFall (λ b. b.replica_count - 1)
  targets-dearest some_variant flat safe =
      go (find_dearest (kept a states) a.variant_analyses) refl dearest-IsChoice
    where
      go :
          (o : Option (VariantCapacityAnalysis F))
          → find_dearest (kept a states) a.variant_analyses ≡ o
          → IsChoice is_dearer (skip_dearest (kept a states)) a.variant_analyses o
          → ChangesBest NotDearer MayFall (λ b. b.replica_count - 1)
      go none e c = inl (
        All-map_imp (λ va s n. ground (arith, preservation-preserved a states va.variant_name))
            a.variant_analyses c,
        targets_of_change some_variant (change_down flat safe e),
      )
      go (some b) e (m, free, best) = inr (
        b,
        m,
        ground (arith, preservation-preserved a states b.variant_name),
        All-map_imp
            (λ va h.
              skipped_or (skip_dearest (kept a states) va)
                (λ skip n. ground (arith, n, skip, preservation-preserved a states va.variant_name))
                (λ free. is_dearer-NotDearer va b (h free)))
            a.variant_analyses best,
        targets_of_change some_variant (change_down flat safe e),
      )
