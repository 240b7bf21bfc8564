-- ===== src/Controller/Converted.antt =====
-- internal/controller/variantautoscaling_controller.go: the decisions of the capacity analyzer alone.
use inferno_autoscaler.Base.{
  ℕ, true, false, List, [], ◌∷◌, map, ◌≡◌, refl, ap, All, Table, lookup_or, Float,
}
use inferno_autoscaler.Capacity.Types.{
  VariantCapacityAnalysis, ModelCapacityAnalysis, VariantReplicaState, VariantDecision,
}
use inferno_autoscaler.Capacity.Targets.{no_state, state_map}
use inferno_autoscaler.Capacity.Arbitration.{action_to, variant_analysis_map}
use inferno_autoscaler.Controller.Decisions.{convert_targets, convert_capacity_targets}

module _ {F : Type 0} ⦃f : Float F⦄ where
  -- The decision is of the analyzer alone; it takes the replicas of its variant's state to its target,
  -- by an action of that direction.
  abbrev pub Follows : Table VariantReplicaState → VariantDecision F → Type 0
  Follows states d =
      let state = lookup_or no_state d.variant_name states in
      (d.current_replicas ≡ state.current_replicas)
      × (d.desired_replicas ≡ state.desired_replicas)
      × (d.action ≡ action_to d.target_replicas d.current_replicas)
      × (d.capacity_only ≡ true)
      × (d.safety_override ≡ false)

  convert_targets-Follows :
      (analysis : ModelCapacityAnalysis F) (variants : Table (VariantCapacityAnalysis F))
      (states : Table VariantReplicaState) (targets : Table ℕ)
      → All (Follows states) (convert_targets analysis variants states targets)
  unfolding convert_targets
  convert_targets-Follows analysis variants states [] = tt
  convert_targets-Follows analysis variants states ((name, target) ∷ targets) =
      ((refl, refl, refl, refl, refl), convert_targets-Follows analysis variants states targets)

  convert_targets-names :
      (analysis : ModelCapacityAnalysis F) (variants : Table (VariantCapacityAnalysis F))
      (states : Table VariantReplicaState) (targets : Table ℕ)
      → map
          (λ d. (d.variant_name, d.target_replicas))
          (convert_targets analysis variants states targets)
        ≡ targets
  unfolding convert_targets
  convert_targets-names analysis variants states [] = refl
  convert_targets-names analysis variants states ((name, target) ∷ targets) =
      ap (λ ts. (name, target) ∷ ts) (convert_targets-names analysis variants states targets)

  -- In the mode of the capacity analyzer alone the decisions carry exactly the targets, each under its
  -- variant's name, in every order of the map of targets; each decision has the current and desired
  -- replicas of its variant's state and the action from there to its target, and overrides nothing.
  pub convert_capacity_targets_lem :
      (targets : Table ℕ) (analysis : ModelCapacityAnalysis F) (states : List VariantReplicaState)
      → let decisions = convert_capacity_targets targets analysis states in
        (map (λ d. (d.variant_name, d.target_replicas)) decisions ≡ targets)
        × All (Follows (state_map [] states)) decisions
  unfolding convert_capacity_targets
  convert_capacity_targets_lem targets analysis states =
      let variants = variant_analysis_map [] analysis.variant_analyses in
      (
        convert_targets-names analysis variants (state_map [] states) targets,
        convert_targets-Follows analysis variants (state_map [] states) targets,
      )
