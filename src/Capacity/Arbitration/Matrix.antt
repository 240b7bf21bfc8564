-- ===== src/Capacity/Arbitration/Matrix.antt =====
-- What the hybrid decision matrix promises.
use inferno_autoscaler.Base.{
  ℕ, true, false, ◌≡◌, ◌⊎◌, ◌↔◌, ◌<◌, ◌≤◌, refl, List, [], ◌∷◌, map, Option, arith, All, Table,
  Float, inl, inr, Bool-cases,
}
use inferno_autoscaler.Capacity.Types.{
  VariantCapacityAnalysis, ModelCapacityAnalysis, VariantReplicaState, VariantDecision,
}
use inferno_autoscaler.Capacity.Arbitration.{
  action_to, decide_matrix, is_unsafe, arbitrate_variant, arbitrate_states,
  arbitrate_with_model_based,
}

module _ {F : Type 0} ⦃f : Float F⦄ where
  module _ (analysis : Option (ModelCapacityAnalysis F))
      (variant : Option (VariantCapacityAnalysis F)) (state : VariantReplicaState)
      (capacity model : ℕ) where
    abbrev decision : VariantDecision F
    decision = arbitrate_variant analysis variant state capacity model

    -- The decision never shrinks a variant that the capacity analysis wants to grow, nor any variant
    -- while the analysis says that a scale-down is unsafe; it shrinks one only where the model-based
    -- target is lower, and then to that target.
    pub arbitrate_variant-safe :
        decision.target_replicas < state.current_replicas
        → (capacity ≤ state.current_replicas)
          × (is_unsafe analysis ≡ false)
          × (decision.target_replicas ≡ model)
    unfolding arbitrate_variant decide_matrix
    arbitrate_variant-safe h = ground arith

    -- The decision's action is the direction from the current replicas to its target, and a safety
    -- override keeps the current replicas.
    pub arbitrate_variant-IsCoherent :
        (decision.action ≡ action_to decision.target_replicas decision.current_replicas)
        × ((decision.safety_override ≡ false) ⊎ (decision.target_replicas ≡ state.current_replicas))
    unfolding arbitrate_variant decide_matrix
    arbitrate_variant-IsCoherent = ground arith

    -- The override is set exactly where the model-based target is below the current replicas, and the
    -- capacity target is above them or the analysis says that a scale-down is unsafe.
    safety_override_iff : (decision.safety_override ≡ true) ↔ (
        (model < state.current_replicas)
        × ((state.current_replicas < capacity) ⊎ (is_unsafe analysis ≡ true)))
    unfolding arbitrate_variant decide_matrix
    safety_override_iff = (λ h. ground arith, λ h. ground arith)

    -- The variant grows exactly where the model-based target is above the current replicas, to that
    -- target, or where it equals them and the capacity target is above them, to the capacity target.
    pub arbitrate_variant-grows : (state.current_replicas < decision.target_replicas) ↔ (
        (state.current_replicas < model) × (decision.target_replicas ≡ model)
        ⊎ (model ≡ state.current_replicas)
          × (state.current_replicas < capacity)
          × (decision.target_replicas ≡ capacity))
    unfolding arbitrate_variant decide_matrix
    arbitrate_variant-grows = (λ h. ground arith, λ h. ground arith)

  arbitrate_states-names :
      (analysis : Option (ModelCapacityAnalysis F)) (variants : Table (VariantCapacityAnalysis F))
      (capacity model : Table ℕ) (states : List VariantReplicaState)
      → map (λ d. d.variant_name) (arbitrate_states analysis variants capacity model states)
        ≡ map (λ s. s.variant_name) states
  unfolding arbitrate_states arbitrate_variant
  arbitrate_states-names analysis variants capacity model [] = refl
  arbitrate_states-names analysis variants capacity model (s ∷ ss) =
      ground (arith, arbitrate_states-names analysis variants capacity model ss)

  arbitrate_states-unsafe :
      (analysis : Option (ModelCapacityAnalysis F)) (variants : Table (VariantCapacityAnalysis F))
      (capacity model : Table ℕ) (states : List VariantReplicaState)
      → is_unsafe analysis ≡ true
      → All
          (λ d. d.current_replicas ≤ d.target_replicas)
          (arbitrate_states analysis variants capacity model states)
  unfolding arbitrate_states arbitrate_variant decide_matrix
  arbitrate_states-unsafe analysis variants capacity model [] u = tt
  arbitrate_states-unsafe analysis variants capacity model (s ∷ ss) u =
      (ground arith, arbitrate_states-unsafe analysis variants capacity model ss u)

  -- There is one decision for each variant state, in the order of the states and under its name; and
  -- if the analysis says that a scale-down is unsafe, no decision's target is below the current
  -- replicas, whatever the capacity and the model-based targets are.
  pub arbitrate_with_model_based_lem :
      (analysis : Option (ModelCapacityAnalysis F)) (capacity model : Table ℕ)
      (states : List VariantReplicaState)
      → let decisions = arbitrate_with_model_based analysis capacity model states in
        (map (λ d. d.variant_name) decisions ≡ map (λ s. s.variant_name) states)
        × ((is_unsafe analysis ≡ false)
            ⊎ All (λ d. d.current_replicas ≤ d.target_replicas) decisions)
  unfolding arbitrate_with_model_based
  arbitrate_with_model_based_lem analysis capacity model states = (
    arbitrate_states-names analysis _ capacity model states,
    elim (Bool-cases (is_unsafe analysis)) [
      | inl unsafe ↦ inr (arbitrate_states-unsafe analysis _ capacity model states unsafe)
      | inr safe ↦ inl safe
    ],
  )
