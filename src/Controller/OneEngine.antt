-- ===== src/Controller/OneEngine.antt =====
-- internal/controller/variantautoscaling_controller.go: which engine the decisions of a pass come from.
use inferno_autoscaler.Base.{
  ℕ, String, true, false, not, ◌||◌, List, [], ◌∷◌, Option, none, some, ◌≡◌, refl, sym, subst,
  arith, inl, inr, Bool-cases, if_cases, if◌then◌else◌, All, All-append, Table, lookup, Float,
}
use inferno_autoscaler.Capacity.Types.{
  VariantCapacityAnalysis, VariantReplicaState, VariantDecision, ModelCapacityAnalysis,
}
use inferno_autoscaler.Capacity.Targets.{state_map}
use inferno_autoscaler.Controller.Types.{VariantAutoscaling}
use inferno_autoscaler.Controller.Client.{Client}
use inferno_autoscaler.Controller.Modes.{Modes, modes_of, modes_of_lem}
use inferno_autoscaler.Controller.Configs.{ConfigCache}
use inferno_autoscaler.Controller.Decisions.{
  convert_targets, convert_capacity_targets, model_decision, model_decisions,
}
use inferno_autoscaler.Controller.Engines.{Engines, Optimized}
use inferno_autoscaler.Controller.Collecting.{
  CapacityResult, analysis_failed, no_analysis, analysed,
}
use inferno_autoscaler.Controller.Reconcile.{
  Pass, decide, count_error, capacity_phase, accumulate_capacity, accumulate_model, optimize_phase,
  model_targets, is_failed, process_model, process_models,
}

abbrev capacity_only : Modes
capacity_only = record { model_optimizer = false; capacity_analyzer = true }

abbrev model_only : Modes
model_only = record { model_optimizer = true; capacity_analyzer = false }

module _ {F : Type 0} where
  -- A decision of the engine that the mode enables, which overrides no other.
  abbrev pub IsOf : Modes → VariantDecision F → Type 0
  IsOf modes d =
      (d.capacity_only ≡ modes.capacity_analyzer)
      × (d.capacity_based ≡ modes.capacity_analyzer)
      × (d.model_based_decision ≡ modes.model_optimizer)
      × (d.safety_override ≡ false)

module _ {F : Type 0} ⦃f : Float F⦄ where
  convert_targets-IsOf :
      (analysis : ModelCapacityAnalysis F) (variants : Table (VariantCapacityAnalysis F))
      (states : Table VariantReplicaState) (targets : Table ℕ)
      → All (IsOf capacity_only) (convert_targets analysis variants states targets)
  unfolding convert_targets
  convert_targets-IsOf analysis variants states [] = tt
  convert_targets-IsOf analysis variants states ((name, target) ∷ targets) =
      ((refl, refl, refl, refl), convert_targets-IsOf analysis variants states targets)

  convert_capacity_targets-IsOf :
      (targets : Table ℕ) (analysis : ModelCapacityAnalysis F) (states : List VariantReplicaState)
      → All (IsOf capacity_only) (convert_capacity_targets targets analysis states)
  unfolding convert_capacity_targets
  convert_capacity_targets-IsOf targets analysis states =
      convert_targets-IsOf analysis _ (state_map [] states) targets

  added-IsOf :
      (model_id : String) (va : VariantAutoscaling) (o : Option ℕ) (ds : List (VariantDecision F))
      → All (IsOf model_only) ds
      → All (IsOf model_only) (
          let out : List (VariantDecision F) = elim o [
            | none ↦ ds
            | some target ↦ model_decision model_id va target ∷ ds
          ] in
          out)
  added-IsOf model_id va none ds h = h
  added-IsOf model_id va (some target) ds h = ((refl, refl, refl, refl), h)

module _ (F : Type 0) ⦃f : Float F⦄ where
  model_decisions-IsOf :
      (model_id : String) (targets : Table ℕ) (vas : List VariantAutoscaling)
      → All (IsOf {F = F} model_only) (model_decisions model_id targets vas)
  unfolding model_decisions
  model_decisions-IsOf model_id targets [] = tt
  model_decisions-IsOf model_id targets (va ∷ vas) =
      added-IsOf model_id va (lookup va.name targets) _ (model_decisions-IsOf model_id targets vas)

module _ {F : Type 0} ⦃f : Float F⦄ where
  module _ {C : Type 0} (client : Client C) (engines : Engines F C) where
    abbrev Decides : Modes → Pass F C → Type 0
    Decides modes p = All (IsOf modes) p.decisions

    decide-Decides :
        (modes : Modes) (ds : List (VariantDecision F)) (p : Pass F C)
        → All (IsOf modes) ds
        → Decides modes p
        → Decides modes (decide client engines ds p)
    decide-Decides modes ds p hd hp = All-append (IsOf modes) p.decisions ds hp hd

    accumulate_capacity-Decides :
        (vas : List VariantAutoscaling) (r : CapacityResult F) (p : Pass F C)
        → Decides capacity_only p
        → Decides capacity_only (accumulate_capacity client engines vas r p)
    accumulate_capacity-Decides vas analysis_failed p h = h
    accumulate_capacity-Decides vas no_analysis p h = h
    accumulate_capacity-Decides vas (analysed targets analysis states) p h =
        decide-Decides capacity_only (convert_capacity_targets targets analysis states) p
          (convert_capacity_targets-IsOf targets analysis states) h

    accumulate_model-Decides :
        (model_id : String) (vas prepared : List VariantAutoscaling) (targets : Table ℕ)
        (p : Pass F C)
        → Decides model_only p
        → Decides model_only (accumulate_model client engines model_id vas prepared targets p)
    accumulate_model-Decides model_id vas [] targets p h = h
    accumulate_model-Decides model_id vas (va ∷ prepared) targets p h =
        All-append (IsOf model_only) p.decisions (model_decisions model_id targets (va ∷ prepared))
          h (model_decisions-IsOf F model_id targets (va ∷ prepared))

    optimize_phase-Decides :
        (model_id : String) (vas : List VariantAutoscaling) (o : Option Optimized) (p : Pass F C)
        → Decides model_only p
        → Decides model_only (optimize_phase client engines model_only model_id vas no_analysis o p)
    optimize_phase-Decides model_id vas none p h = h
    optimize_phase-Decides model_id vas (some o) p h =
        accumulate_model-Decides model_id vas o.prepared (model_targets [] o.replicas vas) p h

    capacity_phase-decisions :
        (modes : Modes) (cache : ConfigCache F) (model_id : String) (vas : List VariantAutoscaling)
        (p : Pass F C)
        → (capacity_phase client engines modes cache model_id vas p).0.decisions ≡ p.decisions
    unfolding capacity_phase
    capacity_phase-decisions modes cache model_id [] p = refl
    capacity_phase-decisions modes cache model_id (va ∷ vas) p =
        if_cases (λ (out : Pass F C × CapacityResult F). out.0.decisions ≡ p.decisions)
          modes.capacity_analyzer _ _ (λ e. refl) (λ e. refl)

    capacity_phase-skipped :
        (cache : ConfigCache F) (model_id : String) (vas : List VariantAutoscaling) (p : Pass F C)
        → (capacity_phase client engines model_only cache model_id vas p).1 ≡ no_analysis
    unfolding capacity_phase
    capacity_phase-skipped cache model_id [] p = refl
    capacity_phase-skipped cache model_id (va ∷ vas) p = refl

    process_model-capacity_only :
        (cache : ConfigCache F) (model_id : String) (vas : List VariantAutoscaling) (p : Pass F C)
        → Decides capacity_only p
        → Decides capacity_only (process_model client engines capacity_only cache model_id vas p)
    unfolding process_model
    process_model-capacity_only cache model_id vas p h =
        let (p1, result) = capacity_phase client engines capacity_only cache model_id vas p in
        let h1 : Decides capacity_only p1 =
          subst (All (IsOf capacity_only))
            (sym (capacity_phase-decisions capacity_only cache model_id vas p)) h in
        let p2 = if is_failed client engines result then count_error client engines p1 else p1 in
        let h2 : Decides capacity_only p2 =
          if_cases (Decides capacity_only) (is_failed client engines result) _ _ (λ e. h1)
            (λ e. h1) in
        if_cases (Decides capacity_only) (is_failed client engines result || false) _ _ (λ e. h2)
          (λ e. accumulate_capacity-Decides vas result p2 h2)

    process_model-model_only :
        (cache : ConfigCache F) (model_id : String) (vas : List VariantAutoscaling) (p : Pass F C)
        → Decides model_only p
        → Decides model_only (process_model client engines model_only cache model_id vas p)
    unfolding process_model
    process_model-model_only cache model_id vas p h =
        let p1 = (capacity_phase client engines model_only cache model_id vas p).0 in
        let h1 : Decides model_only p1 =
          subst (All (IsOf model_only))
            (sym (capacity_phase-decisions model_only cache model_id vas p)) h in
        rw (capacity_phase-skipped cache model_id vas p) (
          optimize_phase-Decides model_id vas (engines.optimize_model vas p1.cluster).1
            (record p1 { cluster = (engines.optimize_model vas p1.cluster).0 }) h1)

    process_model-Decides :
        (modes : Modes) (cache : ConfigCache F) (model_id : String) (vas : List VariantAutoscaling)
        (p : Pass F C)
        → modes.model_optimizer ≡ not modes.capacity_analyzer
        → Decides modes p
        → Decides modes (process_model client engines modes cache model_id vas p)
    process_model-Decides modes cache model_id vas p one h =
        elim (Bool-cases modes.capacity_analyzer) [
          | inl on ↦
              let same : capacity_only ≡ modes = ground (arith, on, one) in
              subst
                (λ m. Decides m p → Decides m (process_model client engines m cache model_id vas p))
                same (process_model-capacity_only cache model_id vas p) h
          | inr off ↦
              let same : model_only ≡ modes = ground (arith, off, one) in
              subst
                (λ m. Decides m p → Decides m (process_model client engines m cache model_id vas p))
                same (process_model-model_only cache model_id vas p) h
        ]

    -- In every mode that the environment can name, all decisions that a pass adds come from the one
    -- engine that the mode enables, and none is a safety override: with the capacity analyzer each is
    -- based on capacity only, and with the optimizer on the model only. This is so for the mode "on" too,
    -- which enables the optimizer alone, although a comment at the constant says that it runs both
    -- engines with arbitration.
    pub process_models-IsOf :
        (mode : String) (cache : ConfigCache F) (groups : Table (List VariantAutoscaling))
        (p : Pass F C)
        → All (IsOf (modes_of mode)) p.decisions
        → All
            (IsOf (modes_of mode))
            (process_models client engines (modes_of mode) cache groups p).decisions
    unfolding process_models
    process_models-IsOf mode cache [] p h = h
    process_models-IsOf mode cache ((model_id, vas) ∷ groups) p h =
        process_models-IsOf mode cache groups
          (process_model client engines (modes_of mode) cache model_id vas p)
          (process_model-Decides (modes_of mode) cache model_id vas p (modes_of_lem mode).0 h)
