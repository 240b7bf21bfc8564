-- ===== src/Controller/Applied.antt =====
-- internal/controller/variantautoscaling_controller.go: which statuses applyCapacityDecisions writes.
use inferno_autoscaler.Base.{
  String, Bool, true, false, List, [], ◌∷◌, Option, none, some, ◌≡◌, ◌≢◌, ◌≤◌, refl, arith,
  if_cases, leb, if◌then◌else◌, All, Table, lookup, str_eq_iff, byte_length, Float, ℤ,
}
use inferno_autoscaler.Capacity.Types.{VariantDecision}
use inferno_autoscaler.Controller.Types.{VariantAutoscaling}
use inferno_autoscaler.Controller.Client.{Client}
use inferno_autoscaler.Controller.Emission.{
  Gauges, emit_metrics, current_replicas_or_status, current_deployment_replicas,
}
use inferno_autoscaler.Controller.Applying.{
  lacks_accelerator, decided, publish, apply_decision, apply_decisions,
}

module _ {F : Type 0} ⦃f : Float F⦄ where
  -- A status that carries out a decision: its target, on its accelerator, with the metrics that were
  -- collected for its variant; neither accelerator is missing.
  abbrev pub CarriesOut : Table VariantAutoscaling → VariantDecision F → VariantAutoscaling → Type 0
  CarriesOut variants d written =
      (va : VariantAutoscaling) × (lookup d.variant_name variants ≡ some va)
      × (written.current_alloc ≡ va.current_alloc)
      × (va.current_alloc.accelerator ≢ "")
      × (written.desired_alloc.num_replicas ≡ d.target_replicas)
      × (written.desired_alloc.accelerator ≡ d.accelerator_name)
      × (2 ≤ byte_length d.accelerator_name)
      × (written.applied ≡ true)

  has_accelerators :
      (va : VariantAutoscaling) (d : VariantDecision F)
      → lacks_accelerator va d ≡ false
      → (va.current_alloc.accelerator ≢ "") × (2 ≤ byte_length d.accelerator_name)
  has_accelerators va d h =
      (λ e. ground (arith, h, e, str_eq_iff va.current_alloc.accelerator ""), ground (arith, h))

  emit_metrics-true :
      {C : Type 0} (client : Client C) (va : VariantAutoscaling) (c : C) (g : Gauges F)
      → (emit_metrics client va c g).2 ≡ true
  unfolding emit_metrics
  emit_metrics-true client va c g =
      if_cases (λ (out : _ × Gauges F × Bool). out.2 ≡ true) (leb 0 va.desired_alloc.num_replicas) _
        _ (λ e. refl) (λ e. refl)

  module _ {C : Type 0} (client : Client C) (I : C → Type 0)
      (variant_read : (name namespace : String) (c : C)
        → I c
        → I (client.get_variant name namespace c).0)
      (deployment_read : (name namespace : String) (c : C)
        → I c
        → I (client.get_deployment name namespace c).0) where
    emit_metrics-keeps :
        (va : VariantAutoscaling) (c : C) (g : Gauges F) → I c → I (emit_metrics client va c g).0
    unfolding emit_metrics current_replicas_or_status current_deployment_replicas
    emit_metrics-keeps va c g h =
        if_cases (λ (out : C × Gauges F × Bool). I out.0) (leb 0 va.desired_alloc.num_replicas) _ _
          (λ e. deployment_read va.name va.namespace c h) (λ e. h)

    -- An update by a status that carries out the decision keeps I.
    abbrev pub Allows : Table VariantAutoscaling → VariantDecision F → Type 0
    Allows variants d =
        (written : VariantAutoscaling) (c : C)
        → CarriesOut variants d written
        → I c
        → I (client.update_status written c).0

    module _ (variants : Table VariantAutoscaling) (d : VariantDecision F)
        (allows : Allows variants d) where
      publish-keeps :
          (va latest : VariantAutoscaling) (now : ℤ) (c : C) (g : Gauges F)
          → lookup d.variant_name variants ≡ some va
          → lacks_accelerator va d ≡ false
          → I c
          → I (publish client (decided client d va latest now) c g).0
      unfolding publish decided
      publish-keeps va latest now c g found fits h =
          let written = decided client d va latest now in
          let (current, long) = has_accelerators va d fits in
          rw (emit_metrics-true client written c g) (
            allows (record written { applied = true }) (emit_metrics client written c g).0
              (va, found, refl, current, refl, refl, long, refl) (emit_metrics-keeps written c g h))

      latest-keeps :
          (va : VariantAutoscaling) (o : Option VariantAutoscaling) (c : C) (g : Gauges F)
          → lookup d.variant_name variants ≡ some va
          → I c
          → I (
              let out : C × Gauges F = elim o [
                | none ↦ (c, g)
                | some latest ↦
                    if lacks_accelerator va d
                    then (c, g)
                    else publish client (decided client d va latest (client.now c)) c g
              ] in
              out.0)
      latest-keeps va none c g found h = h
      latest-keeps va (some latest) c g found h =
          if_cases (λ (out : C × Gauges F). I out.0) (lacks_accelerator va d) _ _ (λ lacks. h)
            (λ fits. publish-keeps va latest (client.now c) c g found fits h)

      found-keeps :
          (o : Option VariantAutoscaling) (c : C) (g : Gauges F)
          → lookup d.variant_name variants ≡ o
          → I c
          → I (
              let out : C × Gauges F = elim o [
                | none ↦ (c, g)
                | some va ↦
                    let (c', latest) = client.get_variant va.name va.namespace c in
                    elim latest [
                      | none ↦ (c', g)
                      | some latest ↦
                          if lacks_accelerator va d
                          then (c', g)
                          else publish client (decided client d va latest (client.now c')) c' g
                    ]
              ] in
              out.0)
      found-keeps none c g found h = h
      found-keeps (some va) c g found h =
          let out = client.get_variant va.name va.namespace c in
          latest-keeps va out.1 out.0 g found (variant_read va.name va.namespace c h)

      apply_decision-keeps :
          (c : C) (g : Gauges F) → I c → I (apply_decision client variants d c g).0
      unfolding apply_decision
      apply_decision-keeps c g h = found-keeps (lookup d.variant_name variants) c g refl h

    -- What reads keep, and what every status that carries out one of the decisions keeps, the whole of
    -- applyCapacityDecisions keeps: it writes no other status. Such a status has the decision's target
    -- and accelerator, the metrics collected for its variant, and counts as applied.
    pub apply_decisions-keeps :
        (variants : Table VariantAutoscaling) (ds : List (VariantDecision F)) (c : C) (g : Gauges F)
        → All (Allows variants) ds
        → I c
        → I (apply_decisions client variants ds c g).0
    unfolding apply_decisions
    apply_decisions-keeps variants [] c g allows h = h
    apply_decisions-keeps variants (d ∷ ds) c g (allows, rest) h =
        let out = apply_decision client variants d c g in
        apply_decisions-keeps variants ds out.0 out.1 rest
          (apply_decision-keeps variants d allows c g h)
