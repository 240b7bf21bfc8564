-- ===== src/Controller/Applying.antt =====
-- internal/controller/variantautoscaling_controller.go: how the decisions reach the resources.
use inferno_autoscaler.Base.{
  Bool, true, false, ◌||◌, List, [], ◌∷◌, none, some, ltb, if◌then◌else◌, Table, lookup, str_eq,
  byte_length, Float, ℤ,
}
use inferno_autoscaler.Capacity.Types.{VariantDecision}
use inferno_autoscaler.Controller.Types.{
  VariantAutoscaling, ConditionReason, ConditionMessage, optimization_ready,
  capacity_safety_override, capacity_only_mode, optimization_succeeded, safety_override_message,
  capacity_only_message, hybrid_message,
}
use inferno_autoscaler.Controller.Client.{Client, set_condition}
use inferno_autoscaler.Controller.Emission.{Gauges, emit_metrics}

module _ {F : Type 0} ⦃f : Float F⦄ where
  -- The reason and message of the condition that a decision sets.
  abbrev pub condition_texts : VariantDecision F → ConditionReason × ConditionMessage
  condition_texts d =
      if d.safety_override
      then (capacity_safety_override, safety_override_message d.reason)
      else if d.capacity_only
      then (capacity_only_mode, capacity_only_message d.reason d.target_replicas)
      else (optimization_succeeded, hybrid_message d.reason d.target_replicas)

  -- No valid metrics, or no valid accelerator.
  abbrev pub lacks_accelerator : VariantAutoscaling → VariantDecision F → Bool
  lacks_accelerator va d =
      str_eq va.current_alloc.accelerator ""
      || str_eq d.accelerator_name ""
      || ltb (byte_length d.accelerator_name) 2

module _ {F : Type 0} ⦃f : Float F⦄ {C : Type 0} (client : Client C) where
  -- The latest version of a resource with the status that a decision gives it, of the time `now`; `va`
  -- has the collected metrics.
  unfoldable pub decided :
      VariantDecision F → (va latest : VariantAutoscaling) (now : ℤ) → VariantAutoscaling
  decided d va latest now =
      let (reason, message) = condition_texts d in
      set_condition client now
        (record latest {
          current_alloc = va.current_alloc;
          desired_alloc = record {
            last_run_time = now;
            accelerator = d.accelerator_name;
            num_replicas = d.target_replicas;
          };
          applied = false;
        })
        optimization_ready true reason message

  -- The metrics of an updated resource, whether it counts as applied, and its update.
  unfoldable pub publish : VariantAutoscaling → C → Gauges F → C × Gauges F
  publish va c g =
      let (c', g', emitted) = emit_metrics client va c g in
      let va' = record va { applied = if emitted then true else va.applied } in
      ((client.update_status va' c').0, g')

  -- The body of the loop of applyCapacityDecisions; each `continue` leaves what was done before it.
  unfoldable pub apply_decision :
      Table VariantAutoscaling → VariantDecision F → C → Gauges F → C × Gauges F
  apply_decision variants d c g = elim (lookup d.variant_name variants) [
    | none ↦ (c, g)
    | some va ↦
        let (c', latest) = client.get_variant va.name va.namespace c in
        elim latest [
          | none ↦ (c', g)
          | some latest ↦
              if lacks_accelerator va d
              then (c', g)
              else publish (decided d va latest (client.now c')) c' g
        ]
  ]

  -- applyCapacityDecisions, which gives no error
  unfoldable pub apply_decisions :
      Table VariantAutoscaling → List (VariantDecision F) → C → Gauges F → C × Gauges F
  apply_decisions variants [] c g = (c, g)
  apply_decisions variants (d ∷ ds) c g =
      let (c', g') = apply_decision variants d c g in apply_decisions variants ds c' g'
