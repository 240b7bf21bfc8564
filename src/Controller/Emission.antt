-- ===== src/Controller/Emission.antt =====
-- internal/metrics/metrics.go and internal/actuator/actuator.go: the gauges that an external autoscaler
-- reads; and the safety net of the controller.
use inferno_autoscaler.Base.{
  ℕ, zero, ◌-◌, ◌%◌, String, Bool, true, false, not, ◌&&◌, List, [], ◌∷◌, Option, none, some, ltb,
  leb, if◌then◌else◌, lookup_or, str_eq, Float, nought, ℤ, pos, negsuc,
}
use inferno_autoscaler.Controller.Types.{VariantAutoscaling}
use inferno_autoscaler.Controller.Client.{Client}

-- int32(n)
abbrev pub int32_of : ℕ → ℤ
int32_of n =
    let m = n % 4_294_967_296 in if ltb m 2_147_483_648 then pos m else negsuc (4_294_967_295 - m)

pub record Labels : Type 0 where
  pub variant_name : String
  pub namespace : String
  pub accelerator_type : String

-- The values of the gauges currentReplicas, desiredReplicas and desiredRatio.
pub record Sample (F : Type 0) : Type 0 where
  pub current : F
  pub desired : F
  pub ratio : F

-- `initialized` is false while the gauges are nil.
pub record Gauges (F : Type 0) : Type 0 where
  pub initialized : Bool
  pub samples : Labels → Option (Sample F)

abbrev pub same_labels : Labels → Labels → Bool
same_labels k l =
    str_eq k.variant_name l.variant_name
    && str_eq k.namespace l.namespace
    && str_eq k.accelerator_type l.accelerator_type

abbrev pub labels_of : VariantAutoscaling → String → Labels
labels_of va accelerator = record {
  variant_name = va.name;
  namespace = va.namespace;
  accelerator_type = accelerator;
}

module _ {F : Type 0} ⦃f : Float F⦄ where
  -- The ratio is the desired replicas, where there are no current ones.
  abbrev pub sample_of : (current desired : ℤ) → Sample F
  sample_of (pos zero) desired = record {
    current = nought;
    desired = f.of_int desired;
    ratio = f.of_int desired;
  }
  sample_of current desired = record {
    current = f.of_int current;
    desired = f.of_int desired;
    ratio = f.div (f.of_int desired) (f.of_int current);
  }

  abbrev pub set_sample : Labels → Sample F → Gauges F → Gauges F
  set_sample labels sample g = record g {
    samples = λ l. if same_labels labels l then some sample else g.samples l;
  }

  -- EmitReplicaMetrics, and whether it gives no error
  unfoldable pub emit_replica_metrics :
      VariantAutoscaling → (current desired : ℤ) → String → Gauges F → Gauges F × Bool
  emit_replica_metrics va current desired accelerator g =
      if not g.initialized
      then (g, false)
      else (set_sample (labels_of va accelerator) (sample_of current desired) g, true)

module _ {C : Type 0} (client : Client C) where
  -- GetCurrentDeploymentReplicas; `none` is an error
  unfoldable pub current_deployment_replicas : VariantAutoscaling → C → C × Option ℤ
  current_deployment_replicas va c =
      let (c', deployment) = client.get_deployment va.name va.namespace c in
      (
        c',
        elim deployment [
          | none ↦ none
          | some d ↦ some (
              if leb 0 d.status_replicas
              then pos d.status_replicas
              else elim d.spec_replicas [ none ↦ pos 1 | some n ↦ pos n ])
        ],
      )

  -- With the status of the resource, where the deployment cannot be read.
  unfoldable pub current_replicas_or_status : VariantAutoscaling → C → C × ℤ
  current_replicas_or_status va c =
      let (c', replicas) = current_deployment_replicas va c in
      (c', elim replicas [ none ↦ int32_of va.current_alloc.num_replicas | some n ↦ n ])

  -- The desired replicas of the safety net: the previous ones, or else the current ones.
  unfoldable pub fallback_replicas : VariantAutoscaling → C → C × ℤ
  fallback_replicas va c =
      let current = current_replicas_or_status va c in
      if ltb 0 va.desired_alloc.num_replicas
      then (c, int32_of va.desired_alloc.num_replicas)
      else current

-- The accelerator that the safety net reports: the desired one, the current one, or the label.
unfoldable pub fallback_accelerator : VariantAutoscaling → String
fallback_accelerator va =
    if not (str_eq va.desired_alloc.accelerator "")
    then va.desired_alloc.accelerator
    else if not (str_eq va.current_alloc.accelerator "")
    then va.current_alloc.accelerator
    else lookup_or "" "inference.optimization/acceleratorName" va.labels

module _ {F : Type 0} ⦃f : Float F⦄ {C : Type 0} (client : Client C) where
  -- EmitMetrics, whose error is always nil.
  unfoldable pub emit_metrics : VariantAutoscaling → C → Gauges F → C × Gauges F × Bool
  emit_metrics va c g =
      let (c', current) = current_replicas_or_status client va c in
      let desired = int32_of va.desired_alloc.num_replicas in
      if leb 0 va.desired_alloc.num_replicas
      then (c', (emit_replica_metrics va current desired va.desired_alloc.accelerator g).0, true)
      else (c, g, true)

  -- The safety net for the latest version of a resource.
  unfoldable pub emit_fallback : VariantAutoscaling → C → Gauges F → C × Gauges F
  emit_fallback va c g =
      let (c1, desired) = fallback_replicas client va c in
      let (c2, current) = current_replicas_or_status client va c1 in
      let accelerator = fallback_accelerator va in
      if str_eq accelerator ""
      then (c2, g)
      else (c2, (emit_replica_metrics va current desired accelerator g).0)

  -- emitSafetyNetMetrics
  unfoldable pub emit_safety_net : List VariantAutoscaling → C → Gauges F → C × Gauges F
  emit_safety_net [] c g = (c, g)
  emit_safety_net (va ∷ vas) c g =
      let (c', latest) = client.get_variant va.name va.namespace c in
      let (c2, g2) : C × Gauges F = elim latest [
        | none ↦ (c', g)
        | some va' ↦ emit_fallback va' c' g
      ] in
      emit_safety_net vas c2 g2
