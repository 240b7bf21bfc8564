-- ===== src/Controller/SafetyNet.antt =====
-- internal/controller/variantautoscaling_controller.go and internal/actuator: what the safety net reports.
use inferno_autoscaler.Base.{
  String, true, false, none, some, ◌≡◌, ◌≢◌, refl, sym, arith, inl, inr, Bool-cases, if_true,
  if_false, ltb, if◌then◌else◌, str_eq, str_eq_iff, Float, ℤ, pos, negsuc, zero, suc, Option, ◌⊎◌,
  subst,
}
use inferno_autoscaler.Controller.Types.{VariantAutoscaling}
use inferno_autoscaler.Controller.Client.{Client}
use inferno_autoscaler.Controller.Emission.{
  Labels, Sample, Gauges, int32_of, same_labels, labels_of, sample_of, emit_replica_metrics,
  current_deployment_replicas, current_replicas_or_status, fallback_replicas, fallback_accelerator,
  emit_fallback,
}

same_labels_refl : (l : Labels) → same_labels l l ≡ true
same_labels_refl l = ground (
  arith,
  str_eq_iff l.variant_name l.variant_name,
  str_eq_iff l.namespace l.namespace,
  str_eq_iff l.accelerator_type l.accelerator_type,
)

module _ {C : Type 0} (client : Client C) where
  -- The cluster when the actual replicas are read: where there are no previous desired replicas, the
  -- deployment has been read once already.
  abbrev pub at_reading : VariantAutoscaling → C → C
  at_reading va c =
      if ltb 0 va.desired_alloc.num_replicas
      then c
      else (client.get_deployment va.name va.namespace c).0

  -- The replicas that the deployment has, or that the status names if it cannot be read.
  abbrev pub actual_replicas : VariantAutoscaling → C → ℤ
  actual_replicas va c = elim (client.get_deployment va.name va.namespace c).1 [
    | none ↦ int32_of va.current_alloc.num_replicas
    | some d ↦ pos d.status_replicas
  ]

  replicas_read :
      (va : VariantAutoscaling) (c : C)
      → current_replicas_or_status client va c
        ≡ ((client.get_deployment va.name va.namespace c).0, actual_replicas va c)
  unfolding current_replicas_or_status current_deployment_replicas
  replicas_read va c = ground arith

  -- The replicas that the safety net asks for.
  abbrev pub safe_replicas : VariantAutoscaling → C → ℤ
  safe_replicas va c =
      if ltb 0 va.desired_alloc.num_replicas
      then int32_of va.desired_alloc.num_replicas
      else actual_replicas va c

  fallback_read :
      (va : VariantAutoscaling) (c : C)
      → fallback_replicas client va c ≡ (at_reading va c, safe_replicas va c)
  unfolding fallback_replicas
  fallback_read va c = elim (Bool-cases (ltb 0 va.desired_alloc.num_replicas)) [
    | inl desired ↦ rw desired refl
    | inr undesired ↦ rw undesired (replicas_read va c)
  ]

module _ {F : Type 0} ⦃f : Float F⦄ where
  -- The ratio of the desired replicas to the current ones, or the desired ones where none are current.
  abbrev pub IsRatio : (current desired : ℤ) → F → Type 0
  IsRatio current desired x =
      ((current ≡ pos 0) × (x ≡ f.of_int desired))
      ⊎ ((current ≢ pos 0) × (x ≡ f.div (f.of_int desired) (f.of_int current)))

  abbrev pub Shows : (current desired : ℤ) → Option (Sample F) → Type 0
  Shows current desired o =
      (s : Sample F) × (o ≡ some s)
      × (s.current ≡ f.of_int current)
      × (s.desired ≡ f.of_int desired)
      × IsRatio current desired s.ratio

  sample_of-Shows : (current desired : ℤ) → Shows current desired (some (sample_of current desired))
  sample_of-Shows (pos zero) desired = (_, refl, refl, refl, inl (refl, refl))
  sample_of-Shows (pos (suc n)) desired = (_, refl, refl, refl, inr (λ h. ground (arith, h), refl))
  sample_of-Shows (negsuc n) desired = (_, refl, refl, refl, inr (λ h. ground (arith, h), refl))

  -- The gauges show the replicas under some labels, and are as they were under all others.
  abbrev pub Sets : Labels → (current desired : ℤ) → (g g' : Gauges F) → Type 0
  Sets l current desired g g' =
      Shows current desired (g'.samples l)
      × ((k : Labels) → same_labels l k ≡ false → g'.samples k ≡ g.samples k)
      × (g'.initialized ≡ g.initialized)

  emit_replica_metrics-Sets :
      (va : VariantAutoscaling) (current desired : ℤ) (accelerator : String) (g : Gauges F)
      → g.initialized ≡ true
      → Sets
          (labels_of va accelerator)
          current
          desired
          g
          (emit_replica_metrics va current desired accelerator g).0
  unfolding emit_replica_metrics
  emit_replica_metrics-Sets va current desired accelerator g ready =
      let l = labels_of va accelerator in
      let sample = sample_of current desired in
      rw ready (
        subst (Shows current desired)
            (sym (if_true (some sample) (g.samples l) (same_labels_refl l)))
            (sample_of-Shows current desired),
        λ k other. if_false (some sample) (g.samples k) other,
        refl,
      )

  module _ {C : Type 0} (client : Client C) where
    -- Once the gauges are there, the safety net for a resource with an accelerator in its status or label
    -- sets the gauges of that resource and accelerator only. They show as desired the previous desired
    -- replicas if there are any, or else the actual ones: those that the deployment has, or that the
    -- status names, if it cannot be read. As current they show the actual replicas, read once more in the
    -- latter case, and as ratio desired over current, or desired where current is 0. These reads are the
    -- only calls to the cluster.
    pub emit_fallback-Sets :
        (va : VariantAutoscaling) (c : C) (g : Gauges F)
        → g.initialized ≡ true
        → fallback_accelerator va ≢ ""
        → let (c', g') = emit_fallback client va c g in
          let c1 = at_reading client va c in
          (c' ≡ (client.get_deployment va.name va.namespace c1).0)
          × Sets
              (labels_of va (fallback_accelerator va))
              (actual_replicas client va c1)
              (safe_replicas client va c)
              g
              g'
    unfolding emit_fallback
    emit_fallback-Sets va c g ready named =
        let accelerator = fallback_accelerator va in
        let c1 = at_reading client va c in
        let unnamed : str_eq accelerator "" ≡ false = elim (Bool-cases (str_eq accelerator "")) [
          | inl empty ↦ absurd (named ((str_eq_iff accelerator "").0 empty))
          | inr other ↦ other
        ] in
        rw (fallback_read client va c, replicas_read client va c1, unnamed)
          (
            refl,
            emit_replica_metrics-Sets va (actual_replicas client va c1) (safe_replicas client va c)
                accelerator g ready,
          )
