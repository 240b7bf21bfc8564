-- ===== src/Controller/Reconcile.antt =====
-- internal/controller/variantautoscaling_controller.go: Reconcile.
use inferno_autoscaler.Base.{
  ℕ, ◌+◌, String, Bool, true, false, not, ◌||◌, List, [], ◌∷◌, ◌++◌, Option, none, some, ◌==◌,
  if◌then◌else◌, length, Table, lookup, insert, str_eq, Float, ℤ, pos,
}
use inferno_autoscaler.Capacity.Types.{VariantDecision}
use inferno_autoscaler.Capacity.Arbitration.{arbitrate_with_model_based}
use inferno_autoscaler.Controller.Types.{VariantAutoscaling}
use inferno_autoscaler.Controller.Client.{Client, ConfigMapReply, config_data, not_found, failed}
use inferno_autoscaler.Controller.Modes.{Modes, modes_of}
use inferno_autoscaler.Controller.Groups.{filter_active, group_by_model, variant_map_of}
use inferno_autoscaler.Controller.Configs.{ConfigCache, effective_config}
use inferno_autoscaler.Controller.Decisions.{convert_capacity_targets, model_decisions}
use inferno_autoscaler.Controller.Emission.{Gauges, emit_safety_net}
use inferno_autoscaler.Controller.Applying.{apply_decisions}
use inferno_autoscaler.Controller.Engines.{Engines, Optimized}
use inferno_autoscaler.Controller.Collecting.{
  CapacityResult, analysis_failed, no_analysis, analysed, collect_metrics, run_capacity_analysis,
}

-- What the loop over the models changes: the cluster, the gauges, vaMap, allDecisions and errorCount.
pub record Pass (F C : Type 0) : Type 0 where
  pub cluster : C
  pub gauges : Gauges F
  pub variants : Table VariantAutoscaling
  pub decisions : List (VariantDecision F)
  pub error_count : ℕ

-- The result of Reconcile; the time is in nanoseconds.
pub data ReconcileResult : Type 0 where
  reconcile_error : ReconcileResult
  requeue_after : ℤ → ReconcileResult

-- modelBasedTargets
unfoldable pub model_targets : Table ℕ → Table ℕ → List VariantAutoscaling → Table ℕ
model_targets targets replicas [] = targets
model_targets targets replicas (va ∷ vas) = elim (lookup va.name replicas) [
  | none ↦ model_targets targets replicas vas
  | some n ↦ model_targets (insert va.name n targets) replicas vas
]

-- The prepared variants that have a target, in vaMap.
unfoldable pub with_prepared :
    Table ℕ → Table VariantAutoscaling → List VariantAutoscaling → Table VariantAutoscaling
with_prepared targets variants [] = variants
with_prepared targets variants (va ∷ vas) = elim (lookup va.name targets) [
  | none ↦ with_prepared targets variants vas
  | some n ↦ with_prepared targets (insert va.name va variants) vas
]

module _ {F C : Type 0} ⦃f : Float F⦄ (client : Client C) (engines : Engines F C) where
  abbrev pub decide : List (VariantDecision F) → Pass F C → Pass F C
  decide ds p = record p { decisions = p.decisions ++ ds }

  abbrev pub count_error : Pass F C → Pass F C
  count_error p = record p { error_count = p.error_count + 1 }

  abbrev pub use_safety_net : List VariantAutoscaling → Pass F C → Pass F C
  use_safety_net vas p =
      let (c, g) = emit_safety_net client vas p.cluster p.gauges in
      record p { cluster = c; gauges = g }

  -- The first phase: the capacity analysis of a model, if it is enabled.
  unfoldable pub capacity_phase :
      Modes
      → ConfigCache F
      → (model_id : String) → List VariantAutoscaling
      → Pass F C
      → Pass F C × CapacityResult F
  capacity_phase modes cache model_id [] p =
      (p, if modes.capacity_analyzer then analysis_failed else no_analysis)
  capacity_phase modes cache model_id (va ∷ vas) p =
      let all = va ∷ vas in
      let (variants, c) = collect_metrics client engines all p.variants p.cluster in
      let config = effective_config cache model_id va.namespace in
      let (result, c') = run_capacity_analysis client engines model_id all config c in
      if modes.capacity_analyzer
      then (record p { cluster = c'; variants = variants }, result)
      else (p, no_analysis)

  -- Where the model-based optimization fails: the targets of the analysis, or else the safety net.
  abbrev pub fall_back : List VariantAutoscaling → CapacityResult F → Pass F C → Pass F C
  fall_back vas (analysed targets analysis states) p =
      decide (convert_capacity_targets targets analysis states) p
  fall_back vas analysis_failed p = use_safety_net vas p
  fall_back vas no_analysis p = use_safety_net vas p

  -- The second phase without the optimizer.
  abbrev pub accumulate_capacity : List VariantAutoscaling → CapacityResult F → Pass F C → Pass F C
  accumulate_capacity vas (analysed targets analysis states) p =
      decide (convert_capacity_targets targets analysis states) p
  accumulate_capacity vas analysis_failed p = use_safety_net vas (count_error p)
  accumulate_capacity vas no_analysis p = use_safety_net vas (count_error p)

  -- The second phase of the hybrid mode.
  abbrev pub accumulate_hybrid : (model_targets : Table ℕ) → CapacityResult F → Pass F C → Pass F C
  accumulate_hybrid model_targets (analysed targets analysis states) p =
      if length targets == 0
      then p
      else decide (arbitrate_with_model_based (some analysis) targets model_targets states) p
  accumulate_hybrid model_targets analysis_failed p = p
  accumulate_hybrid model_targets no_analysis p = p

  -- The second phase of the optimizer alone.
  abbrev pub accumulate_model :
      (model_id : String) → (vas prepared : List VariantAutoscaling) → Table ℕ → Pass F C → Pass F C
  accumulate_model model_id vas [] targets p = use_safety_net vas p
  accumulate_model model_id vas (va ∷ prepared) targets p =
      let all = va ∷ prepared in
      decide (model_decisions model_id targets all)
        (record p { variants = with_prepared targets p.variants all })

  -- The rest of a model's turn, with the optimizer.
  abbrev pub optimize_phase :
      Modes
      → (model_id : String) → List VariantAutoscaling
      → CapacityResult F
      → Option Optimized
      → Pass F C
      → Pass F C
  optimize_phase modes model_id vas result none p = fall_back vas result (count_error p)
  optimize_phase modes model_id vas result (some o) p =
      let targets = model_targets [] o.replicas vas in
      if modes.capacity_analyzer
      then accumulate_hybrid targets result p
      else accumulate_model model_id vas o.prepared targets p

  abbrev pub is_failed : CapacityResult F → Bool
  is_failed analysis_failed = true
  is_failed no_analysis = false
  is_failed (analysed targets analysis states) = false

  -- The body of the loop over the models.
  unfoldable pub process_model :
      Modes → ConfigCache F → (model_id : String) → List VariantAutoscaling → Pass F C → Pass F C
  process_model modes cache model_id vas p =
      let (p1, result) = capacity_phase modes cache model_id vas p in
      let p2 = if is_failed result then count_error p1 else p1 in
      let (c, optimized) = engines.optimize_model vas p2.cluster in
      let with_optimizer =
        optimize_phase modes model_id vas result optimized (record p2 { cluster = c }) in
      let without =
        if is_failed result || not modes.capacity_analyzer
        then p2
        else accumulate_capacity vas result p2 in
      if modes.model_optimizer then with_optimizer else without

  unfoldable pub process_models :
      Modes → ConfigCache F → Table (List VariantAutoscaling) → Pass F C → Pass F C
  process_models modes cache [] p = p
  process_models modes cache ((model_id, vas) ∷ groups) p =
      process_models modes cache groups (process_model modes cache model_id vas p)

  -- What the loop starts from.
  abbrev pub first_pass : List VariantAutoscaling → C → Gauges F → Pass F C
  first_pass active c g = record {
    cluster = c;
    gauges = g;
    variants = variant_map_of [] active;
    decisions = [];
    error_count = 0;
  }

  -- The pass over the active resources, in the mode that the environment names.
  unfoldable pub reconcile_active :
      ConfigCache F → List VariantAutoscaling → C → Gauges F → C × Gauges F
  reconcile_active cache active c g =
      let modes = modes_of (engines.getenv "EXPERIMENTAL_HYBRID_OPTIMIZATION") in
      let p = process_models modes cache (group_by_model active) (first_pass active c g) in
      apply_decisions client p.variants p.decisions p.cluster p.gauges

  -- The default is 60 seconds.
  abbrev pub interval_of : ConfigMapReply → Option ℤ
  interval_of not_found = none
  interval_of failed = none
  interval_of (config_data entries) = elim (lookup "GLOBAL_OPT_INTERVAL" entries) [
    | none ↦ some (pos 60_000_000_000)
    | some text ↦ if str_eq text "" then some (pos 60_000_000_000) else engines.parse_duration text
  ]

  -- From the list of resources on.
  abbrev pub reconcile_listed :
      ConfigCache F
      → (interval : ℤ) → Option (List VariantAutoscaling)
      → C
      → Gauges F
      → C × Gauges F × ReconcileResult
  reconcile_listed cache interval none c g = (c, g, reconcile_error)
  reconcile_listed cache interval (some items) c g =
      let active = filter_active items in
      let (c', g') = reconcile_active cache active c g in
      if length active == 0
      then (c, g, requeue_after interval)
      else (c', g', requeue_after interval)

  module _ (config_namespace : String) where
    unfoldable pub reconcile : ConfigCache F → C → Gauges F → C × Gauges F × ReconcileResult
    reconcile cache c g =
        let (c', reply) =
          client.get_config_map "workload-variant-autoscaler-variantautoscaling-config"
            config_namespace c in
        elim (interval_of reply) [
          | none ↦ (c', g, reconcile_error)
          | some interval ↦
              let (c2, items) = client.list_variants c' in
              reconcile_listed cache interval items c2 g
        ]
