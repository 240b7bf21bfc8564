-- ===== src/Controller/Requeues.antt =====
-- internal/controller/variantautoscaling_controller.go: when Reconcile is called again.
use inferno_autoscaler.Base.{
  String, List, Option, none, some, ◌==◌, ◌≡◌, ◌⊎◌, refl, inl, inr, if_cases, length, Float, ℤ,
}
use inferno_autoscaler.Controller.Types.{VariantAutoscaling}
use inferno_autoscaler.Controller.Client.{Client}
use inferno_autoscaler.Controller.Groups.{filter_active}
use inferno_autoscaler.Controller.Configs.{ConfigCache}
use inferno_autoscaler.Controller.Emission.{Gauges}
use inferno_autoscaler.Controller.Engines.{Engines}
use inferno_autoscaler.Controller.Reconcile.{
  ReconcileResult, reconcile_error, requeue_after, interval_of, reconcile_listed, reconcile,
}

module _ {F C : Type 0} ⦃f : Float F⦄ (client : Client C) (engines : Engines F C) where
  module _ (config_namespace : String) (c : C) where
    -- What the reads at the start of Reconcile give: the interval, and the resources.
    abbrev pub interval_read : C × Option ℤ
    interval_read =
        let (c', reply) =
          client.get_config_map "workload-variant-autoscaler-variantautoscaling-config"
            config_namespace c in
        (c', interval_of client engines reply)

    abbrev pub items_read : C × Option (List VariantAutoscaling)
    items_read = client.list_variants interval_read.0

  -- An error after a read that failed, or else a requeue after the interval.
  abbrev pub Outcome :
      (config_namespace : String) (c : C) (g : Gauges F) → C × Gauges F × ReconcileResult → Type 0
  Outcome config_namespace c g out =
      ((out.2 ≡ reconcile_error)
        × (out.1 ≡ g)
        × (((interval_read config_namespace c).1 ≡ none)
            ⊎ ((items_read config_namespace c).1 ≡ none)))
      ⊎ ((interval : ℤ) × (items : List VariantAutoscaling) × ((interval_read config_namespace c).1
            ≡ some interval)
          × ((items_read config_namespace c).1 ≡ some items)
          × (out.2 ≡ requeue_after interval))

  listed-Outcome :
      (config_namespace : String) (cache : ConfigCache F) (c : C) (g : Gauges F) (interval : ℤ)
      (o : Option (List VariantAutoscaling))
      → (interval_read config_namespace c).1 ≡ some interval
      → (items_read config_namespace c).1 ≡ o
      → Outcome config_namespace c g
          (reconcile_listed client engines cache interval o (items_read config_namespace c).0 g)
  listed-Outcome ns cache c g interval none h items = inl (refl, refl, inr items)
  listed-Outcome ns cache c g interval (some vas) h items =
      if_cases (Outcome ns c g) (length (filter_active vas) == 0) _ _
        (λ e. inr (interval, vas, h, items, refl)) (λ e. inr (interval, vas, h, items, refl))

  read-Outcome :
      (config_namespace : String) (cache : ConfigCache F) (c : C) (g : Gauges F) (o : Option ℤ)
      → (interval_read config_namespace c).1 ≡ o
      → Outcome config_namespace c g (
          let out : C × Gauges F × ReconcileResult = elim o [
            | none ↦ ((interval_read config_namespace c).0, g, reconcile_error)
            | some interval ↦
                reconcile_listed client engines cache interval
                  (items_read config_namespace c).1
                  (items_read config_namespace c).0
                  g
          ] in
          out)
  read-Outcome ns cache c g none h = inl (refl, refl, inl h)
  read-Outcome ns cache c g (some interval) h =
      listed-Outcome ns cache c g interval (items_read ns c).1 h refl

  -- Reconcile fails exactly where it cannot read its interval or the resources, and then changes no
  -- gauge. Otherwise it is called again after the interval, whatever errors the engines, the reads of
  -- single resources and the updates gave.
  pub reconcile-Outcome :
      (config_namespace : String) (cache : ConfigCache F) (c : C) (g : Gauges F)
      → Outcome config_namespace c g (reconcile client engines config_namespace cache c g)
  unfolding reconcile
  reconcile-Outcome ns cache c g = read-Outcome ns cache c g (interval_read ns c).1 refl
