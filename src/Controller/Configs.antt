-- ===== src/Controller/Configs.antt =====
-- internal/controller/variantautoscaling_controller.go: the capacity scaling configurations, read from a
-- ConfigMap, cached, and chosen for a model. The parser of YAML is an argument.
use inferno_autoscaler.Base.{
  String, Bool, true, false, ◌&&◌, [], ◌∷◌, Option, none, some, if◌then◌else◌, Table, lookup,
  lookup_or, insert, str_eq, Float, nought,
}
use inferno_autoscaler.Capacity.Types.{CapacityScalingConfig}
use inferno_autoscaler.Capacity.ScalingConfig.{default_config, merge, validate}
use inferno_autoscaler.Controller.Client.{Client, ConfigMapReply, config_data, not_found, failed}

-- capacityConfigCache and capacityConfigLoaded, which one mutex guards.
pub record ConfigCache (F : Type 0) : Type 0 where
  pub configs : Table (CapacityScalingConfig F)
  pub loaded : Bool

module _ {F : Type 0} ⦃f : Float F⦄ where
  -- The zero value, where a key is missing.
  abbrev pub empty_config : CapacityScalingConfig F
  empty_config = record {
    model_id = "";
    namespace = "";
    kv_cache_threshold = nought;
    queue_length_threshold = nought;
    kv_spare_trigger = nought;
    queue_spare_trigger = nought;
  }

  -- Before the first load.
  abbrev pub new_cache : ConfigCache F
  new_cache = record { configs = []; loaded = false }

  -- An entry that does not parse, or is not valid, is skipped.
  abbrev pub accept_config :
      String
      → Option (CapacityScalingConfig F)
      → Table (CapacityScalingConfig F)
      → Table (CapacityScalingConfig F)
  accept_config key none configs = configs
  accept_config key (some config) configs = elim (validate config) [
    | some error ↦ configs
    | none ↦ insert key config configs
  ]

  module _ (unmarshal : String → Option (CapacityScalingConfig F)) where
    -- The loop of readCapacityScalingConfig.
    unfoldable pub parse_configs :
        Table (CapacityScalingConfig F) → Table String → Table (CapacityScalingConfig F)
    unfolding validate
    parse_configs configs [] = configs
    parse_configs configs ((key, yaml) ∷ entries) =
        parse_configs (accept_config key (unmarshal yaml) configs) entries

    abbrev pub with_default :
        Option (CapacityScalingConfig F)
        → Table (CapacityScalingConfig F)
        → Table (CapacityScalingConfig F)
    with_default none configs = insert "default" default_config configs
    with_default (some config) configs = configs

    abbrev pub configs_of : ConfigMapReply → Option (Table (CapacityScalingConfig F))
    configs_of not_found = some (("default", default_config) ∷ [])
    configs_of failed = none
    configs_of (config_data entries) =
        let configs = parse_configs [] entries in
        some (with_default (lookup "default" configs) configs)

    module _ {C : Type 0} (client : Client C) (config_namespace : String) where
      unfoldable pub read_capacity_scaling_config : C → C × Option (Table (CapacityScalingConfig F))
      unfolding parse_configs
      read_capacity_scaling_config c =
          let (c', reply) = client.get_config_map "capacity-scaling-config" config_namespace c in
          (c', configs_of reply)

      -- updateCapacityConfigCache, and whether it succeeded
      unfoldable pub update_config_cache : ConfigCache F → C → ConfigCache F × C × Bool
      unfolding read_capacity_scaling_config
      update_config_cache cache c =
          let (c', configs) = read_capacity_scaling_config c in
          elim configs [
            | none ↦ (cache, c', false)
            | some configs ↦ (record { configs = configs; loaded = true }, c', true)
          ]

  -- The loop of getCapacityScalingConfigForVariant, which takes the first override that matches.
  unfoldable pub apply_override :
      (model_id namespace : String)
      → CapacityScalingConfig F
      → Table (CapacityScalingConfig F)
      → CapacityScalingConfig F
  unfolding merge
  apply_override model_id namespace config [] = config
  apply_override model_id namespace config ((key, override) ∷ configs) =
      let rest = apply_override model_id namespace config configs in
      if str_eq key "default"
      then rest
      else if str_eq override.model_id model_id && str_eq override.namespace namespace
      then merge config override
      else rest

  unfoldable pub config_for_variant :
      Table (CapacityScalingConfig F) → (model_id namespace : String) → CapacityScalingConfig F
  unfolding apply_override
  config_for_variant configs model_id namespace =
      apply_override model_id namespace (lookup_or empty_config "default" configs) configs

  -- The configuration that Reconcile uses for a model.
  unfoldable pub effective_config :
      ConfigCache F → (model_id namespace : String) → CapacityScalingConfig F
  unfolding config_for_variant
  effective_config cache model_id namespace =
      merge default_config (config_for_variant cache.configs model_id namespace)
