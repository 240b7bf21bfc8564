-- ===== src/Controller/Cache.antt =====
-- internal/controller/variantautoscaling_controller.go: the configurations that the cache can hold, and
-- the one that a model gets.
use inferno_autoscaler.Base.{
  String, Bool, true, false, ◌&&◌, [], ◌∷◌, Option, none, some, ◌≡◌, ◌≢◌, ◌⊎◌, refl, subst, arith,
  inl, inr, if_cases, if◌then◌else◌, Table, lookup, lookup-insert, lookup-All, insert, insert-All,
  All, str_eq, Float,
}
use mathlib.Core.Option.{some-injective}
use inferno_autoscaler.Capacity.Types.{CapacityScalingConfig}
use inferno_autoscaler.Capacity.ScalingConfig.{
  ConfigError, threshold_below_trigger, default_config, merge, validate,
}
use inferno_autoscaler.Controller.Client.{Client, ConfigMapReply, config_data, not_found, failed}
use inferno_autoscaler.Controller.Configs.{
  ConfigCache, empty_config, new_cache, accept_config, parse_configs, with_default, configs_of,
  read_capacity_scaling_config, update_config_cache, apply_override, config_for_variant,
  effective_config,
}

module _ {F : Type 0} ⦃f : Float F⦄ where
  open f use {lt}

  abbrev pub IsValidEntry : String × CapacityScalingConfig F → Type 0
  IsValidEntry (key, config) = validate config ≡ none

  -- A cache that was loaded has a default, and all that a cache holds is valid.
  abbrev pub IsValidCache : ConfigCache F → Type 0
  IsValidCache cache =
      All IsValidEntry cache.configs
      × ((cache.configs ≡ []) × (cache.loaded ≡ false)
          ⊎ (lookup "default" cache.configs ≢ none) × (cache.loaded ≡ true))

  -- The only error that Validate can still give is that the threshold is below the trigger.
  abbrev pub OnlyContradicts : CapacityScalingConfig F → Type 0
  OnlyContradicts c = validate c ≡ (
      if lt c.kv_cache_threshold c.kv_spare_trigger
      then some (threshold_below_trigger c.kv_cache_threshold c.kv_spare_trigger)
      else none)

  valid-OnlyContradicts : (c : CapacityScalingConfig F) → validate c ≡ none → OnlyContradicts c
  unfolding validate
  valid-OnlyContradicts c h = ground arith

  merge-OnlyContradicts :
      (base override : CapacityScalingConfig F)
      → OnlyContradicts base
      → OnlyContradicts override
      → OnlyContradicts (merge base override)
  unfolding merge validate
  merge-OnlyContradicts base override hb ho = ground arith

  module _ (valid_default : validate {F = F} default_config ≡ none) where
    judged-valid :
        (key : String) (config : CapacityScalingConfig F) (o : Option (ConfigError F))
        (configs : Table (CapacityScalingConfig F))
        → validate config ≡ o
        → All IsValidEntry configs
        → All IsValidEntry (
            let out : Table (CapacityScalingConfig F) = elim o [
              | some error ↦ configs
              | none ↦ insert key config configs
            ] in
            out)
    judged-valid key config none configs valid h =
        insert-All IsValidEntry key config configs valid h
    judged-valid key config (some error) configs invalid h = h

    accept_config-valid :
        (key : String) (o : Option (CapacityScalingConfig F))
        (configs : Table (CapacityScalingConfig F))
        → All IsValidEntry configs
        → All IsValidEntry (accept_config key o configs)
    accept_config-valid key none configs h = h
    accept_config-valid key (some config) configs h =
        judged-valid key config (validate config) configs refl h

    parse_configs-valid :
        (unmarshal : String → Option (CapacityScalingConfig F))
        (configs : Table (CapacityScalingConfig F)) (entries : Table String)
        → All IsValidEntry configs
        → All IsValidEntry (parse_configs unmarshal configs entries)
    unfolding parse_configs
    parse_configs-valid unmarshal configs [] h = h
    parse_configs-valid unmarshal configs ((key, yaml) ∷ entries) h =
        parse_configs-valid unmarshal (accept_config key (unmarshal yaml) configs) entries
          (accept_config-valid key (unmarshal yaml) configs h)

    -- What a cache holds after it was loaded.
    abbrev IsLoaded : Table (CapacityScalingConfig F) → Type 0
    IsLoaded configs = All IsValidEntry configs × (lookup "default" configs ≢ none)

    module _ (unmarshal : String → Option (CapacityScalingConfig F)) where
      with_default-IsLoaded :
          (o : Option (CapacityScalingConfig F)) (configs : Table (CapacityScalingConfig F))
          → lookup "default" configs ≡ o
          → All IsValidEntry configs
          → IsLoaded (with_default unmarshal o configs)
      with_default-IsLoaded none configs found h = (
        insert-All IsValidEntry "default" default_config configs valid_default h,
        λ e. ground (arith, e, lookup-insert "default" "default" default_config configs),
      )
      with_default-IsLoaded (some config) configs found h = (h, λ e. cc)

      configs_of-IsLoaded :
          (reply : ConfigMapReply) (configs : Table (CapacityScalingConfig F))
          → configs_of unmarshal reply ≡ some configs
          → IsLoaded configs
      unfolding lookup
      configs_of-IsLoaded not_found configs h = ground (arith, h, valid_default)
      configs_of-IsLoaded failed configs h = cc
      configs_of-IsLoaded (config_data entries) configs h =
          let parsed = parse_configs unmarshal [] entries in
          subst IsLoaded (some-injective _ _ h) (
            with_default-IsLoaded (lookup "default" parsed) parsed refl
              (parse_configs-valid unmarshal [] entries tt))

      module _ {C : Type 0} (client : Client C) (config_namespace : String) where
        -- The caches that a new one can become, by loads at any states of the cluster: that at the
        -- start, and one for each event of the ConfigMap.
        pub data Reachable : ConfigCache F → Type 0 where
          start : Reachable new_cache
          load :
              (cache : ConfigCache F) (c : C)
              → Reachable cache
              → Reachable (update_config_cache unmarshal client config_namespace cache c).0

        loaded-IsValidCache :
            (cache : ConfigCache F) (c : C) (o : Option (Table (CapacityScalingConfig F)))
            → ((configs : Table (CapacityScalingConfig F)) → o ≡ some configs → IsLoaded configs)
            → IsValidCache cache
            → IsValidCache (
                let out : ConfigCache F × C × Bool = elim o [
                  | none ↦ (cache, c, false)
                  | some configs ↦ (record { configs = configs; loaded = true }, c, true)
                ] in
                out.0)
        loaded-IsValidCache cache c none holds h = h
        loaded-IsValidCache cache c (some configs) holds h =
            let (valid, found) = holds configs refl in (valid, inr (found, refl))

        Reachable-IsValidCache : (cache : ConfigCache F) → Reachable cache → IsValidCache cache
        unfolding update_config_cache read_capacity_scaling_config
        Reachable-IsValidCache _ start = (tt, inl (refl, refl))
        Reachable-IsValidCache _ (load cache c r) =
            let out = client.get_config_map "capacity-scaling-config" config_namespace c in
            loaded-IsValidCache cache out.0 (configs_of unmarshal out.1) (configs_of-IsLoaded out.1)
              (Reachable-IsValidCache cache r)

    module _ (valid_empty : validate {F = F} empty_config ≡ none) where
      apply_override-OnlyContradicts :
          (model_id namespace : String) (config : CapacityScalingConfig F)
          (configs : Table (CapacityScalingConfig F))
          → OnlyContradicts config
          → All IsValidEntry configs
          → OnlyContradicts (apply_override model_id namespace config configs)
      unfolding apply_override
      apply_override-OnlyContradicts model_id namespace config [] h valid = h
      apply_override-OnlyContradicts model_id namespace config ((key, o) ∷ configs) h valid =
          let rest = apply_override-OnlyContradicts model_id namespace config configs h valid.1 in
          if_cases OnlyContradicts (str_eq key "default") _ _ (λ e. rest)
            λ e.
              if_cases OnlyContradicts (str_eq o.model_id model_id && str_eq o.namespace namespace)
                _ _ (λ match. merge-OnlyContradicts config o h (valid-OnlyContradicts o valid.0))
                (λ match. rest)

      default_of :
          (configs : Table (CapacityScalingConfig F)) (o : Option (CapacityScalingConfig F))
          → lookup "default" configs ≡ o
          → All IsValidEntry configs
          → OnlyContradicts (
              let out : CapacityScalingConfig F = elim o [
                | none ↦ empty_config
                | some config ↦ config
              ] in
              out)
      default_of configs none found valid = valid-OnlyContradicts empty_config valid_empty
      default_of configs (some config) found valid =
          valid-OnlyContradicts config (lookup-All IsValidEntry "default" configs found valid)

      -- However the cache was loaded, also not at all, the configuration that a model gets has values in
      -- their ranges: the only error that Validate can give for it is that its threshold is below its
      -- trigger, and it gives that exactly if this is so. The default and the zero configuration are
      -- taken to be valid.
      pub effective_config-OnlyContradicts :
          {C : Type 0} (unmarshal : String → Option (CapacityScalingConfig F)) (client : Client C)
          (config_namespace : String) (cache : ConfigCache F) (model_id namespace : String)
          → Reachable unmarshal client config_namespace cache
          → OnlyContradicts (effective_config cache model_id namespace)
      unfolding effective_config config_for_variant
      effective_config-OnlyContradicts unmarshal client ns cache model_id namespace r =
          let valid = (Reachable-IsValidCache unmarshal client ns cache r).0 in
          merge-OnlyContradicts default_config _
            (valid-OnlyContradicts default_config valid_default)
            (apply_override-OnlyContradicts model_id namespace _ cache.configs
              (default_of cache.configs (lookup "default" cache.configs) refl valid) valid)
