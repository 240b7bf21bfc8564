-- ===== src/Capacity/ScalingConfig.antt =====
-- internal/interfaces/capacity_scaling.go: the defaults, Merge and Validate.
use inferno_autoscaler.Base.{
  false, not, ◌||◌, ◌≡◌, ◌↔◌, arith, if◌then◌else◌, Float, of_nat, nought, Option, none, some,
}
use inferno_autoscaler.Capacity.Types.{CapacityScalingConfig}

-- The errors of Validate, with the values that their texts print.
pub data ConfigError (F : Type 0) : Type 0 where
  kv_cache_threshold_range : F → ConfigError F
  queue_length_threshold_negative : F → ConfigError F
  kv_spare_trigger_range : F → ConfigError F
  queue_spare_trigger_negative : F → ConfigError F
  threshold_below_trigger : (threshold trigger : F) → ConfigError F

module _ {F : Type 0} ⦃f : Float F⦄ where
  open f use {lt, eq, decimal}

  unfoldable pub default_config : CapacityScalingConfig F
  default_config = record {
    model_id = "";
    namespace = "";
    kv_cache_threshold = decimal 80 2;
    queue_length_threshold = of_nat 5;
    kv_spare_trigger = decimal 10 2;
    queue_spare_trigger = of_nat 3;
  }

  abbrev override_field : F → F → F
  override_field base override = if not (eq override nought) then override else base

  unfoldable pub merge : CapacityScalingConfig F → CapacityScalingConfig F → CapacityScalingConfig F
  merge base override = record base {
    kv_cache_threshold = override_field base.kv_cache_threshold override.kv_cache_threshold;
    queue_length_threshold =
        override_field base.queue_length_threshold override.queue_length_threshold;
    kv_spare_trigger = override_field base.kv_spare_trigger override.kv_spare_trigger;
    queue_spare_trigger = override_field base.queue_spare_trigger override.queue_spare_trigger;
  }

  -- `none` is the nil error
  unfoldable pub validate : CapacityScalingConfig F → Option (ConfigError F)
  validate c =
      if lt c.kv_cache_threshold nought || lt (of_nat 1) c.kv_cache_threshold
      then some (kv_cache_threshold_range c.kv_cache_threshold)
      else if lt c.queue_length_threshold nought
      then some (queue_length_threshold_negative c.queue_length_threshold)
      else if lt c.kv_spare_trigger nought || lt (of_nat 1) c.kv_spare_trigger
      then some (kv_spare_trigger_range c.kv_spare_trigger)
      else if lt c.queue_spare_trigger nought
      then some (queue_spare_trigger_negative c.queue_spare_trigger)
      else if lt c.kv_cache_threshold c.kv_spare_trigger
      then some (threshold_below_trigger c.kv_cache_threshold c.kv_spare_trigger)
      else none

  -- A configuration whose values lie in their ranges and do not contradict one another.
  pub record IsConsistent (c : CapacityScalingConfig F) : Type 0 where
    pub kv_threshold_ge : lt c.kv_cache_threshold nought ≡ false
    pub kv_threshold_le : lt (of_nat 1) c.kv_cache_threshold ≡ false
    pub queue_threshold_ge : lt c.queue_length_threshold nought ≡ false
    pub kv_trigger_ge : lt c.kv_spare_trigger nought ≡ false
    pub kv_trigger_le : lt (of_nat 1) c.kv_spare_trigger ≡ false
    pub queue_trigger_ge : lt c.queue_spare_trigger nought ≡ false
    pub trigger_le_threshold : lt c.kv_cache_threshold c.kv_spare_trigger ≡ false

  -- Validate accepts exactly the configurations whose kv threshold and kv trigger are not below 0 and
  -- not above 1, whose queue threshold and queue trigger are not below 0, and whose kv threshold is
  -- not below the kv trigger.
  pub validate_iff : (c : CapacityScalingConfig F) → (validate c ≡ none) ↔ IsConsistent c
  unfolding validate
  validate_iff c = (λ e. ground arith, λ v. ground arith)

  -- If the base and the override are both valid, then the merged configuration is valid unless its
  -- kv threshold is below its kv trigger, and that is the error that Validate then returns.
  pub validate-merge :
      (base override : CapacityScalingConfig F)
      → validate base ≡ none
      → validate override ≡ none
      → let m = merge base override in
        validate m ≡ (
          if lt m.kv_cache_threshold m.kv_spare_trigger
          then some (threshold_below_trigger m.kv_cache_threshold m.kv_spare_trigger)
          else none)
  unfolding merge validate
  validate-merge base override hb ho =
      let b = (validate_iff base).0 hb in let o = (validate_iff override).0 ho in ground arith

  -- Merging: a field that the override leaves at 0 keeps the base's value, any other takes the
  -- override's; so merging the same override again changes nothing.
  pub merge-merge_self :
      (base override : CapacityScalingConfig F)
      → merge (merge base override) override ≡ merge base override
  unfolding merge
  merge-merge_self base override = ground arith
