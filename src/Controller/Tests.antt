-- ===== src/Controller/Tests.antt =====
-- The theorems of the controller on a cluster of one variant, whose state is the list of the statuses
-- that were written, newest first.
use inferno_autoscaler.Base.{
  String, true, false, List, [], ◌∷◌, Option, none, some, ◌≡◌, ◌≢◌, ◌≤◌, refl, arith, All, IsKeyed,
  lookup_or, str_eq_iff, Milli, milli_float, pos,
}
use inferno_autoscaler.Capacity.Types.{
  VariantDecision, VariantReplicaState, ModelCapacityAnalysis, CapacityScalingConfig, no_reason,
  scale_up, capacity_only_reason,
}
use inferno_autoscaler.Capacity.ScalingConfig.{default_config, validate}
use inferno_autoscaler.Controller.Types.{VariantAutoscaling}
use inferno_autoscaler.Controller.Client.{Client, config_data}
use inferno_autoscaler.Controller.Modes.{modes_of}
use inferno_autoscaler.Controller.Groups.{filter_active, group_by_model}
use inferno_autoscaler.Controller.Partition.{active_of, group_by_model-filter_active}
use inferno_autoscaler.Controller.Configs.{
  ConfigCache, empty_config, new_cache, update_config_cache, effective_config,
}
use inferno_autoscaler.Controller.Cache.{
  OnlyContradicts, start, load, effective_config-OnlyContradicts,
}
use inferno_autoscaler.Controller.Emission.{Gauges, labels_of, emit_fallback, fallback_accelerator}
use inferno_autoscaler.Controller.SafetyNet.{
  at_reading, Sets, actual_replicas, safe_replicas, emit_fallback-Sets,
}
use inferno_autoscaler.Controller.Applying.{apply_decisions}
use inferno_autoscaler.Controller.Applied.{CarriesOut, apply_decisions-keeps}
use inferno_autoscaler.Controller.Engines.{Engines}
use inferno_autoscaler.Controller.Reconcile.{Pass, process_models, reconcile}
use inferno_autoscaler.Controller.OneEngine.{IsOf, process_models-IsOf}
use inferno_autoscaler.Controller.Requeues.{Outcome, reconcile-Outcome}

abbrev pub variant : VariantAutoscaling
variant = record {
  name = "llama-a100";
  namespace = "prod";
  labels = ("inference.optimization/acceleratorName", "A100") ∷ [];
  generation = 1;
  is_deleted = false;
  model_id = "llama";
  accelerators = [];
  variant_cost = "40";
  current_alloc = record {
    accelerator = "A100";
    num_replicas = 2;
    max_batch = 8;
    variant_cost = "40";
    itl_average = "20";
    ttft_average = "100";
    load = record { arrival_rate = "60"; avg_input_tokens = "100"; avg_output_tokens = "50" };
  };
  desired_alloc = record { last_run_time = pos 0; accelerator = "A100"; num_replicas = 0 };
  applied = false;
  conditions = [];
}

abbrev Store : Type 0
Store = List VariantAutoscaling

abbrev client : Client Store
client = record {
  get_variant = λ name namespace c. (c, some variant);
  get_deployment = λ name namespace c. (
    c,
    some (record {
      name = name;
      namespace = namespace;
      status_replicas = 2;
      spec_replicas = some 2;
    }),
  );
  get_config_map = λ name namespace c. (c, config_data (("GLOBAL_OPT_INTERVAL", "30s") ∷ []));
  list_variants = λ c. (c, some (variant ∷ []));
  update_status = λ va c. (va ∷ c, true);
  now = λ c. pos 1;
  set_status_condition = λ conditions condition. condition ∷ conditions;
}

abbrev engines : Engines Milli Store
engines = record {
  collect_replica_metrics = λ model_id namespace deployments variants costs c. (c, some []);
  validate_availability = λ model_id namespace c.
      (c, record { available = true; reason = "MetricsFound"; message = "" });
  current_allocation = λ va d cost c. (c, some va.current_alloc);
  optimize_model =
      λ vas c. (c, some (record { prepared = vas; replicas = ("llama-a100", 3) ∷ [] }));
  getenv = λ name. "model-only";
  parse_float = λ text. some (pos 40_000);
  parse_duration = λ text. some (pos 30_000_000_000);
  visit = λ m. m;
}

abbrev gauges : Gauges Milli
gauges = record { initialized = true; samples = λ l. none }

abbrev hybrid : String
hybrid = "on"

group_by_model-filter_active_example :
    let groups = group_by_model (filter_active (variant ∷ [])) in
    IsKeyed groups
    × ((model_id : String) → lookup_or [] model_id groups ≡ active_of model_id (variant ∷ []))
group_by_model-filter_active_example = group_by_model-filter_active (variant ∷ [])

valid_default : validate {F = Milli} default_config ≡ none
unfolding validate default_config
valid_default = refl

valid_empty : validate {F = Milli} empty_config ≡ none
unfolding validate
valid_empty = refl

abbrev unmarshal : String → Option (CapacityScalingConfig Milli)
unmarshal text = some (record empty_config { kv_spare_trigger = pos 900 })

abbrev loaded : ConfigCache Milli
loaded = (update_config_cache unmarshal client "system" new_cache []).0

effective_config-OnlyContradicts_example : OnlyContradicts (effective_config loaded "llama" "prod")
effective_config-OnlyContradicts_example =
    effective_config-OnlyContradicts valid_default valid_empty unmarshal client "system" loaded
      "llama" "prod" (load new_cache [] start)

abbrev analysis : ModelCapacityAnalysis Milli
analysis = record {
  model_id = "llama";
  namespace = "prod";
  analyzed_at = pos 0;
  total_replicas = 2;
  non_saturated_count = 0;
  avg_spare_kv_capacity = pos 0;
  avg_spare_queue_length = pos 0;
  should_scale_up = true;
  should_scale_down = false;
  scale_up_reason = no_reason;
  scale_down_safe = false;
  variant_analyses = [];
}

abbrev state : VariantReplicaState
state = record { variant_name = "llama-a100"; current_replicas = 2; desired_replicas = 0 }

named_lem : fallback_accelerator variant ≢ ""
unfolding fallback_accelerator
named_lem e = ground (arith, e, str_eq_iff "A100" "")

emit_fallback-Sets_example :
    let (c', g') = emit_fallback client variant [] gauges in
    let c1 = at_reading client variant [] in
    (c' ≡ (client.get_deployment variant.name variant.namespace c1).0)
    × Sets
        (labels_of variant (fallback_accelerator variant))
        (actual_replicas client variant c1)
        (safe_replicas client variant [])
        gauges
        g'
emit_fallback-Sets_example = emit_fallback-Sets client variant [] gauges refl named_lem

abbrev decision : VariantDecision Milli
decision = record {
  variant_name = "llama-a100";
  namespace = "prod";
  model_id = "llama";
  accelerator_name = "A100";
  cost = pos 40_000;
  action = scale_up;
  current_replicas = 2;
  target_replicas = 3;
  desired_replicas = 0;
  reason = capacity_only_reason scale_up;
  capacity_based = true;
  model_based_decision = false;
  safety_override = false;
  capacity_only = true;
}

-- Every status written asks for at most three replicas.
abbrev IsSmall : Store → Type 0
IsSmall c = All (λ va. va.desired_alloc.num_replicas ≤ 3) c

decision-allows :
    (written : VariantAutoscaling) (c : Store)
    → CarriesOut (("llama-a100", variant) ∷ []) decision written
    → IsSmall c
    → IsSmall (written ∷ c)
decision-allows written c (va, found, same, current, target, acc, long, applied) h =
    (omega (arith, target), h)

apply_decisions-keeps_example :
    IsSmall (apply_decisions client (("llama-a100", variant) ∷ []) (decision ∷ []) [] gauges).0
apply_decisions-keeps_example =
    apply_decisions-keeps client IsSmall (λ name namespace c h. h) (λ name namespace c h. h)
      (("llama-a100", variant) ∷ []) (decision ∷ []) [] gauges (decision-allows, tt) tt

abbrev pass : Pass Milli Store
pass = record { cluster = []; gauges = gauges; variants = []; decisions = []; error_count = 0 }

process_models-IsOf_example :
    All
      (IsOf (modes_of "model-only"))
      (process_models client engines
        (modes_of "model-only")
        new_cache
        (("llama", variant ∷ []) ∷ [])
        pass).decisions
process_models-IsOf_example =
    process_models-IsOf client engines "model-only" new_cache (("llama", variant ∷ []) ∷ []) pass tt

reconcile-Outcome_example :
    Outcome client engines "system" [] gauges
      (reconcile client engines "system" new_cache [] gauges)
reconcile-Outcome_example = reconcile-Outcome client engines "system" new_cache [] gauges
