-- ===== src/Core/Server.antt =====
-- pkg/core/server.go, serviceclass.go, model.go and accelerator.go: the operations of the parts.
use inferno_autoscaler.Base.{
  ℕ, String, Bool, true, false, ◌||◌, not, List, [], ◌∷◌, Option, none, some, ltb, leb, str_eq,
  ◌==◌, if◌then◌else◌, Table, lookup, lookup_or, insert, delete, Float, nought, of_nat, sub_ℕ, ge,
  map,
}
use inferno_autoscaler.Config.{
  AcceleratorSpec, ModelAcceleratorPerfData, ModelTarget, ServiceClassSpec, ServerLoadSpec,
  ServerSpec, empty_allocation_data, default_service_class_name, default_low_priority,
  default_high_priority, default_service_class_priority,
}
use inferno_autoscaler.Core.Types.{Accelerator, Model, ServiceClass, Allocation, Server, System}
use inferno_autoscaler.Core.Allocation.{is_saturated, allocation_data, allocation_from_data}

module _ {F : Type 0} where
  unfoldable pub new_service_class : String → ℕ → ServiceClass F
  new_service_class name priority = record {
    name = name;
    priority =
        if ltb priority default_high_priority || ltb default_low_priority priority
        then default_service_class_priority
        else priority;
    targets = [];
  }

  unfoldable pub add_model_target : ServiceClass F → ModelTarget F → ServiceClass F
  add_model_target c spec = record c {
    targets =
        insert spec.model (record { itl = spec.slo_itl; ttft = spec.slo_ttft; tps = spec.slo_tps })
          c.targets;
  }

  unfoldable pub add_model_targets : ServiceClass F → List (ModelTarget F) → ServiceClass F
  add_model_targets c [] = c
  add_model_targets c (t ∷ ts) = add_model_targets (add_model_target c t) ts

  unfoldable pub new_service_class_from_spec : ServiceClassSpec F → ServiceClass F
  new_service_class_from_spec spec =
      add_model_targets (new_service_class spec.name spec.priority) spec.model_targets

  -- The Boolean is whether the name and the priority agree.
  unfoldable pub update_model_targets : ServiceClass F → ServiceClassSpec F → ServiceClass F × Bool
  update_model_targets c spec =
      if not (str_eq spec.name c.name) || not (spec.priority == c.priority)
      then (c, false)
      else (add_model_targets c spec.model_targets, true)

  unfoldable pub remove_model_target : ServiceClass F → String → ServiceClass F
  remove_model_target c model = record c { targets = delete model c.targets }

  unfoldable pub service_class_spec : ServiceClass F → ServiceClassSpec F
  service_class_spec c = record {
    name = c.name;
    priority = c.priority;
    model_targets =
        map (λ e. record { model = e.0; slo_itl = e.1.itl; slo_ttft = e.1.ttft; slo_tps = e.1.tps })
          c.targets;
  }

  unfoldable pub new_model : String → Model F
  new_model name = record { name = name; perf_data = []; num_instances = [] }

  -- m.numInstances[acceleratorName]
  abbrev pub num_instances_of : Model F → String → ℕ
  num_instances_of m acc = lookup_or 0 acc m.num_instances

  unfoldable pub add_perf_data : Model F → ModelAcceleratorPerfData F → Model F
  add_perf_data m spec =
      if str_eq spec.name m.name
      then record m {
        perf_data = insert spec.acc spec m.perf_data;
        num_instances =
            insert spec.acc (if leb spec.acc_count 0 then 1 else spec.acc_count) m.num_instances;
      }
      else m

  unfoldable pub remove_perf_data : Model F → String → Model F
  remove_perf_data m acc = record m { perf_data = delete acc m.perf_data }

  -- GetCandidateAccelerators
  unfoldable pub candidate_accelerators : Server F → Table (Accelerator F) → Table (Accelerator F)
  candidate_accelerators s accelerators =
      if s.keep_accelerator
      then elim s.cur_allocation [
        | none ↦ accelerators
        | some cur ↦
            if not (str_eq cur.accelerator "")
            then elim (lookup cur.accelerator accelerators) [
              | none ↦ []
              | some acc ↦ (cur.accelerator, acc) ∷ []
            ]
            else accelerators
      ]
      else accelerators

  -- Priority, by the service classes of the system.
  unfoldable pub server_priority : System F → Server F → ℕ
  server_priority sys s = elim (lookup s.service_class_name sys.service_classes) [
    | none ↦ default_service_class_priority
    | some svc ↦ svc.priority
  ]

module _ {F : Type 0} ⦃f : Float F⦄ where
  open f use {add, sub, mul, div, lt}

  unfoldable pub new_accelerator_from_spec : AcceleratorSpec F → Accelerator F
  new_accelerator_from_spec spec = record {
    name = spec.name;
    spec = spec;
    slope_low = nought;
    slope_high = nought;
  }

  unfoldable pub calculate_accelerator : Accelerator F → Accelerator F
  calculate_accelerator g =
      let p = g.spec.power in
      record g {
        slope_low = div (f.of_int (sub_ℕ p.mid_power p.idle)) p.mid_util;
        slope_high = div (f.of_int (sub_ℕ p.full p.mid_power)) (sub (of_nat 1) p.mid_util);
      }

  unfoldable pub power : Accelerator F → F → F
  power g util =
      let p = g.spec.power in
      if ge p.mid_util util
      then add (of_nat p.idle) (mul g.slope_low util)
      else add (of_nat p.mid_power) (mul g.slope_high (sub util p.mid_util))

  unfoldable pub new_server_from_spec : ServerSpec F → Server F
  new_server_from_spec spec = record {
    name = spec.name;
    service_class_name = if str_eq spec.class "" then default_service_class_name else spec.class;
    model_name = spec.model;
    keep_accelerator = spec.keep_accelerator;
    min_num_replicas = spec.min_num_replicas;
    max_batch_size = spec.max_batch_size;
    load = spec.current_alloc.load;
    all_allocations = [];
    allocation = none;
    cur_allocation = some (allocation_from_data spec.current_alloc);
    spec = spec;
  }

  unfoldable pub update_desired_alloc : Server F → Server F
  update_desired_alloc s = elim s.allocation [
    | some a ↦ record s {
      spec = record (s.spec) { desired_alloc = record (allocation_data a) { load = s.load } };
    }
    | none ↦ record s { spec = record (s.spec) { desired_alloc = empty_allocation_data } }
  ]

  unfoldable pub set_allocation : Option (Allocation F) → Server F → Server F
  unfolding update_desired_alloc
  set_allocation a s = update_desired_alloc (record s { allocation = a })

  unfoldable pub remove_allocation : Server F → Server F
  remove_allocation s = record s { allocation = none }

  unfoldable pub set_cur_allocation : Option (Allocation F) → Server F → Server F
  set_cur_allocation a s = record s { cur_allocation = a }

  unfoldable pub set_load : ServerLoadSpec F → Server F → Server F
  set_load load s = record s { load = load }

  unfoldable pub server_saturated : Server F → Bool
  server_saturated s = elim s.allocation [
    | none ↦ false
    | some a ↦ is_saturated a s.load.arrival_rate
  ]

  unfoldable pub apply_desired_alloc : Server F → Server F
  apply_desired_alloc s =
      let d = s.spec.desired_alloc in
      record s {
        spec = record (s.spec) { current_alloc = d };
        cur_allocation = some (allocation_from_data d);
        load = d.load;
      }
