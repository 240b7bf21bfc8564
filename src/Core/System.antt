-- ===== src/Core/System.antt =====
-- pkg/core/system.go: the system and its operations. The singleton TheSystem is an argument.
use inferno_autoscaler.Base.{
  ℕ, ◌+◌, ◌*◌, String, Bool, true, false, List, [], ◌∷◌, Option, none, some, Table, lookup,
  lookup_or, insert, delete, Float, nought,
}
use inferno_autoscaler.Config.{
  AcceleratorSpec, AcceleratorCount, ModelAcceleratorPerfData, ServiceClassSpec, ServerSpec,
  SystemSpec, OptimizerSpec, AllocationData,
}
use inferno_autoscaler.Core.Types.{Accelerator, Model, Allocation, Server, AllocationByType, System}
use inferno_autoscaler.Core.Allocation.{allocation_data}
use inferno_autoscaler.Core.Server.{
  new_accelerator_from_spec, new_model, add_perf_data, num_instances_of, new_service_class,
  new_service_class_from_spec, new_server_from_spec,
}

-- The error of a removal: the name that was not found.
pub data NotFound : Type 0 where
  not_found : String → NotFound

module _ {F : Type 0} where
  unfoldable pub new_system : System F
  new_system = record {
    accelerators = [];
    models = [];
    service_classes = [];
    servers = [];
    capacity = [];
    allocation_by_type = [];
    allocation_solution = none;
  }

  unfoldable pub set_count : System F → AcceleratorCount → System F
  set_count s spec = record s { capacity = insert spec.type spec.count s.capacity }

  unfoldable pub set_capacity : System F → List AcceleratorCount → System F
  set_capacity s [] = s
  set_capacity s (c ∷ cs) = set_capacity (set_count s c) cs

  -- The Boolean is whether there was a capacity to remove.
  unfoldable pub remove_capacity : System F → String → System F × Bool
  remove_capacity s name = elim (lookup name s.capacity) [
    | none ↦ (s, false)
    | some _ ↦ (record s { capacity = delete name s.capacity }, true)
  ]

  unfoldable pub add_model : System F → String → System F
  add_model s name = record s { models = insert name (new_model name) s.models }

  -- The model of a name, a new one if there is none.
  abbrev pub model_or_new : Table (Model F) → String → Model F
  model_or_new models name = lookup_or (new_model name) name models

  unfoldable pub set_models : System F → List (ModelAcceleratorPerfData F) → System F
  set_models s [] = s
  set_models s (pd ∷ pds) =
      set_models
        (record s {
          models = insert pd.name (add_perf_data (model_or_new s.models pd.name) pd) s.models;
        })
        pds

  unfoldable pub add_service_class : System F → String → ℕ → System F
  add_service_class s name priority = record s {
    service_classes = insert name (new_service_class name priority) s.service_classes;
  }

  unfoldable pub set_service_classes : System F → List (ServiceClassSpec F) → System F
  set_service_classes s [] = s
  set_service_classes s (c ∷ cs) =
      set_service_classes
        (record s {
          service_classes = insert c.name (new_service_class_from_spec c) s.service_classes;
        })
        cs

  unfoldable pub remove_accelerator : System F → String → System F × Option NotFound
  remove_accelerator s name = elim (lookup name s.accelerators) [
    | none ↦ (s, some (not_found name))
    | some _ ↦ (record s { accelerators = delete name s.accelerators }, none)
  ]

  unfoldable pub remove_model : System F → String → System F × Option NotFound
  remove_model s name = elim (lookup name s.models) [
    | none ↦ (s, some (not_found name))
    | some _ ↦ (record s { models = delete name s.models }, none)
  ]

  unfoldable pub remove_server : System F → String → System F × Option NotFound
  remove_server s name = elim (lookup name s.servers) [
    | none ↦ (s, some (not_found name))
    | some _ ↦ (record s { servers = delete name s.servers }, none)
  ]

  unfoldable pub remove_service_class : System F → String → System F × Option NotFound
  remove_service_class s name = elim (lookup name s.service_classes) [
    | none ↦ (s, some (not_found name))
    | some _ ↦ (record s { service_classes = delete name s.service_classes }, none)
  ]

module _ {F : Type 0} ⦃f : Float F⦄ where
  open f use {add}

  unfoldable pub add_accelerator : System F → AcceleratorSpec F → System F
  add_accelerator s spec = record s {
    accelerators = insert spec.name (new_accelerator_from_spec spec) s.accelerators;
  }

  unfoldable pub set_accelerators : System F → List (AcceleratorSpec F) → System F
  set_accelerators s [] = s
  set_accelerators s (a ∷ as') = set_accelerators (add_accelerator s a) as'

  unfoldable pub add_server : System F → ServerSpec F → System F
  add_server s spec = record s { servers = insert spec.name (new_server_from_spec spec) s.servers }

  unfoldable pub set_servers : System F → List (ServerSpec F) → System F
  set_servers s [] = s
  set_servers s (v ∷ vs) = set_servers (add_server s v) vs

  unfoldable pub set_from_spec : System F → SystemSpec F → System F × OptimizerSpec
  set_from_spec s d =
      let s1 = set_accelerators s d.accelerators in
      let s2 = set_models s1 d.models in
      let s3 = set_service_classes s2 d.service_classes in
      let s4 = set_servers s3 d.servers in (set_capacity s4 d.capacity, d.optimizer)

  -- The accelerator and the model of a server's allocation, where all of them are there.
  unfoldable pub placement : System F → Server F → Option (Allocation F × Accelerator F × Model F)
  placement s v = elim v.allocation [
    | none ↦ none
    | some a ↦ elim (lookup a.accelerator s.accelerators) [
      | none ↦ none
      | some acc ↦ elim (lookup v.model_name s.models) [
        | none ↦ none
        | some model ↦ some (a, acc, model)
      ]
    ]
  ]

  -- The units of its accelerator's type that an allocation takes.
  abbrev pub units : Allocation F × Accelerator F × Model F → ℕ
  units (a, acc, model) =
      a.num_replicas * num_instances_of model a.accelerator * acc.spec.multiplicity

  -- The entry of a type, a new one with nothing counted if there is none.
  abbrev pub by_type_or_new : Table ℕ → String → Table (AllocationByType F) → AllocationByType F
  by_type_or_new capacity type by_type =
      lookup_or
        (record { name = type; count = 0; limit = lookup_or 0 type capacity; cost = nought }) type
        by_type

  abbrev pub add_placement :
      Table ℕ
      → Option (Allocation F × Accelerator F × Model F)
      → Table (AllocationByType F)
      → Table (AllocationByType F)
  add_placement capacity none by_type = by_type
  add_placement capacity (some (a, acc, model)) by_type =
      let old = by_type_or_new capacity acc.spec.type by_type in
      insert acc.spec.type
        (record old { count = old.count + units (a, acc, model); cost = add old.cost a.cost })
        by_type

  unfoldable pub count_servers :
      System F → Table (AllocationByType F) → Table (Server F) → Table (AllocationByType F)
  count_servers s by_type [] = by_type
  count_servers s by_type ((name, v) ∷ vs) =
      count_servers s (add_placement s.capacity (placement s v) by_type) vs

  unfoldable pub allocate_by_type : System F → System F
  allocate_by_type s = record s { allocation_by_type = count_servers s [] s.servers }

  unfoldable pub solution_of :
      Table (AllocationData F) → Table (Server F) → Table (AllocationData F)
  solution_of spec [] = spec
  solution_of spec ((name, v) ∷ vs) =
      solution_of
        (elim v.allocation [
          | none ↦ spec
          | some a ↦ insert name (record (allocation_data a) { load = v.load }) spec
        ])
        vs

  unfoldable pub generate_solution : System F → System F × Table (AllocationData F)
  generate_solution s =
      let spec = solution_of [] s.servers in (record s { allocation_solution = some spec }, spec)
