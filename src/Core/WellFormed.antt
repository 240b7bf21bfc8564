-- ===== src/Core/WellFormed.antt =====
-- What holds of every system that the operations of system.go build.
use inferno_autoscaler.Base.{
  ◌<◌, ◌≤◌, String, List, [], ◌∷◌, Option, none, some, ◌≡◌, ◌≢◌, refl, arith, Table, lookup, insert,
  delete, Float, All, All-map_imp, lookup_or, insert-All, delete-All, lookup-All, lookup-delete,
  lookup-insert, str_eq, str_eq_iff, Bool-cases, Option-cases, inl, inr, if◌then◌else◌, leb,
}
use inferno_autoscaler.Config.{
  AcceleratorSpec, AcceleratorCount, ModelAcceleratorPerfData, ModelTarget, ServiceClassSpec,
  ServerSpec, SystemSpec, default_low_priority, default_high_priority, default_service_class_name,
}
use inferno_autoscaler.Core.Types.{Accelerator, Model, ServiceClass, Server, System}
use inferno_autoscaler.Core.Server.{
  new_service_class, add_model_target, add_model_targets, new_service_class_from_spec, new_model,
  add_perf_data, num_instances_of, new_accelerator_from_spec, new_server_from_spec, server_priority,
}
use inferno_autoscaler.Core.System.{
  set_capacity, set_count, model_or_new, set_models, set_service_classes, set_accelerators,
  add_accelerator, set_servers, add_server, set_from_spec, remove_accelerator, remove_model,
  remove_server, remove_service_class,
}

module _ {F : Type 0} where
  -- A class has its name, and a priority between the highest and the lowest.
  abbrev pub IsClass : String × ServiceClass F → Type 0
  IsClass (name, c) =
      (c.name ≡ name) × (default_high_priority ≤ c.priority) × (c.priority ≤ default_low_priority)

  -- A model has its name, and a positive number of instances wherever it has performance data.
  abbrev pub IsModel : String × Model F → Type 0
  IsModel (name, m) = (m.name ≡ name) × All (λ d. 0 < num_instances_of m d.0) m.perf_data

  -- An accelerator and a server have their names, and a server has the name of a class.
  abbrev pub IsAccelerator : String × Accelerator F → Type 0
  IsAccelerator (name, a) = (a.name ≡ name) × (a.spec.name ≡ name)

  abbrev pub IsServer : String × Server F → Type 0
  IsServer (name, s) = (s.name ≡ name) × (s.service_class_name ≢ "")

  abbrev pub IsWellFormed : System F → Type 0
  IsWellFormed sys =
      All IsAccelerator sys.accelerators
      × All IsModel sys.models
      × All IsClass sys.service_classes
      × All IsServer sys.servers

  add_model_targets-same :
      (c : ServiceClass F) (ts : List (ModelTarget F))
      → ((add_model_targets c ts).name ≡ c.name) × ((add_model_targets c ts).priority ≡ c.priority)
  unfolding add_model_targets add_model_target
  add_model_targets-same c [] = (refl, refl)
  add_model_targets-same c (t ∷ ts) = add_model_targets-same (add_model_target c t) ts

  new_service_class_from_spec-IsClass :
      (spec : ServiceClassSpec F) → IsClass (spec.name, new_service_class_from_spec spec)
  unfolding new_service_class_from_spec new_service_class
  new_service_class_from_spec-IsClass spec =
      let (name, priority) =
        add_model_targets-same (new_service_class spec.name spec.priority) spec.model_targets in
      (name, ground (arith, priority), ground (arith, priority))

  add_perf_data-IsModel :
      (name : String) (m : Model F) (pd : ModelAcceleratorPerfData F)
      → IsModel (name, m)
      → IsModel (name, add_perf_data m pd)
  unfolding add_perf_data
  add_perf_data-IsModel name m pd (named, counted) =
      let count = if leb pd.acc_count 0 then 1 else pd.acc_count in
      let instances = λ (acc : String). lookup_or 0 acc (insert pd.acc count m.num_instances) in
      elim (Bool-cases (str_eq pd.name m.name)) [
        | inl same ↦
            rw (add_perf_data, same)
              (
                named,
                insert-All (λ d. 0 < instances d.0) pd.acc pd m.perf_data
                    (ground (
                      arith,
                      lookup-insert pd.acc pd.acc count m.num_instances,
                      str_eq_iff pd.acc pd.acc,
                    ))
                    (All-map_imp
                      (λ d h. ground (arith, h, lookup-insert pd.acc d.0 count m.num_instances))
                      m.perf_data counted),
              )
        | inr other ↦ rw (add_perf_data, other) (named, counted)
      ]

  model_or_new-IsModel :
      (models : Table (Model F)) (name : String)
      → All IsModel models
      → IsModel (name, model_or_new models name)
  unfolding new_model
  model_or_new-IsModel models name all =
      go (lookup name models) (λ m found. lookup-All IsModel name models found all)
    where
      go :
          (o : Option (Model F))
          → ((m : Model F) → o ≡ some m → IsModel (name, m))
          → IsModel (name, elim o [ none ↦ new_model name | some m ↦ m ])
      go none h = (refl, tt)
      go (some m) h = h m refl

  set_models-IsWellFormed :
      (s : System F) (pds : List (ModelAcceleratorPerfData F))
      → IsWellFormed s
      → IsWellFormed (set_models s pds)
  unfolding set_models
  set_models-IsWellFormed s [] ok = ok
  set_models-IsWellFormed s (pd ∷ pds) (accs, models, classes, servers) =
      set_models-IsWellFormed
        (record s {
          models = insert pd.name (add_perf_data (model_or_new s.models pd.name) pd) s.models;
        })
        pds
        (
          accs,
          insert-All IsModel pd.name _ s.models
              (add_perf_data-IsModel pd.name (model_or_new s.models pd.name) pd
                (model_or_new-IsModel s.models pd.name models))
              models,
          classes,
          servers,
        )

  set_service_classes-IsWellFormed :
      (s : System F) (cs : List (ServiceClassSpec F))
      → IsWellFormed s
      → IsWellFormed (set_service_classes s cs)
  unfolding set_service_classes
  set_service_classes-IsWellFormed s [] ok = ok
  set_service_classes-IsWellFormed s (c ∷ cs) (accs, models, classes, servers) =
      set_service_classes-IsWellFormed
        (record s {
          service_classes = insert c.name (new_service_class_from_spec c) s.service_classes;
        })
        cs
        (
          accs,
          models,
          insert-All IsClass c.name _ s.service_classes (new_service_class_from_spec-IsClass c)
              classes,
          servers,
        )

  set_capacity-IsWellFormed :
      (s : System F) (cs : List AcceleratorCount)
      → IsWellFormed s
      → IsWellFormed (set_capacity s cs)
  unfolding set_capacity set_count
  set_capacity-IsWellFormed s [] ok = ok
  set_capacity-IsWellFormed s (c ∷ cs) ok = set_capacity-IsWellFormed (set_count s c) cs ok

  -- The four removals keep a system well formed, whether they find the name or report that it is not
  -- there; after each, the name is not there.
  remove-IsWellFormed :
      (s : System F) (name : String)
      → IsWellFormed s
      → (IsWellFormed (remove_accelerator s name).0
          × (lookup name (remove_accelerator s name).0.accelerators ≡ none))
        × (IsWellFormed (remove_model s name).0
            × (lookup name (remove_model s name).0.models ≡ none))
        × (IsWellFormed (remove_server s name).0
            × (lookup name (remove_server s name).0.servers ≡ none))
        × (IsWellFormed (remove_service_class s name).0
            × (lookup name (remove_service_class s name).0.service_classes ≡ none))
  unfolding remove_accelerator remove_model remove_server remove_service_class
  remove-IsWellFormed s name ok = (
    elim (Option-cases (lookup name s.accelerators)) [
      | inl missing ↦ rw (remove_accelerator, missing) (ok, missing)
      | inr (x, found) ↦
          rw (remove_accelerator, found)
            (
              (delete-All IsAccelerator name s.accelerators ok.0, ok.1, ok.2, ok.3),
              gone s.accelerators,
            )
    ],
    elim (Option-cases (lookup name s.models)) [
      | inl missing ↦ rw (remove_model, missing) (ok, missing)
      | inr (x, found) ↦
          rw (remove_model, found)
            ((ok.0, delete-All IsModel name s.models ok.1, ok.2, ok.3), gone s.models)
    ],
    elim (Option-cases (lookup name s.servers)) [
      | inl missing ↦ rw (remove_server, missing) (ok, missing)
      | inr (x, found) ↦
          rw (remove_server, found)
            ((ok.0, ok.1, ok.2, delete-All IsServer name s.servers ok.3), gone s.servers)
    ],
    elim (Option-cases (lookup name s.service_classes)) [
      | inl missing ↦ rw (remove_service_class, missing) (ok, missing)
      | inr (x, found) ↦
          rw (remove_service_class, found)
            (
              (ok.0, ok.1, delete-All IsClass name s.service_classes ok.2, ok.3),
              gone s.service_classes,
            )
    ],
  )
    where
      gone : {V : Type 0} → (m : Table V) → lookup name (delete name m) ≡ none
      gone m = ground (arith, lookup-delete name name m, str_eq_iff name name)

module _ {F : Type 0} ⦃f : Float F⦄ where
  set_accelerators-IsWellFormed :
      (s : System F) (accs : List (AcceleratorSpec F))
      → IsWellFormed s
      → IsWellFormed (set_accelerators s accs)
  unfolding set_accelerators add_accelerator new_accelerator_from_spec
  set_accelerators-IsWellFormed s [] ok = ok
  set_accelerators-IsWellFormed s (a ∷ accs) ok =
      set_accelerators-IsWellFormed (add_accelerator s a) accs
        (insert-All IsAccelerator a.name _ s.accelerators (refl, refl) ok.0, ok.1, ok.2, ok.3)

  new_server_from_spec-IsServer :
      (spec : ServerSpec F) → IsServer (spec.name, new_server_from_spec spec)
  unfolding new_server_from_spec
  new_server_from_spec-IsServer spec = elim (Bool-cases (str_eq spec.class "")) [
    | inl empty ↦
        (refl, rw empty (λ h. ground (arith, h, str_eq_iff default_service_class_name "")))
    | inr other ↦ (refl, rw other (λ h. ground (arith, h, other, str_eq_iff spec.class "")))
  ]

  set_servers-IsWellFormed :
      (s : System F) (vs : List (ServerSpec F)) → IsWellFormed s → IsWellFormed (set_servers s vs)
  unfolding set_servers add_server
  set_servers-IsWellFormed s [] ok = ok
  set_servers-IsWellFormed s (v ∷ vs) ok = set_servers-IsWellFormed (add_server s v) vs (
    ok.0,
    ok.1,
    ok.2,
    insert-All IsServer v.name _ s.servers (new_server_from_spec-IsServer v) ok.3,
  )

  -- SetFromSpec keeps a system well formed, whatever the specification says: every part is filed under
  -- its own name, every service class has a priority between the highest and the lowest, and every
  -- model has a positive number of instances on each accelerator that it has performance data for.
  pub set_from_spec-IsWellFormed :
      (s : System F) (d : SystemSpec F) → IsWellFormed s → IsWellFormed (set_from_spec s d).0
  unfolding set_from_spec
  set_from_spec-IsWellFormed s d ok = set_capacity-IsWellFormed _ d.capacity (
      set_servers-IsWellFormed _ d.servers (
        set_service_classes-IsWellFormed _ d.service_classes
          (set_models-IsWellFormed _ d.models (set_accelerators-IsWellFormed s d.accelerators ok))))

  -- In a well-formed system the priority of every server is between the highest and the lowest.
  pub server_priority-bounds :
      (sys : System F) (s : Server F)
      → IsWellFormed sys
      → (default_high_priority ≤ server_priority sys s)
        × (server_priority sys s ≤ default_low_priority)
  unfolding server_priority
  server_priority-bounds sys s ok =
      elim (Option-cases (lookup s.service_class_name sys.service_classes)) [
        | inl missing ↦ rw (server_priority, missing) (omega arith, omega arith)
        | inr (c, found) ↦
            let (name, high, low) =
              lookup-All IsClass s.service_class_name sys.service_classes found ok.2 in
            rw (server_priority, found) (high, low)
      ]
