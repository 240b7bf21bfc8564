-- ===== src/Core/Candidates.antt =====
-- pkg/core: the candidate allocations of a server (server.go, system.go), and Scale and ReAllocate of
-- allocation.go. The type D of float64 is an argument.
use inferno_autoscaler.Base.{
  ◌||◌, String, [], ◌∷◌, Option, none, some, if◌then◌else◌, Table, lookup, insert, Float, nought,
  Double, Conversion, ℤ, sub_ℕ,
}
use inferno_autoscaler.Core.Types.{Accelerator, Allocation, Server, System}
use inferno_autoscaler.Core.Allocation.{transition_penalty}
use inferno_autoscaler.Core.Server.{candidate_accelerators, calculate_accelerator}
use inferno_autoscaler.Core.Creation.{create_allocation}

-- What Scale returns: nil, an allocation with the difference in replicas, or a panic, where there is no
-- allocation to take the difference of.
pub data Scaling (F : Type 0) : Type 0 where
  unknown : Scaling F
  scaled : Allocation F → ℤ → Scaling F
  nil_dereference : Scaling F

module _ {F : Type 0} ⦃f : Float F⦄ where
  open f use {lt, eq}

  -- What an allocation changes of the least one so far.
  abbrev pub take_less :
      F × Option (Allocation F) → Option (Allocation F) → F × Option (Allocation F)
  take_less least none = least
  take_less (value, alloc) (some a) =
      if eq value nought || lt a.value value then (a.value, some a) else (value, alloc)

  -- The value of a candidate: the penalty of the transition from the current allocation.
  abbrev pub valued : Option (Allocation F) → Allocation F → Allocation F
  valued none a = a
  valued (some cur) a = record a { value = transition_penalty cur a }

  abbrev pub add_candidate :
      Server F → String → Option (Allocation F) → Table (Allocation F) → Table (Allocation F)
  add_candidate s g_name none all = all
  add_candidate s g_name (some a) all = insert g_name (valued s.cur_allocation a) all

module _ {F : Type 0} (D : Type 0) ⦃f : Float F⦄ ⦃e : Float D⦄ ⦃d : Double D⦄
    ⦃c : Conversion F D⦄ where
  unfoldable pub scale : System F → Allocation F → (server_name : String) → Scaling F
  unfolding create_allocation
  scale sys a server_name = elim (lookup server_name sys.servers) [
    | none ↦ unknown
    | some server ↦ elim (lookup a.accelerator sys.accelerators) [
      | none ↦ unknown
      | some acc ↦ elim (create_allocation D sys server_name a.accelerator) [
        | none ↦ nil_dereference
        | some new ↦ scaled new (sub_ℕ new.num_replicas a.num_replicas)
      ]
    ]
  ]

  -- The loop of ReAllocate, with minVal and minAlloc.
  unfoldable pub least_allocation :
      System F
      → (server_name : String) → F × Option (Allocation F)
      → Table (Accelerator F)
      → F × Option (Allocation F)
  unfolding create_allocation
  least_allocation sys server_name least [] = least
  least_allocation sys server_name least ((g_name, acc) ∷ accs) =
      least_allocation sys server_name
        (take_less least (create_allocation D sys server_name g_name)) accs

  unfoldable pub re_allocate : System F → (server_name : String) → Option (Allocation F) × String
  unfolding least_allocation
  re_allocate sys server_name =
      let least = least_allocation sys server_name (nought, none) sys.accelerators in
      elim least.1 [ none ↦ (none, "") | some a ↦ (some a, a.accelerator) ]

  -- The loop of a server's Calculate over its candidate accelerators.
  unfoldable pub candidates :
      System F → Server F → Table (Allocation F) → Table (Accelerator F) → Table (Allocation F)
  unfolding create_allocation
  candidates sys s all [] = all
  candidates sys s all ((key, g) ∷ gs) =
      candidates sys s (add_candidate s g.name (create_allocation D sys s.name g.name) all) gs

  unfoldable pub calculate_server : System F → Table (Accelerator F) → Server F → Server F
  unfolding candidates candidate_accelerators
  calculate_server sys accelerators s = record s {
    all_allocations = candidates sys s [] (candidate_accelerators s accelerators);
  }

  unfoldable pub calculate_accelerators : Table (Accelerator F) → Table (Accelerator F)
  unfolding calculate_accelerator
  calculate_accelerators [] = []
  calculate_accelerators ((name, g) ∷ gs) =
      (name, calculate_accelerator g) ∷ calculate_accelerators gs

  unfoldable pub calculate_servers : System F → Table (Server F) → Table (Server F)
  unfolding calculate_server
  calculate_servers sys [] = []
  calculate_servers sys ((name, s) ∷ ss) =
      (name, calculate_server sys sys.accelerators s) ∷ calculate_servers sys ss

  -- The system's Calculate. That of a model does nothing, and an allocation does not depend on the
  -- candidates of another server.
  unfoldable pub calculate : System F → System F
  unfolding calculate_accelerators calculate_servers
  calculate sys =
      let sys' = record sys { accelerators = calculate_accelerators sys.accelerators } in
      record sys' { servers = calculate_servers sys' sys.servers }
