-- ===== src/Solver/BestEffort.antt =====
-- pkg/solver/greedy.go: allocateMaximally.
use inferno_autoscaler.Base.{
  ℕ, ◌*◌, ◌/◌, min, String, ◌&&◌, List, [], ◌∷◌, Option, none, some, ltb, if◌then◌else◌, Table,
  lookup, lookup_or, insert, Float, of_nat,
}
use inferno_autoscaler.Core.Types.{Allocation, Server, System, Accelerator, Model}
use inferno_autoscaler.Core.Server.{set_allocation}
use inferno_autoscaler.Solver.Entries.{ServerEntry, Candidate}
use inferno_autoscaler.Solver.Allocate.{Pool, take_units, units_per_replica}

module _ {F : Type 0} ⦃f : Float F⦄ where
  open f use {mul, div}

  -- SetCost, SetValue and SetNumReplicas for a part of the replicas.
  unfoldable pub scale_allocation : ℕ → Allocation F → Allocation F
  scale_allocation n a =
      let factor = div (of_nat n) (of_nat a.num_replicas) in
      record a { cost = mul a.cost factor; value = mul a.value factor; num_replicas = n }

  -- The change in place of a candidate of a server, which is then its allocation.
  abbrev pub put_candidate :
      String → Server F → String → Allocation F → Table (Server F) → Table (Server F)
  put_candidate name s key a servers =
      insert name
        (set_allocation (some a) (record s { all_allocations = insert key a s.all_allocations }))
        servers

  -- The replicas of a candidate that fit, at most as many as it asks for.
  abbrev pub fitting_replicas : Table ℕ → String → ℕ → Allocation F → ℕ
  fitting_replicas available type per_replica a =
      min (lookup_or 0 type available / per_replica) a.num_replicas

  -- The body of the inner loop for a model and an accelerator that exist; `none` goes on to the next
  -- candidate.
  unfoldable pub serve_candidate :
      Pool F → ServerEntry F → Server F → Model F → Candidate F → Accelerator F → Option (Pool F)
  serve_candidate pool entry server model (key, alloc) acc =
      let per_replica = units_per_replica model alloc.accelerator acc in
      let n = fitting_replicas pool.available acc.spec.type per_replica alloc in
      if ltb 0 per_replica && ltb 0 n
      then some (record {
        available = take_units pool.available acc.spec.type (n * per_replica);
        servers =
            put_candidate entry.server_name server key (scale_allocation n alloc) pool.servers;
      })
      else none

  unfoldable pub try_serve :
      System F → Pool F → ServerEntry F → Server F → Model F → Candidate F → Option (Pool F)
  try_serve sys pool entry server model c = elim (lookup c.1.accelerator sys.accelerators) [
    | none ↦ none
    | some acc ↦ serve_candidate pool entry server model c acc
  ]

  -- The inner loop, which stops at the first candidate that is served.
  unfoldable pub serve_entry :
      System F → Pool F → ServerEntry F → Server F → Model F → List (Candidate F) → Pool F
  serve_entry sys pool entry server model [] = pool
  serve_entry sys pool entry server model (c ∷ cs) =
      let rest = serve_entry sys pool entry server model cs in
      elim (try_serve sys pool entry server model c) [ none ↦ rest | some pool' ↦ pool' ]

  -- The inner loop for the server and the model of an entry. `none` is the panic of reading the model's
  -- name of a server that does not exist, which needs a candidate to come to it.
  unfoldable pub maximize_entry : System F → Pool F → ServerEntry F → Option (Pool F)
  maximize_entry sys pool entry = elim (lookup entry.server_name pool.servers) [
    | none ↦ elim entry.allocations [ [] ↦ some pool | c ∷ cs ↦ none ]
    | some server ↦ elim (lookup server.model_name sys.models) [
      | none ↦ some pool
      | some model ↦ some (serve_entry sys pool entry server model entry.allocations)
    ]
  ]

  unfoldable pub allocate_maximally : System F → Pool F → List (ServerEntry F) → Option (Pool F)
  allocate_maximally sys pool [] = some pool
  allocate_maximally sys pool (e ∷ es) = elim (maximize_entry sys pool e) [
    | none ↦ none
    | some pool' ↦ allocate_maximally sys pool' es
  ]
