-- ===== src/Solver/Allocate.antt =====
-- pkg/solver/greedy.go: allocate.
use Prim.Native.Nat.{Ordering}
use inferno_autoscaler.Base.{
  ℕ, zero, suc, ◌+◌, ◌-◌, ◌*◌, String, Bool, List, [], ◌∷◌, ◌++◌, Option, none, some, ltb, leb,
  ◌==◌, if◌then◌else◌, Table, lookup, lookup_or, insert, length, get_elem?, Float,
}
use inferno_autoscaler.Core.Types.{Allocation, Server, System, Accelerator, Model}
use inferno_autoscaler.Core.Server.{set_allocation, num_instances_of}
use inferno_autoscaler.Solver.Entries.{ServerEntry, value_at, reinsert}

-- What the solver changes: the available units of each accelerator type, and the servers.
pub record Pool (F : Type 0) : Type 0 where
  pub available : Table ℕ
  pub servers : Table (Server F)

-- What one round does with the top entry.
pub data Outcome (F : Type 0) : Type 0 where
  -- it is dropped
  skipped : Outcome F
  -- it got its current allocation
  placed : Pool F → Outcome F
  -- it goes on to its next candidate
  advanced : ServerEntry F → Outcome F
  -- it has no more candidates
  exhausted : ServerEntry F → Outcome F
  -- an index out of range panics
  panicked : Outcome F

-- Whether `count` units of a type are left, and taking them.
abbrev pub has_units : Table ℕ → String → ℕ → Bool
has_units available type count = leb count (lookup_or 0 type available)

abbrev pub take_units : Table ℕ → String → ℕ → Table ℕ
take_units available type count = insert type (lookup_or 0 type available - count) available

module _ {F : Type 0} where
  -- The units of an accelerator that a replica of a model takes.
  abbrev pub units_per_replica : Model F → String → Accelerator F → ℕ
  units_per_replica model name acc = num_instances_of model name * acc.spec.multiplicity

  -- One more than the rounds that the candidates of the entries can take.
  unfoldable pub rounds_left : List (ServerEntry F) → ℕ
  rounds_left [] = 1
  rounds_left (e ∷ es) = suc (length e.allocations) + rounds_left es

module _ {F : Type 0} ⦃f : Float F⦄ where
  open f use {sub, max_float}

  -- server.SetAllocation on the server of a name that is in the map.
  abbrev pub put_allocation : String → Server F → Allocation F → Table (Server F) → Table (Server F)
  put_allocation name s a servers = insert name (set_allocation (some a) s) servers

  unfoldable pub next_candidate : ServerEntry F → Outcome F
  next_candidate top =
      let i = top.cur_index + 1 in
      let n = length top.allocations in
      if ltb (i + 1) n
      then advanced (record top {
        cur_index = i;
        delta = sub (value_at top.allocations (i + 1)) (value_at top.allocations i);
      })
      else if i == n
      then exhausted (record top { cur_index = i })
      else advanced (record top { cur_index = i; delta = max_float })

  -- The current candidate of the entry, for a server, a model and an accelerator that exist.
  unfoldable pub try_place :
      Pool F → ServerEntry F → Server F → Model F → Allocation F → Accelerator F → Outcome F
  try_place pool top server model alloc acc =
      let count = alloc.num_replicas * units_per_replica model alloc.accelerator acc in
      if has_units pool.available acc.spec.type count
      then placed (record {
        available = take_units pool.available acc.spec.type count;
        servers = put_allocation top.server_name server alloc pool.servers;
      })
      else next_candidate top

  unfoldable pub try_candidate : System F → Pool F → ServerEntry F → Server F → Model F → Outcome F
  try_candidate sys pool top server model = elim (get_elem? top.allocations top.cur_index) [
    | none ↦ panicked
    | some c ↦ elim (lookup c.1.accelerator sys.accelerators) [
      | none ↦ skipped
      | some acc ↦ try_place pool top server model c.1 acc
    ]
  ]

  unfoldable pub visit_entry : System F → Pool F → ServerEntry F → Outcome F
  visit_entry sys pool top =
      if length top.allocations == 0 then skipped else elim (lookup top.server_name pool.servers) [
        | none ↦ skipped
        | some server ↦ elim (lookup server.model_name sys.models) [
          | none ↦ skipped
          | some model ↦ try_candidate sys pool top server model
        ]
      ]

  -- The loop, on fuel; `none` is a panic, or that the fuel ran out.
  unfoldable pub allocate_loop :
      (ServerEntry F → ServerEntry F → Ordering)
      → System F
      → ℕ
      → Pool F
      → (unallocated entries : List (ServerEntry F)) → Option (Pool F × List (ServerEntry F))
  allocate_loop order sys zero pool un es = none
  allocate_loop order sys (suc fuel) pool un [] = some (pool, un)
  allocate_loop order sys (suc fuel) pool un (top ∷ es) = elim (visit_entry sys pool top) [
    | skipped ↦ allocate_loop order sys fuel pool un es
    | placed pool' ↦ allocate_loop order sys fuel pool' un es
    | advanced e ↦ allocate_loop order sys fuel pool un (reinsert order e es)
    | exhausted e ↦ allocate_loop order sys fuel pool (un ++ (e ∷ [])) es
    | panicked ↦ none
  ]

  unfoldable pub allocate :
      (ServerEntry F → ServerEntry F → Ordering)
      → System F
      → Pool F
      → List (ServerEntry F)
      → Option (Pool F × List (ServerEntry F))
  allocate order sys pool es = allocate_loop order sys (rounds_left es) pool [] es
