-- ===== src/Solver/Usage.antt =====
-- The units of each accelerator type that the servers' allocations take, and what is left.
pub mod Rounds
pub mod Greedy
pub mod Maximal
pub mod Tickets
pub mod Turns
pub mod Equal
pub mod Groups
pub mod Capacity
pub mod ByType
use inferno_autoscaler.Solver.Entries.{ServerEntry}
use inferno_autoscaler.Base.{
  All, All-map_imp, ℕ, zero, suc, ◌+◌, ◌-◌, ◌*◌, ◌≤◌, String, Bool, true, false, List, [], ◌∷◌,
  Option, none, some, ◌≡◌, ◌≢◌, refl, arith, if◌then◌else◌, leb, Table, lookup, lookup_or, insert,
  lookup-insert, str_eq, str_eq_iff, Float, sum_values, sum_values-insert, of_option, Bool-cases,
  inl, inr,
}
use inferno_autoscaler.Core.Types.{Allocation, Server, System, Accelerator, Model}
use inferno_autoscaler.Core.Server.{set_allocation}
use inferno_autoscaler.Core.System.{placement, units}
use inferno_autoscaler.Solver.Allocate.{
  Pool, take_units, has_units, units_per_replica, put_allocation,
}

module _ {F : Type 0} ⦃f : Float F⦄ (sys : System F) where
  abbrev pub placed_units : String → Option (Allocation F × Accelerator F × Model F) → ℕ
  placed_units type none = 0
  placed_units type (some (a, acc, m)) = if str_eq acc.spec.type type then units (a, acc, m) else 0

  -- The units of a type that a server's allocation takes.
  abbrev pub units_of : String → Server F → ℕ
  units_of type s = placed_units type (placement sys s)

  abbrev pub used : String → Table (Server F) → ℕ
  used type = sum_values (units_of type)

  -- Whatever is taken and left of a type is within its capacity.
  abbrev pub Fits : Table ℕ → Table ℕ → Table (Server F) → Type 0
  Fits capacity available servers =
      (type : String) → used type servers + lookup_or 0 type available ≤ lookup_or 0 type capacity

  abbrev pub PoolFits : Table ℕ → Pool F → Type 0
  PoolFits capacity pool = Fits capacity pool.available pool.servers

  placement-set_allocation :
      (s : Server F) (a : Allocation F) {acc : Accelerator F} {m : Model F}
      → lookup a.accelerator sys.accelerators ≡ some acc
      → lookup s.model_name sys.models ≡ some m
      → placement sys (set_allocation (some a) s) ≡ some (a, acc, m)
  unfolding placement set_allocation
  placement-set_allocation s a e d = ground arith

  -- A server that gets `n` replicas of an allocation, with as many units taken, keeps within the
  -- capacity.
  pub put-Fits :
      (capacity available : Table ℕ) (servers : Table (Server F)) (name : String) (s : Server F)
      (a : Allocation F) {acc : Accelerator F} {m : Model F}
      → lookup a.accelerator sys.accelerators ≡ some acc
      → lookup s.model_name sys.models ≡ some m
      → has_units available acc.spec.type (a.num_replicas * units_per_replica m a.accelerator acc)
        ≡ true
      → Fits capacity available servers
      → Fits capacity
          (take_units available acc.spec.type
            (a.num_replicas * units_per_replica m a.accelerator acc))
          (insert name (set_allocation (some a) s) servers)
  put-Fits capacity available servers name s a {acc} {m} e d h fits type =
      let n = a.num_replicas * units_per_replica m a.accelerator acc in
      ground (
        arith,
        fits type,
        placement-set_allocation s a e d,
        sum_values-insert (units_of type) name (set_allocation (some a) s) servers,
        lookup-insert acc.spec.type type (lookup_or 0 acc.spec.type available - n) available,
        str_eq_iff acc.spec.type type,
      )

-- A server's name is in the map.
abbrev pub IsKnown : {F : Type 0} → Table (Server F) → String → Type 0
IsKnown servers name = lookup name servers ≢ none

-- Every name of one map is in the other.
abbrev pub Extends : {F : Type 0} → Table (Server F) → Table (Server F) → Type 0
Extends old new = (name : String) → IsKnown old name → IsKnown new name

pub insert-Extends :
    {F : Type 0} (name : String) (s : Server F) (servers : Table (Server F))
    → Extends servers (insert name s servers)
insert-Extends name s servers other k = ground (arith, lookup-insert name other s servers)

module _ {F : Type 0} where
  -- The servers of some entries are in the map.
  abbrev pub Known : Pool F → List (ServerEntry F) → Type 0
  Known pool = All (λ e. IsKnown pool.servers e.server_name)

  pub Known-Extends :
      (old new : Pool F) (es : List (ServerEntry F))
      → Extends old.servers new.servers
      → Known old es
      → Known new es
  Known-Extends old new es x = All-map_imp (λ e. x e.server_name) es
