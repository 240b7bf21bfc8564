-- ===== src/Solver/Usage/Maximal.antt =====
-- allocateMaximally ends without a panic, and keeps within the capacity.
use native.Mathlib.Nat.{div-mul-le_self, mul-le-mul_right, min-le_left}
use inferno_autoscaler.Base.{
  ℕ, ◌*◌, ◌/◌, ◌≤◌, min, ◌&&◌, List, [], ◌∷◌, Option, none, some, ◌≡◌, refl, arith, subst, Table,
  lookup, lookup_or, insert, Float, inl, inr, Bool-cases, Option-cases, ltb,
}
use inferno_autoscaler.Core.Types.{Server, System, Accelerator, Model}
use inferno_autoscaler.Solver.Entries.{ServerEntry, Candidate}
use inferno_autoscaler.Solver.Allocate.{Pool, units_per_replica}
use inferno_autoscaler.Solver.BestEffort.{
  scale_allocation, fitting_replicas, serve_candidate, try_serve, serve_entry, maximize_entry,
  allocate_maximally,
}
use inferno_autoscaler.Solver.Usage.{
  PoolFits, IsKnown, Known, Known-Extends, Extends, insert-Extends, put-Fits,
}

fitting-le : (available n p : ℕ) → min (available / p) n * p ≤ available
fitting-le available n p =
    omega (arith, div-mul-le_self available p, mul-le-mul_right p (min-le_left (available / p) n))

module _ {F : Type 0} ⦃f : Float F⦄ (sys : System F) (capacity : Table ℕ) where
  -- A pool that is within the capacity if another one is, and has its servers' names.
  abbrev pub Follows : Pool F → Pool F → Type 0
  Follows old new =
      (PoolFits sys capacity old → PoolFits sys capacity new) × Extends old.servers new.servers

  abbrev pub OptionFollows : Pool F → Option (Pool F) → Type 0
  OptionFollows old none = Unit
  OptionFollows old (some new) = Follows old new

  pub Follows-refl : (pool : Pool F) → Follows pool pool
  Follows-refl pool = (λ h. h, λ n k. k)

  pub Follows-trans : (a b c : Pool F) → Follows a b → Follows b c → Follows a c
  Follows-trans a b c (p, x) (q, y) = (λ h. q (p h), λ n k. y n (x n k))

  module _ (pool : Pool F) (entry : ServerEntry F) (s : Server F) (m : Model F) where
    serve_candidate-Follows :
        (c : Candidate F) (acc : Accelerator F)
        → lookup s.model_name sys.models ≡ some m
        → lookup c.1.accelerator sys.accelerators ≡ some acc
        → OptionFollows pool (serve_candidate pool entry s m c acc)
    unfolding serve_candidate scale_allocation
    serve_candidate-Follows (key, a) acc d e =
        let p = units_per_replica m a.accelerator acc in
        let n = fitting_replicas pool.available acc.spec.type p a in
        elim (Bool-cases (ltb 0 p && ltb 0 n)) [
          | inl room ↦ rw room (
            put-Fits sys capacity pool.available pool.servers entry.server_name
                (record s { all_allocations = insert key (scale_allocation n a) s.all_allocations })
                (scale_allocation n a) e d
                (ground
                  (arith, fitting-le (lookup_or 0 acc.spec.type pool.available) a.num_replicas p)),
            insert-Extends entry.server_name _ pool.servers,
          )
          | inr full ↦ rw full tt
        ]

    try_serve-Follows :
        (c : Candidate F)
        → lookup s.model_name sys.models ≡ some m
        → OptionFollows pool (try_serve sys pool entry s m c)
    unfolding try_serve
    try_serve-Follows c d = elim (Option-cases (lookup c.1.accelerator sys.accelerators)) [
      | inl missing ↦ rw (try_serve, missing) tt
      | inr (acc, found) ↦ rw (try_serve, found) (serve_candidate-Follows c acc d found)
    ]

    serve_entry-Follows :
        (cs : List (Candidate F))
        → lookup s.model_name sys.models ≡ some m
        → Follows pool (serve_entry sys pool entry s m cs)
    unfolding serve_entry
    serve_entry-Follows [] d = Follows-refl pool
    serve_entry-Follows (c ∷ cs) d = elim (Option-cases (try_serve sys pool entry s m c)) [
      | inl missing ↦ rw (serve_entry, missing) (serve_entry-Follows cs d)
      | inr (new, found) ↦
          rw (serve_entry, found) (subst (OptionFollows pool) found (try_serve-Follows c d))
    ]

  -- A run that ends, within the capacity if it starts so, and loses no server.
  abbrev pub Keeps : Pool F → Option (Pool F) → Type 0
  Keeps pool r = (end : Pool F) × (r ≡ some end) × Follows pool end

  maximize_entry-Keeps :
      (pool : Pool F) (e : ServerEntry F)
      → IsKnown pool.servers e.server_name
      → Keeps pool (maximize_entry sys pool e)
  unfolding maximize_entry
  maximize_entry-Keeps pool e known = elim (Option-cases (lookup e.server_name pool.servers)) [
    | inl missing ↦ absurd (known missing)
    | inr (s, found) ↦ elim (Option-cases (lookup s.model_name sys.models)) [
      | inl absent ↦ rw (maximize_entry, found, absent) (pool, refl, Follows-refl pool)
      | inr (m, held) ↦
          rw (maximize_entry, found, held)
            (
              serve_entry sys pool e s m e.allocations,
              refl,
              serve_entry-Follows pool e s m e.allocations held,
            )
    ]
  ]

  -- allocateMaximally ends without a panic for entries of servers that exist: it keeps within the
  -- capacity and loses no server.
  pub allocate_maximally-Keeps :
      (pool : Pool F) (es : List (ServerEntry F))
      → Known pool es
      → Keeps pool (allocate_maximally sys pool es)
  unfolding allocate_maximally
  allocate_maximally-Keeps pool [] known = (pool, refl, Follows-refl pool)
  allocate_maximally-Keeps pool (e ∷ es) (k, ks) =
      let (new, e1, x) = maximize_entry-Keeps pool e k in
      let (end, e2, y) = allocate_maximally-Keeps new es (Known-Extends pool new es x.1 ks) in
      rw (allocate_maximally, e1) (end, e2, Follows-trans pool new end x y)
