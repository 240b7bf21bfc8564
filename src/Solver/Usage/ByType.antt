-- ===== src/Solver/Usage/ByType.antt =====
-- AllocateByType counts the units in use, so Manager.Optimize reports no more than the capacity.
use inferno_autoscaler.Solver.Usage.Capacity.{solve_greedy-capacity}
use inferno_autoscaler.Base.{
  IsKeyed, insert-IsKeyed, IsKeyed-All-Finds, Finds, ℕ, ◌+◌, ◌≤◌, String, false, [], ◌∷◌, Option,
  none, some, ◌≡◌, refl, arith, ap, sym, ◌∙◌, All, All-map_imp, Table, lookup, lookup_or, Float,
  inl, inr, Bool-cases, Option-cases, of_option, lookup-insert, str_eq, str_eq_iff, insert-All,
  lookup-All,
}
use inferno_autoscaler.Config.{OptimizerSpec}
use inferno_autoscaler.Core.Types.{Server, System, AllocationByType, Allocation, Accelerator, Model}
use inferno_autoscaler.Core.System.{
  placement, by_type_or_new, add_placement, count_servers, allocate_by_type,
}
use inferno_autoscaler.Solver.Solve.{solve, optimize}
use inferno_autoscaler.Solver.Usage.{used, placed_units}

module _ {F : Type 0} ⦃f : Float F⦄ (sys : System F) where
  abbrev count_at : String → Table (AllocationByType F) → ℕ
  count_at type by_type = of_option (λ b. b.count) (lookup type by_type)

  old-count :
      (type : String) (by_type : Table (AllocationByType F))
      → (by_type_or_new sys.capacity type by_type).count ≡ count_at type by_type
  old-count type by_type = elim (Option-cases (lookup type by_type)) [
    | inl missing ↦ ground (arith, missing)
    | inr (b, found) ↦ ground (arith, found)
  ]

  count_servers-count :
      (type : String) (by_type : Table (AllocationByType F)) (servers : Table (Server F))
      → count_at type (count_servers sys by_type servers)
        ≡ count_at type by_type + used sys type servers
  unfolding count_servers
  count_servers-count type by_type [] = omega arith
  count_servers-count type by_type ((name, v) ∷ vs) = omega (
    arith,
    count_servers-count type (add_placement sys.capacity (placement sys v) by_type) vs,
    one (placement sys v),
  )
    where
      one :
          (p : Option (Allocation F × Accelerator F × Model F))
          → count_at type (add_placement sys.capacity p by_type)
            ≡ count_at type by_type + placed_units sys type p
      one none = omega arith
      one (some (a, acc, m)) = elim (Bool-cases (str_eq acc.spec.type type)) [
        | inl same ↦
            rw
              (
                count_at,
                add_placement,
                lookup-insert acc.spec.type type _ by_type,
                same,
                ← (str_eq_iff acc.spec.type type).0 same,
              )
              (omega (arith, old-count acc.spec.type by_type))
        | inr other ↦
            rw (count_at, add_placement, lookup-insert acc.spec.type type _ by_type, other)
              (omega arith)
      ]

  abbrev HasLimit : String × AllocationByType F → Type 0
  HasLimit (type, b) = b.limit ≡ lookup_or 0 type sys.capacity

  old-limit :
      (type : String) (by_type : Table (AllocationByType F))
      → All HasLimit by_type
      → (by_type_or_new sys.capacity type by_type).limit ≡ lookup_or 0 type sys.capacity
  old-limit type by_type all = elim (Option-cases (lookup type by_type)) [
    | inl missing ↦ ground (arith, missing)
    | inr (b, found) ↦ ground (arith, found, lookup-All HasLimit type by_type found all)
  ]

  count_servers-HasLimit :
      (by_type : Table (AllocationByType F)) (servers : Table (Server F))
      → All HasLimit by_type
      → All HasLimit (count_servers sys by_type servers)
  unfolding count_servers
  count_servers-HasLimit by_type [] all = all
  count_servers-HasLimit by_type ((name, v) ∷ vs) all =
      count_servers-HasLimit (add_placement sys.capacity (placement sys v) by_type) vs
        (one (placement sys v))
    where
      one :
          (p : Option (Allocation F × Accelerator F × Model F))
          → All HasLimit (add_placement sys.capacity p by_type)
      one none = all
      one (some (a, acc, m)) =
          insert-All HasLimit acc.spec.type _ by_type (old-limit acc.spec.type by_type all) all

  count_servers-IsKeyed :
      (by_type : Table (AllocationByType F)) (servers : Table (Server F))
      → IsKeyed by_type
      → IsKeyed (count_servers sys by_type servers)
  unfolding count_servers
  count_servers-IsKeyed by_type [] keyed = keyed
  count_servers-IsKeyed by_type ((name, v) ∷ vs) keyed =
      count_servers-IsKeyed (add_placement sys.capacity (placement sys v) by_type) vs
        (one (placement sys v))
    where
      one :
          (p : Option (Allocation F × Accelerator F × Model F))
          → IsKeyed (add_placement sys.capacity p by_type)
      one none = keyed
      one (some (a, acc, m)) = insert-IsKeyed acc.spec.type _ by_type keyed

add_zero : (n : ℕ) → 0 + n ≡ n
add_zero n = omega arith

module _ {F : Type 0} ⦃f : Float F⦄ (sys : System F) where
  -- What an entry of the allocations by type says: the units that the servers take of the type, and
  -- its capacity, which they are within.
  abbrev pub Reports : Table (Server F) → String × AllocationByType F → Type 0
  Reports servers (type, b) =
      (b.count ≡ used sys type servers)
      × (b.limit ≡ lookup_or 0 type sys.capacity)
      × (b.count ≤ b.limit)

  -- Manager.Optimize, with a capacity that is limited, ends without a panic on every system. For every
  -- accelerator type it reports exactly the units that its allocations take, none where there is no
  -- entry for the type. Every entry has the capacity of its type as the limit, and is within it.
  pub optimize-limits :
      (spec : OptimizerSpec)
      → spec.unlimited ≡ false
      → (sys' : System F) × (optimize spec sys ≡ some sys')
        × All (Reports sys'.servers) sys'.allocation_by_type
        × ((type : String)
            → of_option (λ b. b.count) (lookup type sys'.allocation_by_type)
              ≡ used sys type sys'.servers)
  unfolding optimize solve allocate_by_type placement lookup
  optimize-limits spec limited =
      let (solved, e, within, same, kept) = solve_greedy-capacity sys spec in
      let sys1 : System F = record sys { servers = solved.servers } in
      let table = count_servers sys1 [] sys1.servers in
      let counted : (type : String)
          → of_option (λ (c : AllocationByType F). c.count) (lookup type table)
            ≡ used sys type solved.servers =
        λ type.
          count_servers-count sys1 type [] sys1.servers ∙ add_zero (used sys1 type sys1.servers) in
      (
        allocate_by_type sys1,
        rw (optimize, solve, e ∙ ap some same, limited) refl,
        All-map_imp {P = Finds table}
            (λ (type, b) found.
              let limit : b.limit ≡ lookup_or 0 type sys.capacity =
                lookup-All (HasLimit sys1) type table found
                  (count_servers-HasLimit sys1 [] sys1.servers tt) in
              let count : b.count ≡ used sys type solved.servers =
                ap (of_option (λ c. c.count)) (sym found) ∙ counted type in
              (count, limit, omega (arith, within type, count, limit)))
            table (IsKeyed-All-Finds table (count_servers-IsKeyed sys1 [] sys1.servers tt)),
        counted,
      )
