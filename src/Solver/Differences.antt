-- ===== src/Solver/Differences.antt =====
-- The allocation differences that Solve reports.
use inferno_autoscaler.Base.{
  String, true, [], ◌∷◌, Option, none, some, ◌≡◌, refl, arith, ap, sym, subst, ℕ, nought, ◌∙◌,
  Table, lookup, insert, lookup-insert, IsKeyed, Float, Bool-cases, inl, inr, str_eq, str_eq_iff,
  if◌then◌else◌,
}
use inferno_autoscaler.Config.{OptimizerSpec}
use inferno_autoscaler.Core.Types.{Allocation, AllocationDiff, Server, System}
use inferno_autoscaler.Core.Allocation.{create_allocation_diff}
use inferno_autoscaler.Solver.Solve.{
  snapshot, diffs, solve, solve_unlimited, map_servers, allocate_min,
}

-- An entry for a key that a table does not have, if there is a value for it.
lookup_entry :
    {V : Type 0} (k j : String) (m : Table V)
    → (str_eq k j ≡ true → lookup j m ≡ none)
    → (o : Option V)
    → lookup j (elim o [ none ↦ m | some v ↦ insert k v m ])
      ≡ (if str_eq k j then o else lookup j m)
lookup_entry k j m new none = elim (Bool-cases (str_eq k j)) [
  | inl same ↦ rw same (new same)
  | inr other ↦ rw other refl
]
lookup_entry k j m new (some v) = lookup-insert k j v m

module _ {F : Type 0} ⦃f : Float F⦄ where
  abbrev pub current_of : Option (Server F) → Option (Allocation F)
  current_of none = none
  current_of (some s) = s.cur_allocation

  abbrev pub diff_to : Option (Allocation F) → Option (Server F) → Option (AllocationDiff F)
  diff_to cur none = none
  diff_to cur (some s) = create_allocation_diff cur s.allocation

  lookup-snapshot :
      (name : String) (servers : Table (Server F))
      → IsKeyed servers
      → lookup name (snapshot servers) ≡ current_of (lookup name servers)
  unfolding snapshot lookup
  lookup-snapshot name [] keyed = refl
  lookup-snapshot name ((n, s) ∷ rest) keyed =
      let behind : lookup name (snapshot rest) ≡ current_of (lookup name rest) =
        lookup-snapshot name rest keyed.1 in
      let whole : (if str_eq n name then s.cur_allocation else lookup name (snapshot rest))
          ≡ current_of (if str_eq n name then some s else lookup name rest) =
        elim (Bool-cases (str_eq n name)) [
          | inl same ↦ rw same refl
          | inr other ↦ rw other behind
        ] in
      lookup_entry n name (snapshot rest)
        (λ same. ground (arith, behind, keyed.0, str_eq_iff n name, same)) (s.cur_allocation)
      ∙ whole

  lookup-diffs :
      (current : Table (Allocation F)) (name : String) (servers : Table (Server F))
      → IsKeyed servers
      → lookup name (diffs current servers) ≡ diff_to (lookup name current) (lookup name servers)
  unfolding diffs lookup
  lookup-diffs current name [] keyed = refl
  lookup-diffs current name ((n, s) ∷ rest) keyed =
      let behind : lookup name (diffs current rest)
          ≡ diff_to (lookup name current) (lookup name rest) =
        lookup-diffs current name rest keyed.1 in
      let whole : (if str_eq n name
            then create_allocation_diff (lookup n current) s.allocation
            else lookup name (diffs current rest))
          ≡ diff_to (lookup name current) (if str_eq n name then some s else lookup name rest) =
        elim (Bool-cases (str_eq n name)) [
          | inl same ↦ rw (same, (str_eq_iff n name).0 same) refl
          | inr other ↦ rw other behind
        ] in
      lookup_entry n name (diffs current rest)
        (λ same. ground (arith, behind, keyed.0, str_eq_iff n name, same))
        (create_allocation_diff (lookup n current) s.allocation)
      ∙ whole

  lookup-map_none :
      (g : Server F → Server F) (name : String) (servers : Table (Server F))
      → lookup name servers ≡ none
      → lookup name (map_servers g servers) ≡ none
  unfolding lookup
  lookup-map_none g name [] e = refl
  lookup-map_none g name ((n, s) ∷ rest) e = elim (Bool-cases (str_eq n name)) [
    | inl same ↦ ground (arith, e, same)
    | inr other ↦ rw other (lookup-map_none g name rest (ground (arith, e, other)))
  ]

  map_servers-IsKeyed :
      (g : Server F → Server F) (servers : Table (Server F))
      → IsKeyed servers
      → IsKeyed (map_servers g servers)
  map_servers-IsKeyed g [] keyed = tt
  map_servers-IsKeyed g ((n, s) ∷ rest) keyed =
      (lookup-map_none g n rest keyed.0, map_servers-IsKeyed g rest keyed.1)

  -- The accelerator, the replicas and the cost of an allocation that may be missing.
  abbrev pub accelerator_of : Option (Allocation F) → String
  accelerator_of none = "none"
  accelerator_of (some a) = a.accelerator

  abbrev pub replicas_of : Option (Allocation F) → ℕ
  replicas_of none = 0
  replicas_of (some a) = a.num_replicas

  abbrev pub cost_of : Option (Allocation F) → F
  cost_of none = nought
  cost_of (some a) = a.cost

  -- The difference from an old allocation to a new one, if one of them is there.
  abbrev pub IsDiff : (old new : Option (Allocation F)) → Option (AllocationDiff F) → Type 0
  IsDiff none none d = d ≡ none
  IsDiff old new d =
      (x : AllocationDiff F) × (d ≡ some x)
      × (x.old_accelerator ≡ accelerator_of old)
      × (x.new_accelerator ≡ accelerator_of new)
      × (x.old_num_replicas ≡ replicas_of old)
      × (x.new_num_replicas ≡ replicas_of new)
      × (x.cost_diff ≡ f.sub (cost_of new) (cost_of old))

  -- The same for a server that may be missing.
  abbrev pub Differs :
      Option (Allocation F) → Option (Server F) → Option (AllocationDiff F) → Type 0
  Differs old none d = d ≡ none
  Differs old (some s) d = IsDiff old s.allocation d

  create_allocation_diff-IsDiff :
      (old new : Option (Allocation F)) → IsDiff old new (create_allocation_diff old new)
  unfolding create_allocation_diff
  create_allocation_diff-IsDiff none none = refl
  create_allocation_diff-IsDiff none (some b) = (_, refl, refl, refl, refl, refl, refl)
  create_allocation_diff-IsDiff (some a) none = (_, refl, refl, refl, refl, refl, refl)
  create_allocation_diff-IsDiff (some a) (some b) = (_, refl, refl, refl, refl, refl, refl)

  diff_to-Differs :
      (old : Option (Allocation F)) (o : Option (Server F)) → Differs old o (diff_to old o)
  diff_to-Differs old none = refl
  diff_to-Differs old (some s) = create_allocation_diff-IsDiff old s.allocation

  -- Solve with unlimited capacity, on servers whose names are distinct: for every name, it reports
  -- the accelerator and replicas of the allocation that the server had as its current one and of the
  -- one that it has afterwards ("none" and 0 for one that is not there), and the cost of the latter
  -- less that of the former; nothing for a name without a server or where neither is there.
  pub solve-diffs :
      (spec : OptimizerSpec) (sys : System F)
      → spec.unlimited ≡ true
      → IsKeyed sys.servers
      → (d : Table (AllocationDiff F)) × (solve spec sys ≡ some (solve_unlimited sys, d))
        × ((name : String)
            → Differs
                (current_of (lookup name sys.servers))
                (lookup name (solve_unlimited sys).servers)
                (lookup name d))
  unfolding solve solve_unlimited
  solve-diffs spec sys unlimited keyed = (
    diffs (snapshot sys.servers) (solve_unlimited sys).servers,
    rw (solve, unlimited) refl,
    λ name.
        subst
          (Differs (current_of (lookup name sys.servers))
            (lookup name (solve_unlimited sys).servers))
          (sym (
            lookup-diffs (snapshot sys.servers) name (solve_unlimited sys).servers
              (map_servers-IsKeyed allocate_min sys.servers keyed)
            ∙ ap (λ c. diff_to c (lookup name (solve_unlimited sys).servers))
                (lookup-snapshot name sys.servers keyed)))
          (diff_to-Differs (current_of (lookup name sys.servers))
            (lookup name (solve_unlimited sys).servers)),
  )
