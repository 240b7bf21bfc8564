-- ===== src/Solver/Unlimited.antt =====
-- SolveUnlimited gives every server a candidate of the least value.
use inferno_autoscaler.Base.{
  String, true, false, [], ◌∷◌, Option, none, some, ◌≡◌, ◌⊎◌, inl, inr, refl, arith, ap, sym, subst,
  Option-cases, All, Table, lookup, Float, IsOrdered, Bool-cases, str_eq,
}
use inferno_autoscaler.Core.Types.{Allocation, Server, System}
use inferno_autoscaler.Core.Server.{set_allocation, update_desired_alloc, remove_allocation}
use inferno_autoscaler.Solver.Solve.{min_allocation, allocate_min, map_servers, solve_unlimited}

module _ {F : Type 0} ⦃f : Float F⦄ (laws : IsOrdered F) where
  open f use {lt, max_float}

  lt_trans : (x y z : F) → lt x y ≡ true → lt y z ≡ true → lt x z ≡ true
  lt_trans x y z p q = elim (Bool-cases (lt x z)) [
    | inl less ↦ less
    | inr not_less ↦ absurd (
        ground (
          arith,
          p,
          laws.not_lt_trans y z x (laws.lt-IsNumber y z q).1 (laws.lt_asym y z q) not_less,
        ))
  ]

  -- An allocation is one of the candidates.
  abbrev pub IsCandidate : Allocation F → Table (Allocation F) → Type 0
  IsCandidate a [] = ⊥
  IsCandidate a ((key, c) ∷ cs) = (c ≡ a) ⊎ IsCandidate a cs

  -- No candidate's value is below another value.
  abbrev pub NoneBelow : F → Table (Allocation F) → Type 0
  NoneBelow x = All (λ c. lt c.1.value x ≡ false)

  -- What an allocation is to the candidates.
  abbrev pub IsBest : Table (Allocation F) → Option (Allocation F) → Type 0
  IsBest cs none = NoneBelow max_float cs
  IsBest cs (some a) = IsCandidate a cs × NoneBelow a.value cs

  abbrev Scanned : F → Option (Allocation F) → Table (Allocation F) → Option (Allocation F) → Type 0
  Scanned min_val best cs r =
      ((r ≡ best) × NoneBelow min_val cs)
      ⊎ ((a : Allocation F) × (r ≡ some a)
          × IsCandidate a cs
          × NoneBelow a.value cs
          × (lt a.value min_val ≡ true))

  min_allocation-Scanned :
      (min_val : F) (best : Option (Allocation F)) (cs : Table (Allocation F))
      → Scanned min_val best cs (min_allocation min_val best cs)
  unfolding min_allocation
  min_allocation-Scanned min_val best [] = inl (refl, tt)
  min_allocation-Scanned min_val best ((key, a) ∷ cs) = elim (Bool-cases (lt a.value min_val)) [
    | inl less ↦
        subst (Scanned min_val best ((key, a) ∷ cs)) (taken less)
          (lower less (min_allocation-Scanned a.value (some a) cs))
    | inr more ↦
        subst (Scanned min_val best ((key, a) ∷ cs)) (passed more)
          (keep more (min_allocation-Scanned min_val best cs))
  ]
    where
      taken :
          lt a.value min_val ≡ true
          → min_allocation a.value (some a) cs ≡ min_allocation min_val best ((key, a) ∷ cs)
      taken less = rw (min_allocation, less) refl

      passed :
          lt a.value min_val ≡ false
          → min_allocation min_val best cs ≡ min_allocation min_val best ((key, a) ∷ cs)
      passed more = rw (min_allocation, more) refl

      lower :
          {r : Option (Allocation F)}
          → lt a.value min_val ≡ true
          → Scanned a.value (some a) cs r
          → Scanned min_val best ((key, a) ∷ cs) r
      lower less (inl (e, all)) = inr (a, e, inl refl, (laws.lt_irrefl a.value, all), less)
      lower less (inr (b, e, has, all, below)) = inr (
        b,
        e,
        inr has,
        (laws.lt_asym b.value a.value below, all),
        lt_trans b.value a.value min_val below less,
      )

      keep :
          {r : Option (Allocation F)}
          → lt a.value min_val ≡ false
          → Scanned min_val best cs r
          → Scanned min_val best ((key, a) ∷ cs) r
      keep more (inl (e, all)) = inl (e, (more, all))
      keep more (inr (b, e, has, all, below)) = inr (
        b,
        e,
        inr has,
        (
          laws.not_lt_trans b.value min_val a.value (laws.lt-IsNumber b.value min_val below).1
              (laws.lt_asym b.value min_val below) more,
          all,
        ),
        below,
      )

  Scanned-IsBest :
      (cs : Table (Allocation F)) (r : Option (Allocation F))
      → Scanned max_float none cs r
      → IsBest cs r
  Scanned-IsBest cs none (inl (e, all)) = all
  Scanned-IsBest cs none (inr (a, e, has, all, below)) = ground (arith, e)
  Scanned-IsBest cs (some b) (inl (e, all)) = ground (arith, e)
  Scanned-IsBest cs (some b) (inr (a, e, has, all, below)) = subst (IsBest cs) (sym e) (has, all)

  -- The allocation of a server after allocate_min, and its candidates.
  allocate_min-allocation :
      (s : Server F)
      → ((allocate_min s).allocation ≡ min_allocation max_float none s.all_allocations)
        × ((allocate_min s).all_allocations ≡ s.all_allocations)
  unfolding set_allocation update_desired_alloc remove_allocation
  allocate_min-allocation s =
      elim (Option-cases (min_allocation max_float none s.all_allocations)) [
        | inl e ↦ rw (allocate_min, e) (refl, refl)
        | inr (a, e) ↦ rw (allocate_min, e) (refl, refl)
      ]

  pub allocate_min-IsBest : (s : Server F) → IsBest s.all_allocations (allocate_min s).allocation
  allocate_min-IsBest s =
      subst (IsBest s.all_allocations) (sym (allocate_min-allocation s).0) (
        Scanned-IsBest s.all_allocations _
          (min_allocation-Scanned max_float none s.all_allocations))

  lookup-map_servers :
      (g : Server F → Server F) (name : String) (m : Table (Server F)) {s : Server F}
      → lookup name m ≡ some s
      → lookup name (map_servers g m) ≡ some (g s)
  unfolding lookup
  lookup-map_servers g name [] e = ground (arith, e)
  lookup-map_servers g name ((n, v) ∷ m) {s} e = elim (Bool-cases (str_eq n name)) [
    | inl same ↦ rw same (ap (λ o. elim o [ none ↦ none | some w ↦ some (g w) ]) (here same))
    | inr other ↦ rw other (lookup-map_servers g name m (ground (arith, e, other)))
  ]
    where
      here : str_eq n name ≡ true → some v ≡ some s
      here same = ground (arith, e, same)

  -- The allocation that SolveUnlimited gives a server is one of the server's own candidates, and no
  -- candidate has a lower value; it gives none only where no candidate's value is below the largest
  -- float32, as where there is no candidate. The candidates stay. The order is that of IEEE 754.
  pub solve_unlimited-IsBest :
      (sys : System F) (name : String) (s : Server F)
      → lookup name sys.servers ≡ some s
      → (s' : Server F) × (lookup name (solve_unlimited sys).servers ≡ some s')
        × IsBest s.all_allocations s'.allocation
        × (s'.all_allocations ≡ s.all_allocations)
  unfolding solve_unlimited
  solve_unlimited-IsBest sys name s e = (
    allocate_min s,
    lookup-map_servers allocate_min name sys.servers e,
    allocate_min-IsBest s,
    (allocate_min-allocation s).1,
  )
