-- ===== src/Solver/Priorities.antt =====
-- SolveGreedy serves the servers by priority: the entries are sorted by it and cut into groups of one
-- priority.
use mathlib.Core.List.{Perm, Permᴰ}
use mathlib.Core.List.Permᴰ
use inferno_autoscaler.Base.{
  ℕ, zero, suc, ◌<◌, ◌≤◌, true, false, List, [], ◌∷◌, ◌++◌, ◌≡◌, inl, inr, refl, arith, ◌∙◌, ap,
  All, All-map_imp, Float, Bool-cases, ◌==◌, ltb, length, sym, subst,
}
use inferno_autoscaler.Core.Types.{System}
use inferno_autoscaler.Solver.Entries.{
  ServerEntry, is_before, insert_sorted, sort_from, sort_func, order_func, span_priority,
  group_entries, make_priority_groups, make_entries,
}
use inferno_autoscaler.Solver.Usage.Groups.{insert_sorted-All}

module _ {F : Type 0} where
  -- No entry's priority is below the one of an entry before it.
  abbrev pub IsByPriority : List (ServerEntry F) → Type 0
  IsByPriority [] = Unit
  IsByPriority (e ∷ es) = All (λ d. e.priority ≤ d.priority) es × IsByPriority es

  abbrev pub flatten : List (List (ServerEntry F)) → List (ServerEntry F)
  flatten [] = []
  flatten (g ∷ gs) = g ++ flatten gs

  -- A group has entries, all of one priority, that comes before the priorities in the later groups.
  abbrev pub AreGroups : List (List (ServerEntry F)) → Type 0
  AreGroups [] = Unit
  AreGroups ([] ∷ gs) = ⊥
  AreGroups ((e ∷ g) ∷ gs) =
      All (λ d. d.priority ≡ e.priority) g
      × All (λ d. e.priority < d.priority) (flatten gs)
      × AreGroups gs

  span_priority_lem :
      (p : ℕ) (es : List (ServerEntry F)) → (span_priority p es).0 ++ (span_priority p es).1 ≡ es
  unfolding span_priority
  span_priority_lem p [] = refl
  span_priority_lem p (e ∷ es) = elim (Bool-cases (e.priority == p)) [
    | inl same ↦ rw (span_priority, same) (ap (λ t. e ∷ t) (span_priority_lem p es))
    | inr other ↦ rw (span_priority, other) refl
  ]

  -- In sorted entries the group has the priority, and the rest comes after it, still sorted.
  span_priority-sorted :
      (p : ℕ) (es : List (ServerEntry F))
      → All (λ d. p ≤ d.priority) es
      → IsByPriority es
      → All (λ d. d.priority ≡ p) (span_priority p es).0
        × All (λ d. p < d.priority) (span_priority p es).1
        × IsByPriority (span_priority p es).1
  unfolding span_priority
  span_priority-sorted p [] from sorted = (tt, tt, tt)
  span_priority-sorted p (e ∷ es) from sorted = elim (Bool-cases (e.priority == p)) [
    | inl same ↦
        let (group, after, rest) = span_priority-sorted p es from.1 sorted.1 in
        rw (span_priority, same) ((ground (arith, same), group), after, rest)
    | inr other ↦
        let above : p < e.priority = ground (arith, from.0, other) in
        rw (span_priority, other)
          (tt, (above, All-map_imp (λ d h. omega (arith, h, above)) es sorted.0), sorted)
  ]

  length-span_priority :
      (p : ℕ) (es : List (ServerEntry F)) → length (span_priority p es).1 ≤ length es
  unfolding span_priority
  length-span_priority p [] = omega arith
  length-span_priority p (e ∷ es) = ground (arith, length-span_priority p es)

  flatten-group_entries :
      (fuel : ℕ) (es : List (ServerEntry F))
      → length es ≤ fuel
      → flatten (group_entries fuel es) ≡ es
  unfolding group_entries
  flatten-group_entries zero [] h = refl
  flatten-group_entries zero (e ∷ es) h = elim h [ ]
  flatten-group_entries (suc fuel) [] h = refl
  flatten-group_entries (suc fuel) (e ∷ es) h =
      ap (λ t. e ∷ t)
        (ap (λ t. (span_priority e.priority es).0 ++ t)
            (flatten-group_entries fuel (span_priority e.priority es).1
              (omega (arith, length-span_priority e.priority es, h)))
          ∙ span_priority_lem e.priority es)

  group_entries-AreGroups :
      (fuel : ℕ) (es : List (ServerEntry F))
      → length es ≤ fuel
      → IsByPriority es
      → AreGroups (group_entries fuel es)
  unfolding group_entries
  group_entries-AreGroups zero es h sorted = tt
  group_entries-AreGroups (suc fuel) [] h sorted = tt
  group_entries-AreGroups (suc fuel) (e ∷ es) h sorted =
      let rest = (span_priority e.priority es).1 in
      let short : length rest ≤ fuel = omega (arith, length-span_priority e.priority es, h) in
      let (group, after, sorted') = span_priority-sorted e.priority es sorted.0 sorted.1 in
      (
        group,
        subst (All (λ d. e.priority < d.priority)) (sym (flatten-group_entries fuel rest short))
            after,
        group_entries-AreGroups fuel rest short sorted',
      )

module _ {F : Type 0} ⦃f : Float F⦄ where
  order_func-priority :
      (a b : ServerEntry F)
      → (is_before order_func a b ≡ true → a.priority ≤ b.priority)
        × (is_before order_func a b ≡ false → b.priority ≤ a.priority)
  unfolding order_func
  order_func-priority a b = elim (Bool-cases (a.priority == b.priority)) [
    | inl same ↦ (λ h. ground (arith, same), λ h. ground (arith, same))
    | inr other ↦ (
      λ h. elim (Bool-cases (ltb a.priority b.priority)) [
        | inl less ↦ ground (arith, less)
        | inr more ↦ ground (arith, h, other, more)
      ],
      λ h. elim (Bool-cases (ltb a.priority b.priority)) [
        | inl less ↦ ground (arith, h, other, less)
        | inr more ↦ ground (arith, more)
      ],
    )
  ]

  insert_sorted-IsByPriority :
      (x : ServerEntry F) (xs : List (ServerEntry F))
      → IsByPriority xs
      → IsByPriority (insert_sorted order_func x xs)
  unfolding insert_sorted
  insert_sorted-IsByPriority x [] sorted = (tt, tt)
  insert_sorted-IsByPriority x (y ∷ ys) sorted = elim (Bool-cases (is_before order_func x y)) [
    | inl before ↦
        let low = (order_func-priority x y).0 before in
        rw (insert_sorted, before)
          ((low, All-map_imp (λ d h. omega (arith, h, low)) ys sorted.0), sorted)
    | inr after ↦
        rw (insert_sorted, after)
          (
            insert_sorted-All order_func (λ d. y.priority ≤ d.priority) x ys
                ((order_func-priority x y).1 after) sorted.0,
            insert_sorted-IsByPriority x ys sorted.1,
          )
  ]

  sort_from-IsByPriority :
      (done es : List (ServerEntry F))
      → IsByPriority done
      → IsByPriority (sort_from order_func done es)
  unfolding sort_from
  sort_from-IsByPriority done [] sorted = sorted
  sort_from-IsByPriority done (e ∷ es) sorted =
      sort_from-IsByPriority (insert_sorted order_func e done) es
        (insert_sorted-IsByPriority e done sorted)

  insert_sorted-Permᴰ :
      (x : ServerEntry F) (xs : List (ServerEntry F))
      → Permᴰ (insert_sorted order_func x xs) (x ∷ xs)
  unfolding insert_sorted
  insert_sorted-Permᴰ x [] = Permᴰ.refl _
  insert_sorted-Permᴰ x (y ∷ ys) = elim (Bool-cases (is_before order_func x y)) [
    | inl before ↦ rw (insert_sorted, before) (Permᴰ.refl _)
    | inr after ↦
        rw (insert_sorted, after)
          (Permᴰ.trans (Permᴰ.cons refl (insert_sorted-Permᴰ x ys)) (Permᴰ.swap refl refl))
  ]

  append-Permᴰ :
      (xs : List (ServerEntry F)) {ys zs : List (ServerEntry F)}
      → Permᴰ ys zs
      → Permᴰ (xs ++ ys) (xs ++ zs)
  append-Permᴰ [] p = p
  append-Permᴰ (x ∷ xs) p = Permᴰ.cons refl (append-Permᴰ xs p)

  sort_from-Permᴰ :
      (done es : List (ServerEntry F)) → Permᴰ (sort_from order_func done es) (es ++ done)
  unfolding sort_from
  sort_from-Permᴰ done [] = Permᴰ.refl _
  sort_from-Permᴰ done (e ∷ es) =
      Permᴰ.trans (sort_from-Permᴰ (insert_sorted order_func e done) es)
        (Permᴰ.trans (append-Permᴰ es (insert_sorted-Permᴰ e done)) (Permᴰ.middle e es done))

  -- The groups that SolveGreedy serves are, together, the entries of the servers that have a
  -- candidate, each as often as it was made. A group has at least one entry, its entries have one
  -- priority, and it comes before every group of a later priority.
  pub groups-AreGroups :
      (sys : System F)
      → let gs = make_priority_groups (sort_func order_func (make_entries sys sys.servers)) in
        AreGroups gs × Perm (flatten gs) (make_entries sys sys.servers)
  unfolding make_priority_groups sort_func
  groups-AreGroups sys =
      let es = make_entries sys sys.servers in
      let sorted = sort_from order_func [] es in
      (
        group_entries-AreGroups (length sorted) sorted (omega arith)
            (sort_from-IsByPriority [] es tt),
        subst (λ l. Perm l es) (sym (flatten-group_entries (length sorted) sorted (omega arith)))
            ∣ Permᴰ.trans (sort_from-Permᴰ [] es) (Permᴰ.append-nil es) ∣₁,
      )
