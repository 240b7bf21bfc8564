-- ===== src/Solver/Usage/Groups.antt =====
-- What holds of every entry that SolveGreedy makes, sorts and groups.
use Prim.Native.Nat.{Ordering}
use inferno_autoscaler.Base.{
  ℕ, zero, suc, ◌+◌, ◌==◌, String, List, [], ◌∷◌, ◌≡◌, refl, arith, All, All-map_imp, Table, lookup,
  Float, inl, inr, Bool-cases, str_eq, str_eq_iff, length,
}
use inferno_autoscaler.Core.Types.{Server, System}
use inferno_autoscaler.Core.Server.{remove_allocation}
use inferno_autoscaler.Core.System.{placement}
use inferno_autoscaler.Solver.Entries.{
  ServerEntry, is_before, insert_sorted, sort_from, sort_func, compare_value, make_entry,
  make_entries, span_priority, group_entries, make_priority_groups,
}
use inferno_autoscaler.Solver.Solve.{map_servers}
use inferno_autoscaler.Solver.Usage.{IsKnown, Extends, used}
use inferno_autoscaler.Solver.Usage.Rounds.{IsReady}

module _ {A : Type 0} (order : A → A → Ordering) where
  pub insert_sorted-All :
      (P : A → Type 0) (x : A) (xs : List A) → P x → All P xs → All P (insert_sorted order x xs)
  unfolding insert_sorted
  insert_sorted-All P x [] p ps = (p, tt)
  insert_sorted-All P x (y ∷ ys) p ps = elim (Bool-cases (is_before order x y)) [
    | inl before ↦ rw (insert_sorted, before) (p, ps)
    | inr after ↦ rw (insert_sorted, after) (ps.0, insert_sorted-All P x ys p ps.1)
  ]

  sort_from-All :
      (P : A → Type 0) (done xs : List A) → All P done → All P xs → All P (sort_from order done xs)
  unfolding sort_from
  sort_from-All P done [] ds ps = ds
  sort_from-All P done (x ∷ xs) ds ps =
      sort_from-All P (insert_sorted order x done) xs (insert_sorted-All P x done ps.0 ds) ps.1

  pub sort_func-All : (P : A → Type 0) (xs : List A) → All P xs → All P (sort_func order xs)
  unfolding sort_func
  sort_func-All P xs ps = sort_from-All P [] xs tt ps

  length-insert_sorted : (x : A) (xs : List A) → length (insert_sorted order x xs) ≡ suc (length xs)
  unfolding insert_sorted
  length-insert_sorted x [] = refl
  length-insert_sorted x (y ∷ ys) = ground (arith, length-insert_sorted x ys)

  length-sort_from : (done xs : List A) → length (sort_from order done xs) ≡ length done + length xs
  unfolding sort_from
  length-sort_from done [] = omega arith
  length-sort_from done (x ∷ xs) =
      omega (arith, length-sort_from (insert_sorted order x done) xs, length-insert_sorted x done)

  pub length-sort_func : (xs : List A) → length (sort_func order xs) ≡ length xs
  unfolding sort_func
  length-sort_func xs = omega (arith, length-sort_from [] xs)

module _ {F : Type 0} (P : ServerEntry F → Type 0) where
  span_priority-All :
      (p : ℕ) (es : List (ServerEntry F))
      → All P es
      → All P (span_priority p es).0 × All P (span_priority p es).1
  unfolding span_priority
  span_priority-All p [] ps = (tt, tt)
  span_priority-All p (e ∷ es) ps = elim (Bool-cases (e.priority == p)) [
    | inl same ↦
        let (group, rest) = span_priority-All p es ps.1 in
        rw (span_priority, same) ((ps.0, group), rest)
    | inr other ↦ rw (span_priority, other) (tt, ps)
  ]

  group_entries-All :
      (fuel : ℕ) (es : List (ServerEntry F)) → All P es → All (All P) (group_entries fuel es)
  unfolding group_entries
  group_entries-All zero es ps = tt
  group_entries-All (suc fuel) [] ps = tt
  group_entries-All (suc fuel) (e ∷ es) ps =
      let (group, rest) = span_priority-All e.priority es ps.1 in
      ((ps.0, group), group_entries-All fuel _ rest)

  pub make_priority_groups-All :
      (es : List (ServerEntry F)) → All P es → All (All P) (make_priority_groups es)
  unfolding make_priority_groups
  make_priority_groups-All es ps = group_entries-All (length es) es ps

module _ {F : Type 0} ⦃f : Float F⦄ where
  pub names-IsKnown : (m : Table (Server F)) → All (λ e. IsKnown m e.0) m
  unfolding lookup
  names-IsKnown [] = tt
  names-IsKnown ((n, s) ∷ m) = (
    λ h. ground (arith, h, str_eq_iff n n),
    All-map_imp (λ e k h. ground (arith, h, k)) m (names-IsKnown m),
  )

  pub map_servers-Extends :
      (g : Server F → Server F) (m : Table (Server F)) → Extends m (map_servers g m)
  unfolding lookup
  map_servers-Extends g [] name k = k
  map_servers-Extends g ((n, s) ∷ m) name k = elim (Bool-cases (str_eq n name)) [
    | inl same ↦ λ h. ground (arith, h, same)
    | inr other ↦ λ h.
        map_servers-Extends g m name (λ d. ground (arith, d, k, other)) (ground (arith, h, other))
  ]

module _ {F : Type 0} ⦃f : Float F⦄ (sys : System F) where
  pub remove_allocation-used :
      (type : String) (m : Table (Server F)) → used sys type (map_servers remove_allocation m) ≡ 0
  unfolding placement remove_allocation
  remove_allocation-used type [] = refl
  remove_allocation-used type ((n, s) ∷ m) = omega (arith, remove_allocation-used type m)

  -- Every entry starts at a candidate, and names a server.
  pub make_entries-IsReady :
      (servers part : Table (Server F))
      → All (λ e. IsKnown servers e.0) part
      → All (λ e. IsReady e × IsKnown servers e.server_name) (make_entries sys part)
  unfolding make_entries make_entry
  make_entries-IsReady servers [] known = tt
  make_entries-IsReady servers ((name, s) ∷ part) known =
      elim (Bool-cases (length s.all_allocations == 0)) [
        | inl empty ↦ rw (make_entries, empty) (make_entries-IsReady servers part known.1)
        | inr some_left ↦
            rw (make_entries, some_left)
              (
                (
                  inr (ground (arith, length-sort_func compare_value s.all_allocations, some_left)),
                  known.0,
                ),
                make_entries-IsReady servers part known.1,
              )
      ]
