-- ===== src/Solver/Reinsertion.antt =====
-- pkg/solver/greedy.go: the binary search by which allocate puts an entry back.
use Prim.Native.Nat.{Ordering}
use inferno_autoscaler.Base.{
  ℕ, zero, suc, ◌+◌, ◌-◌, ◌/◌, ◌≤◌, ◌<◌, true, false, List, none, some, arith, ltb, ltb→lt, length,
  get_elem?, Bool-cases, Option-cases, ◌≡◌, refl, inl, inr,
}
use inferno_autoscaler.Solver.Entries.{is_before, search_between, reinsert, insert_at}

middle_bounds : (i j : ℕ) → ltb i j ≡ true → (i ≤ (i + j) / 2) × ((i + j) / 2 < j)
middle_bounds i j less = let h = ltb→lt i j less in omega arith

module _ {ℓ} {A : Type ℓ} (order : A → A → Ordering) (x : A) (xs : List A) where
  search_between-done : (fuel i j : ℕ) → ltb i j ≡ false → search_between order fuel x xs i j ≡ i
  unfolding search_between
  search_between-done zero i j done = refl
  search_between-done (suc fuel) i j done = rw done

  module _ (fuel i j : ℕ) (less : ltb i j ≡ true) where
    search_between-none :
        get_elem? xs ((i + j) / 2) ≡ none → search_between order (suc fuel) x xs i j ≡ i
    unfolding search_between
    search_between-none missing = rw (less, missing)

    module _ (y : A) (found : get_elem? xs ((i + j) / 2) ≡ some y) where
      search_between-right :
          is_before order y x ≡ true
          → search_between order (suc fuel) x xs i j
            ≡ search_between order fuel x xs ((i + j) / 2 + 1) j
      unfolding search_between
      search_between-right before = rw (less, found, before)

      search_between-left :
          is_before order y x ≡ false
          → search_between order (suc fuel) x xs i j
            ≡ search_between order fuel x xs i ((i + j) / 2)
      unfolding search_between
      search_between-left after = rw (less, found, after)

  search_between_lem :
      (fuel more i j : ℕ)
      → j - i ≤ fuel
      → fuel ≤ more
      → search_between order more x xs i j ≡ search_between order fuel x xs i j
  unfolding search_between
  search_between_lem zero more i j enough le = search_between-done more i j (ground arith)
  search_between_lem (suc fuel) zero i j enough le = ground arith
  search_between_lem (suc fuel) (suc more) i j enough le =
      let right = search_between_lem fuel more ((i + j) / 2 + 1) j in
      let left = search_between_lem fuel more i ((i + j) / 2) in
      elim (Bool-cases (ltb i j)) [
        | inr done ↦
            rw (search_between-done (suc fuel) i j done) (search_between-done (suc more) i j done)
        | inl less ↦
            let mid = middle_bounds i j less in
            elim (Option-cases (get_elem? xs ((i + j) / 2))) [
              | inl missing ↦
                  rw (search_between-none fuel i j less missing)
                    (search_between-none more i j less missing)
              | inr (y, found) ↦ elim (Bool-cases (is_before order y x)) [
                | inl before ↦
                    rw
                      (
                        search_between-right fuel i j less y found before,
                        search_between-right more i j less y found before,
                      )
                      (right (omega (arith, mid.0, mid.1)) (omega arith))
                | inr after ↦
                    rw
                      (
                        search_between-left fuel i j less y found after,
                        search_between-left more i j less y found after,
                      )
                      (left (omega (arith, mid.0, mid.1)) (omega arith))
              ]
            ]
      ]

  -- The binary search has ended when reinsert takes its result: any larger number of rounds than the
  -- length of the list gives the same list.
  pub reinsert-search :
      (more : ℕ)
      → length xs ≤ more
      → reinsert order x xs ≡ insert_at (search_between order more x xs 0 (length xs)) x xs
  unfolding reinsert
  reinsert-search more le = rw (search_between_lem (length xs) more 0 (length xs) (omega arith) le)
