-- ===== src/Capacity/Analysis/Grouping.antt =====
-- How AnalyzeModelCapacity groups the replicas by variant, and what it adds up over the groups.
use inferno_autoscaler.Base.{
  ℕ, ◌+◌, String, ◌≡◌, refl, List, [], ◌∷◌, ◌++◌, arith, select, Table, lookup, lookup_or, insert,
  lookup-insert, sum_values, sum_values-insert, IsKeyed, insert-IsKeyed, group_onto,
  group_onto-lookup, group_onto-IsKeyed, str_eq,
}
use inferno_autoscaler.Capacity.Types.{ReplicaMetrics}
use inferno_autoscaler.Capacity.Analysis.{count_variants, preallocate, populate, variant_map}

abbrev pub Groups : Type 0 → Type 0
Groups F = Table (List (ReplicaMetrics F))

abbrev AllEmpty : {F : Type 0} → Groups F → Type 0
AllEmpty t = (k : String) → lookup_or [] k t ≡ []

module _ {F : Type 0} where
  abbrev pub replicas_of : String → List (ReplicaMetrics F) → List (ReplicaMetrics F)
  replicas_of name = select (λ m. str_eq m.variant_name name)

  preallocate-AllEmpty :
      (t : Groups F) (counts : Table ℕ) → AllEmpty t → AllEmpty (preallocate t counts)
  unfolding preallocate
  preallocate-AllEmpty t [] h = h
  preallocate-AllEmpty t ((n, c) ∷ counts) h =
      preallocate-AllEmpty (insert n [] t) counts (λ k. ground (arith, lookup-insert n k [] t, h k))

  preallocate-IsKeyed :
      (t : Groups F) (counts : Table ℕ) → IsKeyed t → IsKeyed (preallocate t counts)
  unfolding preallocate
  preallocate-IsKeyed t [] h = h
  preallocate-IsKeyed t ((n, c) ∷ counts) h =
      preallocate-IsKeyed (insert n [] t) counts (insert-IsKeyed n [] t h)

  -- The map of AnalyzeModelCapacity holds under each variant's name the metrics of its replicas, in
  -- their order, and has each name once.
  pub variant_map_lem :
      (ms : List (ReplicaMetrics F))
      → IsKeyed (variant_map ms)
        × ((k : String) → lookup_or [] k (variant_map ms) ≡ replicas_of k ms)
  unfolding variant_map populate lookup
  variant_map_lem ms =
      let start = preallocate [] (count_variants [] ms) in
      (
        group_onto-IsKeyed (λ m. m.variant_name) start ms (preallocate-IsKeyed [] _ tt),
        λ k.
            rw
              (
                group_onto-lookup (λ m. m.variant_name) k start ms,
                preallocate-AllEmpty [] (count_variants [] ms) (λ j. refl) k,
              )
              refl,
      )

  -- A measure of lists that adds up over `++`.
  module _ (g : List (ReplicaMetrics F) → ℕ) (g-nil : g [] ≡ 0)
      (g-snoc : (xs : List (ReplicaMetrics F)) (m : ReplicaMetrics F)
        → g (xs ++ (m ∷ [])) ≡ g xs + g (m ∷ []))
      (g-cons : (m : ReplicaMetrics F) (xs : List (ReplicaMetrics F))
        → g (m ∷ xs) ≡ g (m ∷ []) + g xs) where
    populate-sum :
        (t : Groups F) (ms : List (ReplicaMetrics F))
        → sum_values g (populate t ms) ≡ sum_values g t + g ms
    unfolding populate group_onto
    populate-sum t [] = omega (arith, g-nil)
    populate-sum t (m ∷ ms) =
        let n = m.variant_name in
        let old = lookup_or [] n t in
        ground (
          arith,
          g-nil,
          g-cons m ms,
          g-snoc old m,
          populate-sum (insert n (old ++ (m ∷ [])) t) ms,
          sum_values-insert g n (old ++ (m ∷ [])) t,
        )

    preallocate-sum :
        (t : Groups F) (counts : Table ℕ)
        → sum_values g t ≡ 0
        → sum_values g (preallocate t counts) ≡ 0
    unfolding preallocate
    preallocate-sum t [] h = h
    preallocate-sum t ((n, c) ∷ counts) h =
        preallocate-sum (insert n [] t) counts (omega (arith, g-nil, sum_values-insert g n [] t))

    pub variant_map-sum : (ms : List (ReplicaMetrics F)) → sum_values g (variant_map ms) ≡ g ms
    unfolding variant_map
    variant_map-sum ms = omega (
      arith,
      populate-sum (preallocate [] (count_variants [] ms)) ms,
      preallocate-sum [] (count_variants [] ms) refl,
    )
