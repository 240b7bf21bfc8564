-- ===== src/Capacity/Targets/Preserved.antt =====
-- The targets before the capacity action: desired replicas where they are preserved, else the ready
-- replicas.
use inferno_autoscaler.Base.{
  ap, ℕ, String, Bool, true, false, ◌&&◌, ◌||◌, ◌≡◌, refl, List, [], ◌∷◌, Option, none, some, arith,
  if◌then◌else◌, Table, lookup, lookup_or, insert, lookup-insert, str_eq, str_eq_iff,
}
use mathlib.Core.List.{Memᴰ}
use inferno_autoscaler.Capacity.Types.{
  VariantCapacityAnalysis, VariantReplicaState, ModelCapacityAnalysis,
}
use inferno_autoscaler.Capacity.Targets.{
  state_map, no_state, is_preserved, Preservation, ready_targets, preserve_desired, preservation,
}

-- What the loops know of a variant: its replica state.
abbrev pub state_of : List VariantReplicaState → String → VariantReplicaState
state_of states name = lookup_or no_state name (state_map [] states)

module _ {F : Type 0} where
  -- The analysis of a variant by its name, the last one if there are several.
  abbrev pub latest : String → List (VariantCapacityAnalysis F) → Option (VariantCapacityAnalysis F)
  latest k [] = none
  latest k (va ∷ vas) =
      let rest = latest k vas in
      elim rest [ none ↦ if str_eq va.variant_name k then some va else none | some w ↦ some w ]

  abbrev pub has_name : String → List (VariantCapacityAnalysis F) → Bool
  has_name k [] = false
  has_name k (va ∷ vas) = str_eq va.variant_name k || has_name k vas

  -- No two analyses are of one variant.
  abbrev pub IsDistinct : List (VariantCapacityAnalysis F) → Type 0
  IsDistinct [] = Unit
  IsDistinct (va ∷ vas) = (has_name va.variant_name vas ≡ false) × IsDistinct vas

  abbrev pub or_count : Option (VariantCapacityAnalysis F) → Option ℕ → Option ℕ
  or_count none d = d
  or_count (some va) d = some va.replica_count

  ready_targets-lookup :
      (k : String) (targets : Table ℕ) (vas : List (VariantCapacityAnalysis F))
      → lookup k (ready_targets targets vas) ≡ or_count (latest k vas) (lookup k targets)
  unfolding ready_targets
  ready_targets-lookup k targets [] = refl
  ready_targets-lookup k targets (va ∷ vas) = ground (
    arith,
    ready_targets-lookup k (insert va.variant_name va.replica_count targets) vas,
    lookup-insert va.variant_name k va.replica_count targets,
  )

  module _ (states : Table VariantReplicaState) where
    abbrev keeps : String → List (VariantCapacityAnalysis F) → Bool
    keeps k vas = has_name k vas && is_preserved (lookup_or no_state k states)

    preserve_desired-targets :
        (k : String) (p : Preservation) (vas : List (VariantCapacityAnalysis F))
        → lookup k (preserve_desired states p vas).targets ≡ (
            if keeps k vas
            then some (lookup_or no_state k states).desired_replicas
            else lookup k p.targets)
    unfolding preserve_desired
    preserve_desired-targets k p [] = refl
    preserve_desired-targets k p (va ∷ vas) =
        let n = va.variant_name in
        let s = lookup_or no_state n states in
        let q : Preservation = record {
          targets = insert n s.desired_replicas p.targets;
          preserved = insert n true p.preserved;
        } in
        ground (
          arith,
          preserve_desired-targets k q vas,
          preserve_desired-targets k p vas,
          lookup-insert n k s.desired_replicas p.targets,
          str_eq_iff n k,
        )

    preserve_desired-preserved :
        (k : String) (p : Preservation) (vas : List (VariantCapacityAnalysis F))
        → lookup_or false k (preserve_desired states p vas).preserved
          ≡ (keeps k vas || lookup_or false k p.preserved)
    unfolding preserve_desired
    preserve_desired-preserved k p [] = refl
    preserve_desired-preserved k p (va ∷ vas) =
        let n = va.variant_name in
        let s = lookup_or no_state n states in
        let q : Preservation = record {
          targets = insert n s.desired_replicas p.targets;
          preserved = insert n true p.preserved;
        } in
        ground (
          arith,
          preserve_desired-preserved k q vas,
          preserve_desired-preserved k p vas,
          lookup-insert n k true p.preserved,
          str_eq_iff n k,
        )

  pub latest-has_name :
      (k : String) (vas : List (VariantCapacityAnalysis F))
      → (va : VariantCapacityAnalysis F) → latest k vas ≡ some va
      → (has_name k vas ≡ true) × (va.variant_name ≡ k)
  latest-has_name k [] va e = cc
  latest-has_name k (w ∷ vas) va e =
      ground (arith, latest-has_name k vas va, str_eq_iff w.variant_name k)

  pub has_name_mem :
      (b : VariantCapacityAnalysis F) (vas : List (VariantCapacityAnalysis F))
      → Memᴰ b vas
      → has_name b.variant_name vas ≡ true
  has_name_mem b [] m = elim m [ ]
  has_name_mem b (w ∷ vas) (Memᴰ.head e) =
      ground (arith, str_eq_iff w.variant_name b.variant_name, ap (λ v. v.variant_name) e)
  has_name_mem b (w ∷ vas) (Memᴰ.tail m) = ground (arith, has_name_mem b vas m)

  latest-none :
      (k : String) (vas : List (VariantCapacityAnalysis F))
      → has_name k vas ≡ false
      → latest k vas ≡ none
  latest-none k [] h = refl
  latest-none k (w ∷ vas) h = ground (arith, latest-none k vas)

  pub latest_mem :
      (b : VariantCapacityAnalysis F) (vas : List (VariantCapacityAnalysis F))
      → IsDistinct vas
      → Memᴰ b vas
      → latest b.variant_name vas ≡ some b
  latest_mem b [] d m = elim m [ ]
  latest_mem b (w ∷ vas) d (Memᴰ.head e) =
      ground (arith, str_eq_iff w.variant_name b.variant_name, latest-none b.variant_name vas, e)
  latest_mem b (w ∷ vas) d (Memᴰ.tail m) = ground (arith, latest_mem b vas d.1 m)

  module _ (a : ModelCapacityAnalysis F) (states : List VariantReplicaState) where
    -- Whether the desired replicas of an analysed variant are preserved.
    abbrev pub is_kept : String → Bool
    is_kept k = has_name k a.variant_analyses && is_preserved (state_of states k)

    abbrev pub base_target : String → Option ℕ
    base_target k =
        if is_kept k
        then some (state_of states k).desired_replicas
        else or_count (latest k a.variant_analyses) none

    pub preservation-targets :
        (k : String) → lookup k (preservation a states).targets ≡ base_target k
    unfolding preservation lookup
    preservation-targets k = rw (
      preserve_desired-targets (state_map [] states) k
          (record { targets = ready_targets [] a.variant_analyses; preserved = [] })
          a.variant_analyses,
      ready_targets-lookup k [] a.variant_analyses,
    )

    pub preservation-preserved :
        (k : String) → lookup_or false k (preservation a states).preserved ≡ is_kept k
    unfolding preservation lookup
    preservation-preserved k = ground (
      arith,
      preserve_desired-preserved (state_map [] states) k
          (record { targets = ready_targets [] a.variant_analyses; preserved = [] })
          a.variant_analyses,
    )
