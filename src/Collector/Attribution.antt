-- ===== src/Collector/Attribution.antt =====
-- internal/collector/capacity_metrics.go, mergeMetrics: which pods and deployments the replicas are of.
use inferno_autoscaler.Base.{
  ℕ, String, Bool, true, false, List, [], ◌∷◌, Option, none, some, ◌≡◌, ◌⊎◌, inl, inr, refl, arith,
  if_cases, if◌then◌else◌, Table, All, All-of_mem, insert, insert-All, str_eq, str_eq_iff, Float,
}
use mathlib.Core.List.{Memᴰ}
use inferno_autoscaler.Capacity.Types.{ReplicaMetrics}
use inferno_autoscaler.Controller.Types.{VariantAutoscaling, Deployment}
use inferno_autoscaler.Collector.Merging.{
  find_by_name, find_by_selector, find_deployment, contains, add_names, merge_pods, merge_metrics,
}
use inferno_autoscaler.Collector.Matching.{find_by_name-IsLongest}

-- A key of a map.
abbrev pub IsNamed : {V : Type 0} → Table V → String → Type 0
IsNamed {V} table name = (v : V) × Memᴰ (name, v) table

add_names-All :
    {V : Type 0} (P : String × Bool → Type 0) (pods : Table Bool) (values : Table V)
    → All P pods
    → All (λ e. P (e.0, true)) values
    → All P (add_names pods values)
unfolding add_names
add_names-All P pods [] h hs = h
add_names-All P pods ((pod, v) ∷ values) h hs =
    add_names-All P (insert pod true pods) values (insert-All P pod true pods hs.0 h) hs.1

module _ {C : Type 0} (list_pods : (namespace : String) → Deployment → C → C × Option (List String))
    (has_client : Bool) (namespace : String) (ds : Table Deployment) where
  -- What finding the deployment of a pod gives: one of the deployments, or "".
  abbrev IsFound : String → Type 0
  IsFound name = (name ≡ "") ⊎ IsNamed ds name

  find_by_name-IsFound : (pod : String) → IsFound (find_by_name pod "" 0 ds)
  find_by_name-IsFound pod = elim (find_by_name-IsLongest pod ds) [
    | inl (same, unmatched) ↦ inl same
    | inr (d, m, match, longest) ↦ inr (d, m)
  ]

  -- The same for the first strategy, whose answer may be missing.
  abbrev IsSelected : Table Deployment → Option String → Type 0
  IsSelected rest none = Unit
  IsSelected rest (some name) = IsNamed rest name

  later :
      (e : String × Deployment) (rest : Table Deployment) (found : Option String)
      → IsSelected rest found
      → IsSelected (e ∷ rest) found
  later e rest none h = tt
  later e rest (some name) (d, m) = (d, Memᴰ.tail m)

  find_by_selector-IsSelected :
      (pod : String) (rest : Table Deployment) (c : C)
      → IsSelected rest (find_by_selector list_pods has_client namespace pod rest c).1
  unfolding find_by_selector
  find_by_selector-IsSelected pod [] c = tt
  find_by_selector-IsSelected pod ((name, d) ∷ rest) c =
      let (c', listed) = list_pods namespace d c in
      let found = find_by_selector list_pods has_client namespace pod rest c' in
      let tail = later (name, d) rest found.1 (find_by_selector-IsSelected pod rest c') in
      elim listed
        as (λ (listed : Option (List String)).
          IsSelected ((name, d) ∷ rest)
            (elim listed as (λ (x : Option (List String)). C × Option String) [
              | none ↦ found
              | some pods ↦ if contains pod pods then (c', some name) else found
            ]).1) [
              | none ↦ tail
              | some pods ↦
                  if_cases (λ (v : C × Option String). IsSelected ((name, d) ∷ rest) v.1)
                    (contains pod pods) _ _ (λ has. (d, Memᴰ.head refl)) (λ hasnt. tail)
            ]

  -- A fallback for a missing answer.
  fall_back :
      (found : Option String) (name : String)
      → IsSelected ds found
      → IsFound name
      → IsFound (elim found [ none ↦ name | some other ↦ other ])
  fall_back none name h h' = h'
  fall_back (some other) name h h' = inr h

  find_deployment-IsFound :
      (pod : String) (c : C) → IsFound (find_deployment list_pods has_client namespace pod ds c).1
  unfolding find_deployment
  find_deployment-IsFound pod c =
      fall_back _ _
        (if_cases (λ (v : C × Option String). IsSelected ds v.1) has_client _ _
          (λ set. find_by_selector-IsSelected pod ds c) (λ unset. tt))
        (find_by_name-IsFound pod)

  attributed : (name : String) → str_eq name "" ≡ false → IsFound name → IsNamed ds name
  attributed name h (inl empty) = absurd (ground (arith, h, empty, str_eq_iff name ""))
  attributed name h (inr named) = named

  module _ {F : Type 0} ⦃f : Float F⦄ (kv : Table F) (queue : Table ℕ) (model_id : String)
      (variants : Table VariantAutoscaling) (costs : Table F) where
    -- A pod that one of the two queries named.
    abbrev pub IsQueried : String → Type 0
    IsQueried pod = IsNamed kv pod ⊎ IsNamed queue pod

    abbrev pub IsAttributed : ReplicaMetrics F → Type 0
    IsAttributed m = IsNamed ds m.variant_name × IsQueried m.pod_name

    merge_pods-IsAttributed :
        (pods : Table Bool) (c : C)
        → All (λ e. IsQueried e.0) pods
        → All IsAttributed
            (merge_pods list_pods has_client kv queue model_id namespace ds variants costs pods c).1
    unfolding merge_pods
    merge_pods-IsAttributed [] c h = tt
    merge_pods-IsAttributed ((pod, present) ∷ pods) c h =
        let (c', variant) = find_deployment list_pods has_client namespace pod ds c in
        let rest = merge_pods-IsAttributed pods c' h.1 in
        if_cases (λ (v : C × List (ReplicaMetrics F)). All IsAttributed v.1) (str_eq variant "") _ _
          (λ unmatched. rest)
          (λ matched. ((attributed variant matched (find_deployment-IsFound pod c), h.0), rest))

    queried : All (λ e. IsQueried e.0) (add_names (add_names [] kv) queue)
    queried =
        let P : String × Bool → Type 0 = λ e. IsQueried e.0 in
        add_names-All P _ queue (add_names-All P [] kv tt (All-of_mem kv (λ e m. inl (e.1, m))))
          (All-of_mem queue (λ e m. inr (e.1, m)))

    -- With or without a client, and in every order of the maps: each replica that mergeMetrics gives is of
    -- a pod that one of the two queries named, and belongs to one of the given deployments.
    pub merge_metrics-IsAttributed :
        (c : C)
        → All IsAttributed
            (merge_metrics list_pods has_client kv queue model_id namespace ds variants costs c).1
    unfolding merge_metrics
    merge_metrics-IsAttributed c = merge_pods-IsAttributed _ c queried
