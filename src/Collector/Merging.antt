-- ===== src/Collector/Merging.antt =====
-- internal/collector/capacity_metrics.go: findDeploymentForPod, mergeMetrics and CollectReplicaMetrics.
use inferno_autoscaler.Base.{
  ℕ, String, Bool, true, false, List, [], ◌∷◌, ◌++◌, Option, none, some, ltb, ◌==◌, if◌then◌else◌,
  Table, lookup, lookup_or, insert, str_eq, codes, bytes, Float, of_nat, nought,
}
use inferno_autoscaler.Capacity.Types.{ReplicaMetrics}
use inferno_autoscaler.Controller.Types.{VariantAutoscaling, Deployment}

-- strings.HasPrefix, on characters
unfoldable pub has_prefix : (text prefix : List ℕ) → Bool
has_prefix text [] = true
has_prefix [] (y ∷ prefix) = false
has_prefix (x ∷ text) (y ∷ prefix) =
    let rest = has_prefix text prefix in if x == y then rest else false

-- deploymentName + "-", where 45 is '-'
abbrev pub prefix_of : String → List ℕ
prefix_of name = codes name ++ (45 ∷ [])

-- The fallback of findDeploymentForPod: the longest matching prefix, from the best so far on.
unfoldable pub find_by_name :
    (pod : String) (matched : String) (max_prefix_len : ℕ) → Table Deployment → String
find_by_name pod matched max_prefix_len [] = matched
find_by_name pod matched max_prefix_len ((name, d) ∷ deployments) =
    let found = find_by_name pod name (bytes (prefix_of name)) deployments in
    let rest = find_by_name pod matched max_prefix_len deployments in
    if has_prefix (codes pod) (prefix_of name)
    then if ltb max_prefix_len (bytes (prefix_of name)) then found else rest
    else rest

abbrev pub contains : String → List String → Bool
contains name [] = false
contains name (x ∷ xs) = let rest = contains name xs in if str_eq x name then true else rest

module _ {C : Type 0} where
  -- The pods that the Kubernetes API lists by the selector of a deployment; `none` is an error.
  module _ (list_pods : (namespace : String) → Deployment → C → C × Option (List String))
      (has_client : Bool) (namespace pod : String) where
    -- The first deployment whose pods the API lists with the pod.
    unfoldable pub find_by_selector : Table Deployment → C → C × Option String
    find_by_selector [] c = (c, none)
    find_by_selector ((name, d) ∷ deployments) c =
        let (c', pods) = list_pods namespace d c in
        let rest = find_by_selector deployments c' in
        elim pods [ none ↦ rest | some pods ↦ if contains pod pods then (c', some name) else rest ]

    -- findDeploymentForPod; without a client the API is not asked.
    unfoldable pub find_deployment : Table Deployment → C → C × String
    find_deployment deployments c =
        let (c', found) = if has_client then find_by_selector deployments c else (c, none) in
        (c', elim found [ none ↦ find_by_name pod "" 0 deployments | some name ↦ name ])

-- podSet: the union of the names, in some order.
unfoldable pub add_names : {V : Type 0} → Table Bool → Table V → Table Bool
add_names pods [] = pods
add_names pods ((pod, v) ∷ values) = add_names (insert pod true pods) values

-- The accelerator of the label.
abbrev pub label_of : Option VariantAutoscaling → String
label_of none = ""
label_of (some va) = lookup_or "" "inference.optimization/acceleratorName" va.labels

module _ {F : Type 0} ⦃f : Float F⦄ where
  -- The cost is 10 by default.
  abbrev pub replica_of :
      (kv : Table F) (queue : Table ℕ) (model_id namespace : String)
      → Table VariantAutoscaling
      → (costs : Table F) (pod variant : String) → ReplicaMetrics F
  replica_of kv queue model_id namespace variants costs pod variant = record {
    pod_name = pod;
    kv_cache_usage = lookup_or nought pod kv;
    queue_length = lookup_or 0 pod queue;
    variant_name = variant;
    namespace = namespace;
    model_id = model_id;
    accelerator_name = label_of (lookup variant variants);
    cost = lookup_or (of_nat 10) variant costs;
  }

  module _ {C : Type 0}
      (list_pods : (namespace : String) → Deployment → C → C × Option (List String))
      (has_client : Bool) (kv : Table F) (queue : Table ℕ) (model_id namespace : String)
      (deployments : Table Deployment) (variants : Table VariantAutoscaling) (costs : Table F) where
    -- The loop of mergeMetrics over the pods; one without a deployment is skipped.
    unfoldable pub merge_pods : Table Bool → C → C × List (ReplicaMetrics F)
    merge_pods [] c = (c, [])
    merge_pods ((pod, present) ∷ pods) c =
        let (c', variant) = find_deployment list_pods has_client namespace pod deployments c in
        let (c2, rest) = merge_pods pods c' in
        if str_eq variant ""
        then (c2, rest)
        else (c2, replica_of kv queue model_id namespace variants costs pod variant ∷ rest)

    unfoldable pub merge_metrics : C → C × List (ReplicaMetrics F)
    merge_metrics c = merge_pods (add_names (add_names [] kv) queue) c
