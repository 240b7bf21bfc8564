-- ===== src/Controller/Groups.antt =====
-- internal/controller/variantautoscaling_controller.go: which resources Reconcile looks at, grouped by
-- model, and their replicas.
use inferno_autoscaler.Base.{
  ℕ, not, List, [], ◌∷◌, Option, none, some, ◌==◌, if◌then◌else◌, Table, group_onto, insert,
}
use inferno_autoscaler.Capacity.Types.{VariantReplicaState}
use inferno_autoscaler.Controller.Types.{VariantAutoscaling, Deployment}
use inferno_autoscaler.Controller.Client.{Client}

-- filterActiveVariantAutoscalings
unfoldable pub filter_active : List VariantAutoscaling → List VariantAutoscaling
filter_active [] = []
filter_active (va ∷ vas) =
    let rest = filter_active vas in if not va.is_deleted then va ∷ rest else rest

unfoldable pub group_by_model : List VariantAutoscaling → Table (List VariantAutoscaling)
unfolding group_onto
group_by_model vas = group_onto (λ va. va.model_id) [] vas

-- vaMap
unfoldable pub variant_map_of :
    Table VariantAutoscaling → List VariantAutoscaling → Table VariantAutoscaling
variant_map_of m [] = m
variant_map_of m (va ∷ vas) = variant_map_of (insert va.name va m) vas

-- The current replicas of a deployment: those of its specification, where its status has none.
abbrev pub deployed_replicas : Deployment → ℕ
deployed_replicas d =
    if d.status_replicas == 0
    then elim d.spec_replicas [ none ↦ d.status_replicas | some n ↦ n ]
    else d.status_replicas

abbrev pub state_of : VariantAutoscaling → Option Deployment → VariantReplicaState
state_of va deployment = record {
  variant_name = va.name;
  current_replicas = elim deployment [
    | none ↦ va.current_alloc.num_replicas
    | some d ↦ deployed_replicas d
  ];
  desired_replicas = va.desired_alloc.num_replicas;
}

module _ {C : Type 0} (client : Client C) where
  -- buildVariantStates, which gives no error
  unfoldable pub build_variant_states : List VariantAutoscaling → C → C × List VariantReplicaState
  build_variant_states [] c = (c, [])
  build_variant_states (va ∷ vas) c =
      let (c', deployment) = client.get_deployment va.name va.namespace c in
      let (c2, states) = build_variant_states vas c' in (c2, state_of va deployment ∷ states)
