-- ===== src/Controller/Partition.antt =====
-- internal/controller/variantautoscaling_controller.go: what each model's group holds.
use inferno_autoscaler.Base.{
  String, not, ◌&&◌, List, [], ◌∷◌, ◌≡◌, refl, ◌∙◌, arith, select, lookup, lookup_or,
  group_onto-lookup, group_onto-IsKeyed, IsKeyed, str_eq,
}
use inferno_autoscaler.Controller.Types.{VariantAutoscaling}
use inferno_autoscaler.Controller.Groups.{filter_active, group_by_model}

-- The resources of a model that are not marked for deletion, in order.
abbrev pub active_of : String → List VariantAutoscaling → List VariantAutoscaling
active_of model_id = select (λ va. not va.is_deleted && str_eq va.model_id model_id)

select-filter_active :
    (model_id : String) (vas : List VariantAutoscaling)
    → select (λ va. str_eq va.model_id model_id) (filter_active vas) ≡ active_of model_id vas
unfolding filter_active
select-filter_active model_id [] = refl
select-filter_active model_id (va ∷ vas) = ground (arith, select-filter_active model_id vas)

-- Reconcile has one group for each model, and the group of a model holds exactly its resources that are
-- not marked for deletion, in order.
pub group_by_model-filter_active :
    (vas : List VariantAutoscaling)
    → let groups = group_by_model (filter_active vas) in
      IsKeyed groups × ((model_id : String) → lookup_or [] model_id groups ≡ active_of model_id vas)
unfolding group_by_model lookup
group_by_model-filter_active vas = (
  group_onto-IsKeyed (λ va. va.model_id) [] (filter_active vas) tt,
  λ model_id.
      group_onto-lookup (λ va. va.model_id) model_id [] (filter_active vas)
      ∙ select-filter_active model_id vas,
)
