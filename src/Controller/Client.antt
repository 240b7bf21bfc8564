-- ===== src/Controller/Client.antt =====
-- The client of the Kubernetes API as the controller calls it: reads and updates with their retries,
-- over a state of the cluster that any of them may change. SetStatusCondition is the library's.
use inferno_autoscaler.Base.{ℤ, String, Bool, List, Option, Table}
use inferno_autoscaler.Controller.Types.{
  VariantAutoscaling, Deployment, Condition, ConditionType, ConditionReason, ConditionMessage,
}

-- What a read of a ConfigMap gives.
pub data ConfigMapReply : Type 0 where
  config_data : Table String → ConfigMapReply
  not_found : ConfigMapReply
  failed : ConfigMapReply

pub record Client (C : Type 0) : Type 0 where
  pub get_variant : (name namespace : String) → C → C × Option VariantAutoscaling
  pub get_deployment : (name namespace : String) → C → C × Option Deployment
  pub get_config_map : (name namespace : String) → C → C × ConfigMapReply
  -- `none` is an error
  pub list_variants : C → C × Option (List VariantAutoscaling)
  -- whether the update succeeded
  pub update_status : VariantAutoscaling → C → C × Bool
  -- the clock
  pub now : C → ℤ
  pub set_status_condition : List Condition → Condition → List Condition

-- SetCondition of api/v1alpha1/conditions.go, at the time `now`.
abbrev pub set_condition :
    {C : Type 0}
    → Client C
    → (now : ℤ) → VariantAutoscaling
    → ConditionType
    → (status : Bool) → ConditionReason
    → ConditionMessage
    → VariantAutoscaling
set_condition client now va type status reason message =
    let condition : Condition = record {
      type = type;
      status = status;
      observed_generation = va.generation;
      last_transition_time = now;
      reason = reason;
      message = message;
    } in
    record va { conditions = client.set_status_condition va.conditions condition }
