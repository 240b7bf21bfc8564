-- ===== src/Config/Tests.antt =====
-- The policies of the saturated condition, at the name of one and at a text that differs in case.
use inferno_autoscaler.Base.{◌≡◌, refl}
use inferno_autoscaler.Config.{round_robin, no_policy, policy_enum}

policy_test : (policy_enum "RoundRobin" ≡ round_robin) × (policy_enum "roundrobin" ≡ no_policy)
unfolding policy_enum
policy_test = (refl, refl)
