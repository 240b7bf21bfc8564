-- ===== src/Config/Policies.antt =====
-- The names of the saturated allocation policies.
use inferno_autoscaler.Base.{String, ◌≡◌, ◌⊎◌, sym, Bool-cases, refl, inl, inr, str_eq_iff, str_eq}
use inferno_autoscaler.Config.{
  SaturatedAllocationPolicy, no_policy, priority_exhaustive, priority_round_robin, round_robin,
  policy_enum, policy_string, default_saturated_allocation_policy,
}

-- Reading the name of a policy gives the policy, and a text that is the name of no policy gives the
-- default.
pub policy_enum-policy_string :
    (s : String)
    → ((p : SaturatedAllocationPolicy) → policy_enum (policy_string p) ≡ p)
      × ((policy_string (policy_enum s) ≡ s)
          ⊎ (policy_enum s ≡ default_saturated_allocation_policy))
unfolding policy_enum
policy_enum-policy_string s = (
  go,
  elim (Bool-cases (str_eq s "None")) [
    | inl here ↦ rw here (inr refl)
    | inr not_none ↦ elim (Bool-cases (str_eq s "PriorityExhaustive")) [
      | inl here ↦ rw (not_none, here) (inl (sym ((str_eq_iff s "PriorityExhaustive").0 here)))
      | inr not_exhaustive ↦ elim (Bool-cases (str_eq s "PriorityRoundRobin")) [
        | inl here ↦
            rw (not_none, not_exhaustive, here)
              (inl (sym ((str_eq_iff s "PriorityRoundRobin").0 here)))
        | inr not_by_priority ↦ elim (Bool-cases (str_eq s "RoundRobin")) [
          | inl here ↦
              rw (not_none, not_exhaustive, not_by_priority, here)
                (inl (sym ((str_eq_iff s "RoundRobin").0 here)))
          | inr other ↦ rw (not_none, not_exhaustive, not_by_priority, other) (inr refl)
        ]
      ]
    ]
  ],
)
  where
    go : (p : SaturatedAllocationPolicy) → policy_enum (policy_string p) ≡ p
    go no_policy = refl
    go priority_exhaustive = refl
    go priority_round_robin = refl
    go round_robin = refl
