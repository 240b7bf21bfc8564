-- ===== src/Core/Targets.antt =====
-- A service class and its specification.
use mathlib.Core.List.{append-nil, append_assoc}
use inferno_autoscaler.Base.{
  ◌≤◌, String, [], ◌∷◌, ◌++◌, none, ◌≡◌, refl, arith, ap, ◌∙◌, Table, lookup, insert, Bool-cases,
  inl, inr, IsKeyed, str_eq, str_eq_iff, map, All, sym, lookup-insert,
}
use inferno_autoscaler.Config.{ModelTarget, default_high_priority, default_low_priority}
use inferno_autoscaler.Core.Types.{ServiceClass, Target}
use inferno_autoscaler.Core.Server.{
  new_service_class, add_model_target, add_model_targets, new_service_class_from_spec,
  service_class_spec,
}

module _ {F : Type 0} where
  -- The keys of a table are not in another one.
  abbrev AreNew : Table (Target F) → Table (Target F) → Type 0
  AreNew old = All (λ e. lookup e.0 old ≡ none)

  insert-new :
      (k : String) (t : Target F) (m : Table (Target F))
      → lookup k m ≡ none
      → insert k t m ≡ m ++ ((k, t) ∷ [])
  unfolding insert lookup
  insert-new k t [] e = refl
  insert-new k t ((j, u) ∷ m) e = elim (Bool-cases (str_eq j k)) [
    | inl same ↦ ground (arith, e, same)
    | inr other ↦ rw other (ap (λ r. (j, u) ∷ r) (insert-new k t m (ground (arith, e, other))))
  ]

  abbrev target_of : String × Target F → ModelTarget F
  target_of e = record { model = e.0; slo_itl = e.1.itl; slo_ttft = e.1.ttft; slo_tps = e.1.tps }

  AreNew-insert :
      (k : String) (t : Target F) (old m : Table (Target F))
      → lookup k m ≡ none
      → AreNew old m
      → AreNew (insert k t old) m
  unfolding lookup
  AreNew-insert k t old [] e new = tt
  AreNew-insert k t old ((j, u) ∷ m) e new = (
    ground (arith, lookup-insert k j t old, e, new.0, str_eq_iff k j, str_eq_iff j k),
    AreNew-insert k t old m (ground (arith, e)) new.1,
  )

  add_model_targets_lem :
      (c : ServiceClass F) (m : Table (Target F))
      → IsKeyed m
      → AreNew c.targets m
      → add_model_targets c (map target_of m) ≡ record c { targets = c.targets ++ m }
  unfolding add_model_targets add_model_target
  add_model_targets_lem c [] keyed new =
      ap (λ ts. record c { targets = ts }) (sym (append-nil c.targets))
  add_model_targets_lem c ((k, t) ∷ m) keyed new =
      add_model_targets_lem (record c { targets = insert k t c.targets }) m keyed.1
        (AreNew-insert k t c.targets m keyed.0 new.1)
      ∙ ap (λ ts. record c { targets = ts })
          (ap (λ ts. ts ++ m) (insert-new k t c.targets new.0)
            ∙ append_assoc c.targets ((k, t) ∷ []) m)

  -- A service class is the one that is made from its specification, where each model has one target
  -- and the priority is between the highest and the lowest.
  pub new_service_class_from_spec-service_class_spec :
      (c : ServiceClass F)
      → IsKeyed c.targets
      → default_high_priority ≤ c.priority
      → c.priority ≤ default_low_priority
      → new_service_class_from_spec (service_class_spec c) ≡ c
  unfolding new_service_class_from_spec service_class_spec new_service_class lookup
  new_service_class_from_spec-service_class_spec c keyed high low =
      add_model_targets_lem (new_service_class c.name c.priority) c.targets keyed
        (all_new c.targets)
      ∙ ap (λ p. record c { priority = p }) (ground arith)
    where
      all_new : (m : Table (Target F)) → AreNew [] m
      all_new [] = tt
      all_new ((k, t) ∷ m) = (refl, all_new m)
