-- ===== src/Capacity/Targets.antt =====
-- internal/capacity/analyzer.go: CalculateCapacityTargets.
mod Choice
pub mod Preserved
mod Change
pub mod Steps
pub mod Cost
use inferno_autoscaler.Base.{
  ℕ, ◌+◌, ◌-◌, String, Bool, true, false, not, ◌&&◌, ◌||◌, List, [], ◌∷◌, Option, none, some, ltb,
  leb, ◌==◌, if◌then◌else◌, Table, lookup_or, insert, str_lt, Float, length,
}
use inferno_autoscaler.Capacity.Types.{
  VariantCapacityAnalysis, ModelCapacityAnalysis, VariantReplicaState,
}

-- The default targets: the current replicas.
unfoldable pub current_targets : Table ℕ → List VariantReplicaState → Table ℕ
current_targets targets [] = targets
current_targets targets (s ∷ ss) =
    current_targets (insert s.variant_name s.current_replicas targets) ss

unfoldable pub state_map :
    Table VariantReplicaState → List VariantReplicaState → Table VariantReplicaState
state_map states [] = states
state_map states (s ∷ ss) = state_map (insert s.variant_name s states) ss

-- The zero value that a lookup of a missing variant gives.
abbrev pub no_state : VariantReplicaState
no_state = record { variant_name = ""; current_replicas = 0; desired_replicas = 0 }

abbrev pub is_preserved : VariantReplicaState → Bool
is_preserved s = not (s.desired_replicas == 0) && not (s.desired_replicas == s.current_replicas)

-- The variables of the loop that preserves desired replicas.
pub record Preservation : Type 0 where
  pub targets : Table ℕ
  pub preserved : Table Bool

module _ {F : Type 0} where
  unfoldable pub ready_targets : Table ℕ → List (VariantCapacityAnalysis F) → Table ℕ
  ready_targets targets [] = targets
  ready_targets targets (va ∷ vas) =
      ready_targets (insert va.variant_name va.replica_count targets) vas

  unfoldable pub preserve_desired :
      Table VariantReplicaState → Preservation → List (VariantCapacityAnalysis F) → Preservation
  preserve_desired states p [] = p
  preserve_desired states p (va ∷ vas) =
      let s = lookup_or no_state va.variant_name states in
      preserve_desired states
        (if is_preserved s
          then record {
            targets = insert va.variant_name s.desired_replicas p.targets;
            preserved = insert va.variant_name true p.preserved;
          }
          else p)
        vas

  unfoldable pub preservation : ModelCapacityAnalysis F → List VariantReplicaState → Preservation
  preservation a states =
      preserve_desired (state_map [] states)
        (record { targets = ready_targets [] a.variant_analyses; preserved = [] })
        a.variant_analyses

module _ {F : Type 0} ⦃f : Float F⦄ where
  open f use {lt, eq}

  -- Cheaper, or as cheap with a name that comes first.
  abbrev pub is_cheaper : VariantCapacityAnalysis F → VariantCapacityAnalysis F → Bool
  is_cheaper va best =
      lt va.cost best.cost || (eq va.cost best.cost && str_lt va.variant_name best.variant_name)

  -- More expensive, or as expensive with a name that comes last.
  abbrev pub is_dearer : VariantCapacityAnalysis F → VariantCapacityAnalysis F → Bool
  is_dearer va best =
      lt best.cost va.cost || (eq va.cost best.cost && str_lt best.variant_name va.variant_name)

  -- The body of both search loops: `skip` is the `continue`, `better` the test against the best so far.
  abbrev pub choose :
      (VariantCapacityAnalysis F → VariantCapacityAnalysis F → Bool)
      → Bool
      → VariantCapacityAnalysis F
      → Option (VariantCapacityAnalysis F)
      → Option (VariantCapacityAnalysis F)
  choose better skip va none = if skip then none else some va
  choose better skip va (some best) =
      if skip then some best else if better va best then some va else some best

  -- The search loops, from the best so far.
  unfoldable pub find_best :
      (VariantCapacityAnalysis F → VariantCapacityAnalysis F → Bool)
      → (VariantCapacityAnalysis F → Bool)
      → Option (VariantCapacityAnalysis F)
      → List (VariantCapacityAnalysis F)
      → Option (VariantCapacityAnalysis F)
  find_best better skip best [] = best
  find_best better skip best (va ∷ vas) =
      find_best better skip (choose better (skip va) va best) vas

  abbrev pub skip_cheapest : Table Bool → VariantCapacityAnalysis F → Bool
  skip_cheapest preserved va = lookup_or false va.variant_name preserved

  abbrev pub skip_dearest : Table Bool → VariantCapacityAnalysis F → Bool
  skip_dearest preserved va = lookup_or false va.variant_name preserved || leb va.replica_count 1

  unfoldable pub find_cheapest :
      Table Bool → List (VariantCapacityAnalysis F) → Option (VariantCapacityAnalysis F)
  find_cheapest preserved = find_best is_cheaper (skip_cheapest preserved) none

  unfoldable pub find_dearest :
      Table Bool → List (VariantCapacityAnalysis F) → Option (VariantCapacityAnalysis F)
  find_dearest preserved = find_best is_dearer (skip_dearest preserved) none

  abbrev pub raise_target : Option (VariantCapacityAnalysis F) → Table ℕ → Table ℕ
  raise_target none targets = targets
  raise_target (some va) targets = insert va.variant_name (va.replica_count + 1) targets

  abbrev pub lower_target : Option (VariantCapacityAnalysis F) → Table ℕ → Table ℕ
  lower_target none targets = targets
  lower_target (some va) targets = insert va.variant_name (va.replica_count - 1) targets

  -- The capacity action on the targets that are not preserved.
  unfoldable pub scale_targets : ModelCapacityAnalysis F → Preservation → Table ℕ
  scale_targets a p =
      if a.should_scale_up
      then raise_target (find_cheapest p.preserved a.variant_analyses) p.targets
      else if a.scale_down_safe
      then lower_target (find_dearest p.preserved a.variant_analyses) p.targets
      else p.targets

  -- `none` is a nil analysis.
  unfoldable pub calculate_capacity_targets :
      Option (ModelCapacityAnalysis F) → List VariantReplicaState → Table ℕ
  calculate_capacity_targets none states = current_targets [] states
  calculate_capacity_targets (some a) states =
      if length a.variant_analyses == 0
      then current_targets [] states
      else scale_targets a (preservation a states)
