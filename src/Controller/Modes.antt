-- ===== src/Controller/Modes.antt =====
-- internal/controller/variantautoscaling_controller.go: the mode of operation of Reconcile.
use inferno_autoscaler.Base.{
  String, Bool, true, false, not, ◌&&◌, ◌||◌, if◌then◌else◌, ◌≡◌, ◌⊎◌, ◌↔◌, refl, sym, subst,
  Bool-cases, str_eq, str_eq_iff, inl, inr,
}

pub record Modes : Type 0 where
  pub model_optimizer : Bool
  pub capacity_analyzer : Bool

-- The engines that a value of EXPERIMENTAL_HYBRID_OPTIMIZATION enables; an unset variable is "".
unfoldable pub modes_of : String → Modes
modes_of mode =
    let model_optimizer = str_eq mode "on" || str_eq mode "model-only" in
    let capacity_analyzer = str_eq mode "" || str_eq mode "off" in
    record {
      model_optimizer = model_optimizer;
      capacity_analyzer =
          if model_optimizer && capacity_analyzer
          then capacity_analyzer
          else if model_optimizer && not capacity_analyzer
          then capacity_analyzer
          else if not model_optimizer && capacity_analyzer
          then capacity_analyzer
          else true;
    }

or_false : (x y : Bool) → x ≡ false → (x || y) ≡ true → y ≡ true
or_false true y p h = cc
or_false false y p h = h

or_iff : {P Q : Type 0} (x y : Bool) → (x ≡ true) ↔ P → (y ≡ true) ↔ Q → ((x || y) ≡ true) ↔ (P ⊎ Q)
or_iff true y hx hy = (λ h. inl (hx.0 refl), λ h. refl)
or_iff false y hx hy = (λ h. inr (hy.0 h), λ h. elim h [ inl p ↦ cc (hx.1 p) | inr q ↦ hy.1 q ])

differs : (s a b : String) → str_eq a b ≡ false → str_eq s a ≡ true → str_eq s b ≡ false
differs s a b other same = subst (λ x. str_eq x b ≡ false) (sym ((str_eq_iff s a).0 same)) other

-- A value that enables the optimizer enables no analyzer by itself.
no_analyzer :
    (mode : String)
    → (str_eq mode "on" || str_eq mode "model-only") ≡ true
    → (str_eq mode "" || str_eq mode "off") ≡ false
no_analyzer mode h = elim (Bool-cases (str_eq mode "on")) [
  | inl on ↦ rw (differs mode "on" "" refl on, differs mode "on" "off" refl on) refl
  | inr not_on ↦
      let only = or_false (str_eq mode "on") (str_eq mode "model-only") not_on h in
      rw (differs mode "model-only" "" refl only, differs mode "model-only" "off" refl only) refl
]

selected :
    (optimizer analyzer : Bool)
    → (optimizer ≡ true → analyzer ≡ false)
    → optimizer
      ≡ not (
          if optimizer && analyzer
          then analyzer
          else if optimizer && not analyzer
          then analyzer
          else if not optimizer && analyzer
          then analyzer
          else true)
selected true analyzer h = rw (h refl) refl
selected false true h = refl
selected false false h = refl

-- Exactly one engine is enabled for every value of the variable: the model-based optimizer for "on"
-- and "model-only", and the capacity analyzer for all else. So no value enables the hybrid mode.
pub modes_of_lem :
    (mode : String)
    → ((modes_of mode).model_optimizer ≡ not (modes_of mode).capacity_analyzer)
      × (((modes_of mode).model_optimizer ≡ true) ↔ ((mode ≡ "on") ⊎ (mode ≡ "model-only")))
unfolding modes_of
modes_of_lem mode = (
  selected (str_eq mode "on" || str_eq mode "model-only") (str_eq mode "" || str_eq mode "off")
      (no_analyzer mode),
  or_iff (str_eq mode "on") (str_eq mode "model-only") (str_eq_iff mode "on")
      (str_eq_iff mode "model-only"),
)
