-- ===== src/Base/TableLists.antt =====
-- Predicates over all the entries of a table, and its length.
use Prim.Native.Nat.{◌≤◌, ◌<◌}
use Prim.Native.String.{String}
use mathlib.Core.Path.{◌≡◌, refl, subst}
use mathlib.Core.Logic.{◌≢◌, inl, inr}
use mathlib.Core.Bool.{true}
use mathlib.Core.List.{[], ◌∷◌}
use mathlib.Core.Option.{none, some}
use native.Mathlib.Omega.{arith}
use inferno_autoscaler.Base.Tests.{Bool-cases}
use inferno_autoscaler.Base.Lists.{All, length}
use inferno_autoscaler.Base.Names.{str_eq, str_eq_iff}
use inferno_autoscaler.Base.Maps.{Table, lookup, insert, delete}

module _ {ℓ} {V : Type ℓ} where
  module _ {κ} (P : String × V → Type κ) where
    pub insert-All : (k : String) (v : V) (m : Table V) → P (k, v) → All P m → All P (insert k v m)
    unfolding insert
    insert-All k v [] p ps = (p, tt)
    insert-All k v ((j, w) ∷ m) p ps = elim (Bool-cases (str_eq j k)) [
      | inl same ↦ rw same (p, ps.1)
      | inr other ↦ rw other (ps.0, insert-All k v m p ps.1)
    ]

    pub delete-All : (k : String) (m : Table V) → All P m → All P (delete k m)
    unfolding delete
    delete-All k [] ps = tt
    delete-All k ((j, w) ∷ m) ps = elim (Bool-cases (str_eq j k)) [
      | inl same ↦ rw same (delete-All k m ps.1)
      | inr other ↦ rw other (ps.0, delete-All k m ps.1)
    ]

    pub lookup-All : (k : String) (m : Table V) {v : V} → lookup k m ≡ some v → All P m → P (k, v)
    unfolding lookup
    lookup-All k [] e ps = ground (arith, e)
    lookup-All k ((j, w) ∷ m) {v} e ps = elim (Bool-cases (str_eq j k)) [
      | inl same ↦ subst P (cc ((str_eq_iff j k).0 same, the_value same)) ps.0
      | inr other ↦ lookup-All k m (ground (arith, e, other)) ps.1
    ]
      where
        the_value : str_eq j k ≡ true → w ≡ v
        the_value same = ground (arith, e, same)

  pub length-insert :
      (k : String) (v : V) (m : Table V) → lookup k m ≢ none → length (insert k v m) ≡ length m
  unfolding insert lookup
  length-insert k v [] h = absurd (h refl)
  length-insert k v ((j, w) ∷ m) h = ground (arith, length-insert k v m)

  length-delete_le : (k : String) (m : Table V) → length (delete k m) ≤ length m
  unfolding delete
  length-delete_le k [] = omega arith
  length-delete_le k ((j, w) ∷ m) = ground (arith, length-delete_le k m)

  pub length-delete :
      (k : String) (m : Table V) → lookup k m ≢ none → length (delete k m) < length m
  unfolding delete lookup
  length-delete k [] h = absurd (h refl)
  length-delete k ((j, w) ∷ m) h = ground (arith, length-delete k m, length-delete_le k m)
