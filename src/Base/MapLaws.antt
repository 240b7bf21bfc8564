-- ===== src/Base/MapLaws.antt =====
-- Tables with one entry for each key, and sums over the entries of a table in any order.
use Prim.Native.Nat.{ℕ, ◌+◌}
use Prim.Native.String.{String}
use native.Mathlib.Nat.{ℕ_set}
use mathlib.Core.Path.{◌≡◌, refl, ◌∙◌, subst}
use mathlib.Core.Logic.{∥∥₁_elim}
use mathlib.Core.List.{List, [], ◌∷◌, Perm, Permᴰ}
use mathlib.Core.Option.{Option, none, some}
use mathlib.Core.HLevel.{×_prop}
use native.Mathlib.Omega.{arith}
use inferno_autoscaler.Base.Lists.{All, All-map_imp}
use inferno_autoscaler.Base.Names.{str_eq_iff}
use inferno_autoscaler.Base.Maps.{Table, lookup, insert, lookup-insert}

module _ {ℓ} {A : Type ℓ} where
  abbrev pub sum_by : (A → ℕ) → List A → ℕ
  sum_by g [] = 0
  sum_by g (x ∷ xs) = g x + sum_by g xs

  sum_by-Permᴰ : (g : A → ℕ) {xs ys : List A} → Permᴰ xs ys → sum_by g xs ≡ sum_by g ys
  sum_by-Permᴰ g Permᴰ.nil = refl
  sum_by-Permᴰ g (Permᴰ.cons e p) = cc (sum_by-Permᴰ g p, e)
  sum_by-Permᴰ g (Permᴰ.swap e d) = ground (arith, e, d)
  sum_by-Permᴰ g (Permᴰ.trans p q) = sum_by-Permᴰ g p ∙ sum_by-Permᴰ g q

  pub sum_by-Perm : (g : A → ℕ) {xs ys : List A} → Perm xs ys → sum_by g xs ≡ sum_by g ys
  sum_by-Perm g p = ∥∥₁_elim p (ℕ_set _ _) (sum_by-Permᴰ g)

module _ {ℓ κ} {A : Type ℓ} (P : A → Type κ) where
  pub All-Permᴰ : {xs ys : List A} → Permᴰ xs ys → All P xs → All P ys
  All-Permᴰ Permᴰ.nil h = h
  All-Permᴰ (Permᴰ.cons e p) h = (subst P e h.0, All-Permᴰ p h.1)
  All-Permᴰ (Permᴰ.swap e d) h = (subst P d h.1.0, (subst P e h.0, h.1.1))
  All-Permᴰ (Permᴰ.trans p q) h = All-Permᴰ q (All-Permᴰ p h)

  All-prop : ((x : A) → IsProp (P x)) → (xs : List A) → IsProp (All P xs)
  All-prop p [] = λ a b. refl
  All-prop p (x ∷ xs) = ×_prop (p x) (All-prop p xs)

  pub All-Perm : ((x : A) → IsProp (P x)) → (xs ys : List A) → Perm xs ys → All P xs → All P ys
  All-Perm p xs ys q h = ∥∥₁_elim q (All-prop p ys) (λ d. All-Permᴰ d h)

module _ {ℓ} {V : Type ℓ} where
  -- Every key stands once.
  abbrev pub IsKeyed : Table V → Type ℓ
  IsKeyed [] = Unit
  IsKeyed ((k, v) ∷ m) = (lookup k m ≡ none) × IsKeyed m

  pub insert-IsKeyed : (k : String) (v : V) (m : Table V) → IsKeyed m → IsKeyed (insert k v m)
  unfolding insert lookup
  insert-IsKeyed k v [] h = (refl, tt)
  insert-IsKeyed k v ((j, w) ∷ m) h =
      ground
        (arith, insert-IsKeyed k v m h.1, lookup-insert k j v m, str_eq_iff k j, str_eq_iff j k)

  -- Every entry is found under its key.
  abbrev pub Finds : Table V → String × V → Type ℓ
  Finds m e = lookup e.0 m ≡ some e.1

  pub IsKeyed-All-Finds : (m : Table V) → IsKeyed m → All (Finds m) m
  unfolding lookup
  IsKeyed-All-Finds [] h = tt
  IsKeyed-All-Finds ((k, v) ∷ m) h = (
    ground (arith, str_eq_iff k k),
    All-map_imp {P = Finds m} (λ (j, w) found. ground (arith, str_eq_iff k j)) m
        (IsKeyed-All-Finds m h.1),
  )

  abbrev pub of_option : (V → ℕ) → Option V → ℕ
  of_option g none = 0
  of_option g (some v) = g v

  abbrev pub sum_values : (V → ℕ) → Table V → ℕ
  sum_values g = sum_by (λ e. g e.1)

  -- Writing a key exchanges its share of the sum.
  pub sum_values-insert :
      (g : V → ℕ) (k : String) (v : V) (m : Table V)
      → sum_values g (insert k v m) + of_option g (lookup k m) ≡ sum_values g m + g v
  unfolding insert lookup
  sum_values-insert g k v [] = omega arith
  sum_values-insert g k v ((j, w) ∷ m) = ground (arith, sum_values-insert g k v m)
