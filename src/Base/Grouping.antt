-- ===== src/Base/Grouping.antt =====
-- The loop m[k(x)] = append(m[k(x)], x), which groups a list by a key.
use mathlib.Core.Path.{◌≡◌}
use mathlib.Core.List.{List, [], ◌∷◌, ◌++◌, append_assoc, append-nil}
use Prim.Native.String.{String}
use native.Mathlib.Omega.{arith}
use inferno_autoscaler.Base.Lists.{select}
use inferno_autoscaler.Base.Names.{str_eq, str_eq_iff}
use inferno_autoscaler.Base.Maps.{Table, lookup_or, insert, lookup-insert}
use inferno_autoscaler.Base.MapLaws.{IsKeyed, insert-IsKeyed}

module _ {ℓ} {A : Type ℓ} (key : A → String) where
  unfoldable pub group_onto : Table (List A) → List A → Table (List A)
  group_onto t [] = t
  group_onto t (x ∷ xs) = group_onto (insert (key x) (lookup_or [] (key x) t ++ (x ∷ [])) t) xs

  -- Each group gets the members with its key, in order.
  pub group_onto-lookup :
      (k : String) (t : Table (List A)) (xs : List A)
      → lookup_or [] k (group_onto t xs) ≡ lookup_or [] k t ++ select (λ x. str_eq (key x) k) xs
  unfolding group_onto
  group_onto-lookup k t [] = simp append-nil
  group_onto-lookup k t (x ∷ xs) =
      let n = key x in
      let old = lookup_or [] n t in
      ground (
        arith,
        group_onto-lookup k (insert n (old ++ (x ∷ [])) t) xs,
        lookup-insert n k (old ++ (x ∷ [])) t,
        str_eq_iff n k,
        append_assoc old (x ∷ []) (select (λ x. str_eq (key x) k) xs),
      )

  pub group_onto-IsKeyed :
      (t : Table (List A)) (xs : List A) → IsKeyed t → IsKeyed (group_onto t xs)
  unfolding group_onto
  group_onto-IsKeyed t [] h = h
  group_onto-IsKeyed t (x ∷ xs) h =
      let new = lookup_or [] (key x) t ++ (x ∷ []) in
      group_onto-IsKeyed (insert (key x) new t) xs (insert-IsKeyed (key x) new t h)
