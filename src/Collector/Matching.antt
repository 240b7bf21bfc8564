-- ===== src/Collector/Matching.antt =====
-- internal/collector/capacity_metrics.go: which deployment a pod's name belongs to.
use inferno_autoscaler.Base.{
  ℕ, ◌≤◌, ◌<◌, String, true, false, List, [], ◌∷◌, ◌++◌, ltb, ltb→lt, ◌≡◌, ◌⊎◌, refl, sym, subst,
  arith, inl, inr, Bool-cases, if_cases, All, All-map_imp, Table, codes, bytes,
}
use mathlib.Core.List.{Memᴰ}
use inferno_autoscaler.Controller.Types.{Deployment}
use inferno_autoscaler.Collector.Merging.{has_prefix, prefix_of, find_by_name}

module _ (pod : String) where
  abbrev pub IsMatch : String → Type 0
  IsMatch name = has_prefix (codes pod) (prefix_of name) ≡ true

  abbrev pub prefix_length : String → ℕ
  prefix_length name = bytes (prefix_of name)

  -- No name that matches has a longer prefix.
  abbrev pub NoLonger : ℕ → Table Deployment → Type 0
  NoLonger n = All (λ e. IsMatch e.0 → prefix_length e.0 ≤ n)

  -- The name of a deployment that matches, with a prefix that is the longest.
  abbrev pub IsLongest : Table Deployment → String → Type 0
  IsLongest ds name =
      (d : Deployment) × Memᴰ (name, d) ds × IsMatch name × NoLonger (prefix_length name) ds

  -- What the loop finds, from the best so far.
  abbrev Finds : (ds : Table Deployment) (matched : String) (n : ℕ) → String → Type 0
  Finds ds matched n name =
      ((name ≡ matched) × NoLonger n ds) ⊎ (IsLongest ds name × (n < prefix_length name))

  longer : (a b : ℕ) (ds : Table Deployment) → a ≤ b → NoLonger a ds → NoLonger b ds
  longer a b ds h = All-map_imp (λ e short match. omega (arith, short match)) ds

  -- A deployment at the front that is not taken.
  skipped :
      (k : String) (d : Deployment) (ds : Table Deployment) (matched : String) (n : ℕ) (r : String)
      → (IsMatch k → prefix_length k ≤ n)
      → Finds ds matched n r
      → Finds ((k, d) ∷ ds) matched n r
  skipped k d ds matched n r short (inl (same, none)) = inl (same, (short, none))
  skipped k d ds matched n r short (inr ((d', m, match, none), above)) =
      inr ((d', Memᴰ.tail m, match, (λ h. omega (arith, short h), none)), above)

  -- One that is.
  taken :
      (k : String) (d : Deployment) (ds : Table Deployment) (matched : String) (n : ℕ) (r : String)
      → IsMatch k
      → n < prefix_length k
      → Finds ds k (prefix_length k) r
      → Finds ((k, d) ∷ ds) matched n r
  taken k d ds matched n r match above (inl (same, none)) =
      subst (Finds ((k, d) ∷ ds) matched n) (sym same)
        (inr ((d, Memᴰ.head refl, match, (λ h. omega arith, none)), above))
  taken k d ds matched n r match above (inr ((d', m, match', none), more)) =
      inr ((d', Memᴰ.tail m, match', (λ h. omega arith, none)), omega arith)

  find_by_name-Finds :
      (ds : Table Deployment) (matched : String) (n : ℕ)
      → Finds ds matched n (find_by_name pod matched n ds)
  unfolding find_by_name
  find_by_name-Finds [] matched n = inl (refl, tt)
  find_by_name-Finds ((k, d) ∷ ds) matched n =
      let P = Finds ((k, d) ∷ ds) matched n in
      let rest = find_by_name-Finds ds matched n in
      if_cases P (has_prefix (codes pod) (prefix_of k)) _ _
        (λ match.
          if_cases P (ltb n (prefix_length k)) _ _
            (λ above.
              taken k d ds matched n _ match (ltb→lt n (prefix_length k) above)
                (find_by_name-Finds ds k (prefix_length k)))
            (λ short. skipped k d ds matched n _ (λ h. ground (arith, short)) rest))
        (λ other. skipped k d ds matched n _ (λ h. cc) rest)

  bytes_snoc : (xs : List ℕ) → 0 < bytes (xs ++ (45 ∷ []))
  bytes_snoc [] = omega arith
  bytes_snoc (x ∷ xs) = ground (arith, bytes_snoc xs)

  unmatched :
      (name : String)
      → (IsMatch name → prefix_length name ≤ 0)
      → has_prefix (codes pod) (prefix_of name) ≡ false
  unmatched name short = elim (Bool-cases (has_prefix (codes pod) (prefix_of name))) [
    | inl match ↦ absurd (omega (arith, short match, bytes_snoc (codes name)))
    | inr other ↦ other
  ]

  -- Matching by names gives the deployment with the longest prefix among those whose name and a dash
  -- begin the pod's name, in every order of the deployments; it gives "" only if there is none, or if
  -- the deployment is named so.
  pub find_by_name-IsLongest :
      (ds : Table Deployment)
      → let name = find_by_name pod "" 0 ds in
        ((name ≡ "") × All (λ e. has_prefix (codes pod) (prefix_of e.0) ≡ false) ds)
        ⊎ IsLongest ds name
  find_by_name-IsLongest ds = elim (find_by_name-Finds ds "" 0) [
    | inl (same, none) ↦ inl (same, All-map_imp (λ e short. unmatched e.0 short) ds none)
    | inr (longest, above) ↦ inr longest
  ]
