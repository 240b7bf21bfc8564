-- ===== src/Capacity/Targets/Choice.antt =====
-- What the search loops of CalculateCapacityTargets find.
use inferno_autoscaler.Base.{
  Bool, true, false, ◌≡◌, refl, List, [], ◌∷◌, Option, none, some, arith, Bool-cases, inl, inr, All,
  str_not_lt_trans, str_lt_irrefl, str_lt_asym, Float, IsOrdered, IsNumber,
}
use mathlib.Core.List.{Memᴰ}
use inferno_autoscaler.Capacity.Types.{VariantCapacityAnalysis}
use inferno_autoscaler.Capacity.Targets.{is_cheaper, is_dearer, choose, find_best}

-- A test for "better" that is a strict weak order on the variants whose cost is a number.
pub record IsPreference {F : Type 0} ⦃f : Float F⦄
    (better : VariantCapacityAnalysis F → VariantCapacityAnalysis F → Bool) : Type 0 where
  pub irrefl : (x : VariantCapacityAnalysis F) → better x x ≡ false
  pub asym : (x y : VariantCapacityAnalysis F) → better x y ≡ true → better y x ≡ false
  pub not_trans :
      (x y z : VariantCapacityAnalysis F)
      → IsNumber x.cost
      → IsNumber y.cost
      → IsNumber z.cost
      → better y x ≡ false
      → better z y ≡ false
      → better z x ≡ false

module _ {F : Type 0} ⦃f : Float F⦄ (laws : IsOrdered F) where
  open laws use {lt_irrefl, lt_asym, eq_sym, tri, not_lt_trans, eq-not_lt, lt-ne-eq}
  open f use {lt, eq}

  pub is_cheaper-IsPreference : IsPreference {F = F} is_cheaper
  is_cheaper-IsPreference = record {
    irrefl = λ x. ground (arith, lt_irrefl x.cost, str_lt_irrefl x.variant_name);
    asym = λ x y h. ground (
      arith,
      lt_asym x.cost y.cost,
      eq_sym x.cost y.cost,
      eq_sym y.cost x.cost,
      lt-ne-eq x.cost y.cost,
      eq-not_lt x.cost y.cost,
      eq-not_lt y.cost x.cost,
      str_lt_asym x.variant_name y.variant_name,
    );
    not_trans = λ x y z nx ny nz p q. ground (
      arith,
      not_lt_trans x.cost y.cost z.cost ny,
      not_lt_trans y.cost z.cost x.cost nz,
      not_lt_trans z.cost x.cost y.cost nx,
      eq-not_lt z.cost x.cost,
      eq-not_lt x.cost z.cost,
      eq_sym z.cost x.cost,
      tri y.cost x.cost ny nx,
      tri z.cost y.cost nz ny,
      str_not_lt_trans x.variant_name y.variant_name z.variant_name,
    );
  }

  pub is_dearer-IsPreference : IsPreference {F = F} is_dearer
  is_dearer-IsPreference = record {
    irrefl = λ x. ground (arith, lt_irrefl x.cost, str_lt_irrefl x.variant_name);
    asym = λ x y h. ground (
      arith,
      lt_asym y.cost x.cost,
      eq_sym x.cost y.cost,
      eq_sym y.cost x.cost,
      lt-ne-eq y.cost x.cost,
      eq-not_lt x.cost y.cost,
      eq-not_lt y.cost x.cost,
      str_lt_asym y.variant_name x.variant_name,
    );
    not_trans = λ x y z nx ny nz p q. ground (
      arith,
      not_lt_trans z.cost y.cost x.cost ny,
      not_lt_trans x.cost z.cost y.cost nz,
      not_lt_trans y.cost x.cost z.cost nx,
      eq-not_lt z.cost x.cost,
      eq-not_lt x.cost z.cost,
      eq_sym z.cost x.cost,
      tri y.cost x.cost ny nx,
      tri z.cost y.cost nz ny,
      str_not_lt_trans z.variant_name y.variant_name x.variant_name,
    );
  }

module _ {F : Type 0} ⦃f : Float F⦄
    (better : VariantCapacityAnalysis F → VariantCapacityAnalysis F → Bool)
    (skip : VariantCapacityAnalysis F → Bool) where
  abbrev pub Unbeaten : List (VariantCapacityAnalysis F) → VariantCapacityAnalysis F → Type 0
  Unbeaten vas b = All (λ va. skip va ≡ false → better va b ≡ false) vas

  -- Nothing was eligible, or an eligible variant of the list that no eligible one beats.
  abbrev pub IsChoice :
      List (VariantCapacityAnalysis F) → Option (VariantCapacityAnalysis F) → Type 0
  IsChoice vas none = All (λ va. skip va ≡ true) vas
  IsChoice vas (some b) = Memᴰ b vas × (skip b ≡ false) × Unbeaten vas b

  -- What the loop keeps of the best so far.
  abbrev Keeps :
      VariantCapacityAnalysis F
      → List (VariantCapacityAnalysis F)
      → VariantCapacityAnalysis F
      → Type 0
  Keeps best vas b =
      Memᴰ b (best ∷ vas) × (skip b ≡ false) × (better best b ≡ false) × Unbeaten vas b

  mem_under :
      {b best va : VariantCapacityAnalysis F} {vas : List (VariantCapacityAnalysis F)}
      → Memᴰ b (best ∷ vas)
      → Memᴰ b (best ∷ va ∷ vas)
  mem_under (Memᴰ.head e) = Memᴰ.head e
  mem_under (Memᴰ.tail m) = Memᴰ.tail (Memᴰ.tail m)

  IsChoice-cons :
      (va : VariantCapacityAnalysis F) (vas : List (VariantCapacityAnalysis F))
      (r : Option (VariantCapacityAnalysis F))
      → skip va ≡ true
      → IsChoice vas r
      → IsChoice (va ∷ vas) r
  IsChoice-cons va vas none s h = (s, h)
  IsChoice-cons va vas (some b) s (m, sb, rest) = (Memᴰ.tail m, sb, (λ e. cc, rest))

  abbrev pub Holds {κ} :
      (VariantCapacityAnalysis F → Type κ) → Option (VariantCapacityAnalysis F) → Type κ
  Holds P none = Unit
  Holds P (some b) = P b

  choose-Holds :
      (P : VariantCapacityAnalysis F → Type 0) (o : Option (VariantCapacityAnalysis F))
      (va : VariantCapacityAnalysis F)
      → Holds P o
      → (skip va ≡ false → P va)
      → Holds P (choose better (skip va) va o)
  choose-Holds P none va h p = elim (Bool-cases (skip va)) [ inl s ↦ rw s tt | inr s ↦ rw s (p s) ]
  choose-Holds P (some best) va h p = elim (Bool-cases (skip va)) [
    | inl s ↦ rw s h
    | inr s ↦ elim (Bool-cases (better va best)) [ inl w ↦ rw (s, w) (p s) | inr l ↦ rw (s, l) h ]
  ]

  -- What holds of the best so far and of every eligible variant holds of the result.
  pub find_best-Holds :
      (P : VariantCapacityAnalysis F → Type 0) (o : Option (VariantCapacityAnalysis F))
      (vas : List (VariantCapacityAnalysis F))
      → Holds P o
      → All (λ va. skip va ≡ false → P va) vas
      → Holds P (find_best better skip o vas)
  unfolding find_best
  find_best-Holds P o [] h all = h
  find_best-Holds P o (va ∷ vas) h all =
      find_best-Holds P (choose better (skip va) va o) vas (choose-Holds P o va h all.0) all.1

  module _ (pref : IsPreference better) where
    open pref use {irrefl, asym, not_trans}

    find_best-Keeps :
        (best : VariantCapacityAnalysis F) (vas : List (VariantCapacityAnalysis F))
        → skip best ≡ false
        → IsNumber best.cost
        → All (λ va. IsNumber va.cost) vas
        → (b : VariantCapacityAnalysis F) × (find_best better skip (some best) vas ≡ some b)
          × IsNumber b.cost
          × Keeps best vas b
    unfolding find_best
    find_best-Keeps best [] s n ns = (best, refl, n, (Memᴰ.head refl, s, irrefl best, tt))
    find_best-Keeps best (va ∷ vas) s n ns = elim (Bool-cases (skip va)) [
      | inl skipped ↦
          let (b, e, nb, (m, sb, old, rest)) = find_best-Keeps best vas s n ns.1 in
          (b, rw skipped e, nb, (mem_under m, sb, old, (λ h. cc, rest)))
      | inr eligible ↦ elim (Bool-cases (better va best)) [
        | inl wins ↦
            let (b, e, nb, (m, sb, old, rest)) = find_best-Keeps va vas eligible ns.0 ns.1 in
            (
              b,
              rw (eligible, wins) e,
              nb,
              (
                Memᴰ.tail m,
                sb,
                not_trans b va best nb ns.0 n old (asym va best wins),
                (λ h. old, rest),
              ),
            )
        | inr loses ↦
            let (b, e, nb, (m, sb, old, rest)) = find_best-Keeps best vas s n ns.1 in
            (
              b,
              rw (eligible, loses) e,
              nb,
              (mem_under m, sb, old, (λ h. not_trans b best va nb n ns.0 old loses, rest)),
            )
      ]
    ]

    -- The search finds an eligible variant that no eligible one beats, if there is an eligible one.
    pub find_best-IsChoice :
        (vas : List (VariantCapacityAnalysis F))
        → All (λ va. IsNumber va.cost) vas
        → IsChoice vas (find_best better skip none vas)
    unfolding find_best
    find_best-IsChoice [] ns = tt
    find_best-IsChoice (va ∷ vas) ns = elim (Bool-cases (skip va)) [
      | inl skipped ↦ rw skipped (IsChoice-cons va vas _ skipped (find_best-IsChoice vas ns.1))
      | inr eligible ↦
          let (b, e, nb, (m, sb, old, rest)) = find_best-Keeps va vas eligible ns.0 ns.1 in
          rw (eligible, e) (m, sb, (λ h. old, rest))
    ]
