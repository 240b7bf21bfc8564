-- ===== src/Core/Least.antt =====
-- pkg/core: what the candidates of a server are, and which one ReAllocate takes.
use inferno_autoscaler.Base.{
  String, true, false, [], ◌∷◌, Option, none, some, ◌≡◌, refl, sym, subst, inl, inr, Bool-cases,
  Table, All, Float, nought, IsOrdered, IsNumber, pos, Double, Conversion,
}
use inferno_autoscaler.Core.Types.{Accelerator, Allocation, System}
use inferno_autoscaler.Core.Creation.{create_allocation}
use inferno_autoscaler.Core.Candidates.{take_less, least_allocation, re_allocate}

module _ {F : Type 0} (D : Type 0) ⦃f : Float F⦄ ⦃e : Float D⦄ ⦃d : Double D⦄ ⦃c : Conversion F D⦄
    (laws : IsOrdered F) (sys : System F) (server_name : String) where
  open f use {lt, eq}

  -- A candidate's value is a number that is not 0, the mark for "none yet".
  abbrev pub IsMarked : String × Accelerator F → Type 0
  IsMarked (g_name, acc) =
      (a : Allocation F)
      → create_allocation D sys server_name g_name ≡ some a
      → IsNumber a.value × (eq a.value nought ≡ false)

  -- No candidate of an accelerator has a lower value.
  abbrev pub NotBelow : F → String × Accelerator F → Type 0
  NotBelow value (g_name, acc) =
      (a : Allocation F)
      → create_allocation D sys server_name g_name ≡ some a
      → lt a.value value ≡ false

  abbrev pub HasNone : String × Accelerator F → Type 0
  HasNone (g_name, acc) = create_allocation D sys server_name g_name ≡ none

  -- The allocation is one that CreateAllocation gives.
  abbrev pub IsCandidate : Allocation F → Type 0
  IsCandidate a = (g_name : String) × (create_allocation D sys server_name g_name ≡ some a)

  -- The least value so far is that of the allocation, if there is one.
  abbrev Marked : F × Option (Allocation F) → Type 0
  Marked (value, none) = value ≡ nought
  Marked (value, some a) =
      (value ≡ a.value) × IsNumber value × (eq value nought ≡ false) × IsCandidate a

  -- What is least in the end is not above what was least before.
  abbrev NoWorse : F × Option (Allocation F) → F × Option (Allocation F) → Type 0
  NoWorse out (value, none) = Unit
  NoWorse (least, none) (value, some a) = ⊥
  NoWorse (least, some b) (value, some a) = lt value least ≡ false

  NoWorse-refl : (least : F × Option (Allocation F)) → NoWorse least least
  NoWorse-refl (value, none) = tt
  NoWorse-refl (value, some a) = laws.lt_irrefl value

  NoWorse-trans :
      (x y z : F × Option (Allocation F)) → Marked y → NoWorse x y → NoWorse y z → NoWorse x z
  NoWorse-trans x y (v, none) m p q = tt
  NoWorse-trans x (w, none) (v, some a) m p q = absurd q
  NoWorse-trans (u, none) (w, some b) (v, some a) m p q = p
  NoWorse-trans (u, some k) (w, some b) (v, some a) m p q = laws.not_lt_trans u w v m.1 p q

  -- An accelerator's candidate, if it has one, is not below the least.
  abbrev Bounds : F × Option (Allocation F) → String × Accelerator F → Type 0
  Bounds (value, none) e = HasNone e
  Bounds (value, some a) e = NotBelow value e

  Bounds-trans :
      (x y : F × Option (Allocation F)) (e : String × Accelerator F)
      → Marked y
      → NoWorse x y
      → Bounds y e
      → Bounds x e
  Bounds-trans (u, none) (v, none) (g, acc) m p q = q
  Bounds-trans (u, some k) (v, none) (g, acc) m p q = λ a made. cc
  Bounds-trans (u, none) (v, some b) (g, acc) m p q = absurd p
  Bounds-trans (u, some k) (v, some b) (g, acc) m p q =
      λ a made. laws.not_lt_trans u v a.value m.1 p (q a made)

  made_once :
      (g : String) (a b : Allocation F)
      → create_allocation D sys server_name g ≡ some a
      → create_allocation D sys server_name g ≡ some b
      → a ≡ b
  made_once g a b p q = cc

  same_value :
      (g : String) (a : Allocation F)
      → create_allocation D sys server_name g ≡ some a
      → (b : Allocation F) → create_allocation D sys server_name g ≡ some b
      → lt b.value a.value ≡ false
  same_value g a made b made' =
      subst (λ x. lt x.value a.value ≡ false) (made_once g a b made made') (laws.lt_irrefl a.value)

  -- One round: what it takes is marked, not above what it had, and bounds the accelerator's candidate.
  take_less_lem :
      (least : F × Option (Allocation F)) (e : String × Accelerator F) (o : Option (Allocation F))
      → create_allocation D sys server_name e.0 ≡ o
      → IsMarked e
      → Marked least
      → Marked (take_less least o)
        × NoWorse (take_less least o) least
        × Bounds (take_less least o) e
  take_less_lem (v, none) (g, acc) none made marked m = (m, tt, made)
  take_less_lem (v, some b) (g, acc) none made marked m = (m, laws.lt_irrefl v, λ a made'. cc)
  take_less_lem (v, none) (g, acc) (some a) made marked m =
      let (number, nonzero) = marked a made in
      let unset : eq v nought ≡ true =
        subst (λ x. eq x nought ≡ true) (sym m) (laws.of_int-IsNumber (pos 0)) in
      rw unset ((refl, number, nonzero, (g, made)), tt, same_value g a made)
  take_less_lem (v, some b) (g, acc) (some a) made marked m =
      let (number, nonzero) = marked a made in
      elim (Bool-cases (lt a.value v)) [
        | inl less ↦
            rw (m.2, less)
              ((refl, number, nonzero, (g, made)), laws.lt_asym a.value v less, same_value g a made)
        | inr not_less ↦
            rw (m.2, not_less)
              (
                m,
                laws.lt_irrefl v,
                λ a' made'.
                    subst (λ x. lt x.value v ≡ false) (made_once g a a' made made') not_less,
              )
      ]

  least_allocation_lem :
      (least : F × Option (Allocation F)) (accs : Table (Accelerator F))
      → All IsMarked accs
      → Marked least
      → let out = least_allocation D sys server_name least accs in
        Marked out × NoWorse out least × All (Bounds out) accs
  unfolding least_allocation
  least_allocation_lem least [] marks m = (m, NoWorse-refl least, tt)
  least_allocation_lem least ((g, acc) ∷ accs) marks m =
      let o = create_allocation D sys server_name g in
      let next = take_less least o in
      let (m', worse, bound) = take_less_lem least (g, acc) o refl marks.0 m in
      let out = least_allocation D sys server_name next accs in
      let (m2, worse2, bounds) = least_allocation_lem next accs marks.1 m' in
      (
        m2,
        NoWorse-trans out next least m' worse2 worse,
        (Bounds-trans out next (g, acc) m' worse2 bound, bounds),
      )

  -- The result of ReAllocate: nothing if no accelerator has a candidate, and else a candidate with its
  -- accelerator's name, below which no candidate is.
  abbrev pub IsLeast : Option (Allocation F) × String → Type 0
  IsLeast (none, name) = (name ≡ "") × All HasNone sys.accelerators
  IsLeast (some a, name) =
      (name ≡ a.accelerator) × IsCandidate a × All (NotBelow a.value) sys.accelerators

  answer-IsLeast :
      (out : F × Option (Allocation F))
      → Marked out
      → All (Bounds out) sys.accelerators
      → IsLeast (
          let r : Option (Allocation F) × String = elim out.1 [
            | none ↦ (none, "")
            | some a ↦ (some a, a.accelerator)
          ] in
          r)
  answer-IsLeast (v, none) m bounds = (refl, bounds)
  answer-IsLeast (v, some a) m bounds =
      (refl, m.3, subst (λ x. All (NotBelow x) sys.accelerators) m.0 bounds)

  -- If the values of the candidates are numbers other than 0, then ReAllocate gives nothing only if no
  -- accelerator has a candidate, and else a candidate below whose value no accelerator's candidate is,
  -- in every order of the accelerators. The order is that of IEEE 754.
  pub re_allocate-IsLeast : All IsMarked sys.accelerators → IsLeast (re_allocate D sys server_name)
  unfolding re_allocate
  re_allocate-IsLeast marks =
      let out = least_allocation D sys server_name (nought, none) sys.accelerators in
      let (m, _, bounds) = least_allocation_lem (nought, none) sys.accelerators marks refl in
      answer-IsLeast out m bounds
