-- ===== src/Base/Names.antt =====
-- Names are Go strings: equality, and the order of `<` on strings (by bytes, which for UTF-8 is the
-- order by code points).
use Prim.Native.Nat.{ℕ, ◌+◌, compare, Ordering}
use Prim.Native.Char.{code}
use Prim.Native.String.{String}
use mathlib.Core.Path.{◌≡◌, refl}
use mathlib.Core.Bool.{Bool, true, false}
use mathlib.Core.List.{List, [], ◌∷◌}
use native.Mathlib.Omega.{arith}
use inferno_autoscaler.Base.Tests.{ltb, if◌then◌else◌}
use text.Mathlib.Text.{◌==◌ as text_eq}
use text.Mathlib.TextEquality.{eq_iff}
use mathlib.Core.Logic.{◌↔◌}

abbrev pub str_eq : String → String → Bool
str_eq = text_eq

pub str_eq_iff : (s t : String) → (str_eq s t ≡ true) ↔ (s ≡ t)
str_eq_iff s t = eq_iff s t

abbrev pub codes : String → List ℕ
codes String.[] = []
codes (String.◌∷◌ c s) = code c ∷ codes s

-- len of a string: the bytes of its code points in UTF-8
abbrev pub bytes : List ℕ → ℕ
bytes [] = 0
bytes (x ∷ xs) =
    let rest = bytes xs in
    if ltb x 128
    then 1 + rest
    else if ltb x 2048
    then 2 + rest
    else if ltb x 65_536
    then 3 + rest
    else 4 + rest

abbrev pub byte_length : String → ℕ
byte_length s = bytes (codes s)

pub codes_lt : List ℕ → List ℕ → Bool
codes_lt xs [] = false
codes_lt [] (y ∷ ys) = true
codes_lt (x ∷ xs) (y ∷ ys) =
    let rest = codes_lt xs ys in
    elim (compare x y) [ Ordering.lt ↦ true | Ordering.eq ↦ rest | Ordering.gt ↦ false ]

unfoldable pub str_lt : String → String → Bool
unfolding codes_lt
str_lt s t = codes_lt (codes s) (codes t)

codes_lt_irrefl : (xs : List ℕ) → codes_lt xs xs ≡ false
unfolding codes_lt
codes_lt_irrefl [] = refl
codes_lt_irrefl (x ∷ xs) = ground (arith, codes_lt_irrefl xs)

codes_not_lt_trans :
    (xs ys zs : List ℕ) → codes_lt ys xs ≡ false → codes_lt zs ys ≡ false → codes_lt zs xs ≡ false
unfolding codes_lt
codes_not_lt_trans [] ys [] p q = refl
codes_not_lt_trans [] ys (z ∷ zs) p q = refl
codes_not_lt_trans (x ∷ xs) [] zs p q = ground arith
codes_not_lt_trans (x ∷ xs) (y ∷ ys) [] p q = q
codes_not_lt_trans (x ∷ xs) (y ∷ ys) (z ∷ zs) p q = ground (arith, codes_not_lt_trans xs ys zs)

codes_lt_asym : (xs ys : List ℕ) → codes_lt xs ys ≡ true → codes_lt ys xs ≡ false
unfolding codes_lt
codes_lt_asym [] [] p = refl
codes_lt_asym [] (y ∷ ys) p = refl
codes_lt_asym (x ∷ xs) [] p = ground arith
codes_lt_asym (x ∷ xs) (y ∷ ys) p = ground (arith, codes_lt_asym xs ys)

pub str_lt_irrefl : (s : String) → str_lt s s ≡ false
unfolding str_lt
str_lt_irrefl s = codes_lt_irrefl (codes s)

pub str_lt_asym : (s t : String) → str_lt s t ≡ true → str_lt t s ≡ false
unfolding str_lt
str_lt_asym s t = codes_lt_asym (codes s) (codes t)

pub str_not_lt_trans :
    (s t u : String) → str_lt t s ≡ false → str_lt u t ≡ false → str_lt u s ≡ false
unfolding str_lt
str_not_lt_trans s t u = codes_not_lt_trans (codes s) (codes t) (codes u)
