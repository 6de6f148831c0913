-- ===== src/Common/Counting.antt =====
-- Lists of numbers without repetition, and how many of them a list can hold.
use Prim.Native.Nat.{ℕ, suc, ◌≤◌}
use mathlib.Core.Path.{◌≡◌, refl, ◌∙◌}
use mathlib.Core.Logic.{◌≢◌, inl, inr}
use mathlib.Core.List.{List, [], ◌∷◌}
use mathlib.Core.Bool.{true, false}
use native.Mathlib.Omega.{arith}
use statechannels.Common.Tests.{◌==◌, if◌then◌else◌, Bool-cases}
use statechannels.Common.Lists.{length, includes}

abbrev pub Distinct : List ℕ → Type 0
Distinct [] = Unit
Distinct (x ∷ xs) = (includes x xs ≡ false) × Distinct xs

abbrev pub IsSubset : List ℕ → List ℕ → Type 0
IsSubset xs ys = (a : ℕ) → includes a xs ≡ true → includes a ys ≡ true

erase : ℕ → List ℕ → List ℕ
erase a [] = []
erase a (x ∷ xs) = if x == a then xs else x ∷ erase a xs

includes-erase_ne : (a b : ℕ) (xs : List ℕ) → a ≢ b → includes b (erase a xs) ≡ includes b xs
unfolding erase
includes-erase_ne a b [] h = refl
includes-erase_ne a b (x ∷ xs) h = ground (arith, includes-erase_ne a b xs h)

length-erase : (a : ℕ) (xs : List ℕ) → includes a xs ≡ true → suc (length (erase a xs)) ≡ length xs
unfolding erase
length-erase a [] h = absurd (cc)
length-erase a (x ∷ xs) h = ground (arith, length-erase a xs)

ne_of_includes : (a b : ℕ) (xs : List ℕ) → includes a xs ≡ false → includes b xs ≡ true → a ≢ b
ne_of_includes a b xs h k e = cc

-- A list without repetition is no longer than a list that holds its elements.
pub length-le_of_IsSubset : (xs ys : List ℕ) → Distinct xs → IsSubset xs ys → length xs ≤ length ys
length-le_of_IsSubset [] ys d s = omega arith
length-le_of_IsSubset (x ∷ xs) ys d s =
    let here = length-erase x ys (s x (ground arith)) in
    let rest =
      length-le_of_IsSubset xs (erase x ys) d.1
        (λ a h. includes-erase_ne x a ys (ne_of_includes x a xs d.0 h) ∙ s a (ground arith)) in
    omega arith

-- Where it is as long, it holds them all.
pub IsSubset-of_length :
    (xs ys : List ℕ) → Distinct xs → IsSubset xs ys → length xs ≡ length ys → IsSubset ys xs
IsSubset-of_length xs ys d s e a h = elim (Bool-cases (includes a xs)) [
  | inl known ↦ known
  | inr missing ↦
      let here = length-erase a ys h in
      let rest =
        length-le_of_IsSubset xs (erase a ys) d
          (λ b k. includes-erase_ne a b ys (ne_of_includes a b xs missing k) ∙ s b k) in
      absurd (omega arith)
]
