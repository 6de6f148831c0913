-- ===== src/Nitro/AssetHolder/Claim/Amounts.antt =====
-- packages/nitro-protocol/src/contract/multi-asset-holder.ts: one amount of an array changes.
use statechannels.Common.{
  ℕ, zero, suc, ◌+◌, ◌≡◌, refl, ap, subst, ◌∙◌, some, List, [], ◌∷◌, Bool-cases, inl, inr, All,
  arith, length, get_elem?, ◌==◌,
}
use statechannels.Common.Int.{ℤ, ◌+ℤ◌, ◌≤ℤ◌, int_laws}
use statechannels.Nitro.AssetHolder.{Allocation}
use statechannels.Nitro.AssetHolder.Transfer.{sum_of, IsNonneg}
use statechannels.Nitro.AssetHolder.Claim.{search, increase_at, decrease_at}

-- The array has an element at the index.
abbrev pub HasIndex : ℕ → List Allocation → Type 0
HasIndex k xs = (a : Allocation) × (get_elem? xs k ≡ some a)

pub decrease-sum :
    (k : ℕ) (n : ℤ) (xs : List Allocation)
    → HasIndex k xs
    → sum_of xs ≡ sum_of (decrease_at k n xs) +ℤ n
unfolding decrease_at sum_of
decrease-sum k n [] (a, h) = absurd (cc)
decrease-sum zero n (x ∷ xs) h = omega int_laws
decrease-sum (suc k) n (x ∷ xs) h = rw (decrease-sum k n xs h) (omega int_laws)

pub increase-sum :
    (k : ℕ) (n : ℤ) (xs : List Allocation)
    → HasIndex k xs
    → sum_of (increase_at k n xs) ≡ sum_of xs +ℤ n
unfolding increase_at sum_of
increase-sum k n [] (a, h) = absurd (cc)
increase-sum zero n (x ∷ xs) h = omega int_laws
increase-sum (suc k) n (x ∷ xs) h = rw (increase-sum k n xs h) (omega int_laws)

pub length-decrease :
    (k : ℕ) (n : ℤ) (xs : List Allocation) → length (decrease_at k n xs) ≡ length xs
unfolding decrease_at
length-decrease k n [] = refl
length-decrease zero n (x ∷ xs) = refl
length-decrease (suc k) n (x ∷ xs) = ap suc (length-decrease k n xs)

pub length-increase :
    (k : ℕ) (n : ℤ) (xs : List Allocation) → length (increase_at k n xs) ≡ length xs
unfolding increase_at
length-increase k n [] = refl
length-increase zero n (x ∷ xs) = refl
length-increase (suc k) n (x ∷ xs) = ap suc (length-increase k n xs)

pub HasIndex-of_length :
    (k : ℕ) (xs ys : List Allocation) → length xs ≡ length ys → HasIndex k xs → HasIndex k ys
HasIndex-of_length k [] ys l (a, h) = absurd (cc)
HasIndex-of_length k (x ∷ xs) [] l h = absurd (omega arith)
HasIndex-of_length zero (x ∷ xs) (y ∷ ys) l h = (y, refl)
HasIndex-of_length (suc k) (x ∷ xs) (y ∷ ys) l h = HasIndex-of_length k xs ys (omega arith) h

pub decrease-IsNonneg :
    (k : ℕ) (n : ℤ) (xs : List Allocation) {a : Allocation}
    → get_elem? xs k ≡ some a
    → n ≤ℤ a.amount
    → All IsNonneg xs
    → All IsNonneg (decrease_at k n xs)
unfolding decrease_at
decrease-IsNonneg k n [] e l h = tt
decrease-IsNonneg zero n (x ∷ xs) {a} e l h =
    let same : a ≡ x = ground arith in
    let le : n ≤ℤ x.amount = subst (λ y. n ≤ℤ y.amount) same l in (omega int_laws, h.1)
decrease-IsNonneg (suc k) n (x ∷ xs) {a} e l h = (h.0, decrease-IsNonneg k n xs {a = a} e l h.1)

pub IsNonneg-at :
    (k : ℕ) (xs : List Allocation) {a : Allocation}
    → get_elem? xs k ≡ some a
    → All IsNonneg xs
    → IsNonneg a
IsNonneg-at k [] e h = absurd (cc)
IsNonneg-at zero (x ∷ xs) {a} e h = let same : x ≡ a = ground arith in subst IsNonneg same h.0
IsNonneg-at (suc k) (x ∷ xs) {a} e h = IsNonneg-at k xs {a = a} e h.1

pub search-finds :
    (d i : ℕ) (xs : List Allocation) {j : ℕ} {a : Allocation}
    → search d i xs ≡ some (j, a)
    → (k : ℕ) × (j ≡ i + k) × (get_elem? xs k ≡ some a)
search-finds d i [] e = absurd (cc)
search-finds d i (x ∷ xs) {j} {a} e = elim (Bool-cases (d == x.destination)) [
  | inl t ↦
      let at : i ≡ j = ground arith in
      let same : x ≡ a = ground arith in (0, omega arith, ap some same)
  | inr t ↦
      let (k, at, found) = search-finds d (suc i) xs {j = j} {a = a} (ground arith) in
      (suc k, at ∙ omega arith, found)
]
