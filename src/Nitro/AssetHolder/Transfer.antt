-- ===== src/Nitro/AssetHolder/Transfer.antt =====
-- packages/nitro-protocol/src/contract/multi-asset-holder.ts: the accounts of a transfer.
use statechannels.Common.{
  ℕ, suc, ◌≡◌, refl, ◌∙◌, Bool, true, false, List, [], ◌∷◌, ◌++◌, ◌&&◌, all, All, arith,
}
use statechannels.Common.Int.{ℤ, pos, ◌+ℤ◌, ◌-ℤ◌, ◌≤ℤ◌, eqb_ℤ, int_laws}
use statechannels.Nitro.AssetHolder.{
  Allocation, min, Payout, is_paid, with_amount, iterate, pay_from, start, compute_transfer,
}

-- What the allocations come to
unfoldable pub sum_of : List Allocation → ℤ
sum_of [] = pos 0
sum_of (a ∷ as_) = a.amount +ℤ sum_of as_

abbrev pub IsNonneg : Allocation → Type 0
IsNonneg a = pos 0 ≤ℤ a.amount

abbrev pub is_zero : Allocation → Bool
is_zero a = eqb_ℤ a.amount (pos 0)

sum_of-append : (xs ys : List Allocation) → sum_of (xs ++ ys) ≡ sum_of xs +ℤ sum_of ys
unfolding sum_of
sum_of-append [] ys = omega int_laws
sum_of-append (x ∷ xs) ys = rw (sum_of-append xs ys) (omega int_laws)

sum_of-snoc :
    (xs : List Allocation) (a : Allocation) → sum_of (xs ++ a ∷ []) ≡ sum_of xs +ℤ a.amount
unfolding sum_of
sum_of-snoc xs a = rw (sum_of-append xs (a ∷ [])) (omega int_laws)

all-snoc :
    (xs : List Allocation) (a : Allocation)
    → all is_zero (xs ++ a ∷ []) ≡ (all is_zero xs && is_zero a)
all-snoc [] a = ground arith
all-snoc (x ∷ xs) a = rw (all-snoc xs a) (ground arith)

iterate-conserves :
    (paid : Bool) (a : Allocation) (p : Payout)
    → (iterate paid a p).total_payouts +ℤ sum_of (iterate paid a p).new_allocations
      ≡ p.total_payouts +ℤ sum_of p.new_allocations +ℤ a.amount
iterate-conserves true a p =
    rw (sum_of-snoc p.new_allocations (with_amount (a.amount -ℤ min a.amount p.surplus) a))
      (omega int_laws)
iterate-conserves false a p = rw (sum_of-snoc p.new_allocations a) (omega int_laws)

pay_from-conserves :
    (indices : List ℕ) (i : ℕ) (p : Payout) (as_ : List Allocation)
    → (pay_from indices i p as_).total_payouts +ℤ sum_of (pay_from indices i p as_).new_allocations
      ≡ p.total_payouts +ℤ sum_of p.new_allocations +ℤ sum_of as_
unfolding pay_from sum_of
pay_from-conserves indices i p [] = omega int_laws
pay_from-conserves indices i p (a ∷ as_) =
    let paid = is_paid indices p.next i in
    pay_from-conserves indices (suc i) (iterate paid a p) as_
    ∙ rw (iterate-conserves paid a p) (omega int_laws)

pub min_bounds :
    (a b : ℤ) → pos 0 ≤ℤ a → pos 0 ≤ℤ b → (pos 0 ≤ℤ min a b) × (min a b ≤ℤ a) × (min a b ≤ℤ b)
unfolding min
min_bounds a b h k = ground arith

-- What is paid and what is left of the surplus stay within what there was.
abbrev Within : Payout → Payout → Type 0
Within p p' =
    (p.total_payouts ≤ℤ p'.total_payouts)
    × (pos 0 ≤ℤ p'.surplus)
    × (p'.total_payouts +ℤ p'.surplus ≤ℤ p.total_payouts +ℤ p.surplus)

iterate-Within :
    (paid : Bool) (a : Allocation) (p : Payout)
    → IsNonneg a
    → pos 0 ≤ℤ p.surplus
    → Within p (iterate paid a p)
iterate-Within true a p h s =
    let (m0, m1, m2) = min_bounds a.amount p.surplus h s in
    (omega int_laws, omega int_laws, omega int_laws)
iterate-Within false a p h s =
    let (m0, m1, m2) = min_bounds a.amount p.surplus h s in
    (omega int_laws, omega int_laws, omega int_laws)

pay_from-Within :
    (indices : List ℕ) (i : ℕ) (p : Payout) (as_ : List Allocation)
    → All IsNonneg as_
    → pos 0 ≤ℤ p.surplus
    → Within p (pay_from indices i p as_)
unfolding pay_from
pay_from-Within indices i p [] h s = (omega arith, s, omega arith)
pay_from-Within indices i p (a ∷ as_) h s =
    let after = iterate (is_paid indices p.next i) a p in
    let (x, y, z) = iterate-Within (is_paid indices p.next i) a p h.0 s in
    let (x', y', z') = pay_from-Within indices (suc i) after as_ h.1 y in
    (omega arith, y', omega arith)

iterate-zeros :
    (paid : Bool) (a : Allocation) (p : Payout)
    → p.allocates_only_zeros ≡ all is_zero p.new_allocations
    → (iterate paid a p).allocates_only_zeros ≡ all is_zero (iterate paid a p).new_allocations
iterate-zeros true a p h =
    rw (all-snoc p.new_allocations (with_amount (a.amount -ℤ min a.amount p.surplus) a), h)
      (ground arith)
iterate-zeros false a p h = rw (all-snoc p.new_allocations a, h) (ground arith)

pay_from-zeros :
    (indices : List ℕ) (i : ℕ) (p : Payout) (as_ : List Allocation)
    → p.allocates_only_zeros ≡ all is_zero p.new_allocations
    → (pay_from indices i p as_).allocates_only_zeros
      ≡ all is_zero (pay_from indices i p as_).new_allocations
unfolding pay_from
pay_from-zeros indices i p [] h = h
pay_from-zeros indices i p (a ∷ as_) h =
    let paid = is_paid indices p.next i in
    pay_from-zeros indices (suc i) (iterate paid a p) as_ (iterate-zeros paid a p h)

-- Where neither the holdings nor an allocation is negative, a transfer's payouts and the allocations that it
-- leaves come to the allocations that it was given, for whatever indices; the payouts lie between nothing
-- and the holdings; and the flag of the result says whether only zeros are left.
pub compute_transfer_conserves :
    (holdings : ℤ) (allocations : List Allocation) (indices : List ℕ)
    → All IsNonneg allocations
    → pos 0 ≤ℤ holdings
    → let r = compute_transfer holdings allocations indices in
      (r.total_payouts +ℤ sum_of r.new_allocations ≡ sum_of allocations)
      × (pos 0 ≤ℤ r.total_payouts)
      × (r.total_payouts ≤ℤ holdings)
      × (r.allocates_only_zeros ≡ all is_zero r.new_allocations)
unfolding compute_transfer sum_of
compute_transfer_conserves holdings allocations indices h k =
    let p = start holdings allocations indices in
    let (x, y, z) = pay_from-Within indices 0 p allocations h k in
    (
      pay_from-conserves indices 0 p allocations ∙ omega int_laws,
      x,
      omega int_laws,
      pay_from-zeros indices 0 p allocations refl,
    )
