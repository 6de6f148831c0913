-- ===== src/WalletCore/StateUtils/Equality.antt =====
-- packages/wallet-core/src/state-utils.ts: which outcomes `outcomesEqual` takes for equal.
use statechannels.Common.{ℕ, ◌≡◌, refl, ap, ap₂, true, List, [], ◌∷◌, subst, ◌↔◌, arith}
use statechannels.Common.Int.{eqb_ℤ→eq}
use statechannels.WalletCore.Types.{
  AllocationItem, SimpleAllocation, SimpleGuarantee, Outcome, simple_allocation, mixed_allocation,
  simple_guarantee,
}
use statechannels.Nitro.Transition.{same_addresses}
use statechannels.Nitro.Transition.Histories.{same_addresses→eq}
use statechannels.WalletCore.StateUtils.{
  items_agree, simple_allocations_equal, allocations_agree, guarantees_equal, outcomes_equal,
}

same_addresses_refl : (xs : List ℕ) → same_addresses xs xs ≡ true
same_addresses_refl [] = refl
same_addresses_refl (x ∷ xs) = let rest = same_addresses_refl xs in ground arith

pub items_agree→eq : (l r : List AllocationItem) → items_agree l r ≡ true → l ≡ r
items_agree→eq [] [] h = refl
items_agree→eq [] (j ∷ js) h = absurd (cc)
items_agree→eq (i ∷ is) [] h = absurd (cc)
items_agree→eq (i ∷ is) (j ∷ js) h =
    let amounts = eqb_ℤ→eq i.amount j.amount (ground arith) in
    let here : i ≡ j = ground arith in ap₂ ◌∷◌ here (items_agree→eq is js (ground arith))

items_agree_refl : (l : List AllocationItem) → items_agree l l ≡ true
items_agree_refl [] = refl
items_agree_refl (i ∷ is) = let rest = items_agree_refl is in ground arith

simple_allocations_equal→eq : (l r : SimpleAllocation) → simple_allocations_equal l r ≡ true → l ≡ r
unfolding simple_allocations_equal
simple_allocations_equal→eq l r h =
    let items = items_agree→eq l.allocation_items r.allocation_items (ground arith) in ground arith

simple_allocations_equal_refl : (l : SimpleAllocation) → simple_allocations_equal l l ≡ true
unfolding simple_allocations_equal
simple_allocations_equal_refl l = let items = items_agree_refl l.allocation_items in ground arith

allocations_agree→eq : (l r : List SimpleAllocation) → allocations_agree l r ≡ true → l ≡ r
allocations_agree→eq [] [] h = refl
allocations_agree→eq [] (r ∷ rs) h = absurd (cc)
allocations_agree→eq (l ∷ ls) [] h = absurd (cc)
allocations_agree→eq (l ∷ ls) (r ∷ rs) h =
    ap₂ ◌∷◌ (simple_allocations_equal→eq l r (ground arith))
      (allocations_agree→eq ls rs (ground arith))

allocations_agree_refl : (l : List SimpleAllocation) → allocations_agree l l ≡ true
allocations_agree_refl [] = refl
allocations_agree_refl (l ∷ ls) =
    let here = simple_allocations_equal_refl l in
    let rest = allocations_agree_refl ls in ground arith

guarantees_equal→eq : (l r : SimpleGuarantee) → guarantees_equal l r ≡ true → l ≡ r
guarantees_equal→eq l r h =
    let dests = same_addresses→eq l.destinations r.destinations (ground arith) in ground arith

outcomes_equal→eq : (l r : Outcome) → outcomes_equal l r ≡ true → l ≡ r
unfolding outcomes_equal
outcomes_equal→eq (simple_allocation l) (simple_allocation r) h =
    ap simple_allocation (simple_allocations_equal→eq l r h)
outcomes_equal→eq (simple_allocation l) (mixed_allocation r) h = absurd (cc)
outcomes_equal→eq (simple_allocation l) (simple_guarantee r) h = absurd (cc)
outcomes_equal→eq (mixed_allocation l) (simple_allocation r) h = absurd (cc)
outcomes_equal→eq (mixed_allocation l) (mixed_allocation r) h =
    ap mixed_allocation (allocations_agree→eq l r (ground arith))
outcomes_equal→eq (mixed_allocation l) (simple_guarantee r) h = absurd (cc)
outcomes_equal→eq (simple_guarantee l) (simple_allocation r) h = absurd (cc)
outcomes_equal→eq (simple_guarantee l) (mixed_allocation r) h = absurd (cc)
outcomes_equal→eq (simple_guarantee l) (simple_guarantee r) h =
    ap simple_guarantee (guarantees_equal→eq l r h)

outcomes_equal_refl : (o : Outcome) → outcomes_equal o o ≡ true
unfolding outcomes_equal
outcomes_equal_refl (simple_allocation l) = simple_allocations_equal_refl l
outcomes_equal_refl (mixed_allocation l) = let rest = allocations_agree_refl l in ground arith
outcomes_equal_refl (simple_guarantee l) =
    let dests = same_addresses_refl l.destinations in ground arith

-- `outcomesEqual` says `true` of equal outcomes, of each of the three types, and of no others.
pub outcomes_equal_iff : (l r : Outcome) → (outcomes_equal l r ≡ true) ↔ (l ≡ r)
outcomes_equal_iff l r =
    (outcomes_equal→eq l r, λ e. subst (λ o. outcomes_equal l o ≡ true) e (outcomes_equal_refl l))
