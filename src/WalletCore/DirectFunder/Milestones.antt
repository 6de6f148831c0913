-- ===== src/WalletCore/DirectFunder/Milestones.antt =====
-- `utils.fundingMilestone` of packages/wallet-core/src/protocols/direct-funder.ts: where my deposit
-- starts, where it stops, and the whole.
use statechannels.Common.{
  ◌≡◌, not, List, [], ◌∷◌, ◌==◌, find, take_while, All, arith, some, Bool-cases, inl, inr,
  Option-cases,
}
use statechannels.Common.Int.{pos, ◌+ℤ◌, ◌≤ℤ◌, sum, reduce_add-eq-sum, +ℤ_parts, int_laws}
use statechannels.Common.Results.{ok, ◌>>=◌}
use statechannels.WalletCore.Types.{
  Destination, AllocationItem, Outcome, State, simple_allocation, mixed_allocation,
  simple_guarantee,
}
use statechannels.WalletCore.Outcome.{check_simple_allocation}
use statechannels.WalletCore.Outcome.Allocate.{IsNonneg}
use statechannels.WalletCore.DirectFunder.{
  amounts, FundingMilestone, milestones_in, funding_milestone,
}

-- The items of a simple allocation; the other outcomes have none of their own.
abbrev pub items_of : Outcome → List AllocationItem
items_of (simple_allocation a) = a.allocation_items
items_of _ = []

sum_nonneg : (is : List AllocationItem) → All IsNonneg is → pos 0 ≤ℤ sum (amounts is)
unfolding sum
sum_nonneg [] h = omega arith
sum_nonneg (i ∷ is) h = ground (arith, +ℤ_parts i.amount (sum (amounts is)), sum_nonneg is h.1)

sums_in_order :
    (d : Destination) (is : List AllocationItem) (mine : AllocationItem)
    → All IsNonneg is
    → find (λ i. i.destination == d) is ≡ some mine
    → let before = sum (amounts (take_while (λ i. not (i.destination == d)) is)) in
      (pos 0 ≤ℤ before) × (pos 0 ≤ℤ mine.amount) × (before +ℤ mine.amount ≤ℤ sum (amounts is))
unfolding sum
sums_in_order d [] mine h e = absurd (cc)
sums_in_order d (i ∷ is) mine h e = elim (Bool-cases (i.destination == d)) [
  | inl here ↦
      let same : i ≡ mine = ground arith in
      let tail = sum_nonneg is h.1 in rw here (rw (← same) (omega arith, h.0, omega int_laws))
  | inr later ↦
      let (b, m, t) = sums_in_order d is mine h.1 (ground arith) in
      rw later (omega int_laws, m, omega int_laws)
]

pub milestones_in_order :
    (is : List AllocationItem) (d : Destination) {m : FundingMilestone}
    → All IsNonneg is
    → milestones_in is d ≡ ok m
    → (mine : AllocationItem) × (find (λ i. i.destination == d) is ≡ some mine)
      × (m.target_after ≡ m.target_before +ℤ mine.amount)
      × (pos 0 ≤ℤ m.target_before)
      × (m.target_before ≤ℤ m.target_after)
      × (m.target_after ≤ℤ m.target_total)
      × (m.target_total ≡ sum (amounts is))
unfolding milestones_in
milestones_in_order is d {m} h e = elim (Option-cases (find (λ i. i.destination == d) is)) [
  | inl missing ↦ absurd (ground arith)
  | inr (mine, found) ↦
      let before = take_while (λ i. not (i.destination == d)) is in
      let (b, own, t) = sums_in_order d is mine h found in
      let e_before : m.target_before ≡ sum (amounts before) =
        ground (arith, reduce_add-eq-sum (amounts before)) in
      let e_after : m.target_after ≡ m.target_before +ℤ mine.amount = ground arith in
      let e_total : m.target_total ≡ sum (amounts is) =
        ground (arith, reduce_add-eq-sum (amounts is)) in
      (
        mine,
        found,
        e_after,
        rw e_before b,
        rw e_after (omega int_laws),
        rw (e_after, e_before, e_total) t,
        e_total,
      )
]

-- A milestone that is found is that of the items of a simple allocation.
milestones_in-items_of :
    (o : Outcome) (d : Destination) {m : FundingMilestone}
    → (check_simple_allocation o >>= λ a. milestones_in a.allocation_items d) ≡ ok m
    → milestones_in (items_of o) d ≡ ok m
milestones_in-items_of (simple_allocation a) d e = e
milestones_in-items_of (mixed_allocation p) d e = absurd (cc)
milestones_in-items_of (simple_guarantee g) d e = absurd (cc)

-- With no negative item, the milestones rise from zero to the whole allocation, and what lies between
-- the first two is the first item of my destination.
pub funding_milestone_order :
    (s : State) (d : Destination) {m : FundingMilestone}
    → All IsNonneg (items_of s.outcome)
    → funding_milestone s d ≡ ok m
    → (mine : AllocationItem) × (find (λ i. i.destination == d) (items_of s.outcome) ≡ some mine)
      × (m.target_after ≡ m.target_before +ℤ mine.amount)
      × (pos 0 ≤ℤ m.target_before)
      × (m.target_before ≤ℤ m.target_after)
      × (m.target_after ≤ℤ m.target_total)
      × (m.target_total ≡ sum (amounts (items_of s.outcome)))
unfolding funding_milestone
funding_milestone_order s d h e =
    milestones_in_order (items_of s.outcome) d h (milestones_in-items_of s.outcome d e)
