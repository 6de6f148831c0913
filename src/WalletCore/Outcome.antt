-- ===== src/WalletCore/Outcome.antt =====
-- packages/wallet-core/src/utils/outcome.ts: paying a new channel out of a ledger's allocation.
-- Destinations are in the normal form that `makeDestination` gives, on which it is the identity.
pub mod Allocate
pub mod Refusals
use statechannels.Common.{
  ℕ, Bool, true, false, List, [], ◌∷◌, ◌++◌, ◌&&◌, ◌==◌, if◌then◌else◌, filter,
}
use statechannels.Common.Int.{ℤ, pos, ◌+ℤ◌, ◌-ℤ◌, ltb_ℤ, eqb_ℤ}
use statechannels.Common.Results.{
  Result, ok, err, ◌>>=◌, invalid_outcome_type, destination_missing, insufficient_funds, not_valid,
}
use statechannels.WalletCore.Types.{
  Destination, AllocationItem, SimpleAllocation, Outcome, simple_allocation, mixed_allocation,
  simple_guarantee,
}

-- `isSimpleAllocation`
abbrev pub is_simple_allocation : Outcome → Bool
is_simple_allocation (simple_allocation a) = true
is_simple_allocation _ = false

-- `checkThat(outcome, isSimpleAllocation)`
abbrev pub check_simple_allocation : Outcome → Result SimpleAllocation
check_simple_allocation (simple_allocation a) = ok a
check_simple_allocation _ = err not_valid

-- `areAllocationItemsEqual`
unfoldable pub are_allocation_items_equal : AllocationItem → AllocationItem → Bool
are_allocation_items_equal a b = a.destination == b.destination && eqb_ℤ a.amount b.amount

-- `BN.gt(i.amount, 0)`
abbrev pub is_positive : AllocationItem → Bool
is_positive i = ltb_ℤ (pos 0) i.amount

-- One round of the `forEach`: the first item of the destination pays. The item is one of a copy
-- that the function owns, so the assignment before the test is not seen when the test throws.
unfoldable pub debit : List AllocationItem → AllocationItem → Result (List AllocationItem)
debit [] t = err destination_missing
debit (i ∷ is) t =
    let left = i.amount -ℤ t.amount in
    let paid =
      if ltb_ℤ left (pos 0) then err insufficient_funds else ok (record i { amount = left } ∷ is) in
    let rest = debit is t >>= λ js. ok (i ∷ js) in
    if i.destination == t.destination then paid else rest

-- The `forEach`, over the items and the running total.
unfoldable pub deduct :
    List AllocationItem → ℤ → List AllocationItem → Result (List AllocationItem × ℤ)
deduct items total [] = ok (items, total)
deduct items total (t ∷ ts) = debit items t >>= λ items'. deduct items' (total +ℤ t.amount) ts

-- What follows the `forEach`: the target's item is added, and items of nothing are dropped.
abbrev pub paid : SimpleAllocation → Destination → List AllocationItem × ℤ → Result SimpleAllocation
paid current target (items, total) =
    let target_item : AllocationItem = record { destination = target; amount = total } in
    ok (record current { allocation_items = filter is_positive (items ++ target_item ∷ []) })

-- `allocateToTarget`
unfoldable pub allocate_to_target :
    Outcome → List AllocationItem → Destination → Result SimpleAllocation
allocate_to_target (simple_allocation current) deductions target =
    deduct current.allocation_items (pos 0) (filter is_positive deductions) >>= paid current target
allocate_to_target (mixed_allocation parts) deductions target = err invalid_outcome_type
allocate_to_target (simple_guarantee g) deductions target = err invalid_outcome_type
