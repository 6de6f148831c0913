-- ===== src/Server/AllocationOutcome.antt =====
-- packages/server-wallet/src/models/channel/outcome.ts: the class `SimpleAllocationOutcome`, a ledger's
-- allocation to which channels are added and from which they are removed. A method that mutates the
-- outcome returns the new one; `none` is the `undefined` of a refusal, before any mutation. Amounts
-- are strings in the normal form of `BN`, so the deep comparison of `_.remove` is
-- `are_allocation_items_equal`.
pub mod Accounts
pub mod Steps
pub mod Conservation
pub mod RoundTrip
pub mod Overdraft
use statechannels.Common.{
  ℕ, Bool, true, false, not, Option, none, some, List, [], ◌∷◌, ◌++◌, ◌&&◌, ◌==◌, map,
  if◌then◌else◌, length, find, filter,
}
use statechannels.Common.Int.{ℤ, ◌+ℤ◌, ◌-ℤ◌, leb_ℤ, eqb_ℤ, foldl}
use statechannels.Common.Results.{
  Result, ok, err, ◌>>=◌, ◌>>◌, throw_if, different_lengths, reduce_of_empty,
}
use statechannels.WalletCore.Types.{Destination, AllocationItem, SimpleAllocation}
use statechannels.WalletCore.Outcome.{are_allocation_items_equal}

abbrev pub destinations : SimpleAllocation → List Destination
destinations o = map (λ i. i.destination) o.allocation_items

-- `itemFor`
abbrev pub item_for : Destination → List AllocationItem → Option AllocationItem
item_for d = find (λ i. i.destination == d)

-- `balanceFor`
abbrev pub balance_for : Destination → SimpleAllocation → Option ℤ
balance_for d o = elim (item_for d o.allocation_items) [ none ↦ none | some i ↦ some i.amount ]

-- `_.every(_.zip(…).map(allocationItemsEqual))`: the shorter list is padded, and then differs.
unfoldable pub items_equal : List AllocationItem → List AllocationItem → Bool
items_equal [] [] = true
items_equal [] (b ∷ bs) = false
items_equal (a ∷ as_) [] = false
items_equal (a ∷ as_) (b ∷ bs) = are_allocation_items_equal a b && items_equal as_ bs

-- `isEqualTo`, of an outcome that is there
unfoldable pub is_equal_to : SimpleAllocation → SimpleAllocation → Bool
is_equal_to o p = o.asset == p.asset && items_equal o.allocation_items p.allocation_items

-- `xs.reduce(BN.add)`, which throws on an empty array
unfoldable pub reduce_amounts : List ℤ → Result ℤ
reduce_amounts [] = err reduce_of_empty
reduce_amounts (x ∷ xs) = ok (foldl ◌+ℤ◌ x xs)

-- `_.zip`, of lists of one length
abbrev pub zip : List Destination → List ℤ → List (Destination × ℤ)
zip [] as_ = []
zip (d ∷ ds) [] = []
zip (d ∷ ds) (a ∷ as_) = (d, a) ∷ zip ds as_

-- `item.amount = BN.add(item.amount, amt)`, for the item that `itemFor` finds
unfoldable pub credit : Destination × ℤ → List AllocationItem → List AllocationItem
credit da [] = []
credit da (i ∷ is) =
    if i.destination == da.0 then record i { amount = i.amount +ℤ da.1 } ∷ is else i ∷ credit da is

-- `item.amount = BN.sub(item.amount, amt)`
unfoldable pub charge : Destination × ℤ → List AllocationItem → List AllocationItem
charge da [] = []
charge da (i ∷ is) =
    if i.destination == da.0 then record i { amount = i.amount -ℤ da.1 } ∷ is else i ∷ charge da is

-- The refunds in turn. The item of the removed channel itself is no longer in the list.
unfoldable pub refund_all :
    Destination → List (Destination × ℤ) → List AllocationItem → List AllocationItem
refund_all channel [] items = items
refund_all channel (da ∷ das) items =
    refund_all channel das (if da.0 == channel then items else credit da items)

unfoldable pub charge_all : List (Destination × ℤ) → List AllocationItem → List AllocationItem
charge_all [] items = items
charge_all (da ∷ das) items = charge_all das (charge da items)

-- Every destination of the list has an item.
abbrev pub all_found : List Destination → List AllocationItem → Bool
all_found [] items = true
all_found (d ∷ ds) items = elim (item_for d items) [ none ↦ false | some _ ↦ all_found ds items ]

-- `remove` after its checks: `_.remove` takes out every item like the one found.
abbrev pub removed :
    Destination → List (Destination × ℤ) → AllocationItem → SimpleAllocation → SimpleAllocation
removed channel refunds item o = record o {
  allocation_items =
      refund_all channel refunds
        (filter (λ i. not (are_allocation_items_equal i item)) o.allocation_items);
}

-- `remove`
unfoldable pub remove :
    Destination → List Destination → List ℤ → SimpleAllocation → Result (Option SimpleAllocation)
remove channel dests amounts o =
    throw_if (not (length dests == length amounts)) different_lengths
    >> (elim (item_for channel o.allocation_items) [
      | none ↦ ok none
      | some item ↦
          if not (all_found dests o.allocation_items)
          then ok none
          else reduce_amounts amounts >>= λ total. ok (
              if eqb_ℤ item.amount total
              then some (removed channel (zip dests amounts) item o)
              else none)
    ])

-- The loop of checks in `add`: every source has an item with enough in it.
unfoldable pub sources_suffice : List (Destination × ℤ) → List AllocationItem → Bool
sources_suffice [] items = true
sources_suffice (da ∷ das) items = elim (item_for da.0 items) [
  | none ↦ false
  | some i ↦ leb_ℤ da.1 i.amount && sources_suffice das items
]

-- `add` after its checks
abbrev pub added : Destination → List (Destination × ℤ) → ℤ → SimpleAllocation → SimpleAllocation
added channel charges total o =
    let new_item : AllocationItem = record { destination = channel; amount = total } in
    record o { allocation_items = charge_all charges (o.allocation_items ++ new_item ∷ []) }

-- `add`
unfoldable pub add :
    Destination → List Destination → List ℤ → SimpleAllocation → Result (Option SimpleAllocation)
add channel sources amounts o =
    throw_if (not (length sources == length amounts)) different_lengths
    >> (if not (sources_suffice (zip sources amounts) o.allocation_items)
        then ok none
        else reduce_amounts amounts >>= λ total.
            ok (some (added channel (zip sources amounts) total o)))
