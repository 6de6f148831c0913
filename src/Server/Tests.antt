-- ===== src/Server/Tests.antt =====
-- Runs of packages/server-wallet on a ledger of two participants, and the theorems at these inputs.
use statechannels.Common.{ℕ, ◌≡◌, refl, true, some, none, [], ◌∷◌, ◌==◌, arith}
use statechannels.Common.Int.{ℤ, pos, ◌+ℤ◌, ◌-ℤ◌, sum, ltb_ℤ}
use statechannels.Common.Results.{ok, err, different_lengths}
use statechannels.WalletCore.Types.{AllocationItem, SimpleAllocation}
use statechannels.Server.AllocationOutcome.{
  add, remove, zip, sources_suffice, reduce_amounts, charge, charge_all, balance_for,
}
use statechannels.Server.AllocationOutcome.Accounts.{Party, everyone, share, held_by, owed_by}
use statechannels.Server.AllocationOutcome.Conservation.{add_accounts}
use statechannels.Server.AllocationOutcome.RoundTrip.{add-remove}
use statechannels.Server.AllocationOutcome.Overdraft.{add_overdraws}

abbrev item : ℕ → ℕ → AllocationItem
item d a = record { destination = d; amount = pos a }

abbrev ledger : SimpleAllocation
ledger = record { asset = 0; allocation_items = item 11 5 ∷ item 12 3 ∷ [] }

abbrev with_channel : SimpleAllocation
with_channel = record { asset = 0; allocation_items = item 11 3 ∷ item 12 2 ∷ item 99 3 ∷ [] }

abbrev alice_only : Party
alice_only d = d == 11

funded : add 99 (11 ∷ 12 ∷ []) (pos 2 ∷ pos 1 ∷ []) ledger ≡ ok (some with_channel)
unfolding add sources_suffice reduce_amounts charge_all charge ◌+ℤ◌ ◌-ℤ◌
funded = refl

uneven : add 99 (11 ∷ []) (pos 2 ∷ pos 1 ∷ []) ledger ≡ err different_lengths
unfolding add
uneven = refl

unaffordable : add 99 (11 ∷ 12 ∷ []) (pos 2 ∷ pos 4 ∷ []) ledger ≡ ok none
unfolding add sources_suffice
unaffordable = refl

add_accounts_example :
    (held_by alice_only with_channel.allocation_items
        +ℤ owed_by alice_only (zip (11 ∷ 12 ∷ []) (pos 2 ∷ pos 1 ∷ []))
      ≡ held_by alice_only ledger.allocation_items
        +ℤ share alice_only 99 (sum (pos 2 ∷ pos 1 ∷ [])))
    × (held_by everyone with_channel.allocation_items ≡ held_by everyone ledger.allocation_items)
    × (with_channel.asset ≡ ledger.asset)
add_accounts_example =
    add_accounts alice_only 99 (11 ∷ 12 ∷ []) (pos 2 ∷ pos 1 ∷ []) ledger {o' = with_channel} funded

add-remove_example : remove 99 (11 ∷ 12 ∷ []) (pos 2 ∷ pos 1 ∷ []) with_channel ≡ ok (some ledger)
add-remove_example =
    add-remove 99 (11 ∷ 12 ∷ []) (pos 2 ∷ pos 1 ∷ []) ledger {o' = with_channel} refl funded

-- Alice is the source twice: 5 is enough for 3 and for 4, and she is left with -2.
add_overdraws_example :
    (o' : SimpleAllocation) × (left : ℤ) × (add 99 (11 ∷ 11 ∷ []) (pos 3 ∷ pos 4 ∷ []) ledger
      ≡ ok (some o'))
    × (balance_for 11 o' ≡ some left)
    × (ltb_ℤ left (pos 0) ≡ true)
add_overdraws_example =
    add_overdraws 99 11 (pos 3) (pos 4) ledger {i = item 11 5} refl (omega arith) (omega arith) over
  where
    over : ltb_ℤ (pos 5) (pos 3 +ℤ pos 4) ≡ true
    over = unfold ◌+ℤ◌ in refl
