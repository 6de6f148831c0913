-- ===== src/Server/Status/Ready.antt =====
-- packages/server-wallet/src/protocols/state.ts against direct-funder.ts: a channel that is ready to fund.
use statechannels.Common.{ℕ, suc, ◌≡◌, not, some, List, ◌==◌, find, take, take_while}
use statechannels.Common.Int.{◌+ℤ◌, sum}
use statechannels.WalletCore.Types.{Destination, AllocationItem}
use statechannels.WalletCore.DirectFunder.{amounts}

-- The first item of a destination, the items before it, and those with it
abbrev Slices : Destination → List AllocationItem → ℕ → Type 0
Slices d items k =
    (mine : AllocationItem) × (find (λ i. i.destination == d) items ≡ some mine)
    × (take k items ≡ take_while (λ i. not (i.destination == d)) items)
    × (sum (amounts (take (suc k) items)) ≡ sum (amounts (take k items)) +ℤ mine.amount)
