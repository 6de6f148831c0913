-- ===== src/Nitro/AssetHolder/Claim/Conserved.antt =====
-- packages/nitro-protocol/src/contract/multi-asset-holder.ts: the accounts of a claim.
use statechannels.Common.{ℕ, ◌≡◌, List, All, length}
use statechannels.Common.Int.{ℤ, pos, ◌+ℤ◌, ◌-ℤ◌, ◌≤ℤ◌}
use statechannels.Nitro.AssetHolder.{Allocation}
use statechannels.Nitro.AssetHolder.Transfer.{sum_of, IsNonneg}
use statechannels.Nitro.AssetHolder.Claim.{Claim}
use statechannels.Nitro.AssetHolder.Claim.Amounts.{HasIndex}

-- What the loops need of their variables
record Ready (index : ℕ) (source target exits : List Allocation) (surplus : ℤ) : Type 0 where
  pub has : HasIndex index source
  pub same_length : length target ≡ length exits
  pub nonneg : All IsNonneg target
  pub funds : pos 0 ≤ℤ surplus

abbrev IsReady : ℕ → Claim → Type 0
IsReady index c = Ready index c.new_source c.new_target c.exit_allocations c.surplus

-- What they do to the accounts
abbrev Moves : Claim → Claim → Type 0
Moves c c' =
    (c'.total_payouts +ℤ sum_of c'.new_target ≡ c.total_payouts +ℤ sum_of c.new_target)
    × (c'.total_payouts +ℤ sum_of c'.new_source ≡ c.total_payouts +ℤ sum_of c.new_source)
    × (c'.total_payouts -ℤ sum_of c'.exit_allocations
        ≡ c.total_payouts -ℤ sum_of c.exit_allocations)
    × (c.total_payouts ≤ℤ c'.total_payouts)
    × (c'.total_payouts +ℤ c'.surplus ≤ℤ c.total_payouts +ℤ c.surplus)

-- What holds of the result of the loops, from a surplus
abbrev pub Claims : ℤ → List Allocation → List Allocation → Claim → Type 0
Claims surplus source target r =
    (r.total_payouts +ℤ sum_of r.new_target ≡ sum_of target)
    × (r.total_payouts +ℤ sum_of r.new_source ≡ sum_of source)
    × (r.total_payouts ≡ sum_of r.exit_allocations)
    × (pos 0 ≤ℤ r.total_payouts)
    × (r.total_payouts ≤ℤ surplus)
