-- ===== src/Server/Defunder/Submitters.antt =====
-- packages/server-wallet/src/protocols/defunder.ts: who submits the transaction that concludes a channel.
use statechannels.Common.{ℕ, ◌≡◌, true, false, Option, List, [], ◌∷◌, ◌⊎◌}
use statechannels.Common.Results.{ok}
use statechannels.WalletCore.Types.{AllocationItem}
use statechannels.Server.Channel.{Channel}
use statechannels.Server.Channel.Queries.{allocation_item_for_participant_index}
use statechannels.Server.Store.{Env}
use statechannels.Server.Defunder.{is_positive_item}

module _ (env : Env) (now : ℕ) where
  -- The participant at an index has no funds in the channel.
  abbrev pub Unfunded : Channel → ℕ → Type 0
  Unfunded ch i =
      (item : Option AllocationItem) × (allocation_item_for_participant_index env.checks ch i
        ≡ ok item)
      × (is_positive_item item ≡ false)

  abbrev pub HasFunds : Channel → ℕ → Type 0
  HasFunds ch i =
      (item : Option AllocationItem) × (allocation_item_for_participant_index env.checks ch i
        ≡ ok item)
      × (is_positive_item item ≡ true)

  -- The first of an order who has funds
  abbrev pub FirstFunded : Channel → List ℕ → ℕ → Type 0
  FirstFunded ch [] k = true ≡ false
  FirstFunded ch (i ∷ is) k = ((i ≡ k) × HasFunds ch i) ⊎ (Unfunded ch i × FirstFunded ch is k)

  -- The participants of one channel see the same items.
  abbrev pub SameItems : Channel → Channel → Type 0
  SameItems c d =
      (i : ℕ)
      → allocation_item_for_participant_index env.checks c i
        ≡ allocation_item_for_participant_index env.checks d i
