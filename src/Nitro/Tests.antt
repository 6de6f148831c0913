-- ===== src/Nitro/Tests.antt =====
-- Runs of packages/nitro-protocol/src/contract/multi-asset-holder.ts, and its theorems at these inputs.
use statechannels.Nitro.ChannelStorage.{
  Hashes, ChannelData, channel_data_to_status, parse_status, fingerprint_of,
  parse_status-channel_data_to_status,
}
use statechannels.Common.{◌*◌, ◌+◌, ℕ, ◌≡◌, refl, false, List, [], ◌∷◌, some, all, arith}
use statechannels.Common.Int.{pos, ◌+ℤ◌, ◌-ℤ◌, ◌≤ℤ◌}
use statechannels.Common.Results.{ok}
use statechannels.Nitro.AssetHolder.{Allocation, Payout, min, set_at, pay_from, compute_transfer}
use statechannels.Nitro.AssetHolder.Transfer.{sum_of, is_zero, compute_transfer_conserves}
use statechannels.Nitro.AssetHolder.Claim.{Claim}

abbrev allocation : ℕ → ℕ → Allocation
allocation d a = record { destination = d; amount = pos a; metadata = 0; allocation_type = 0 }

abbrev guaranteed : ℕ → ℕ → Allocation
guaranteed d a = record { destination = d; amount = pos a; metadata = 0; allocation_type = 1 }

-- Of holdings of 6 the first gets 5 and the second 1 of 3, of which only the second is asked for.
abbrev paid_second : Payout
paid_second = record {
  new_allocations = allocation 11 5 ∷ allocation 12 2 ∷ [];
  allocates_only_zeros = false;
  exit_allocations = allocation 12 1 ∷ [];
  total_payouts = pos 1;
  surplus = pos 0;
  next = 1;
}

transferred :
    compute_transfer (pos 6) (allocation 11 5 ∷ allocation 12 3 ∷ []) (1 ∷ []) ≡ paid_second
unfolding compute_transfer pay_from min set_at ◌+ℤ◌ ◌-ℤ◌
transferred = refl

compute_transfer_conserves_example :
    let r = compute_transfer (pos 6) (allocation 11 5 ∷ allocation 12 3 ∷ []) (1 ∷ []) in
    (r.total_payouts +ℤ sum_of r.new_allocations ≡ sum_of (allocation 11 5 ∷ allocation 12 3 ∷ []))
    × (pos 0 ≤ℤ r.total_payouts)
    × (r.total_payouts ≤ℤ pos 6)
    × (r.allocates_only_zeros ≡ all is_zero r.new_allocations)
compute_transfer_conserves_example =
    compute_transfer_conserves (pos 6) (allocation 11 5 ∷ allocation 12 3 ∷ []) (1 ∷ [])
      (omega arith, (omega arith, tt)) (omega arith)

abbrev source : List Allocation
source = allocation 11 2 ∷ guaranteed 90 5 ∷ []

abbrev target : List Allocation
target = allocation 11 1 ∷ allocation 12 4 ∷ []

-- The guarantee names 12 first, which takes all of the 4 that are left for it.
abbrev claimed_all : Claim
claimed_all = record {
  new_source = allocation 11 2 ∷ guaranteed 90 1 ∷ [];
  new_target = allocation 11 1 ∷ allocation 12 0 ∷ [];
  exit_allocations = allocation 11 0 ∷ allocation 12 4 ∷ [];
  total_payouts = pos 4;
  surplus = pos 0;
  next = 1;
}

abbrev twelve_first : ℕ → List ℕ
twelve_first metadata = 12 ∷ 11 ∷ []

-- Of a channel that is open, the hashes are zero.
abbrev hashes : Hashes ℕ ℕ
hashes = record { hash_state = λ s. s; hash_outcome = λ o. o; hash_preimage = λ s o. s * 1000 + o }

abbrev challenged : ChannelData ℕ ℕ
challenged = record { turn_num_record = 5; finalizes_at = 30; state = some 7; outcome = some 8 }

parse_status-channel_data_to_status_example :
    (word : ℕ) × (channel_data_to_status hashes challenged ≡ ok word)
    × (parse_status word
        ≡ ok (record {
          turn_num_record = 5;
          finalizes_at = 30;
          fingerprint = fingerprint_of hashes challenged;
        }))
parse_status-channel_data_to_status_example =
    parse_status-channel_data_to_status hashes challenged (omega arith) (omega arith)

challenged_fingerprint : fingerprint_of hashes challenged ≡ 7008
unfolding fingerprint_of
challenged_fingerprint = refl
