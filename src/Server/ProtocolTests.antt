-- ===== src/Server/ProtocolTests.antt =====
-- Runs of the ledger protocol of packages/server-wallet, and its theorems at these inputs.
use statechannels.Common.{
  ℕ, ◌≡◌, refl, ◌≢◌, ◌⊎◌, false, some, none, List, [], ◌∷◌, ◌==◌, if◌then◌else◌,
}
use statechannels.Common.Int.{pos, ◌+ℤ◌, ◌-ℤ◌}
use statechannels.Common.Results.{ok, err, cancellation_not_queued}
use statechannels.WalletCore.Types.{
  Participant, AllocationItem, SimpleAllocation, simple_allocation, SignatureEntry, SignedState,
}
use statechannels.WalletCore.Outcome.{are_allocation_items_equal}
use statechannels.Server.AllocationOutcome.{
  add, sources_suffice, reduce_amounts, charge, charge_all, is_equal_to, items_equal,
}
use statechannels.Server.LedgerRequest.{
  LedgerRequest, fund, defund, new_request, pending, succeeded,
}
use statechannels.Server.LedgerState.{
  simple_allocation_outcome, fully_signed, advance_to_outcome, Ledger, LedgerState, violation,
  signed_by_index, determine_ledger_state,
}
use statechannels.Server.LedgerState.Determined.{Reads, determine_ledger_state-Reads}
use statechannels.Server.LedgerProtocol.{
  judge, mark_successes_and_inconsistencies, update_state_seen_and_missed_ops,
  reset_pending_requests_to_queued, mark_included_requests_as_pending,
  identify_potential_cancellations, apply_cancellations, process_agreed_state, build_defunds,
  build_fundings, insert_by_channel, sort_by_channel, build_outcome,
}
use statechannels.Server.LedgerProtocol.Cranks.{
  uniq, changed_destinations, compare_changes_with_requests, crank_as_leader_in_agreement,
  crank_as_follower_in_proposal, crank,
}
use statechannels.Server.LedgerProtocol.RequestIdentity.{identities}
use statechannels.Server.LedgerProtocol.Untouched.{crank-identities}
use statechannels.Server.LedgerProtocol.Outcomes.{SameFunds, build_outcome-SameFunds}
use statechannels.Server.LedgerProtocol.Comparing.{Fits}
use statechannels.Server.LedgerProtocol.Signing.{
  Answers, leader_in_agreement-SameFunds, follower_in_proposal-SameFunds,
}
use statechannels.Server.LedgerProtocol.Balances.{follower_signs_any_amounts}
use statechannels.Server.LedgerProtocol.Stalled.{follower_stalls}

abbrev item : ℕ → ℕ → AllocationItem
item d a = record { destination = d; amount = pos a }

abbrev plain : SimpleAllocation
plain = record { asset = 0; allocation_items = item 11 5 ∷ item 12 3 ∷ [] }

abbrev with_channel : SimpleAllocation
with_channel = record { asset = 0; allocation_items = item 11 3 ∷ item 12 2 ∷ item 99 3 ∷ [] }

-- The same destinations, and everything for the first.
abbrev robbed : SimpleAllocation
robbed = record { asset = 0; allocation_items = item 11 8 ∷ item 12 0 ∷ [] }

abbrev alice : Participant
alice = record { participant_id = 1; signing_address = 1; destination = 11 }

abbrev bob : Participant
bob = record { participant_id = 2; signing_address = 2; destination = 12 }

abbrev state_at : ℕ → SimpleAllocation → List SignatureEntry → SignedState
state_at turn o signatures = record {
  state = record {
    constants = record {
      chain_id = 1;
      participants = alice ∷ bob ∷ [];
      channel_nonce = 7;
      app_definition = 0;
      challenge_duration = 60;
    };
    vars = record {
      outcome = simple_allocation o;
      turn_num = turn;
      app_data = 0;
      is_final = false;
    };
  };
  signatures = signatures;
}

abbrev entry : ℕ → SignatureEntry
entry a = record { signature = a; signer = a }

abbrev agreed : SignedState
agreed = state_at 5 plain (entry 1 ∷ entry 2 ∷ [])

abbrev proposed : SignedState
proposed = state_at 6 with_channel (entry 1 ∷ [])

abbrev rigged : SignedState
rigged = state_at 6 robbed (entry 1 ∷ [])

abbrev funding : LedgerRequest
funding = new_request fund 99 50 (pos 2) (pos 1)

abbrev defunding : LedgerRequest
defunding = new_request defund 99 50 (pos 2) (pos 1)

abbrev ledger : ℕ → Ledger
ledger index = record {
  participants = alice ∷ bob ∷ [];
  my_index = index;
  latest_turn_num = 6;
  unique_state_at = λ t. if t == 6 then some proposed else (if t == 5 then some agreed else none);
}

determine_ledger_state-Reads_example :
    ((s : LedgerState) → Reads (ledger 1) s → determine_ledger_state (ledger 1) ≡ s)
    × ((determine_ledger_state (ledger 1) ≡ violation)
        ⊎ Reads (ledger 1) (determine_ledger_state (ledger 1)))
determine_ledger_state-Reads_example = determine_ledger_state-Reads (ledger 1)

abbrev accepted : LedgerRequest
accepted = record funding { status = succeeded; last_seen_agreed_state = some 6 }

follower_accepts :
    crank_as_follower_in_proposal agreed proposed (funding ∷ []) ≡ ok (proposed ∷ [], accepted ∷ [])
unfolding crank_as_follower_in_proposal process_agreed_state identify_potential_cancellations
    mark_successes_and_inconsistencies judge reset_pending_requests_to_queued apply_cancellations
    update_state_seen_and_missed_ops compare_changes_with_requests changed_destinations uniq
    build_outcome build_defunds build_fundings sort_by_channel insert_by_channel add sources_suffice
    reduce_amounts charge_all charge is_equal_to items_equal are_allocation_items_equal ◌+ℤ◌ ◌-ℤ◌
follower_accepts = refl

follower_cranks : crank (ledger 1) (funding ∷ []) ≡ ok (proposed ∷ [], accepted ∷ [])
unfolding crank determine_ledger_state fully_signed signed_by_index
follower_cranks = follower_accepts

crank-identities_example : identities (accepted ∷ []) ≡ identities (funding ∷ [])
crank-identities_example =
    crank-identities (ledger 1) (funding ∷ []) {r = (proposed ∷ [], accepted ∷ [])} follower_cranks

fits : Fits agreed plain (funding ∷ [])
fits = (refl, (refl, (refl, tt)), (refl, tt))

follower_in_proposal-SameFunds_example :
    (q : SimpleAllocation) × (simple_allocation_outcome proposed ≡ some q)
    × Answers proposed plain q (proposed ∷ [])
follower_in_proposal-SameFunds_example =
    follower_in_proposal-SameFunds agreed proposed plain (funding ∷ [])
      {r = (proposed ∷ [], accepted ∷ [])} fits follower_accepts

-- Alice proposes the channel and waits for it.
leader_proposes :
    crank_as_leader_in_agreement agreed (funding ∷ [])
    ≡ ok (
      advance_to_outcome with_channel agreed ∷ [],
      record funding { status = pending; last_seen_agreed_state = some 5 } ∷ [],
    )
unfolding crank_as_leader_in_agreement process_agreed_state identify_potential_cancellations
    mark_successes_and_inconsistencies judge reset_pending_requests_to_queued apply_cancellations
    update_state_seen_and_missed_ops mark_included_requests_as_pending build_outcome build_defunds
    build_fundings sort_by_channel insert_by_channel add sources_suffice reduce_amounts charge_all
    charge is_equal_to items_equal are_allocation_items_equal ◌+ℤ◌ ◌-ℤ◌
leader_proposes = refl

leader_in_agreement-SameFunds_example :
    (advance_to_outcome with_channel agreed ∷ [] ≡ [])
    ⊎ ((p : SimpleAllocation) × (advance_to_outcome with_channel agreed ∷ []
          ≡ advance_to_outcome p agreed ∷ [])
        × (is_equal_to p plain ≡ false)
        × SameFunds plain p)
leader_in_agreement-SameFunds_example =
    leader_in_agreement-SameFunds agreed plain (funding ∷ [])
      {r = (advance_to_outcome with_channel agreed ∷ [], _)} fits leader_proposes

built : build_outcome agreed (funding ∷ []) (funding ∷ []) ≡ ok (with_channel, funding ∷ [])
unfolding build_outcome build_defunds build_fundings sort_by_channel insert_by_channel add
    sources_suffice reduce_amounts charge_all charge ◌+ℤ◌ ◌-ℤ◌
built = refl

build_outcome-SameFunds_example : SameFunds plain with_channel
build_outcome-SameFunds_example =
    build_outcome-SameFunds agreed plain (funding ∷ []) (funding ∷ [])
      {b = (with_channel, funding ∷ [])} refl (refl, (refl, tt)) (refl, tt) built

-- Bob signs the proposal that takes all that he has, while a channel is to be funded.
follower_signs_any_amounts_example :
    (rs : List LedgerRequest) × (crank_as_follower_in_proposal agreed rigged (funding ∷ [])
      ≡ ok (rigged ∷ [], rs))
follower_signs_any_amounts_example =
    follower_signs_any_amounts agreed rigged plain robbed (funding ∷ []) refl refl refl (refl, tt)

follower_stalls_example :
    crank_as_follower_in_proposal agreed proposed (funding ∷ defunding ∷ []) ≢ ok ([], [])
follower_stalls_example =
    follower_stalls 99 agreed proposed plain (funding ∷ defunding ∷ []) ([], []) refl
      (refl, (funding, refl, refl), refl)

-- The run itself: the crank throws.
follower_throws :
    crank_as_follower_in_proposal agreed proposed (funding ∷ defunding ∷ [])
    ≡ err cancellation_not_queued
unfolding crank_as_follower_in_proposal process_agreed_state identify_potential_cancellations
    mark_successes_and_inconsistencies judge reset_pending_requests_to_queued apply_cancellations
    update_state_seen_and_missed_ops compare_changes_with_requests changed_destinations uniq
    are_allocation_items_equal ◌+ℤ◌
follower_throws = refl
