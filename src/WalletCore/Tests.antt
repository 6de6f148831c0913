-- ===== src/WalletCore/Tests.antt =====
-- Runs of packages/wallet-core on a channel of two participants, and the theorems at these inputs.
use statechannels.Common.{
  ℕ, ◌≡◌, ◌⊎◌, refl, true, false, none, List, [], ◌∷◌, All, ◌==◌, if◌then◌else◌, includes, ◌||◌,
  arith,
}
use statechannels.Common.Counting.{IsSubset}
use statechannels.Common.Int.{pos, ◌+ℤ◌, ◌-ℤ◌, reduce_add}
use statechannels.Common.Results.{ok, err, type_error, insufficient_funds, destination_missing}
use statechannels.WalletCore.Types.{
  mixed_allocation, Participant, AllocationItem, SimpleAllocation, simple_allocation, State,
  SignatureEntry, SignedState,
}
use statechannels.WalletCore.Outcome.{debit, deduct, allocate_to_target}
use statechannels.WalletCore.Outcome.Allocate.{
  balance, IsPositive, requested, total_of, allocate_to_target-balance,
}
use statechannels.WalletCore.Outcome.Refusals.{Covers, allocate_to_target_pays}
use statechannels.WalletCore.DirectFunder.{
  Crypto, Objective, channel_funded, success, states_received, Action, send_states, deposit,
  FundingMilestone, milestones_in, funding_milestone, signers, uniq_by_signer, insert_by_signer,
  sort_by_signer, merge_signatures, setup_state, pre_fund_setup, post_fund_setup, signed_by_me,
  completed, initialize, new_objective,
}
use statechannels.WalletCore.DirectFunder.Cranker.{
  addresses, add_state, receive, process_event, sign_state_action, ensure_signed, crank_post_fund,
  crank_unpaid, crank_funding, crank_approved, transition, open_channel_cranker,
}
use statechannels.WalletCore.DirectFunder.Cases.{Funded}
use statechannels.WalletCore.DirectFunder.Validity.{IsValid}
use statechannels.WalletCore.DirectFunder.Invariant.{
  HasNoHash, open_channel_cranker-IsValid, initialize-IsValid,
}
use statechannels.WalletCore.DirectFunder.Safety.{
  MyMilestone, Justified, open_channel_cranker-Justified,
}
use statechannels.WalletCore.DirectFunder.Success.{success_means_open}
use statechannels.WalletCore.DirectFunder.Signatures.{IsAscending, merge_signatures-signers}

abbrev item : ℕ → ℕ → AllocationItem
item d a = record { destination = d; amount = pos a }

abbrev ledger : SimpleAllocation
ledger = record { asset = 0; allocation_items = item 11 5 ∷ item 12 3 ∷ [] }

abbrev deductions : List AllocationItem
deductions = item 11 2 ∷ item 12 0 ∷ item 11 1 ∷ []

abbrev after_payment : SimpleAllocation
after_payment = record { asset = 0; allocation_items = item 11 2 ∷ item 12 3 ∷ item 99 3 ∷ [] }

payment : allocate_to_target (simple_allocation ledger) deductions 99 ≡ ok after_payment
unfolding allocate_to_target deduct debit ◌+ℤ◌ ◌-ℤ◌
payment = refl

overdraft :
    allocate_to_target (simple_allocation ledger) (item 12 4 ∷ []) 99 ≡ err insufficient_funds
unfolding allocate_to_target deduct debit ◌+ℤ◌ ◌-ℤ◌
overdraft = refl

stranger :
    allocate_to_target (simple_allocation ledger) (item 13 1 ∷ []) 99 ≡ err destination_missing
unfolding allocate_to_target deduct debit ◌+ℤ◌ ◌-ℤ◌
stranger = refl

allocate_to_target-balance_example :
    (balance 11 after_payment.allocation_items +ℤ balance 11 (requested deductions)
      ≡ balance 11 ledger.allocation_items
        +ℤ (if 99 == 11 then total_of (requested deductions) else pos 0))
    × (after_payment.asset ≡ ledger.asset)
    × All IsPositive after_payment.allocation_items
allocate_to_target-balance_example =
    allocate_to_target-balance ledger deductions 99 11 (omega arith) payment

allocate_to_target_pays_example :
    (Covers ledger.allocation_items (requested deductions)
      → (o : SimpleAllocation) × (allocate_to_target (simple_allocation ledger) deductions 99
          ≡ ok o))
    × ((o : SimpleAllocation)
        → allocate_to_target (simple_allocation ledger) deductions 99 ≡ ok o
        → Covers ledger.allocation_items (requested deductions))
allocate_to_target_pays_example = allocate_to_target_pays ledger deductions 99

abbrev alice : Participant
alice = record { participant_id = 1; signing_address = 1; destination = 11 }

abbrev bob : Participant
bob = record { participant_id = 2; signing_address = 2; destination = 12 }

abbrev opening : State
opening = record {
  constants = record {
    chain_id = 1;
    participants = alice ∷ bob ∷ [];
    channel_nonce = 7;
    app_definition = 0;
    challenge_duration = 60;
  };
  vars = record {
    outcome = simple_allocation ledger;
    turn_num = 0;
    app_data = 0;
    is_final = false;
  };
}

-- A stand-in that tells the turns apart.
abbrev toy : Crypto
toy = record {
  hash_state = λ s. s.turn_num;
  sign_state = λ s key. key;
  channel_id = λ c. c.channel_nonce;
}

abbrev entry : ℕ → SignatureEntry
entry a = record { signature = a; signer = a }

-- The setup states, signed by Bob.
abbrev signed_by_bob : State → SignedState
signed_by_bob s = record { state = s; signatures = entry 2 ∷ [] }

abbrev start : Objective
start = new_objective toy opening [] 0 true

initialized : initialize toy opening none 0 true ≡ ok start
unfolding initialize funding_milestone milestones_in reduce_add ◌+ℤ◌
initialized = refl

initialize-IsValid_example : IsValid start
initialize-IsValid_example =
    initialize-IsValid toy opening none 0 true {o = start} (λ es e. absurd (cc)) initialized

merge_signatures-signers_example :
    IsAscending (signers (merge_signatures (entry 4 ∷ entry 2 ∷ []) (entry 3 ∷ entry 2 ∷ [])))
    × ((a : ℕ)
        → includes a (signers (merge_signatures (entry 4 ∷ entry 2 ∷ []) (entry 3 ∷ entry 2 ∷ [])))
          ≡ (includes a (signers (entry 4 ∷ entry 2 ∷ []))
              || includes a (signers (entry 3 ∷ entry 2 ∷ []))))
merge_signatures-signers_example =
    merge_signatures-signers (entry 4 ∷ entry 2 ∷ []) (entry 3 ∷ entry 2 ∷ [])

-- Bob's pre-fund signature arrives, and Alice, whose turn comes first, deposits 5.
abbrev after_prefund : Objective
after_prefund = record start {
  status = channel_funded;
  pre_fund = record { hash = 0; signatures = entry 1 ∷ entry 2 ∷ [] };
}

abbrev first_actions : List Action
first_actions =
    send_states
      (record { state = setup_state opening pre_fund_setup; signatures = entry 1 ∷ [] } ∷ [])
    ∷ deposit (pos 5)
    ∷ []

first_crank :
    open_channel_cranker toy start (states_received (signed_by_bob opening ∷ [])) 0 1
    ≡ ok (after_prefund, first_actions)
unfolding open_channel_cranker process_event receive transition crank_approved ensure_signed
    sign_state_action add_state completed signed_by_me merge_signatures sort_by_signer
    insert_by_signer uniq_by_signer setup_state funding_milestone milestones_in reduce_add
    crank_funding crank_unpaid ◌+ℤ◌ ◌-ℤ◌
first_crank = refl

open_channel_cranker-Justified_example : All (Justified after_prefund) first_actions
open_channel_cranker-Justified_example =
    open_channel_cranker-Justified toy start (states_received (signed_by_bob opening ∷ [])) 0 1
      {r = (after_prefund, first_actions)} first_crank

open_channel_cranker-IsValid_example :
    ((r : Objective × List Action) × (open_channel_cranker toy start
          (states_received (signed_by_bob opening ∷ []))
          0
          1
        ≡ ok r)
      × IsValid r.0)
    ⊎ ((open_channel_cranker toy start (states_received (signed_by_bob opening ∷ [])) 0 1
          ≡ err type_error)
        × HasNoHash toy (states_received (signed_by_bob opening ∷ [])))
open_channel_cranker-IsValid_example =
    open_channel_cranker-IsValid toy start (states_received (signed_by_bob opening ∷ [])) 0 1
      initialize-IsValid_example

-- A state with a mixed allocation of nothing has no hash.
throws_on_empty :
    open_channel_cranker toy start
      (states_received (
        signed_by_bob
          (record opening { vars = record opening.vars { outcome = mixed_allocation [] } })
        ∷ []))
      0
      1
    ≡ err type_error
unfolding open_channel_cranker process_event receive
throws_on_empty = refl

-- The whole allocation is there for good; Bob's post-fund signature ends the protocol.
abbrev funded : Objective
funded = record after_prefund { funding = record { amount = pos 8; finalized = true } }

abbrev opened : Objective
opened = record funded {
  status = success;
  post_fund = record { hash = 3; signatures = entry 1 ∷ entry 2 ∷ [] };
}

funded-IsValid : IsValid funded
funded-IsValid = record {
  me = alice;
  at_my_index = refl;
  milestone = record { target_before = pos 0; target_after = pos 5; target_total = pos 8 };
  has_milestone = unfold funding_milestone milestones_in reduce_add ◌+ℤ◌ in refl;
  pre_signed = record { ascending = omega arith; participants = λ a e. e };
  post_signed = record { ascending = tt; participants = λ a e. absurd (cc) };
}

last_crank :
    open_channel_cranker toy funded
      (states_received (signed_by_bob (setup_state opening post_fund_setup) ∷ []))
      0
      1
    ≡ ok (
      opened,
      send_states
            (record { state = setup_state opening post_fund_setup; signatures = entry 1 ∷ [] } ∷ [])
          ∷ [],
    )
unfolding open_channel_cranker process_event receive transition crank_approved ensure_signed
    sign_state_action add_state completed signed_by_me merge_signatures sort_by_signer
    insert_by_signer uniq_by_signer setup_state funding_milestone milestones_in reduce_add
    crank_funding crank_post_fund ◌+ℤ◌ ◌-ℤ◌
last_crank = refl

success_means_open_example :
    (opened.approved ≡ true)
    × ((m : FundingMilestone) × MyMilestone opened m × Funded m opened.funding)
    × IsSubset (addresses opened.opening_state.participants) (signers opened.pre_fund.signatures)
    × IsSubset (addresses opened.opening_state.participants) (signers opened.post_fund.signatures)
success_means_open_example =
    success_means_open toy funded
      (states_received (signed_by_bob (setup_state opening post_fund_setup) ∷ [])) 0 1
      {r = (opened, _)} funded-IsValid last_crank refl
