-- ===== src/Server/CrankTests.antt =====
-- Cranks of packages/server-wallet on a channel of two participants, and the theorems at these inputs.
use statechannels.Common.{◌+◌, ◌*◌, ◌-◌, ◌≡◌, refl, true, false, none, some, [], ◌∷◌}
use statechannels.Common.Int.{ℤ, pos, ◌+ℤ◌, ◌-ℤ◌, ◌≤ℤ◌, reduce_add}
use statechannels.Common.Results.{ok, err, stale_state}
use statechannels.WalletCore.Types.{SimpleAllocation}
use statechannels.WalletCore.DirectFunder.{FundingMilestone}
use statechannels.WalletCore.StateUtils.{to_nitro_state, convert_to_nitro_outcome}
use statechannels.Nitro.Transition.{
  require_valid_protocol_transition, require_extra_implicit_checks,
}
use statechannels.Server.Channel.{
  HashedState, Channel, direct, with_constants, sort_by_turn, insert_by_turn, sign_off,
  mover_signed, search_support,
}
use statechannels.Server.ValidateTransition.{validate_transition}
use statechannels.Server.Channel.Queries.{
  post_fund_complete, postfund_signed, allocation_item_for_participant_index, funding_milestones,
  supported_allocation,
}
use statechannels.Server.Store.{
  SigningWallet, Env, sign_state, check_transition, should_validate_transition, add_my_state,
  store_state, add_state, clear_old_states, sort_descending, insert_descending, validate_invariants,
}
use statechannels.Server.Store.Invariants.{IsDescending}
use statechannels.Server.Store.Signing.{SignedBefore, sign_state-SignedBefore}
use statechannels.Server.Database.{
  state_sent, World, channel_updated, objective_succeeded, fund_channel, get_funding_amount,
  approved, succeeded, insert_or_update, to_fund, has_valid_request,
}
use statechannels.Server.Opening.Signed.{PreFunds}
use statechannels.Server.Opening.Sends.{SendsPreFund, SendsFunded, opener_crank-Sends}
use statechannels.Server.Opening.{
  their_post_fund_state, sign_setup, sign_and_send, nothing, opener_crank, crank_channel_funder,
  direct_funder_crank, crank_deposit,
}
use statechannels.Server.Opening.Deposits.{Answers, direct_funder_crank-Answers}
use statechannels.Server.Opening.Opened.{SetUp, FundedBy, opener_crank-SetUp, opened_directly}
use statechannels.Server.ChannelTests.{alice, constants, vars_at, checks, stored_at, channel_of}

abbrev pub env : Env
env = record {
  checks = checks;
  crypto = record {
    hash_state = λ s. s.turn_num;
    sign_state = λ s key. s.turn_num * 10 + key;
    channel_id = λ c. 99;
  };
  signing_wallet = some (record { private_key = 1; address = 1 });
  bytecode = λ a. none;
  skip_evm_validation = true;
  chain_network_id = 1;
  recover_address = λ g s. g - s.turn_num * 10;
}

abbrev pub world_of : Channel → ℤ → World
world_of ch held = record {
  channel = ch;
  funding = record { asset = 0; amount = held; transferred_out = [] } ∷ [];
  chain_requests = [];
  adjudicator = none;
  ledger = none;
  ledger_requests = [];
  objective = approved;
  outputs = [];
}

-- Both have signed the pre-fund setup.
abbrev prefunded : Channel
prefunded = channel_of (stored_at 0 false (1 ∷ 2 ∷ []) ∷ [])

-- Both have signed the last state of the setup.
abbrev pub set_up : Channel
set_up = channel_of (stored_at 3 false (2 ∷ 1 ∷ []) ∷ [])

abbrev postfund_alice : HashedState
postfund_alice = with_constants constants (stored_at 3 false (1 ∷ []))

signs_postfund :
    sign_state env prefunded (vars_at 3 false)
    ≡ ok (
      channel_of (stored_at 3 false (1 ∷ []) ∷ stored_at 0 false (1 ∷ 2 ∷ []) ∷ []),
      postfund_alice,
    )
unfolding sign_state check_transition should_validate_transition add_my_state store_state add_state
    clear_old_states sort_descending insert_descending validate_invariants search_support
    sort_by_turn insert_by_turn sign_off mover_signed validate_transition to_nitro_state
    convert_to_nitro_outcome require_valid_protocol_transition require_extra_implicit_checks
signs_postfund = refl

sign_state-SignedBefore_example :
    SignedBefore 1 3 (stored_at 0 false (1 ∷ 2 ∷ []) ∷ [])
    × (postfund_alice.state ≡ record { constants = constants; vars = vars_at 3 false })
    × (postfund_alice.state_hash
        ≡ env.crypto.hash_state (record { constants = constants; vars = vars_at 3 false }))
    × ((wallet : SigningWallet) × (env.signing_wallet ≡ some wallet)
        × (postfund_alice.signatures
            ≡ record {
              signature =
                  env.crypto.sign_state
                    (record { constants = constants; vars = vars_at 3 false })
                    wallet.private_key;
              signer = wallet.address;
            }
              ∷ []))
    × IsDescending (3 ∷ 0 ∷ [])
sign_state-SignedBefore_example =
    sign_state-SignedBefore env prefunded (vars_at 3 false) alice refl (tt, tt) signs_postfund

-- A state of an earlier turn than one that is signed is refused.
refuses_earlier : sign_state env set_up (vars_at 2 false) ≡ err stale_state
unfolding sign_state
refuses_earlier = refl

-- With 2 of the 5 of the first participant on chain, the rest is asked for.
abbrev first_deposit : World
first_deposit = record (world_of prefunded (pos 2)) {
  chain_requests = record { request = to_fund; timestamp = 50; attempts = 1 } ∷ [];
  outputs = fund_channel 0 (pos 2) (pos 3) ∷ [];
}

deposits : direct_funder_crank env 50 (world_of prefunded (pos 2)) ≡ ok (first_deposit, false)
unfolding direct_funder_crank crank_deposit funding_milestones allocation_item_for_participant_index
    search_support sort_by_turn insert_by_turn sign_off mover_signed ◌+ℤ◌ ◌-ℤ◌ reduce_add
    has_valid_request insert_or_update
deposits = refl

direct_funder_crank-Answers_example :
    (a : SimpleAllocation) × (m : FundingMilestone) × (supported_allocation checks prefunded ≡ ok a)
    × (funding_milestones checks prefunded ≡ ok m)
    × Answers 50
        (world_of prefunded (pos 2))
        a.asset
        (get_funding_amount a.asset (world_of prefunded (pos 2)).funding)
        m
        (first_deposit, false)
direct_funder_crank-Answers_example =
    direct_funder_crank-Answers env 50 (world_of prefunded (pos 2)) deposits

abbrev opened : World
opened = record (world_of set_up (pos 8)) {
  objective = succeeded;
  outputs = objective_succeeded ∷ channel_updated ∷ [];
}

opens : opener_crank env 50 direct none (world_of set_up (pos 8)) ≡ ok (opened, nothing)
unfolding opener_crank crank_channel_funder direct_funder_crank crank_deposit funding_milestones
    allocation_item_for_participant_index post_fund_complete postfund_signed search_support
    sort_by_turn insert_by_turn sign_off mover_signed ◌+ℤ◌ reduce_add
opens = refl

opener_crank-SetUp_example :
    SetUp env 50 opened × FundedBy env 50 direct none (world_of set_up (pos 8))
opener_crank-SetUp_example = opener_crank-SetUp env 50 direct none (world_of set_up (pos 8)) opens

opened_directly_example :
    (w1 : World) × PreFunds env 50 (world_of set_up (pos 8)) w1
    × (a : SimpleAllocation) × (m : FundingMilestone) × (supported_allocation checks w1.channel
        ≡ ok a)
    × (funding_milestones checks w1.channel ≡ ok m)
    × (m.target_total ≤ℤ get_funding_amount a.asset (world_of set_up (pos 8)).funding)
opened_directly_example = opened_directly env 50 none (world_of set_up (pos 8)) opens

-- With all funds on chain, Alice signs the last state of the setup and waits for Bob.
abbrev post_fund_signed : World
post_fund_signed = record (world_of prefunded (pos 8)) {
  channel = channel_of (stored_at 3 false (1 ∷ []) ∷ stored_at 0 false (1 ∷ 2 ∷ []) ∷ []);
  outputs = channel_updated ∷ state_sent postfund_alice ∷ channel_updated ∷ [];
}

sends_post_fund :
    opener_crank env 50 direct none (world_of prefunded (pos 8))
    ≡ ok (post_fund_signed, their_post_fund_state)
unfolding opener_crank crank_channel_funder direct_funder_crank crank_deposit funding_milestones
    allocation_item_for_participant_index post_fund_complete postfund_signed sign_setup
    sign_and_send sign_state check_transition should_validate_transition add_my_state store_state
    add_state clear_old_states sort_descending insert_descending validate_invariants search_support
    sort_by_turn insert_by_turn sign_off mover_signed validate_transition to_nitro_state
    convert_to_nitro_outcome require_valid_protocol_transition require_extra_implicit_checks ◌+ℤ◌
    reduce_add
sends_post_fund = refl

opener_crank-Sends_example :
    (w1 : World) × PreFunds env 50 (world_of prefunded (pos 8)) w1
    × SendsPreFund env 50 (world_of prefunded (pos 8)) w1
    × SendsFunded env 50 direct none w1 post_fund_signed
    × (w1.channel.constants ≡ prefunded.constants)
opener_crank-Sends_example =
    opener_crank-Sends env 50 direct none (world_of prefunded (pos 8)) sends_post_fund
