-- ===== src/WalletCore/StateTests.antt =====
-- Runs of packages/wallet-core/src/state-utils.ts, and its theorems at these inputs.
use statechannels.Common.{ℕ, ◌+◌, ◌≡◌, ◌⊎◌, refl, ltb, if◌then◌else◌, false, [], ◌∷◌}
use statechannels.Common.Int.{pos}
use statechannels.Common.Results.{ok, err, outcome_type_changed, type_error, value_out_of_range}
use statechannels.WalletCore.Types.{
  SimpleAllocation, Outcome, simple_allocation, mixed_allocation, State,
}
use statechannels.WalletCore.WireFormat.{Ethers, make_destination}
use statechannels.WalletCore.StateUtils.{
  outcomes_equal, simple_allocations_equal, next_state, to_nitro_state, from_nitro_state,
  from_nitro_outcome, convert_to_nitro_outcome,
}
use statechannels.WalletCore.StateUtils.Conversion.{to_nitro_state-from_nitro_state}

abbrev paying : ℕ → SimpleAllocation
paying n = record { asset = 0; allocation_items = record { destination = 11; amount = pos n } ∷ [] }

abbrev state_with : Outcome → State
state_with o = record {
  constants = record {
    chain_id = 1;
    participants = record { participant_id = 1; signing_address = 1; destination = 11 } ∷ [];
    channel_nonce = 7;
    app_definition = 0;
    challenge_duration = 60;
  };
  vars = record { outcome = o; turn_num = 4; app_data = 0; is_final = false };
}

other_amount : outcomes_equal (simple_allocation (paying 1)) (simple_allocation (paying 2)) ≡ false
unfolding outcomes_equal simple_allocations_equal
other_amount = refl

other_type :
    next_state (state_with (simple_allocation (paying 1))) (mixed_allocation [])
    ≡ err outcome_type_changed
unfolding next_state
other_type = refl

-- Addresses below 100 are in form, and others are not.
abbrev ethers : Ethers
ethers = record {
  hex_zero_pad = λ a. err value_out_of_range;
  from_hex = λ t. ok (pos t);
  get_address = λ a. if ltb a 100 then ok a else err type_error;
  calculate_channel_id = λ c. c.channel_nonce;
  get_signer_address = λ s g. g;
}

abbrev two_assets : State
two_assets = state_with (mixed_allocation (paying 1 ∷ paying 2 ∷ []))

to_nitro_state-from_nitro_state_example :
    ((mixed_allocation (paying 1 ∷ paying 2 ∷ []) ≡ mixed_allocation [])
      × (from_nitro_state ethers (λ a. a + 1000) (to_nitro_state two_assets) ≡ err type_error))
    ⊎ ((t : State) × (from_nitro_state ethers (λ a. a + 1000) (to_nitro_state two_assets) ≡ ok t)
        × (to_nitro_state t ≡ to_nitro_state two_assets))
unfolding make_destination
to_nitro_state-from_nitro_state_example =
    to_nitro_state-from_nitro_state ethers (λ a. a + 1000) two_assets
      (refl, ((refl, (refl, tt)), ((refl, (refl, tt)), tt)), (refl, tt))

-- An address in another form is refused.
refuses_address :
    from_nitro_outcome ethers
      (convert_to_nitro_outcome (simple_allocation (record { asset = 100; allocation_items = [] })))
    ≡ err type_error
unfolding from_nitro_outcome convert_to_nitro_outcome
refuses_address = refl
