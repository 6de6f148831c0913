-- ===== src/WalletCore/WireTests.antt =====
-- States on the wire of packages/wallet-core, and the theorem at one of them.
use statechannels.Common.{ℕ, ◌%◌, ◌≡◌, refl, false, none, some, [], ◌∷◌, arith}
use statechannels.Common.Int.{ℤ, pos, negsuc}
use statechannels.Common.Results.{
  Result, ok, err, ◌>>=◌, several_guarantees, value_out_of_range, type_error,
}
use statechannels.WalletCore.Types.{
  SimpleAllocation, Outcome, simple_allocation, mixed_allocation, SignedState,
}
use statechannels.WalletCore.WireFormat.{
  Ethers, WireState, wire_allocation, wire_guarantee, each, serialize_item, serialize_allocation,
  serialize_outcome, serialize_state, make_destination, deserialize_item, deserialize_allocation,
  deserialize_allocations, deserialize_outcome, convert_to_internal_participant, deserialize_state,
}
use statechannels.WalletCore.WireFormat.RoundTrip.{
  received, with_outcome, deserialize_state-serialize_state,
}

abbrev pad : ℤ → Result ℕ
pad (pos n) = ok n
pad (negsuc n) = err value_out_of_range

-- Who signs is the last digit of a signature.
abbrev ethers : Ethers
ethers = record {
  hex_zero_pad = pad;
  from_hex = λ t. ok (pos t);
  get_address = λ a. ok a;
  calculate_channel_id = λ c. c.channel_nonce;
  get_signer_address = λ s g. g % 10;
}

abbrev one_asset : SimpleAllocation
one_asset = record {
  asset = 3;
  allocation_items =
      record { destination = 11; amount = pos 5 }
      ∷ record { destination = 12; amount = pos 8 }
      ∷ [];
}

abbrev sent_with : Outcome → SignedState
sent_with outcome = record {
  state = record {
    constants = record {
      chain_id = 1;
      participants =
          record { participant_id = 1; signing_address = 1; destination = 11 }
          ∷ record { participant_id = 2; signing_address = 2; destination = 12 }
          ∷ [];
      channel_nonce = 7;
      app_definition = 5;
      challenge_duration = 60;
    };
    vars = record { outcome = outcome; turn_num = 4; app_data = 0; is_final = false };
  };
  signatures = record { signature = 41; signer = 1 } ∷ record { signature = 42; signer = 2 } ∷ [];
}

there_and_back :
    (serialize_state ethers none (sent_with (mixed_allocation (one_asset ∷ one_asset ∷ [])))
      >>= deserialize_state ethers)
    ≡ ok (sent_with (mixed_allocation (one_asset ∷ one_asset ∷ [])))
unfolding serialize_state serialize_outcome serialize_allocation serialize_item each
    deserialize_state deserialize_outcome deserialize_allocations deserialize_allocation
    deserialize_item make_destination convert_to_internal_participant
there_and_back = refl

refuses_negative :
    serialize_outcome ethers (
      simple_allocation (record {
        asset = 3;
        allocation_items = record { destination = 11; amount = negsuc 0 } ∷ [];
      }))
    ≡ err value_out_of_range
unfolding serialize_outcome serialize_allocation serialize_item each
refuses_negative = refl

refuses_two_guarantees :
    deserialize_outcome ethers (wire_guarantee 3 9 (11 ∷ []) ∷ wire_guarantee 4 9 (11 ∷ []) ∷ [])
    ≡ err several_guarantees
unfolding deserialize_outcome
refuses_two_guarantees = refl

refuses_a_mixture :
    deserialize_outcome ethers (wire_allocation 3 [] ∷ wire_guarantee 4 9 (11 ∷ []) ∷ [])
    ≡ err type_error
unfolding deserialize_outcome deserialize_allocations deserialize_allocation each
refuses_a_mixture = refl

deserialize_state-serialize_state_example :
    (w : WireState) × (serialize_state ethers
        (some 7)
        (sent_with (mixed_allocation (one_asset ∷ [])))
      ≡ ok w)
    × (deserialize_state ethers w ≡ (
        received ethers (mixed_allocation (one_asset ∷ [])) >>= λ o.
        ok (with_outcome ethers (sent_with (mixed_allocation (one_asset ∷ []))) o)))
unfolding make_destination
deserialize_state-serialize_state_example =
    deserialize_state-serialize_state ethers (λ n small. (n, refl, refl)) (some 7)
      (sent_with (mixed_allocation (one_asset ∷ [])))
      (
        refl,
        ((refl, (((5, refl, omega arith), refl), (((8, refl, omega arith), refl), tt))), tt),
        ((refl, refl), ((refl, refl), tt)),
      )
