-- ===== src/Browser/Tests.antt =====
-- A channel of two participants in packages/browser-wallet, and the theorem at these inputs.
use statechannels.Common.{ℕ, ◌+◌, ◌*◌, ◌≡◌, refl, Bool, true, false, List, [], ◌∷◌, ◌⊎◌, map}
use statechannels.Common.Results.{ok, err, stale_state, transition_forbidden, not_a_participant}
use statechannels.WalletCore.Types.{ChannelConstants, StateVariables, simple_allocation}
use statechannels.WalletCore.DirectFunder.{Crypto}
use statechannels.Nitro.Transition.{require_valid_protocol_transition}
use statechannels.Server.Channel.{StoredState, with_constants, mover_signed, sign_off}
use statechannels.Server.Store.{sort_descending, insert_descending, validate_invariants}
use statechannels.Browser.ChannelEntry.{
  ChannelEntry, valid_chain, search_entry, entry_support, add_to_entry, clear_entry,
  add_entry_state, sign_and_add,
}
use statechannels.Browser.ChannelEntry.Chains.{at_vars, Allowed, valid_chain-Allowed}

abbrev constants : ChannelConstants
constants = record {
  chain_id = 1;
  participants =
      record { participant_id = 1; signing_address = 1; destination = 11 }
      ∷ record { participant_id = 2; signing_address = 2; destination = 12 }
      ∷ [];
  channel_nonce = 7;
  app_definition = 5;
  challenge_duration = 60;
}

abbrev vars_at : ℕ → Bool → StateVariables
vars_at turn final = record {
  outcome = simple_allocation (record { asset = 0; allocation_items = [] });
  turn_num = turn;
  app_data = 0;
  is_final = final;
}

abbrev stored_at : ℕ → Bool → List ℕ → StoredState
stored_at turn final who = record {
  vars = vars_at turn final;
  signatures = map (λ a. record { signature = turn * 10 + a; signer = a }) who;
  state_hash = turn;
}

abbrev entry_of : List StoredState → ChannelEntry
entry_of ss = record { constants = constants; my_index = 0; stored = ss }

abbrev crypto : Crypto
crypto = record {
  hash_state = λ s. s.turn_num;
  sign_state = λ s key. s.turn_num * 10 + key;
  channel_id = λ c. 99;
}

-- Bob's state 5 is not final, although Alice's state 4 is.
reopened-support :
    entry_support (entry_of (stored_at 5 false (2 ∷ []) ∷ stored_at 4 true (1 ∷ []) ∷ []))
    ≡ with_constants constants (stored_at 5 false (2 ∷ []))
      ∷ with_constants constants (stored_at 4 true (1 ∷ []))
      ∷ []
unfolding search_entry valid_chain mover_signed sign_off
reopened-support = refl

adds :
    sign_and_add crypto (entry_of (stored_at 3 false (2 ∷ 1 ∷ []) ∷ [])) (vars_at 4 false) 1 1
    ≡ ok (entry_of (stored_at 4 false (1 ∷ []) ∷ stored_at 3 false (2 ∷ 1 ∷ []) ∷ []))
unfolding sign_and_add add_entry_state add_to_entry clear_entry sort_descending insert_descending
    search_entry valid_chain mover_signed sign_off validate_invariants
adds = refl

refuses_stale :
    sign_and_add crypto (entry_of (stored_at 3 false (2 ∷ 1 ∷ []) ∷ [])) (vars_at 3 false) 1 1
    ≡ err stale_state
unfolding sign_and_add
refuses_stale = refl

refuses_stranger :
    add_entry_state crypto (entry_of []) (vars_at 0 false) (record { signature = 1; signer = 9 })
    ≡ err not_a_participant
unfolding add_entry_state
refuses_stranger = refl

valid_chain-Allowed_example :
    Allowed (λ a b. true) constants (vars_at 4 true) (vars_at 5 false)
    ⊎ ((true ≡ true)
        × (false ≡ false)
        × (require_valid_protocol_transition
              (λ a b. true)
              (at_vars (λ a b. true) constants (vars_at 4 true))
              (at_vars (λ a b. true) constants (vars_at 5 false))
            ≡ err transition_forbidden))
valid_chain-Allowed_example =
    valid_chain-Allowed (λ a b. true) constants (λ o. refl) (vars_at 4 true) (vars_at 5 false)
      (unfold valid_chain in refl)
