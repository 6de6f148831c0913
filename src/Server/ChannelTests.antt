-- ===== src/Server/ChannelTests.antt =====
-- A channel of two participants in packages/server-wallet, its cranks, and the theorems at these inputs.
use statechannels.Common.{
  ℕ, ◌+◌, ◌*◌, ◌≡◌, refl, Bool, true, false, none, some, List, [], ◌∷◌, map, ◌==◌, ◌&&◌, ◌⊎◌, any,
  includes, All, arith, ap, ap₂,
}
use statechannels.Common.Int.{pos}
use statechannels.Common.Results.{ok}
use statechannels.WalletCore.Types.{
  Address, simple_allocation, Participant, ChannelConstants, StateVariables, SignatureEntry,
}
use statechannels.WalletCore.StateUtils.{
  NitroOutcome, NitroAssetOutcome, of_items, of_guarantee, neither, items_agree, to_nitro_state,
  convert_to_nitro_outcome,
}
use statechannels.WalletCore.StateUtils.Equality.{items_agree→eq}
use statechannels.Server.Channel.{
  StoredState, HashedState, Channel, direct, with_constants, sort_by_turn, insert_by_turn, sign_off,
  mover_signed, search_support, support, supported, has_signed, addresses_of,
}
use statechannels.Server.ValidateTransition.{Checks, validate_transition}
use statechannels.Nitro.Transition.{
  same_addresses, require_valid_protocol_transition, require_extra_implicit_checks,
}
use statechannels.Nitro.Transition.Histories.{same_addresses→eq}
use statechannels.WalletCore.DirectFunder.{funding_milestone}
use statechannels.Server.Channel.Queries.{funding_milestones}
use statechannels.Server.Channel.Support.{IsSupport, support-IsSupport}
use statechannels.Server.Channel.Closing.{FinalWith, is_final_state, has_conclusion_proof-FinalWith}
use statechannels.Server.Channel.Complete.{SignedAll, fully_signed-supported}
use statechannels.Server.Channel.Funds.{renamed, funding_milestones-funding_milestone}

abbrev pub alice : Participant
alice = record { participant_id = 1; signing_address = 1; destination = 11 }

abbrev pub bob : Participant
bob = record { participant_id = 2; signing_address = 2; destination = 12 }

abbrev pub constants : ChannelConstants
constants = record {
  chain_id = 1;
  participants = alice ∷ bob ∷ [];
  channel_nonce = 7;
  app_definition = 5;
  challenge_duration = 60;
}

abbrev pub vars_at : ℕ → Bool → StateVariables
vars_at turn final = record {
  outcome = simple_allocation (record {
    asset = 0;
    allocation_items =
        record { destination = 11; amount = pos 5 }
        ∷ record { destination = 12; amount = pos 3 }
        ∷ [];
  });
  turn_num = turn;
  app_data = 0;
  is_final = final;
}

-- `isEqual`, for the runs
abbrev pub asset_equal : NitroAssetOutcome → NitroAssetOutcome → Bool
asset_equal (of_items a is) (of_items b js) = a == b && items_agree is js
asset_equal (of_items a is) (of_guarantee b u e) = false
asset_equal (of_items a is) (neither b) = false
asset_equal (of_guarantee a t d) (of_items b js) = false
asset_equal (of_guarantee a t d) (of_guarantee b u e) = a == b && (t == u && same_addresses d e)
asset_equal (of_guarantee a t d) (neither b) = false
asset_equal (neither a) (of_items b js) = false
asset_equal (neither a) (of_guarantee b u e) = false
asset_equal (neither a) (neither b) = a == b

abbrev pub assets_equal : List NitroAssetOutcome → List NitroAssetOutcome → Bool
assets_equal [] [] = true
assets_equal [] (b ∷ bs) = false
assets_equal (a ∷ as_) [] = false
assets_equal (a ∷ as_) (b ∷ bs) = asset_equal a b && assets_equal as_ bs

abbrev pub nitro_equal : NitroOutcome → NitroOutcome → Bool
nitro_equal none none = true
nitro_equal none (some b) = false
nitro_equal (some a) none = false
nitro_equal (some a) (some b) = assets_equal a b

asset_equal→eq : (a b : NitroAssetOutcome) → asset_equal a b ≡ true → a ≡ b
asset_equal→eq (of_items a is) (of_items b js) h =
    ap₂ of_items (ground arith) (items_agree→eq is js (ground arith))
asset_equal→eq (of_items a is) (of_guarantee b u e) h = absurd (cc)
asset_equal→eq (of_items a is) (neither b) h = absurd (cc)
asset_equal→eq (of_guarantee a t d) (of_items b js) h = absurd (cc)
asset_equal→eq (of_guarantee a t d) (of_guarantee b u e) h =
    let q = same_addresses→eq d e (ground arith) in ground arith
asset_equal→eq (of_guarantee a t d) (neither b) h = absurd (cc)
asset_equal→eq (neither a) (of_items b js) h = absurd (cc)
asset_equal→eq (neither a) (of_guarantee b u e) h = absurd (cc)
asset_equal→eq (neither a) (neither b) h = ap neither (ground arith)

assets_equal→eq : (a b : List NitroAssetOutcome) → assets_equal a b ≡ true → a ≡ b
assets_equal→eq [] [] h = refl
assets_equal→eq [] (b ∷ bs) h = absurd (cc)
assets_equal→eq (a ∷ as_) [] h = absurd (cc)
assets_equal→eq (a ∷ as_) (b ∷ bs) h =
    ap₂ ◌∷◌ (asset_equal→eq a b (ground arith)) (assets_equal→eq as_ bs (ground arith))

nitro_equal→eq : (a b : NitroOutcome) → nitro_equal a b ≡ true → a ≡ b
nitro_equal→eq none none h = refl
nitro_equal→eq none (some b) h = absurd (cc)
nitro_equal→eq (some a) none h = absurd (cc)
nitro_equal→eq (some a) (some b) h = ap some (assets_equal→eq a b h)

abbrev pub checks : Checks
checks = record { is_equal = nitro_equal; run_app = λ from to code. ok false }

abbrev pub signature_of : ℕ → ℕ → SignatureEntry
signature_of turn who = record { signature = turn * 10 + who; signer = who }

abbrev pub stored_at : ℕ → Bool → List ℕ → StoredState
stored_at turn final who = record {
  vars = vars_at turn final;
  signatures = map (signature_of turn) who;
  state_hash = turn;
}

abbrev pub channel_of : List StoredState → Channel
channel_of ss = record {
  constants = constants;
  channel_id = 99;
  signing_address = 1;
  stored = ss;
  funding_strategy = direct;
  funding_ledger_channel_id = none;
  is_ledger = false;
}

-- Alice has signed the turn 4 and Bob the turn 5.
abbrev pub running : Channel
running = channel_of (stored_at 5 false (2 ∷ []) ∷ stored_at 4 false (1 ∷ []) ∷ [])

-- Both have signed the final turn 4.
abbrev pub concluded : Channel
concluded = channel_of (stored_at 4 true (2 ∷ 1 ∷ []) ∷ [])

running-support :
    support checks running
    ≡ with_constants constants (stored_at 5 false (2 ∷ []))
      ∷ with_constants constants (stored_at 4 false (1 ∷ []))
      ∷ []
unfolding search_support sort_by_turn insert_by_turn sign_off mover_signed validate_transition
    to_nitro_state convert_to_nitro_outcome require_valid_protocol_transition
    require_extra_implicit_checks
running-support = refl

support-IsSupport_example :
    (support checks running ≡ []) ⊎ IsSupport checks running (support checks running)
support-IsSupport_example = support-IsSupport checks running

has_conclusion_proof-FinalWith_example :
    (s : HashedState) × (supported checks concluded ≡ some s)
    × All (FinalWith s) (support checks concluded)
    × ((a : Address)
        → includes a (addresses_of (alice ∷ bob ∷ [])) ≡ true
        → any (λ t. has_signed a t && is_final_state t) (support checks concluded) ≡ true)
has_conclusion_proof-FinalWith_example =
    has_conclusion_proof-FinalWith checks nitro_equal→eq concluded
      (unfold search_support sort_by_turn insert_by_turn sign_off mover_signed in refl)

both_signed : SignedAll (1 ∷ 2 ∷ []) (signature_of 4 2 ∷ signature_of 4 1 ∷ [])
both_signed a h = ground arith

fully_signed-supported_example :
    (support checks concluded ≡ with_constants constants (stored_at 4 true (2 ∷ 1 ∷ [])) ∷ [])
    × (supported checks concluded ≡ some (with_constants constants (stored_at 4 true (2 ∷ 1 ∷ []))))
fully_signed-supported_example =
    fully_signed-supported checks concluded
      (with_constants constants (stored_at 4 true (2 ∷ 1 ∷ []))) [] alice (bob ∷ []) refl
      (unfold sort_by_turn insert_by_turn in refl) both_signed

funding_milestones-funding_milestone_example :
    funding_milestones checks concluded
    ≡ renamed (funding_milestone (record { constants = constants; vars = vars_at 4 true }) 11)
funding_milestones-funding_milestone_example =
    funding_milestones-funding_milestone checks concluded
      (with_constants constants (stored_at 4 true (2 ∷ 1 ∷ []))) alice
      (unfold search_support sort_by_turn insert_by_turn sign_off mover_signed in refl) refl
