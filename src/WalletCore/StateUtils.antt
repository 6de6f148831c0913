-- ===== src/WalletCore/StateUtils.antt =====
-- packages/wallet-core/src/state-utils.ts: states and outcomes in the form of packages/nitro-protocol,
-- the equality of outcomes, and the next state.
-- An address and the 32 bytes that it is padded to are one number, so that `convertAddressToBytes32` is the
-- identity; and an amount is a number by its type, so that `BN.from` is. What ethers makes of an address may
-- throw; it is a field of `Ethers`. What `padStart` makes of one is a parameter, as it pads before the 0x.
pub mod Equality
pub mod Conversion
use statechannels.Common.{
  ℕ, suc, Bool, true, false, not, Option, none, some, List, [], ◌∷◌, map, ◌&&◌, ◌==◌, length,
}
use statechannels.Common.Int.{eqb_ℤ}
use statechannels.Common.Results.{
  Result, ok, err, ◌>>=◌, ◌>>◌, throw_if, type_error, outcome_type_changed,
}
use statechannels.WalletCore.Types.{
  Address, Destination, Participant, AllocationItem, SimpleAllocation, SimpleGuarantee, Outcome,
  simple_allocation, mixed_allocation, simple_guarantee, ChannelConstants, StateVariables, State,
}
use statechannels.WalletCore.WireFormat.{Ethers, each, make_destination}
use statechannels.Nitro.Transition.{NitroState, same_addresses}

-- One asset of an outcome of packages/nitro-protocol. `neither` has no items and no guarantee.
pub data NitroAssetOutcome : Type 0 where
  of_items : Address → List AllocationItem → NitroAssetOutcome
  of_guarantee : Address → Destination → List Destination → NitroAssetOutcome
  neither : Address → NitroAssetOutcome

-- `undefined`, or a list of assets
abbrev pub NitroOutcome : Type 0
NitroOutcome = Option (List NitroAssetOutcome)

-- The case `SimpleAllocation` of `convertToNitroOutcome`
abbrev pub convert_simple : SimpleAllocation → NitroOutcome
convert_simple a = some (of_items a.asset a.allocation_items ∷ [])

-- The first element of the converted allocations
abbrev pub convert_first : List SimpleAllocation → NitroOutcome
convert_first [] = none
convert_first (a ∷ as_) = convert_simple a

-- `convertToNitroOutcome`
unfoldable pub convert_to_nitro_outcome : Outcome → NitroOutcome
convert_to_nitro_outcome (simple_allocation a) = convert_simple a
convert_to_nitro_outcome (mixed_allocation as_) = convert_first as_
convert_to_nitro_outcome (simple_guarantee g) =
    some (of_guarantee g.asset g.target_channel_id g.destinations ∷ [])

-- `toNitroState`
unfoldable pub to_nitro_state : State → NitroState NitroOutcome
to_nitro_state s = record {
  turn_num = s.turn_num;
  is_final = s.is_final;
  chain_id = s.chain_id;
  participants = map (λ (p : Participant). p.signing_address) s.participants;
  channel_nonce = s.channel_nonce;
  challenge_duration = s.challenge_duration;
  outcome = convert_to_nitro_outcome s.outcome;
  app_definition = s.app_definition;
  app_data = s.app_data;
}

module _ (ethers : Ethers) where
  -- An item of `convertFromNitroAllocationItems`
  abbrev pub from_nitro_item : AllocationItem → Result AllocationItem
  from_nitro_item i =
      make_destination ethers i.destination >>= λ d. ok (record i { destination = d })

  -- `fromNitroOutcome`. Taking apart `undefined`, and a property of the `undefined` first element of
  -- an empty list, throw.
  unfoldable pub from_nitro_outcome : NitroOutcome → Result Outcome
  from_nitro_outcome none = err type_error
  from_nitro_outcome (some []) = err type_error
  from_nitro_outcome (some (of_items asset items ∷ rest)) = do
    a ← ethers.get_address asset
    is ← each from_nitro_item items
    ok (simple_allocation (record { asset = a; allocation_items = is }))
  from_nitro_outcome (some (of_guarantee asset target dests ∷ rest)) = do
    a ← ethers.get_address asset
    ok (simple_guarantee (record { target_channel_id = target; asset = a; destinations = dests }))
  from_nitro_outcome (some (neither asset ∷ rest)) = ok (mixed_allocation [])

  module _ (pad_start : ℕ → Destination) where
    -- A participant of `fromNitroState`, of the address `x`
    abbrev pub from_nitro_participant : ℕ → Result Participant
    from_nitro_participant x = ethers.get_address x >>= λ a.
        ok (record { participant_id = x; signing_address = a; destination = pad_start x })

    -- The state that `fromNitroState` returns
    abbrev pub restored : NitroState NitroOutcome → Address → Outcome → List Participant → State
    restored s app outcome participants = record {
      constants = record {
        chain_id = s.chain_id;
        participants = participants;
        channel_nonce = s.channel_nonce;
        app_definition = app;
        challenge_duration = s.challenge_duration;
      };
      vars = record {
        outcome = outcome;
        turn_num = s.turn_num;
        app_data = s.app_data;
        is_final = s.is_final;
      };
    }

    -- `fromNitroState`
    unfoldable pub from_nitro_state : NitroState NitroOutcome → Result State
    from_nitro_state s = do
      app ← ethers.get_address s.app_definition
      outcome ← from_nitro_outcome s.outcome
      participants ← each from_nitro_participant s.participants
      ok (restored s app outcome participants)

-- `_.every` over the items and the other list at the same index, where the lengths agree
abbrev pub items_agree : List AllocationItem → List AllocationItem → Bool
items_agree [] [] = true
items_agree [] (j ∷ js) = false
items_agree (i ∷ is) [] = false
items_agree (i ∷ is) (j ∷ js) =
    (i.destination == j.destination && eqb_ℤ i.amount j.amount) && items_agree is js

-- `simpleAllocationsEqual`
unfoldable pub simple_allocations_equal : SimpleAllocation → SimpleAllocation → Bool
simple_allocations_equal l r =
    l.asset == r.asset
    && (length l.allocation_items == length r.allocation_items
        && items_agree l.allocation_items r.allocation_items)

abbrev pub allocations_agree : List SimpleAllocation → List SimpleAllocation → Bool
allocations_agree [] [] = true
allocations_agree [] (r ∷ rs) = false
allocations_agree (l ∷ ls) [] = false
allocations_agree (l ∷ ls) (r ∷ rs) = simple_allocations_equal l r && allocations_agree ls rs

-- `_.isEqual` of guarantees
abbrev pub guarantees_equal : SimpleGuarantee → SimpleGuarantee → Bool
guarantees_equal l r =
    l.target_channel_id == r.target_channel_id
    && (l.asset == r.asset && same_addresses l.destinations r.destinations)

-- `outcomesEqual` of two outcomes that are there
unfoldable pub outcomes_equal : Outcome → Outcome → Bool
outcomes_equal (simple_allocation l) (simple_allocation r) = simple_allocations_equal l r
outcomes_equal (simple_allocation l) (mixed_allocation r) = false
outcomes_equal (simple_allocation l) (simple_guarantee r) = false
outcomes_equal (mixed_allocation l) (simple_allocation r) = false
outcomes_equal (mixed_allocation l) (mixed_allocation r) =
    length l == length r && allocations_agree l r
outcomes_equal (mixed_allocation l) (simple_guarantee r) = false
outcomes_equal (simple_guarantee l) (simple_allocation r) = false
outcomes_equal (simple_guarantee l) (mixed_allocation r) = false
outcomes_equal (simple_guarantee l) (simple_guarantee r) = guarantees_equal l r

-- `left.type === right.type`
abbrev pub same_type : Outcome → Outcome → Bool
same_type (simple_allocation l) (simple_allocation r) = true
same_type (mixed_allocation l) (mixed_allocation r) = true
same_type (simple_guarantee l) (simple_guarantee r) = true
same_type _ _ = false

-- `nextState`
unfoldable pub next_state : State → Outcome → Result State
next_state s outcome = do
  throw_if (not (same_type s.outcome outcome)) outcome_type_changed
  ok (record s { vars = record s.vars { turn_num = suc s.turn_num; outcome = outcome } })

-- `firstState`. A chain id that is a number is not the empty text, which the code replaces by 1.
unfoldable pub first_state : Outcome → ChannelConstants → Option ℕ → State
first_state outcome c app_data = record {
  constants = c;
  vars = record {
    outcome = outcome;
    turn_num = 0;
    app_data = elim app_data [ none ↦ 0 | some d ↦ d ];
    is_final = false;
  };
}
