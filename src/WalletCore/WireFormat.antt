-- ===== src/WalletCore/WireFormat.antt =====
-- packages/wallet-core/src/serde/wire-format/serialize.ts and deserialize.ts: a signed state on its way to
-- another wallet. What ethers does with amounts and addresses, and the recovery of a signer, are fields
-- of `Ethers`. Destinations on the wire are strings of 32 bytes, which the validator of
-- packages/wire-format sees to.
pub mod RoundTrip
use statechannels.Common.{
  ℕ, Bool, true, false, Option, none, some, List, [], ◌∷◌, map, ltb, if◌then◌else◌, length,
}
use statechannels.Common.Int.{ℤ}
use statechannels.Common.Results.{
  Result, ok, err, ◌>>=◌, ◌>>◌, type_error, empty_allocation, several_guarantees,
}
use statechannels.WalletCore.Types.{
  Address, Destination, Participant, AllocationItem, SimpleAllocation, SimpleGuarantee, Outcome,
  simple_allocation, mixed_allocation, simple_guarantee, ChannelConstants, State, SignatureEntry,
  SignedState,
}

-- `hexZeroPad(BN.from(amount), 32)`, `BN.from`, `utils.getAddress`, `calculateChannelId` and
-- `getSignerAddress`
pub record Ethers : Type 0 where
  pub hex_zero_pad : ℤ → Result ℕ
  pub from_hex : ℕ → Result ℤ
  pub get_address : ℕ → Result Address
  pub calculate_channel_id : ChannelConstants → ℕ
  pub get_signer_address : State → ℕ → Address

-- `AllocationItem` of packages/wire-format, with the text of its amount
pub record WireItem : Type 0 where
  pub wire_destination : ℕ
  pub wire_amount : ℕ

-- An element of an `Outcome` of packages/wire-format: an `Allocation` or a `Guarantee`
pub data WireAsset : Type 0 where
  wire_allocation : ℕ → List WireItem → WireAsset
  wire_guarantee : ℕ → ℕ → List ℕ → WireAsset

-- `SignedState` of packages/wire-format
pub record WireState : Type 0 where
  pub constants : ChannelConstants
  pub wire_outcome : List WireAsset
  pub wire_turn_num : ℕ
  pub wire_app_data : ℕ
  pub wire_is_final : Bool
  pub wire_channel_id : ℕ
  pub wire_signatures : List ℕ

-- `xs.map(f)`, where `f` may throw
unfoldable pub each : {A B : Type 0} → (A → Result B) → List A → Result (List B)
each f [] = ok []
each f (x ∷ xs) = do y ← f x; ys ← each f xs; ok (y ∷ ys)

-- A number below it is an address with zeros before it.
abbrev pub address_bound : ℕ
address_bound = 1461501637330902918203684832716283019655932542976

module _ (ethers : Ethers) where
  -- `serializeAllocationItem`
  unfoldable pub serialize_item : AllocationItem → Result WireItem
  serialize_item i = do
    amount ← ethers.hex_zero_pad i.amount
    ok (record { wire_destination = i.destination; wire_amount = amount })

  -- `serializeSimpleAllocation`
  unfoldable pub serialize_allocation : SimpleAllocation → Result WireAsset
  serialize_allocation a = do
    items ← each serialize_item a.allocation_items
    ok (wire_allocation a.asset items)

  -- `serializeOutcome`
  unfoldable pub serialize_outcome : Outcome → Result (List WireAsset)
  serialize_outcome (simple_allocation a) = do asset ← serialize_allocation a; ok (asset ∷ [])
  serialize_outcome (mixed_allocation as_) = each serialize_allocation as_
  serialize_outcome (simple_guarantee g) =
      ok (wire_guarantee g.asset g.target_channel_id g.destinations ∷ [])

  -- `channelId || calculateChannelId(state)`
  abbrev pub chosen_channel_id : Option ℕ → ChannelConstants → ℕ
  chosen_channel_id none c = ethers.calculate_channel_id c
  chosen_channel_id (some id) c = id

  -- The state that `serializeState` returns, of its outcome
  abbrev pub wire_state : Option ℕ → SignedState → List WireAsset → WireState
  wire_state id s outcome = record {
    constants = s.constants;
    wire_outcome = outcome;
    wire_turn_num = s.turn_num;
    wire_app_data = s.app_data;
    wire_is_final = s.is_final;
    wire_channel_id = chosen_channel_id id s.constants;
    wire_signatures = map (λ (e : SignatureEntry). e.signature) s.signatures;
  }

  -- `serializeState`
  unfoldable pub serialize_state : Option ℕ → SignedState → Result WireState
  serialize_state id s = do outcome ← serialize_outcome s.outcome; ok (wire_state id s outcome)

  -- `makeDestination` of a string of 32 bytes
  unfoldable pub make_destination : ℕ → Result Destination
  make_destination d = if ltb d address_bound then ethers.get_address d else ok d

  -- `deserializeAllocationItem`
  unfoldable pub deserialize_item : WireItem → Result AllocationItem
  deserialize_item i = do
    amount ← ethers.from_hex i.wire_amount
    destination ← make_destination i.wire_destination
    ok (record { destination = destination; amount = amount })

  -- `deserializeAllocation`. A guarantee has no items to go through.
  unfoldable pub deserialize_allocation : WireAsset → Result SimpleAllocation
  deserialize_allocation (wire_allocation asset items) = do
    a ← ethers.get_address asset
    is ← each deserialize_item items
    ok (record { asset = a; allocation_items = is })
  deserialize_allocation (wire_guarantee asset target dests) = do
    a ← ethers.get_address asset
    err type_error

  -- The case of allocations, by their number
  unfoldable pub deserialize_allocations : List WireAsset → Result Outcome
  deserialize_allocations [] = err empty_allocation
  deserialize_allocations (x ∷ []) = deserialize_allocation x >>= λ a. ok (simple_allocation a)
  deserialize_allocations (x ∷ y ∷ zs) =
      each deserialize_allocation (x ∷ y ∷ zs) >>= λ as_. ok (mixed_allocation as_)

  -- `deserializeOutcome`, with `isAllocations`, which goes by the first element
  unfoldable pub deserialize_outcome : List WireAsset → Result Outcome
  deserialize_outcome [] = deserialize_allocations []
  deserialize_outcome (wire_allocation asset items ∷ rest) =
      deserialize_allocations (wire_allocation asset items ∷ rest)
  deserialize_outcome (wire_guarantee asset target dests ∷ y ∷ ys) = err several_guarantees
  deserialize_outcome (wire_guarantee asset target dests ∷ []) = do
    a ← ethers.get_address asset
    ok (simple_guarantee (record { target_channel_id = target; asset = a; destinations = dests }))

  -- `convertToInternalParticipant`
  unfoldable pub convert_to_internal_participant : Participant → Result Participant
  convert_to_internal_participant p = do
    signing ← ethers.get_address p.signing_address
    destination ← make_destination p.destination
    ok (record p { signing_address = signing; destination = destination })

  -- The signatures with the signers that are recovered from the state
  abbrev pub recovered : State → List ℕ → List SignatureEntry
  recovered s = map λ g. record { signature = g; signer = ethers.get_signer_address s g }

  -- `deserializeState`
  unfoldable pub deserialize_state : WireState → Result SignedState
  deserialize_state w = do
    app ← ethers.get_address w.constants.app_definition
    outcome ← deserialize_outcome w.wire_outcome
    participants ← each convert_to_internal_participant w.constants.participants
    let s : State = record {
      constants = record w.constants { app_definition = app; participants = participants };
      vars = record {
        outcome = outcome;
        turn_num = w.wire_turn_num;
        app_data = w.wire_app_data;
        is_final = w.wire_is_final;
      };
    }
    ok (record { state = s; signatures = recovered s w.wire_signatures })
