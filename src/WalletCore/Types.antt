-- ===== src/WalletCore/Types.antt =====
-- packages/wallet-core/src/types.ts: participants, outcomes, states and signatures.
-- A string that the code only compares (an address, a destination, an id, a hash, application data)
-- is the number that its bytes spell, most significant first. Strings of one length compare as
-- these numbers do. Amounts are integers, as ethers reads them.
use statechannels.Common.{ℕ, Bool, List}
use statechannels.Common.Int.{ℤ}

abbrev pub Address : Type 0
Address = ℕ

abbrev pub Destination : Type 0
Destination = ℕ

pub record Participant : Type 0 where
  pub participant_id : ℕ
  pub signing_address : Address
  pub destination : Destination

pub record AllocationItem : Type 0 where
  pub destination : Destination
  pub amount : ℤ

pub record SimpleAllocation : Type 0 where
  pub asset : Address
  pub allocation_items : List AllocationItem

pub record SimpleGuarantee : Type 0 where
  pub target_channel_id : Destination
  pub asset : Address
  pub destinations : List Destination

pub data Outcome : Type 0 where
  simple_allocation : SimpleAllocation → Outcome
  mixed_allocation : List SimpleAllocation → Outcome
  simple_guarantee : SimpleGuarantee → Outcome

pub record ChannelConstants : Type 0 where
  pub chain_id : ℕ
  pub participants : List Participant
  pub channel_nonce : ℕ
  pub app_definition : Address
  pub challenge_duration : ℕ

pub record StateVariables : Type 0 where
  pub outcome : Outcome
  pub turn_num : ℕ
  pub app_data : ℕ
  pub is_final : Bool

pub record State : Type 0 where
  pub constants : ChannelConstants
  pub open constants use *
  pub vars : StateVariables
  pub open vars use *

pub record SignatureEntry : Type 0 where
  pub signature : ℕ
  pub signer : Address

pub record SignedState : Type 0 where
  pub state : State
  pub open state use *
  pub signatures : List SignatureEntry
