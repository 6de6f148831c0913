-- ===== src/WalletCore/DirectFunder.antt =====
-- packages/wallet-core/src/protocols/direct-funder.ts: the protocol that opens a directly funded
-- channel. Its data, the milestones of the deposits and the signatures of a setup state.
-- The hash and the signature of a state stand on ethers' keccak256 and secp256k1: they are the
-- fields of `Crypto`. The objective that the code clones and mutates is a record that is passed on.
pub mod Cranker
pub mod Signatures
pub mod Milestones
pub mod Cases
pub mod Validity
pub mod Invariant
pub mod Safety
pub mod Success
use statechannels.Common.{
  ℕ, zero, suc, ◌+◌, ◌-◌, ◌*◌, Bool, true, false, not, Option, none, some, List, [], ◌∷◌, ◌++◌, map,
  ◌==◌, ltb, leb, if◌then◌else◌, length, get_elem?, find, take_while, includes,
}
use statechannels.Common.Int.{ℤ, pos, ◌+ℤ◌, reduce_add}
use statechannels.Common.Results.{
  Result, ok, err, ◌>>=◌, ◌>>◌, throw_if, or_throw, unexpected_turn_num, unexpected_index,
  unexpected_outcome, type_error,
}
use statechannels.WalletCore.Types.{
  Address, Destination, Participant, AllocationItem, ChannelConstants, State, SignatureEntry,
  SignedState,
}
use statechannels.WalletCore.Outcome.{check_simple_allocation}

pub record Crypto : Type 0 where
  pub hash_state : State → ℕ
  pub sign_state : State → ℕ → ℕ
  pub channel_id : ChannelConstants → ℕ

pub record SignedStateHash : Type 0 where
  pub hash : ℕ
  pub signatures : List SignatureEntry

-- `status`: what the objective waits for, or how it ended
pub data Status : Type 0 where
  approval their_pre_fund_setup safe_to_deposit channel_funded their_post_fund_state : Status
  success error : Status

pub data Steps : Type 0 where
  pre_fund_setup post_fund_setup : Steps

pub record FundingRequest : Type 0 where
  pub tx : ℕ
  pub attempts : ℕ
  pub submitted_at : ℕ

pub record Funding : Type 0 where
  pub amount : ℤ
  pub finalized : Bool

-- `OpenChannelObjective`
pub record Objective : Type 0 where
  pub status : Status
  pub approved : Bool
  pub channel_id : ℕ
  pub opening_state : State
  pub my_index : ℕ
  pub pre_fund : SignedStateHash
  pub funding : Funding
  pub funding_request : Option FundingRequest
  pub post_fund : SignedStateHash

-- `OpenChannelEvent`; `unexpected` is a value of none of the known types
pub data Event : Type 0 where
  crank approval_given unexpected : Event
  states_received : List SignedState → Event
  funding_updated : ℤ → Bool → Event
  deposit_submitted : ℕ → ℕ → ℕ → Event

-- `ErrorModes`
pub data ErrorMode : Type 0 where
  non_participant_signature : SignatureEntry → ErrorMode
  received_unexpected_state : ℕ → ℕ → ℕ → ErrorMode
  timed_out_while_funding : ℕ → ℕ → ErrorMode
  unexpected_event : ErrorMode

pub data Action : Type 0 where
  send_states : List SignedState → Action
  deposit : ℤ → Action
  handle_error : ErrorMode → Action

abbrev pub max_waiting_time : ℕ
max_waiting_time = 5000

pub record FundingMilestone : Type 0 where
  pub target_before : ℤ
  pub target_after : ℤ
  pub target_total : ℤ

abbrev pub amounts : List AllocationItem → List ℤ
amounts = map λ a. a.amount

-- The part of `utils.fundingMilestone` that reads the items of the allocation.
unfoldable pub milestones_in : List AllocationItem → Destination → Result FundingMilestone
milestones_in items destination = do
  mine ← or_throw (find (λ i. i.destination == destination) items) unexpected_outcome
  let before = reduce_add (amounts (take_while (λ i. not (i.destination == destination)) items))
  ok (record {
    target_before = before;
    target_after = before +ℤ mine.amount;
    target_total = reduce_add (amounts items);
  })

-- `utils.fundingMilestone`
unfoldable pub funding_milestone : State → Destination → Result FundingMilestone
funding_milestone state destination = do
  allocation ← check_simple_allocation state.outcome
  milestones_in allocation.allocation_items destination

abbrev pub signers : List SignatureEntry → List Address
signers = map λ e. e.signer

-- `_.uniqBy(entries, e => e.signer)`: the first entry of each signer, after those seen.
unfoldable pub uniq_by_signer : List Address → List SignatureEntry → List SignatureEntry
uniq_by_signer seen [] = []
uniq_by_signer seen (e ∷ es) =
    let again = includes e.signer seen in
    let rest = uniq_by_signer (if again then seen else e.signer ∷ seen) es in
    if again then rest else e ∷ rest

unfoldable pub insert_by_signer : SignatureEntry → List SignatureEntry → List SignatureEntry
insert_by_signer e [] = e ∷ []
insert_by_signer e (x ∷ xs) =
    if leb e.signer x.signer then e ∷ x ∷ xs else x ∷ insert_by_signer e xs

-- `_.sortBy(entries, e => e.signer)`, which is stable
unfoldable pub sort_by_signer : List SignatureEntry → List SignatureEntry
sort_by_signer [] = []
sort_by_signer (e ∷ es) = insert_by_signer e (sort_by_signer es)

-- `mergeSignatures`
unfoldable pub merge_signatures : List SignatureEntry → List SignatureEntry → List SignatureEntry
merge_signatures left right = sort_by_signer (uniq_by_signer [] (left ++ right))

-- `setupState`. A channel has a participant, so the subtraction is exact.
unfoldable pub setup_state : State → Steps → State
setup_state s pre_fund_setup = record s { vars = record s.vars { turn_num = 0 } }
setup_state s post_fund_setup = record s {
  vars = record s.vars { turn_num = 2 * length s.participants - 1 };
}

-- `objective[step]`
abbrev pub setup : Objective → Steps → SignedStateHash
setup o pre_fund_setup = o.pre_fund
setup o post_fund_setup = o.post_fund

-- `objective[step].signatures = signatures`
abbrev pub set_signatures : Objective → Steps → List SignatureEntry → Objective
set_signatures o pre_fund_setup es = record o { pre_fund = record o.pre_fund { signatures = es } }
set_signatures o post_fund_setup es = record o {
  post_fund = record o.post_fund { signatures = es };
}

-- `signedbyMe`
unfoldable pub signed_by_me : Objective → Steps → Address → Bool
signed_by_me o step me = includes me (signers (setup o step).signatures)

-- `completed`
unfoldable pub completed : Objective → Steps → Bool
completed o step = length (setup o step).signatures == length o.opening_state.participants

-- The signatures of a signed opening state, merged
abbrev pub initial_signatures : Option (List SignatureEntry) → List SignatureEntry
initial_signatures none = []
initial_signatures (some es) = merge_signatures [] es

module _ (crypto : Crypto) where
  -- The object that `initialize` returns
  abbrev pub new_objective : State → List SignatureEntry → ℕ → Bool → Objective
  new_objective opening signatures my_index approved = record {
    status = if approved then their_pre_fund_setup else approval;
    approved = approved;
    channel_id = crypto.channel_id opening.constants;
    opening_state = opening;
    my_index = my_index;
    pre_fund = record {
      hash = crypto.hash_state (setup_state opening pre_fund_setup);
      signatures = signatures;
    };
    funding = record { amount = pos 0; finalized = true };
    funding_request = none;
    post_fund = record {
      hash = crypto.hash_state (setup_state opening post_fund_setup);
      signatures = [];
    };
  }

  -- `initialize`; `signed` are the signatures of a signed opening state. A milestone is there only for a
  -- simple allocation, of which every state has a hash.
  unfoldable pub initialize : State → Option (List SignatureEntry) → ℕ → Bool → Result Objective
  initialize opening signed my_index approved = do
    throw_if (not (opening.turn_num == 0)) unexpected_turn_num
    me ← or_throw (get_elem? opening.participants my_index) unexpected_index
    m ← funding_milestone opening me.destination
    ok (new_objective opening (initial_signatures signed) my_index approved)
