-- ===== src/Server/LedgerState.antt =====
-- The wrapper `State` of packages/server-wallet/src/models/channel/state.ts, and the state of a ledger
-- that `determineLedgerState` of packages/server-wallet/src/protocols/ledger-protocol.ts reads off the
-- signatures.
pub mod Determined
use statechannels.Common.{
  ℕ, suc, ◌-◌, Bool, true, false, Option, none, some, List, [], ◌∷◌, ◌&&◌, ◌==◌, map, leb,
  if◌then◌else◌, get_elem?, includes, all,
}
use statechannels.WalletCore.Types.{
  Address, Destination, Participant, SimpleAllocation, simple_allocation, mixed_allocation,
  simple_guarantee, Outcome, SignedState,
}
use statechannels.WalletCore.DirectFunder.{signers}

-- `signedBy`
abbrev pub signed_by : SignedState → Address → Bool
signed_by s a = includes a (signers s.signatures)

-- `fullySigned`
unfoldable pub fully_signed : SignedState → Bool
fully_signed s = all (λ (p : Participant). signed_by s p.signing_address) s.participants

-- `participantDestinations`
abbrev pub participant_destinations : SignedState → List Destination
participant_destinations s = map (λ (p : Participant). p.destination) s.participants

abbrev pub allocation_of : Outcome → Option SimpleAllocation
allocation_of (simple_allocation a) = some a
allocation_of (mixed_allocation as_) = none
allocation_of (simple_guarantee g) = none

-- `simpleAllocationOutcome`
abbrev pub simple_allocation_outcome : SignedState → Option SimpleAllocation
simple_allocation_outcome s = allocation_of s.outcome

-- `advanceToOutcome`. The signatures of the state are copied along.
unfoldable pub advance_to_outcome : SimpleAllocation → SignedState → SignedState
advance_to_outcome o s = record s {
  state = record s.state {
    vars = record s.vars { turn_num = suc s.turn_num; outcome = simple_allocation o };
  };
}

-- `ReadonlyChannel`
pub record Ledger : Type 0 where
  pub participants : List Participant
  pub my_index : ℕ
  pub latest_turn_num : ℕ
  pub unique_state_at : ℕ → Option SignedState

pub data LedgerState : Type 0 where
  agreement : (agreed : SignedState) → LedgerState
  proposal : (agreed proposed : SignedState) → LedgerState
  counter_proposal : (agreed proposed counter_proposed : SignedState) → LedgerState
  violation : LedgerState

-- `uniqueStateAt(latestTurnNum - k)`: no state has a negative turn.
abbrev pub state_back : Ledger → ℕ → Option SignedState
state_back l k = if leb k l.latest_turn_num then l.unique_state_at (l.latest_turn_num - k) else none

-- Signed by the participant at an index. A participant who is not there has signed nothing.
unfoldable pub signed_by_index : Ledger → ℕ → SignedState → Bool
signed_by_index l i s = elim (get_elem? l.participants i) [
  | none ↦ false
  | some p ↦ signed_by s p.signing_address
]

-- The end of `determineLedgerState`: neither the latest state nor the one before is signed by all.
abbrev pub determine_counter_proposal :
    Ledger → SignedState → SignedState → Option SignedState → LedgerState
determine_counter_proposal l penultimate latest none = violation
determine_counter_proposal l penultimate latest (some antepenultimate) =
    if fully_signed antepenultimate
      && (signed_by_index l 0 penultimate && signed_by_index l 1 latest)
    then counter_proposal antepenultimate penultimate latest
    else violation

-- The latest state is not signed by all.
abbrev pub determine_proposal : Ledger → SignedState → Option SignedState → LedgerState
determine_proposal l latest none = violation
determine_proposal l latest (some penultimate) =
    let third = determine_counter_proposal l penultimate latest (state_back l 2) in
    if fully_signed penultimate
    then (if signed_by_index l 0 latest then proposal penultimate latest else violation)
    else third

abbrev pub determine_from : Ledger → Option SignedState → LedgerState
determine_from l none = violation
determine_from l (some latest) =
    let second = determine_proposal l latest (state_back l 1) in
    if fully_signed latest then agreement latest else second

-- `determineLedgerState`
unfoldable pub determine_ledger_state : Ledger → LedgerState
determine_ledger_state l = determine_from l (state_back l 0)
