-- ===== src/Server/Database.antt =====
-- packages/server-wallet/src/models/adjudicator-status.ts, funding.ts, chain-service-request.ts and the
-- rows that a crank of a protocol reads and writes in its transaction. What an `EngineResponse` queues is
-- a list, the last first; of a queued channel only that it was queued is kept.
use statechannels.Common.{
  ℕ, suc, ◌-◌, Bool, false, Option, none, some, List, [], ◌∷◌, ◌++◌, ◌&&◌, ◌||◌, ◌==◌, leb, ltb,
  if◌then◌else◌, find,
}
use statechannels.Common.Int.{ℤ, pos}
use statechannels.Common.Results.{Result, ok, err, ◌>>=◌, no_funding_row}
use statechannels.WalletCore.Types.{Address, Destination, SignedState}
use statechannels.Nitro.ChannelMode.{ChannelMode, open_, challenge, finalized, get_channel_mode}
use statechannels.Server.Channel.{HashedState, Channel}
use statechannels.Server.LedgerRequest.{LedgerRequest, RequestType, same_type}

-- `TransferredOutEntry`
pub record TransferredOut : Type 0 where
  pub to_address : Destination
  pub amount : ℤ

-- `Funding`, of one channel
pub record FundingRow : Type 0 where
  pub asset : Address
  pub amount : ℤ
  pub transferred_out : List TransferredOut

-- `getFunding`
abbrev pub get_funding : Address → List FundingRow → Option FundingRow
get_funding asset = find λ (f : FundingRow). f.asset == asset

-- `getFundingAmount`
abbrev pub get_funding_amount : Address → List FundingRow → ℤ
get_funding_amount asset rows = elim (get_funding asset rows) [ none ↦ pos 0 | some f ↦ f.amount ]

-- `updateFunding`: the row is inserted, or its amount is patched.
unfoldable pub update_funding : Address → ℤ → List FundingRow → List FundingRow
update_funding asset amount [] =
    record { asset = asset; amount = amount; transferred_out = [] } ∷ []
update_funding asset amount (f ∷ fs) =
    let rest = update_funding asset amount fs in
    if f.asset == asset then record f { amount = amount } ∷ fs else f ∷ rest

-- `updateTransferredOut`
unfoldable pub update_transferred_out :
    Address → List TransferredOut → List FundingRow → Result (List FundingRow)
update_transferred_out asset entries [] = err no_funding_row
update_transferred_out asset entries (f ∷ fs) =
    let rest = update_transferred_out asset entries fs >>= λ gs. ok (f ∷ gs) in
    if f.asset == asset
    then ok (record f { transferred_out = f.transferred_out ++ entries } ∷ fs)
    else rest

-- `Request`
pub data RequestKind : Type 0 where
  to_fund to_withdraw to_challenge to_push_outcome : RequestKind

abbrev pub kind_number : RequestKind → ℕ
kind_number to_fund = 0
kind_number to_withdraw = 1
kind_number to_challenge = 2
kind_number to_push_outcome = 3

-- `ChainServiceRequest`, of one channel
pub record ChainServiceRequest : Type 0 where
  pub request : RequestKind
  pub timestamp : ℕ
  pub attempts : ℕ

abbrev pub is_kind : RequestKind → ChainServiceRequest → Bool
is_kind k r = kind_number r.request == kind_number k

-- `requestTimeout`
abbrev pub request_timeout : ℕ
request_timeout = 600000

-- `insertOrUpdate`. A row that is inserted has had one attempt.
unfoldable pub insert_or_update :
    ℕ → RequestKind → List ChainServiceRequest → List ChainServiceRequest
insert_or_update now k [] = record { request = k; timestamp = now; attempts = 1 } ∷ []
insert_or_update now k (r ∷ rs) =
    let rest = insert_or_update now k rs in
    if is_kind k r then record r { timestamp = now; attempts = suc r.attempts } ∷ rs else r ∷ rest

-- `isValid`. Of a row of the future, the difference is negative.
unfoldable pub request_is_valid : ℕ → ChainServiceRequest → Bool
request_is_valid now r = leb 2 r.attempts || ltb (now - r.timestamp) request_timeout

-- `find(csr => csr.request === k)?.isValid()`, and `fundingRequestExists`
unfoldable pub has_valid_request : ℕ → RequestKind → List ChainServiceRequest → Bool
has_valid_request now k rows = elim (find (is_kind k) rows) [
  | none ↦ false
  | some r ↦ request_is_valid now r
]

-- `AdjudicatorStatusModel`. A column of states that was never written is null.
pub record AdjudicatorRow : Type 0 where
  pub finalizes_at : ℕ
  pub block_number : ℕ
  pub block_timestamp : ℕ
  pub states : Option (List SignedState)

-- `AdjudicatorStatus`, where a channel that is open has no states
pub record AdjudicatorStatus : Type 0 where
  pub channel_mode : ChannelMode
  pub states : Option (List SignedState)

abbrev pub with_mode : ChannelMode → Option (List SignedState) → AdjudicatorStatus
with_mode open_ states = record { channel_mode = open_; states = none }
with_mode challenge states = record { channel_mode = challenge; states = states }
with_mode finalized states = record { channel_mode = finalized; states = states }

-- `convertResult`
abbrev pub convert_result : Option AdjudicatorRow → AdjudicatorStatus
convert_result none = record { channel_mode = open_; states = none }
convert_result (some r) = with_mode (get_channel_mode r.finalizes_at r.block_timestamp) r.states

-- `insertAdjudicatorStatus`
abbrev pub insert_adjudicator_status : ℕ → List SignedState → AdjudicatorRow
insert_adjudicator_status finalizes_at states = record {
  finalizes_at = finalizes_at;
  block_number = 0;
  block_timestamp = 0;
  states = some states;
}

-- `setFinalized`. Of a row that is there, the time of finalization is left as it is.
abbrev pub set_finalized : ℕ → ℕ → ℕ → Option AdjudicatorRow → AdjudicatorRow
set_finalized block_number block_timestamp finalizes_at none = record {
  finalizes_at = finalizes_at;
  block_number = block_number;
  block_timestamp = block_timestamp;
  states = none;
}
set_finalized block_number block_timestamp finalizes_at (some r) = record r {
  block_number = block_number;
  block_timestamp = block_timestamp;
}

-- `status` of an objective
pub data ObjectiveStatus : Type 0 where
  pending approved succeeded failed : ObjectiveStatus

-- What is queued: a `ChainRequest`, a state for the others, or news for the application
pub data Output : Type 0 where
  channel_updated objective_succeeded : Output
  state_sent : HashedState → Output
  fund_channel : (asset : Address) (expected_held amount : ℤ) → Output
  conclude_and_withdraw : List HashedState → Output
  withdraw : Option SignedState → Output
  challenge_with : List SignedState → Output

pub record World : Type 0 where
  pub channel : Channel
  pub funding : List FundingRow
  pub chain_requests : List ChainServiceRequest
  pub adjudicator : Option AdjudicatorRow
  pub ledger : Option Channel
  pub ledger_requests : List LedgerRequest
  pub objective : ObjectiveStatus
  pub outputs : List Output

abbrev pub queue : Output → World → World
queue o w = record w { outputs = o ∷ w.outputs }

-- `getLedgerRequest`
abbrev pub get_ledger_request :
    Destination → RequestType → List LedgerRequest → Option LedgerRequest
get_ledger_request channel k =
    find λ (r : LedgerRequest). r.channel_to_be_funded == channel && same_type r.request_type k
