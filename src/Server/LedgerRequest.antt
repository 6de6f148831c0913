-- ===== src/Server/LedgerRequest.antt =====
-- packages/server-wallet/src/models/ledger-request.ts: requests to fund a channel from a ledger, or to
-- put its funds back. A request is known by its channel and its type, the primary key of the table.
use statechannels.Common.{
  ℕ, Bool, true, false, not, Option, none, List, ◌&&◌, ◌||◌, ◌==◌, map, if◌then◌else◌,
}
use statechannels.Common.Int.{ℤ, ◌+ℤ◌}
use statechannels.WalletCore.Types.{Destination}

-- `LedgerRequestStatus`
pub data RequestStatus : Type 0 where
  queued cancelled pending succeeded insufficient inconsistent failed : RequestStatus

pub data RequestType : Type 0 where
  fund defund : RequestType

pub record LedgerRequest : Type 0 where
  pub ledger_channel_id : Destination
  pub channel_to_be_funded : Destination
  pub status : RequestStatus
  pub amount_a : ℤ
  pub amount_b : ℤ
  pub last_seen_agreed_state : Option ℕ
  pub missed_opportunity_count : ℕ
  pub request_type : RequestType

abbrev pub is_fund_type : RequestType → Bool
is_fund_type fund = true
is_fund_type defund = false

abbrev pub is_queued_status : RequestStatus → Bool
is_queued_status queued = true
is_queued_status _ = false

abbrev pub is_pending_status : RequestStatus → Bool
is_pending_status pending = true
is_pending_status _ = false

abbrev pub is_fund : LedgerRequest → Bool
is_fund r = is_fund_type r.request_type

abbrev pub is_defund : LedgerRequest → Bool
is_defund r = not (is_fund r)

abbrev pub is_queued : LedgerRequest → Bool
is_queued r = is_queued_status r.status

abbrev pub is_pending : LedgerRequest → Bool
is_pending r = is_pending_status r.status

abbrev pub is_active : LedgerRequest → Bool
is_active r = is_queued r || is_pending r

abbrev pub is_terminal : LedgerRequest → Bool
is_terminal r = not (is_active r)

abbrev pub total_amount : LedgerRequest → ℤ
total_amount r = r.amount_a +ℤ r.amount_b

-- The row that `requestLedgerFunding` and `requestLedgerDefunding` insert
abbrev pub new_request : RequestType → Destination → Destination → ℤ → ℤ → LedgerRequest
new_request kind channel ledger a b = record {
  ledger_channel_id = ledger;
  channel_to_be_funded = channel;
  status = queued;
  amount_a = a;
  amount_b = b;
  last_seen_agreed_state = none;
  missed_opportunity_count = 0;
  request_type = kind;
}

abbrev pub same_type : RequestType → RequestType → Bool
same_type fund k = is_fund_type k
same_type defund k = not (is_fund_type k)

-- Two references to one request
abbrev pub same_request : LedgerRequest → LedgerRequest → Bool
same_request r x =
    r.channel_to_be_funded == x.channel_to_be_funded && same_type r.request_type x.request_type

-- `r.status = status`
abbrev pub with_status : RequestStatus → LedgerRequest → LedgerRequest
with_status status r = record r { status = status }

-- The assignment to the request's status, seen wherever the request is referred to
unfoldable pub set_status : LedgerRequest → RequestStatus → List LedgerRequest → List LedgerRequest
set_status r status = map λ x. if same_request r x then with_status status x else x
