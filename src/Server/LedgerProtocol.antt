-- ===== src/Server/LedgerProtocol.antt =====
-- packages/server-wallet/src/protocols/ledger-protocol.ts: how a ledger's outcome follows from the
-- requests. The requests that the code mutates are a list that is passed on; a request held in
-- another list is a reference to the one of its channel and type. An exception ends the crank, and
-- what it has assigned by then is not saved. The operations on the requests; the cranks are in Cranks.
pub mod Cranks
pub mod RequestIdentity
pub mod Identity
pub mod Untouched
pub mod Outcomes
pub mod Comparing
pub mod Signing
pub mod Balances
pub mod Marking
pub mod Cancellations
pub mod Refusing
pub mod Stalled
use statechannels.Common.{
  ℕ, suc, Bool, true, false, not, Option, none, some, List, [], ◌∷◌, ◌++◌, ◌&&◌, ◌||◌, ◌==◌, map,
  ltb, leb, if◌then◌else◌, length, find, filter, any, includes,
}
use statechannels.Common.Int.{ℤ, eqb_ℤ}
use statechannels.Common.Results.{
  Result, ok, err, ◌>>=◌, ◌>>◌, throw_if, or_throw, no_simple_allocation, duplicate_entries,
  amounts_differ, cancellation_not_queued, outcomes_inconsistent,
}
use statechannels.WalletCore.Types.{Destination, SimpleAllocation, SignedState}
use statechannels.Server.AllocationOutcome.{destinations, balance_for, is_equal_to, add, remove}
use statechannels.Server.LedgerRequest.{
  LedgerRequest, RequestStatus, queued, cancelled, pending, succeeded, insufficient, inconsistent,
  is_fund, is_defund, is_queued, is_pending, total_amount, same_request, with_status, set_status,
}
use statechannels.Server.LedgerState.{simple_allocation_outcome, participant_destinations}

-- `r.status = status; r.lastSeenAgreedState = turnNum`
abbrev pub settle : RequestStatus → ℕ → LedgerRequest → LedgerRequest
settle status turn r = record r { status = status; last_seen_agreed_state = some turn }

-- The outcome has the channel with the request's total.
abbrev pub amounts_match : SimpleAllocation → LedgerRequest → Bool
amounts_match o r = elim (balance_for r.channel_to_be_funded o) [
  | none ↦ false
  | some b ↦ eqb_ℤ b (total_amount r)
]

abbrev pub entries_of : Destination → SimpleAllocation → ℕ
entries_of d o = length (filter (λ x. x == d) (destinations o))

abbrev pub judge_defund : SimpleAllocation → ℕ → LedgerRequest → Result LedgerRequest
judge_defund o turn r =
    let entries = entries_of r.channel_to_be_funded o in
    if ltb 1 entries
    then err duplicate_entries
    else ok (
        if entries == 0
        then settle succeeded turn r
        else (if amounts_match o r then r else settle inconsistent turn r))

abbrev pub judge_fund : SimpleAllocation → ℕ → LedgerRequest → LedgerRequest
judge_fund o turn r =
    if includes r.channel_to_be_funded (destinations o)
    then settle (if amounts_match o r then succeeded else inconsistent) turn r
    else r

unfoldable pub judge : SimpleAllocation → ℕ → LedgerRequest → Result LedgerRequest
judge o turn r = if is_fund r then ok (judge_fund o turn r) else judge_defund o turn r

-- `markSuccessesAndInconsistencies` of the requests in a scope
unfoldable pub mark_successes_and_inconsistencies :
    (LedgerRequest → Bool) → SimpleAllocation → ℕ → List LedgerRequest → Result (List LedgerRequest)
mark_successes_and_inconsistencies scope o turn [] = ok []
mark_successes_and_inconsistencies scope o turn (r ∷ rs) =
    (if scope r then judge o turn r else ok r) >>= λ r'.
    mark_successes_and_inconsistencies scope o turn rs >>= λ rs'. ok (r' ∷ rs')

-- `if (r.lastSeenAgreedState)`: the turn 0 is falsy, as null is.
abbrev pub has_seen : Option ℕ → Bool
has_seen none = false
has_seen (some t) = not (t == 0)

abbrev pub is_seen_at : ℕ → Option ℕ → Bool
is_seen_at turn none = false
is_seen_at turn (some t) = t == turn

abbrev pub see : ℕ → LedgerRequest → LedgerRequest
see turn r = if is_seen_at turn r.last_seen_agreed_state then r else record r {
  last_seen_agreed_state = some turn;
  missed_opportunity_count =
      if has_seen r.last_seen_agreed_state
      then suc r.missed_opportunity_count
      else r.missed_opportunity_count;
}

-- `updateStateSeenAndMissedOps`
unfoldable pub update_state_seen_and_missed_ops : ℕ → List LedgerRequest → List LedgerRequest
update_state_seen_and_missed_ops turn = map λ r. if is_queued r then see turn r else r

-- `resetPendingRequestsToQueued`
unfoldable pub reset_pending_requests_to_queued : List LedgerRequest → List LedgerRequest
reset_pending_requests_to_queued = map λ r. if is_pending r then with_status queued r else r

abbrev pub mark_included : SimpleAllocation → LedgerRequest → Result LedgerRequest
mark_included o r =
    let is_included = includes r.channel_to_be_funded (destinations o) in
    if not (is_queued r)
    then ok r
    else (if is_fund r
        then (if not is_included
            then ok r
            else (if amounts_match o r then ok (with_status pending r) else err amounts_differ))
        else ok (if is_included then r else with_status pending r))

-- `markIncludedRequestsAsPending`, for the outcome of the proposed state
unfoldable pub mark_included_requests_as_pending :
    SimpleAllocation → List LedgerRequest → Result (List LedgerRequest)
mark_included_requests_as_pending o [] = ok []
mark_included_requests_as_pending o (r ∷ rs) =
    mark_included o r >>= λ r'. mark_included_requests_as_pending o rs >>= λ rs'. ok (r' ∷ rs')

abbrev pub is_fund_of : Destination → LedgerRequest → Bool
is_fund_of c r = is_fund r && r.channel_to_be_funded == c

-- A defund whose fund is among the requests too.
abbrev pub is_cancellation : List LedgerRequest → LedgerRequest → Bool
is_cancellation requests r = is_defund r && any (is_fund_of r.channel_to_be_funded) requests

-- `identifyPotentialCancellations`: the cancellations; the others are the requests that are not.
unfoldable pub identify_potential_cancellations : List LedgerRequest → Result (List LedgerRequest)
identify_potential_cancellations requests =
    throw_if (any (λ r. is_cancellation requests r && not (is_queued r)) requests)
      cancellation_not_queued
    >> ok (filter (is_cancellation requests) requests)

abbrev pub settle_request :
    LedgerRequest → RequestStatus → ℕ → List LedgerRequest → List LedgerRequest
settle_request r status turn = map λ x. if same_request r x then settle status turn x else x

-- One round of `applyCancellations`: the requests, and the cancellation if it does not apply
abbrev pub cancel_pair :
    ℕ
    → LedgerRequest
    → Option LedgerRequest
    → List LedgerRequest
    → List LedgerRequest × List LedgerRequest
cancel_pair turn d none requests = (requests, d ∷ [])
cancel_pair turn d (some f) requests =
    if is_queued f
    then (settle_request d cancelled turn (settle_request f cancelled turn requests), [])
    else (requests, d ∷ [])

-- `applyCancellations`: the requests, and the cancellations that do not apply
unfoldable pub apply_cancellations :
    ℕ → List LedgerRequest → List LedgerRequest → List LedgerRequest × List LedgerRequest
apply_cancellations turn [] requests = (requests, [])
apply_cancellations turn (d ∷ ds) requests =
    let step = cancel_pair turn d (find (is_fund_of d.channel_to_be_funded) requests) requests in
    let rest = apply_cancellations turn ds step.0 in (rest.0, step.1 ++ rest.1)

abbrev pub refers_to : List LedgerRequest → LedgerRequest → Bool
refers_to rs x = any (λ r. same_request r x) rs

-- `processAgreedState`
unfoldable pub process_agreed_state : SignedState → List LedgerRequest → Result (List LedgerRequest)
process_agreed_state agreed requests = do
  cancellations ← identify_potential_cancellations requests
  o ← or_throw (simple_allocation_outcome agreed) no_simple_allocation
  marked ←
      mark_successes_and_inconsistencies (λ r. not (refers_to cancellations r)) o agreed.turn_num
        requests
  let reset = reset_pending_requests_to_queued marked
  let applied = apply_cancellations agreed.turn_num cancellations reset
  all_marked ← mark_successes_and_inconsistencies (refers_to applied.1) o agreed.turn_num applied.0
  ok (update_state_seen_and_missed_ops agreed.turn_num all_marked)

-- `if (updatedOutcome) … else request.status = …`
abbrev pub update_or_mark :
    LedgerRequest
    → RequestStatus
    → SimpleAllocation
    → List LedgerRequest
    → Option SimpleAllocation
    → SimpleAllocation × List LedgerRequest
update_or_mark r status o requests none = (o, set_status r status requests)
update_or_mark r status o requests (some o') = (o', requests)

-- The defunds of `buildOutcome`. A channel that cannot be removed makes its request inconsistent.
unfoldable pub build_defunds :
    List Destination
    → SimpleAllocation
    → List LedgerRequest
    → List LedgerRequest
    → Result (SimpleAllocation × List LedgerRequest)
build_defunds ds o [] requests = ok (o, requests)
build_defunds ds o (r ∷ rs) requests =
    remove r.channel_to_be_funded ds (r.amount_a ∷ r.amount_b ∷ []) o >>= λ updated.
    let next = update_or_mark r inconsistent o requests updated in build_defunds ds next.0 rs next.1

-- The fundings of `buildOutcome`
unfoldable pub build_fundings :
    List Destination
    → SimpleAllocation
    → List LedgerRequest
    → List LedgerRequest
    → Result (SimpleAllocation × List LedgerRequest)
build_fundings ds o [] requests = ok (o, requests)
build_fundings ds o (r ∷ rs) requests =
    add r.channel_to_be_funded ds (r.amount_a ∷ r.amount_b ∷ []) o >>= λ updated.
    let next = update_or_mark r insufficient o requests updated in
    build_fundings ds next.0 rs next.1

unfoldable pub insert_by_channel : LedgerRequest → List LedgerRequest → List LedgerRequest
insert_by_channel r [] = r ∷ []
insert_by_channel r (x ∷ xs) =
    if leb r.channel_to_be_funded x.channel_to_be_funded
    then r ∷ x ∷ xs
    else x ∷ insert_by_channel r xs

-- `_.sortBy(requests, 'channelToBeFunded')`
unfoldable pub sort_by_channel : List LedgerRequest → List LedgerRequest
sort_by_channel [] = []
sort_by_channel (r ∷ rs) = insert_by_channel r (sort_by_channel rs)

-- `buildOutcome` of some of the requests, which also assigns to the requests
unfoldable pub build_outcome :
    SignedState
    → List LedgerRequest
    → List LedgerRequest
    → Result (SimpleAllocation × List LedgerRequest)
build_outcome s chosen requests = do
  o ← or_throw (simple_allocation_outcome s) no_simple_allocation
  removed ← build_defunds (participant_destinations s) o (filter is_defund chosen) requests
  build_fundings (participant_destinations s) removed.0 (sort_by_channel (filter is_fund chosen))
      removed.1
