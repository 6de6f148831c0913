-- ===== src/Server/LedgerProtocol/Cranks.antt =====
-- The cranks of `LedgerProtocol` in packages/server-wallet/src/protocols/ledger-protocol.ts: the states
-- to sign and the requests after the crank.
use statechannels.Common.{
  Bool, true, false, not, Option, none, some, List, [], ◌∷◌, ◌++◌, ◌==◌, if◌then◌else◌, length,
  filter, any, includes,
}
use statechannels.Common.Results.{
  Result, ok, err, ◌>>=◌, or_throw, no_simple_allocation, outcomes_inconsistent, protocol_error,
  protocol_violation,
}
use statechannels.WalletCore.Types.{Destination, SimpleAllocation, SignedState}
use statechannels.Server.AllocationOutcome.{destinations, is_equal_to}
use statechannels.Server.LedgerRequest.{LedgerRequest, is_queued}
use statechannels.Server.LedgerState.{
  simple_allocation_outcome, advance_to_outcome, Ledger, agreement, proposal, counter_proposal,
  violation, LedgerState, determine_ledger_state,
}
use statechannels.Server.LedgerProtocol.{
  refers_to, identify_potential_cancellations, mark_included_requests_as_pending,
  process_agreed_state, build_outcome,
}

abbrev pub absent_from : List Destination → List Destination → List Destination
absent_from ys xs = filter (λ d. not (includes d ys)) xs

-- `_.uniq`
unfoldable pub uniq : List Destination → List Destination
uniq [] = []
uniq (d ∷ ds) = d ∷ filter (λ x. not (x == d)) (uniq ds)

-- `_.xor`
unfoldable pub changed_destinations : List Destination → List Destination → List Destination
changed_destinations xs ys = uniq (absent_from ys xs ++ absent_from xs ys)

-- `CompareChangesWithRequestsResult`
pub data Comparison : Type 0 where
  full_agreement : Comparison
  some_overlap : (narrowed : SimpleAllocation) → Comparison
  no_overlap : (narrowed : SimpleAllocation) → Comparison

abbrev pub is_empty : {A : Type 0} → List A → Bool
is_empty [] = true
is_empty (x ∷ xs) = false

-- What is compared when the candidate follows from requests of ours.
abbrev pub compare_overlap :
    List Destination → List LedgerRequest → SimpleAllocation → SimpleAllocation → Result Comparison
compare_overlap changed overlapping candidate calculated =
    if length overlapping == length changed
    then (if is_equal_to candidate calculated then ok full_agreement else err outcomes_inconsistent)
    else ok (some_overlap calculated)

-- The requests, other than cancellations, for the destinations that changed
abbrev pub overlapping_requests :
    List Destination → List LedgerRequest → List LedgerRequest → List LedgerRequest
overlapping_requests changed cancellations =
    filter λ r. if refers_to cancellations r then false else includes r.channel_to_be_funded changed

abbrev pub compare_changed :
    List Destination
    → SignedState
    → SimpleAllocation
    → SimpleAllocation
    → List LedgerRequest
    → Result (Comparison × List LedgerRequest)
compare_changed changed baseline before after requests = do
  cancellations ← identify_potential_cancellations requests
  let overlapping = overlapping_requests changed cancellations requests
  let built = build_outcome baseline overlapping requests >>= λ b.
      compare_overlap changed overlapping after b.0 >>= λ c. ok (c, b.1)
  if is_empty overlapping then ok (no_overlap before, requests) else built

-- `compareChangesWithRequests`
unfoldable pub compare_changes_with_requests :
    List LedgerRequest → SignedState → SignedState → Result (Comparison × List LedgerRequest)
compare_changes_with_requests requests baseline candidate = do
  before ← or_throw (simple_allocation_outcome baseline) no_simple_allocation
  after ← or_throw (simple_allocation_outcome candidate) no_simple_allocation
  let changed = changed_destinations (destinations before) (destinations after)
  let compared = compare_changed changed baseline before after requests
  if is_empty changed then ok (full_agreement, requests) else compared

-- The states to sign, and the requests
abbrev pub Cranked : Type 0
Cranked = List SignedState × List LedgerRequest

-- `isEqualTo` of an outcome that may be missing
abbrev pub is_equal_to_option : SimpleAllocation → Option SimpleAllocation → Bool
is_equal_to_option o none = false
is_equal_to_option o (some p) = is_equal_to o p

-- A new outcome is proposed, unless none of the requests could be met.
abbrev pub propose : SignedState → SimpleAllocation → List LedgerRequest → Result Cranked
propose agreed o requests =
    let proposed = mark_included_requests_as_pending o requests >>= λ rs.
    ok (advance_to_outcome o agreed ∷ [], rs) in
    if not (is_equal_to_option o (simple_allocation_outcome agreed))
    then proposed
    else ok ([], requests)

-- `crankAsLeaderInAgreement`
unfoldable pub crank_as_leader_in_agreement : SignedState → List LedgerRequest → Result Cranked
crank_as_leader_in_agreement agreed requests = do
  rs ← process_agreed_state agreed requests
  let built = build_outcome agreed (filter is_queued rs) rs >>= λ b. propose agreed b.0 b.1
  if any is_queued rs then built else ok ([], rs)

-- `crankAsFollowerInAgreement`
unfoldable pub crank_as_follower_in_agreement : SignedState → List LedgerRequest → Result Cranked
crank_as_follower_in_agreement agreed requests =
    process_agreed_state agreed requests >>= λ rs. ok ([], rs)

abbrev pub confirm_counter_proposal : SignedState → Comparison × List LedgerRequest → Result Cranked
confirm_counter_proposal counter_proposed (full_agreement, rs) =
    crank_as_leader_in_agreement counter_proposed rs >>= λ c. ok (counter_proposed ∷ c.0, c.1)
confirm_counter_proposal counter_proposed (some_overlap o, rs) = err protocol_error
confirm_counter_proposal counter_proposed (no_overlap o, rs) = err protocol_error

-- `crankAsLeaderInCounterProposal`
unfoldable pub crank_as_leader_in_counter_proposal :
    SignedState → SignedState → List LedgerRequest → Result Cranked
crank_as_leader_in_counter_proposal agreed counter_proposed requests =
    compare_changes_with_requests requests agreed counter_proposed
    >>= confirm_counter_proposal counter_proposed

abbrev pub counter : SignedState → SimpleAllocation → List LedgerRequest → Result Cranked
counter proposed o rs =
    mark_included_requests_as_pending o rs >>= λ rs'. ok (advance_to_outcome o proposed ∷ [], rs')

abbrev pub answer_proposal : SignedState → Comparison × List LedgerRequest → Result Cranked
answer_proposal proposed (full_agreement, rs) =
    process_agreed_state proposed rs >>= λ rs'. ok (proposed ∷ [], rs')
answer_proposal proposed (some_overlap o, rs) = counter proposed o rs
answer_proposal proposed (no_overlap o, rs) = counter proposed o rs

-- `crankAsFollowerInProposal`
unfoldable pub crank_as_follower_in_proposal :
    SignedState → SignedState → List LedgerRequest → Result Cranked
crank_as_follower_in_proposal agreed proposed requests = do
  rs ← process_agreed_state agreed requests
  compared ← compare_changes_with_requests rs agreed proposed
  answer_proposal proposed compared

abbrev pub crank_in : LedgerState → Bool → List LedgerRequest → Result Cranked
crank_in (agreement agreed) true requests = crank_as_leader_in_agreement agreed requests
crank_in (agreement agreed) false requests = crank_as_follower_in_agreement agreed requests
crank_in (proposal agreed proposed) true requests = ok ([], requests)
crank_in (proposal agreed proposed) false requests =
    crank_as_follower_in_proposal agreed proposed requests
crank_in (counter_proposal agreed proposed counter_proposed) true requests =
    crank_as_leader_in_counter_proposal agreed counter_proposed requests
crank_in (counter_proposal agreed proposed counter_proposed) false requests = ok ([], requests)
crank_in violation leads requests = err protocol_violation

-- `crank`: the first participant leads.
unfoldable pub crank : Ledger → List LedgerRequest → Result Cranked
crank l requests = crank_in (determine_ledger_state l) (l.my_index == 0) requests
