-- ===== src/Server/LedgerProtocol/Identity.antt =====
-- packages/server-wallet/src/protocols/ledger-protocol.ts: `processAgreedState` and `buildOutcome`, and
-- what they leave of the requests alone.
use statechannels.Common.{◌≡◌, refl, sym, ap, ◌∙◌, not, Option, none, some, List, [], ◌∷◌, filter}
use statechannels.Common.Results.{ok, >>=-eq-ok, or_throw, no_simple_allocation}
use statechannels.WalletCore.Types.{Destination, SimpleAllocation, SignedState}
use statechannels.Server.AllocationOutcome.{add, remove}
use statechannels.Server.LedgerRequest.{
  LedgerRequest, RequestStatus, inconsistent, insufficient, is_fund, is_defund,
}
use statechannels.Server.LedgerState.{simple_allocation_outcome, participant_destinations}
use statechannels.Server.LedgerProtocol.{
  mark_successes_and_inconsistencies, update_state_seen_and_missed_ops,
  reset_pending_requests_to_queued, identify_potential_cancellations, update_or_mark,
  apply_cancellations, refers_to, process_agreed_state, build_defunds, build_fundings,
  sort_by_channel, build_outcome,
}
use statechannels.Server.LedgerProtocol.RequestIdentity.{
  identities, mark_successes-identities, set_status-identities, apply_cancellations-identities,
  reset-identities, update_state_seen-identities,
}

pub process_agreed_state-identities :
    (agreed : SignedState) (rs : List LedgerRequest) {rs' : List LedgerRequest}
    → process_agreed_state agreed rs ≡ ok rs'
    → identities rs' ≡ identities rs
unfolding process_agreed_state
process_agreed_state-identities agreed rs {rs'} e =
    let turn = agreed.turn_num in
    let (cs, identified, e1) = >>=-eq-ok (identify_potential_cancellations rs) _ {b = rs'} e in
    let (o, simple, e2) =
      >>=-eq-ok (or_throw (simple_allocation_outcome agreed) no_simple_allocation) _ {b = rs'} e1 in
    let (marked, first, e3) =
      >>=-eq-ok (mark_successes_and_inconsistencies (λ r. not (refers_to cs r)) o turn rs) _
        {b = rs'} e2 in
    let reset = reset_pending_requests_to_queued marked in
    let (last, second, e4) =
      >>=-eq-ok
        (mark_successes_and_inconsistencies (refers_to (apply_cancellations turn cs reset).1) o turn
          (apply_cancellations turn cs reset).0)
        _ {b = rs'} e3 in
    let q : update_state_seen_and_missed_ops turn last ≡ rs' = cc in
    ap identities (sym q)
    ∙ update_state_seen-identities turn last
    ∙ mark_successes-identities (refers_to (apply_cancellations turn cs reset).1) o turn
        (apply_cancellations turn cs reset).0 second
    ∙ apply_cancellations-identities turn cs reset
    ∙ reset-identities marked
    ∙ mark_successes-identities (λ r. not (refers_to cs r)) o turn rs first

update_or_mark-identities :
    (r : LedgerRequest) (status : RequestStatus) (o : SimpleAllocation) (rs : List LedgerRequest)
    (updated : Option SimpleAllocation)
    → identities (update_or_mark r status o rs updated).1 ≡ identities rs
update_or_mark-identities r status o rs none = set_status-identities r status rs
update_or_mark-identities r status o rs (some o') = refl

build_defunds-identities :
    (ds : List Destination) (o : SimpleAllocation) (chosen rs : List LedgerRequest)
    {b : SimpleAllocation × List LedgerRequest}
    → build_defunds ds o chosen rs ≡ ok b
    → identities b.1 ≡ identities rs
unfolding build_defunds
build_defunds-identities ds o [] rs {b} e =
    let q : (o, rs) ≡ b = cc in ap (λ p. identities p.1) (sym q)
build_defunds-identities ds o (r ∷ chosen) rs {b} e =
    let (updated, done, e1) =
      >>=-eq-ok (remove r.channel_to_be_funded ds (r.amount_a ∷ r.amount_b ∷ []) o) _ {b = b} e in
    build_defunds-identities ds (update_or_mark r inconsistent o rs updated).0 chosen
      (update_or_mark r inconsistent o rs updated).1 e1
    ∙ update_or_mark-identities r inconsistent o rs updated

build_fundings-identities :
    (ds : List Destination) (o : SimpleAllocation) (chosen rs : List LedgerRequest)
    {b : SimpleAllocation × List LedgerRequest}
    → build_fundings ds o chosen rs ≡ ok b
    → identities b.1 ≡ identities rs
unfolding build_fundings
build_fundings-identities ds o [] rs {b} e =
    let q : (o, rs) ≡ b = cc in ap (λ p. identities p.1) (sym q)
build_fundings-identities ds o (r ∷ chosen) rs {b} e =
    let (updated, done, e1) =
      >>=-eq-ok (add r.channel_to_be_funded ds (r.amount_a ∷ r.amount_b ∷ []) o) _ {b = b} e in
    build_fundings-identities ds (update_or_mark r insufficient o rs updated).0 chosen
      (update_or_mark r insufficient o rs updated).1 e1
    ∙ update_or_mark-identities r insufficient o rs updated

pub build_outcome-identities :
    (s : SignedState) (chosen rs : List LedgerRequest) {b : SimpleAllocation × List LedgerRequest}
    → build_outcome s chosen rs ≡ ok b
    → identities b.1 ≡ identities rs
unfolding build_outcome
build_outcome-identities s chosen rs {b} e =
    let (o, simple, e1) =
      >>=-eq-ok (or_throw (simple_allocation_outcome s) no_simple_allocation) _ {b = b} e in
    let (removed, done, e2) =
      >>=-eq-ok (build_defunds (participant_destinations s) o (filter is_defund chosen) rs) _
        {b = b} e1 in
    build_fundings-identities (participant_destinations s) removed.0
      (sort_by_channel (filter is_fund chosen)) removed.1 e2
    ∙ build_defunds-identities (participant_destinations s) o (filter is_defund chosen) rs done
