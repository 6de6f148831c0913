-- ===== src/Server/LedgerProtocol/Stalled.antt =====
-- packages/server-wallet/src/protocols/ledger-protocol.ts: a proposal that reaches a follower who
-- cancels a request.
use statechannels.Common.{
  ℕ, ◌≡◌, sym, ap, subst, ◌∙◌, ◌≢◌, true, false, not, some, List, if◌then◌else◌, Bool-cases, inl,
  inr, arith, find, any, includes, All,
}
use statechannels.Common.Results.{
  ok, err, >>=-eq-ok, or_throw, no_simple_allocation, cancellation_not_queued,
}
use statechannels.WalletCore.Types.{Destination, SimpleAllocation, SignedState}
use statechannels.Server.AllocationOutcome.{destinations}
use statechannels.Server.LedgerRequest.{
  LedgerRequest, queued, is_defund, is_queued, is_pending, is_active, with_status,
}
use statechannels.Server.LedgerState.{simple_allocation_outcome}
use statechannels.Server.LedgerProtocol.{
  mark_successes_and_inconsistencies, see, update_state_seen_and_missed_ops,
  reset_pending_requests_to_queued, is_fund_of, is_cancellation, identify_potential_cancellations,
  apply_cancellations, refers_to, process_agreed_state,
}
use statechannels.Server.LedgerProtocol.Cranks.{
  Comparison, full_agreement, Cranked, is_empty, changed_destinations, compare_changed,
  compare_changes_with_requests, answer_proposal, crank_as_follower_in_proposal,
}
use statechannels.Server.LedgerProtocol.RequestIdentity.{mark_successes-identities}
use statechannels.Server.LedgerProtocol.Identity.{process_agreed_state-identities}
use statechannels.Server.LedgerProtocol.Marking.{
  is_defund_of, is_spent, any-map, mark-fund, mark-spent,
}
use statechannels.Server.LedgerProtocol.Cancellations.{reset-fund, apply-spends}
use statechannels.Server.LedgerProtocol.Refusing.{
  any-filter, filter-All, find-any, any_fund-identities, any_defund-identities, cancellation_of,
  identified, spent-refused,
}

seen-spent :
    (c : Destination) (turn : ℕ) (rs : List LedgerRequest)
    → any (is_spent c) rs ≡ true
    → any (is_spent c) (update_state_seen_and_missed_ops turn rs) ≡ true
unfolding update_state_seen_and_missed_ops
seen-spent c turn rs =
    any-map (is_spent c) (is_spent c) (λ r. if is_queued r then see turn r else r) rs
      (λ r h. let idle : is_queued r ≡ false = ground arith in rw idle h)

reset-defund :
    (c : Destination) (rs : List LedgerRequest)
    → any (is_defund_of c) rs ≡ true
    → any (is_defund_of c) (reset_pending_requests_to_queued rs) ≡ true
unfolding reset_pending_requests_to_queued
reset-defund c rs =
    any-map (is_defund_of c) (is_defund_of c)
      (λ r. if is_pending r then with_status queued r else r) rs (λ r h. ground arith)

-- A fund that is active while its defund is requested, and the agreed outcome lacks the channel
abbrev pub HasCancellation : Destination → SimpleAllocation → List LedgerRequest → Type 0
HasCancellation c o rs =
    (includes c (destinations o) ≡ false)
    × ((f : LedgerRequest) × (find (is_fund_of c) rs ≡ some f) × (is_active f ≡ true))
    × (any (is_defund_of c) rs ≡ true)

processed-spent :
    (c : Destination) (agreed : SignedState) (o : SimpleAllocation) (rs : List LedgerRequest)
    {rs' : List LedgerRequest}
    → simple_allocation_outcome agreed ≡ some o
    → HasCancellation c o rs
    → process_agreed_state agreed rs ≡ ok rs'
    → (any (is_spent c) rs' ≡ true) × (any (is_fund_of c) rs' ≡ true)
unfolding process_agreed_state
processed-spent c agreed o rs {rs'} has (absent, (f, found, active), there) e =
    let turn = agreed.turn_num in
    let (cs, passed, e1) = >>=-eq-ok (identify_potential_cancellations rs) _ {b = rs'} e in
    let (o1, simple, e2) =
      >>=-eq-ok (or_throw (simple_allocation_outcome agreed) no_simple_allocation) _ {b = rs'} e1 in
    let same : o1 ≡ o = ground arith in
    let absent1 = subst (λ x. includes c (destinations x) ≡ false) (sym same) absent in
    let (marked, first, e3) =
      >>=-eq-ok (mark_successes_and_inconsistencies (λ r. not (refers_to cs r)) o1 turn rs) _
        {b = rs'} e2 in
    let reset = reset_pending_requests_to_queued marked in
    let (last, second, e4) =
      >>=-eq-ok
        (mark_successes_and_inconsistencies (refers_to (apply_cancellations turn cs reset).1) o1
          turn (apply_cancellations turn cs reset).0)
        _ {b = rs'} e3 in
    let q : update_state_seen_and_missed_ops turn last ≡ rs' = cc in
    let fund_marked =
      mark-fund c (λ r. not (refers_to cs r)) o1 turn rs {f = f} absent1 found first in
    let defund_marked : any (is_defund_of c) marked ≡ true =
      sym (any_defund-identities c marked)
      ∙ ap (any (is_defund_of c))
          (mark_successes-identities (λ r. not (refers_to cs r)) o1 turn rs first)
      ∙ any_defund-identities c rs
      ∙ there in
    let is_fund_there = find-any (is_fund_of c) rs found in
    let chosen = identified rs passed in
    let named : any (is_defund_of c) cs ≡ true =
      subst (λ xs. any (is_defund_of c) xs ≡ true) chosen
        (any-filter (is_defund_of c) (is_cancellation rs) rs (cancellation_of c rs is_fund_there)
          there) in
    let defunds : All (λ r. is_defund r ≡ true) cs =
      subst (All (λ r. is_defund r ≡ true)) chosen
        (filter-All is_defund (is_cancellation rs) rs (λ r u. ground arith)) in
    let spent =
      apply-spends c turn cs reset named defunds
        (reset-fund c marked {f = f} fund_marked active, reset-defund c marked defund_marked) in
    let spent_last =
      mark-spent c (refers_to (apply_cancellations turn cs reset).1) o1 turn
        (apply_cancellations turn cs reset).0 spent second in
    (
      subst (λ xs. any (is_spent c) xs ≡ true) q (seen-spent c turn last spent_last),
      sym (any_fund-identities c rs')
          ∙ ap (any (is_fund_of c)) (process_agreed_state-identities agreed rs e)
          ∙ any_fund-identities c rs
          ∙ is_fund_there,
    )

refused-compare :
    (rs : List LedgerRequest) (agreed proposed : SignedState) {p : Comparison × List LedgerRequest}
    → identify_potential_cancellations rs ≡ err cancellation_not_queued
    → compare_changes_with_requests rs agreed proposed ≡ ok p
    → p ≡ (full_agreement, rs)
unfolding compare_changes_with_requests
refused-compare rs agreed proposed {p} refused e =
    let (o, has, e1) =
      >>=-eq-ok (or_throw (simple_allocation_outcome agreed) no_simple_allocation) _ {b = p} e in
    let (q, proposes, e2) =
      >>=-eq-ok (or_throw (simple_allocation_outcome proposed) no_simple_allocation) _ {b = p} e1 in
    let changed = changed_destinations (destinations o) (destinations q) in
    elim (Bool-cases (is_empty changed)) [
      | inl same ↦ ground arith
      | inr differs ↦
          let compared : compare_changed changed agreed o q rs ≡ ok p = ground arith in
          let (cs, passed, e3) =
            >>=-eq-ok (identify_potential_cancellations rs) _ {b = p} compared in
          absurd (cc)
    ]

refused_process :
    (s : SignedState) (rs : List LedgerRequest) {rs' : List LedgerRequest}
    → identify_potential_cancellations rs ≡ err cancellation_not_queued
    → process_agreed_state s rs ≢ ok rs'
unfolding process_agreed_state
refused_process s rs {rs'} refused e =
    let (cs, passed, e1) = >>=-eq-ok (identify_potential_cancellations rs) _ {b = rs'} e in
    absurd (cc)

-- While a channel that the agreed outcome lacks is to be both funded and defunded, by a fund that is
-- active and a defund, the follower's crank in a proposal gives no result but an exception, whatever the
-- proposal.
pub follower_stalls :
    (c : Destination) (agreed proposed : SignedState) (o : SimpleAllocation)
    (requests : List LedgerRequest) (r : Cranked)
    → simple_allocation_outcome agreed ≡ some o
    → HasCancellation c o requests
    → crank_as_follower_in_proposal agreed proposed requests ≢ ok r
unfolding crank_as_follower_in_proposal
follower_stalls c agreed proposed o requests r has cancellation e =
    let (rs, processed, e1) = >>=-eq-ok (process_agreed_state agreed requests) _ {b = r} e in
    let (spent, fund_there) = processed-spent c agreed o requests has cancellation processed in
    let refused = spent-refused c rs spent fund_there in
    let (p, compared, e2) =
      >>=-eq-ok (compare_changes_with_requests rs agreed proposed) _ {b = r} e1 in
    let full = refused-compare rs agreed proposed {p = p} refused compared in
    let answered : answer_proposal proposed (full_agreement, rs) ≡ ok r =
      subst (λ p. answer_proposal proposed p ≡ ok r) full e2 in
    let (rs', again, e3) = >>=-eq-ok (process_agreed_state proposed rs) _ {b = r} answered in
    refused_process proposed rs refused again
