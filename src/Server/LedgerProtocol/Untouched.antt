-- ===== src/Server/LedgerProtocol/Untouched.antt =====
-- packages/server-wallet/src/protocols/ledger-protocol.ts: what a crank may change of the requests.
use statechannels.Common.{
  ◌≡◌, sym, ap, ◌∙◌, Bool, true, false, List, [], ◌∷◌, Bool-cases, inl, inr, arith, filter, any,
  ◌==◌,
}
use statechannels.Common.Results.{Result, ok, ◌>>=◌, >>=-eq-ok, or_throw, no_simple_allocation}
use statechannels.WalletCore.Types.{Destination, SimpleAllocation, SignedState}
use statechannels.Server.AllocationOutcome.{destinations}
use statechannels.Server.LedgerRequest.{LedgerRequest, is_queued}
use statechannels.Server.LedgerState.{
  simple_allocation_outcome, advance_to_outcome, Ledger, LedgerState, agreement, proposal,
  counter_proposal, violation, determine_ledger_state,
}
use statechannels.Server.LedgerProtocol.{
  identify_potential_cancellations, mark_included_requests_as_pending, process_agreed_state,
  build_outcome,
}
use statechannels.Server.LedgerProtocol.Cranks.{
  Comparison, full_agreement, some_overlap, no_overlap, Cranked, is_empty, changed_destinations,
  compare_changed, compare_overlap, overlapping_requests, compare_changes_with_requests,
  is_equal_to_option, propose, crank_as_leader_in_agreement, crank_as_follower_in_agreement,
  confirm_counter_proposal, crank_as_leader_in_counter_proposal, answer_proposal,
  crank_as_follower_in_proposal, crank_in, crank,
}
use statechannels.Server.LedgerProtocol.RequestIdentity.{
  identities, mark_included_requests-identities,
}
use statechannels.Server.LedgerProtocol.Identity.{
  process_agreed_state-identities, build_outcome-identities,
}

-- A result that leaves the requests alone
abbrev Keeps : {A : Type 0} → List LedgerRequest → Result (A × List LedgerRequest) → Type 0
Keeps {A} rs m = (p : A × List LedgerRequest) → m ≡ ok p → identities p.1 ≡ identities rs

compare_changed-Keeps :
    (changed : List Destination) (baseline : SignedState) (before after : SimpleAllocation)
    (rs : List LedgerRequest)
    → Keeps rs (compare_changed changed baseline before after rs)
compare_changed-Keeps changed baseline before after rs p e =
    let (cs, identified, e1) = >>=-eq-ok (identify_potential_cancellations rs) _ {b = p} e in
    elim (Bool-cases (is_empty (overlapping_requests changed cs rs))) [
      | inl q ↦
          let same : (no_overlap before, rs) ≡ p = ground arith in
          ap (λ p. identities p.1) (sym same)
      | inr q ↦
          let (b, built, e2) =
            >>=-eq-ok (build_outcome baseline (overlapping_requests changed cs rs) rs)
              (λ b. compare_overlap changed (overlapping_requests changed cs rs) after b.0 >>= λ c.
                ok (c, b.1))
              {b = p} (ground arith) in
          let (c, compared, e3) =
            >>=-eq-ok (compare_overlap changed (overlapping_requests changed cs rs) after b.0) _
              {b = p} e2 in
          let same : (c, b.1) ≡ p = cc in
          ap (λ p. identities p.1) (sym same)
          ∙ build_outcome-identities baseline (overlapping_requests changed cs rs) rs built
    ]

compare_changes-Keeps :
    (rs : List LedgerRequest) (baseline candidate : SignedState)
    → Keeps rs (compare_changes_with_requests rs baseline candidate)
unfolding compare_changes_with_requests
compare_changes-Keeps rs baseline candidate p e =
    let (before, has_before, e1) =
      >>=-eq-ok (or_throw (simple_allocation_outcome baseline) no_simple_allocation) _ {b = p} e in
    let (after, has_after, e2) =
      >>=-eq-ok (or_throw (simple_allocation_outcome candidate) no_simple_allocation) _ {b = p}
        e1 in
    let changed = changed_destinations (destinations before) (destinations after) in
    elim (Bool-cases (is_empty changed)) [
      | inl q ↦
          let same : (full_agreement, rs) ≡ p = ground arith in ap (λ p. identities p.1) (sym same)
      | inr q ↦ compare_changed-Keeps changed baseline before after rs p (ground arith)
    ]

-- An outcome that is marked and signed
sign-Keeps :
    (s : SignedState) (o : SimpleAllocation) (rs : List LedgerRequest)
    → Keeps rs
        (mark_included_requests_as_pending o rs >>= λ rs'. ok (advance_to_outcome o s ∷ [], rs'))
sign-Keeps s o rs p e =
    let (rs', marked, e1) = >>=-eq-ok (mark_included_requests_as_pending o rs) _ {b = p} e in
    let same : (advance_to_outcome o s ∷ [], rs') ≡ p = cc in
    ap (λ p. identities p.1) (sym same) ∙ mark_included_requests-identities o rs marked

propose-Keeps :
    (agreed : SignedState) (o : SimpleAllocation) (rs : List LedgerRequest)
    → Keeps rs (propose agreed o rs)
propose-Keeps agreed o rs p e =
    elim (Bool-cases (is_equal_to_option o (simple_allocation_outcome agreed))) [
      | inl q ↦ let same : ([], rs) ≡ p = ground arith in ap (λ p. identities p.1) (sym same)
      | inr q ↦ sign-Keeps agreed o rs p (ground arith)
    ]

leader_in_agreement-Keeps :
    (agreed : SignedState) (rs : List LedgerRequest)
    → Keeps rs (crank_as_leader_in_agreement agreed rs)
unfolding crank_as_leader_in_agreement
leader_in_agreement-Keeps agreed rs p e =
    let (rs', processed, e1) = >>=-eq-ok (process_agreed_state agreed rs) _ {b = p} e in
    elim (Bool-cases (any is_queued rs')) [
      | inl q ↦
          let (b, built, e2) =
            >>=-eq-ok (build_outcome agreed (filter is_queued rs') rs')
              (λ b. propose agreed b.0 b.1) {b = p} (ground arith) in
          propose-Keeps agreed b.0 b.1 p e2
          ∙ build_outcome-identities agreed (filter is_queued rs') rs' built
          ∙ process_agreed_state-identities agreed rs processed
      | inr q ↦
          let same : ([], rs') ≡ p = ground arith in
          ap (λ p. identities p.1) (sym same) ∙ process_agreed_state-identities agreed rs processed
    ]

-- The outcome of `process_agreed_state` with states of one's own
processed-Keeps :
    (agreed : SignedState) (rs : List LedgerRequest) (states : List SignedState)
    → Keeps rs (process_agreed_state agreed rs >>= λ rs'. ok (states, rs'))
processed-Keeps agreed rs states p e =
    let (rs', processed, e1) = >>=-eq-ok (process_agreed_state agreed rs) _ {b = p} e in
    let same : (states, rs') ≡ p = cc in
    ap (λ p. identities p.1) (sym same) ∙ process_agreed_state-identities agreed rs processed

confirm-Keeps :
    (counter_proposed : SignedState) (c : Comparison × List LedgerRequest)
    → Keeps c.1 (confirm_counter_proposal counter_proposed c)
confirm-Keeps s (full_agreement, rs) p e =
    let (c, cranked, e1) = >>=-eq-ok (crank_as_leader_in_agreement s rs) _ {b = p} e in
    let same : (s ∷ c.0, c.1) ≡ p = cc in
    ap (λ p. identities p.1) (sym same) ∙ leader_in_agreement-Keeps s rs c cranked
confirm-Keeps s (some_overlap o, rs) p e = absurd (cc)
confirm-Keeps s (no_overlap o, rs) p e = absurd (cc)

answer-Keeps :
    (proposed : SignedState) (c : Comparison × List LedgerRequest)
    → Keeps c.1 (answer_proposal proposed c)
answer-Keeps s (full_agreement, rs) p e = processed-Keeps s rs (s ∷ []) p e
answer-Keeps s (some_overlap o, rs) p e = sign-Keeps s o rs p e
answer-Keeps s (no_overlap o, rs) p e = sign-Keeps s o rs p e

leader_in_counter_proposal-Keeps :
    (agreed counter_proposed : SignedState) (rs : List LedgerRequest)
    → Keeps rs (crank_as_leader_in_counter_proposal agreed counter_proposed rs)
unfolding crank_as_leader_in_counter_proposal
leader_in_counter_proposal-Keeps agreed s rs p e =
    let (c, compared, e1) = >>=-eq-ok (compare_changes_with_requests rs agreed s) _ {b = p} e in
    confirm-Keeps s c p e1 ∙ compare_changes-Keeps rs agreed s c compared

follower_in_proposal-Keeps :
    (agreed proposed : SignedState) (rs : List LedgerRequest)
    → Keeps rs (crank_as_follower_in_proposal agreed proposed rs)
unfolding crank_as_follower_in_proposal
follower_in_proposal-Keeps agreed s rs p e =
    let (rs', processed, e1) = >>=-eq-ok (process_agreed_state agreed rs) _ {b = p} e in
    let (c, compared, e2) = >>=-eq-ok (compare_changes_with_requests rs' agreed s) _ {b = p} e1 in
    answer-Keeps s c p e2
    ∙ compare_changes-Keeps rs' agreed s c compared
    ∙ process_agreed_state-identities agreed rs processed

crank_in-Keeps :
    (s : LedgerState) (leads : Bool) (rs : List LedgerRequest) → Keeps rs (crank_in s leads rs)
unfolding crank_as_follower_in_agreement
crank_in-Keeps (agreement a) true rs p e = leader_in_agreement-Keeps a rs p e
crank_in-Keeps (agreement a) false rs p e = processed-Keeps a rs [] p e
crank_in-Keeps (proposal a s) true rs p e =
    let same : ([], rs) ≡ p = cc in ap (λ p. identities p.1) (sym same)
crank_in-Keeps (proposal a s) false rs p e = follower_in_proposal-Keeps a s rs p e
crank_in-Keeps (counter_proposal a s c) true rs p e = leader_in_counter_proposal-Keeps a c rs p e
crank_in-Keeps (counter_proposal a s c) false rs p e =
    let same : ([], rs) ≡ p = cc in ap (λ p. identities p.1) (sym same)
crank_in-Keeps violation leads rs p e = absurd (cc)

-- A crank that returns leaves the requests in their order, with their channels, types and amounts: no
-- request is added, dropped or changed but for its status and its book-keeping.
pub crank-identities :
    (l : Ledger) (requests : List LedgerRequest) {r : Cranked}
    → crank l requests ≡ ok r
    → identities r.1 ≡ identities requests
unfolding crank
crank-identities l requests {r} e =
    crank_in-Keeps (determine_ledger_state l) (l.my_index == 0) requests r e
