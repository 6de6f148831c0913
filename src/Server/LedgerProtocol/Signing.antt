-- ===== src/Server/LedgerProtocol/Signing.antt =====
-- packages/server-wallet/src/protocols/ledger-protocol.ts: the funds in the states that the leader and
-- the follower sign.
use statechannels.Common.{
  ◌≡◌, sym, ap, subst, ◌⊎◌, inl, inr, true, false, some, List, [], ◌∷◌, Bool-cases, arith, filter,
  any,
}
use statechannels.Common.Results.{ok, ◌>>=◌, >>=-eq-ok}
use statechannels.WalletCore.Types.{SimpleAllocation, SignedState}
use statechannels.Server.AllocationOutcome.{destinations, is_equal_to}
use statechannels.Server.LedgerRequest.{LedgerRequest, is_queued}
use statechannels.Server.LedgerState.{
  simple_allocation_outcome, participant_destinations, advance_to_outcome,
}
use statechannels.Server.LedgerProtocol.{
  mark_included_requests_as_pending, process_agreed_state, build_outcome,
}
use statechannels.Server.LedgerProtocol.Cranks.{
  Comparison, full_agreement, some_overlap, no_overlap, Cranked, is_empty, changed_destinations,
  compare_changes_with_requests, is_equal_to_option, propose, crank_as_leader_in_agreement,
  answer_proposal, crank_as_follower_in_proposal,
}
use statechannels.Server.LedgerProtocol.Outcomes.{
  SameFunds, Avoids, All-filter, build_outcome-SameFunds,
}
use statechannels.Server.LedgerProtocol.Comparing.{
  processed-Avoids, Fits, Compared, compare_changes-Compared,
}

-- The state that `propose` and `counter` sign
sign-states :
    (s : SignedState) (o : SimpleAllocation) (rs : List LedgerRequest) {r : Cranked}
    → (mark_included_requests_as_pending o rs >>= λ rs'. ok (advance_to_outcome o s ∷ [], rs'))
      ≡ ok r
    → r.0 ≡ advance_to_outcome o s ∷ []
sign-states s o rs {r} e =
    let (rs', marked, e1) = >>=-eq-ok (mark_included_requests_as_pending o rs) _ {b = r} e in
    let m : (advance_to_outcome o s ∷ [], rs') ≡ r = cc in ap (λ r. r.0) (sym m)

processed-states :
    (s : SignedState) (rs : List LedgerRequest) (states : List SignedState) {r : Cranked}
    → (process_agreed_state s rs >>= λ rs'. ok (states, rs')) ≡ ok r
    → r.0 ≡ states
processed-states s rs states {r} e =
    let (rs', marked, e1) = >>=-eq-ok (process_agreed_state s rs) _ {b = r} e in
    let m : (states, rs') ≡ r = cc in ap (λ r. r.0) (sym m)

-- In agreement the leader signs nothing, or one state: the next turn, with an outcome that is not the
-- agreed one and has the same funds of the same asset. This is for a ledger whose items have different
-- destinations, and requests for channels that are no participant's own destination.
pub leader_in_agreement-SameFunds :
    (agreed : SignedState) (o : SimpleAllocation) (requests : List LedgerRequest) {r : Cranked}
    → Fits agreed o requests
    → crank_as_leader_in_agreement agreed requests ≡ ok r
    → (r.0 ≡ [])
      ⊎ ((p : SimpleAllocation) × (r.0 ≡ advance_to_outcome p agreed ∷ [])
          × (is_equal_to p o ≡ false)
          × SameFunds o p)
unfolding crank_as_leader_in_agreement
leader_in_agreement-SameFunds agreed o requests {r} (has, d, avoid) e =
    let (rs, processed, e1) = >>=-eq-ok (process_agreed_state agreed requests) _ {b = r} e in
    elim (Bool-cases (any is_queued rs)) [
      | inr idle ↦ let m : ([], rs) ≡ r = ground arith in inl (ap (λ r. r.0) (sym m))
      | inl busy ↦
          let (b, built, e2) =
            >>=-eq-ok (build_outcome agreed (filter is_queued rs) rs) (λ b. propose agreed b.0 b.1)
              {b = r} (ground arith) in
          let avoids =
            processed-Avoids (participant_destinations agreed) agreed requests processed avoid in
          let funds =
            build_outcome-SameFunds agreed o (filter is_queued rs) rs {b = b} has d
              (All-filter (Avoids (participant_destinations agreed)) is_queued rs avoids) built in
          elim (Bool-cases (is_equal_to_option b.0 (simple_allocation_outcome agreed))) [
            | inl equal ↦ let m : ([], b.1) ≡ r = ground arith in inl (ap (λ r. r.0) (sym m))
            | inr differ ↦ inr (
              b.0,
              sign-states agreed b.0 b.1 {r = r} (ground arith),
              subst (λ x. is_equal_to_option b.0 x ≡ false) has differ,
              funds,
            )
          ]
    ]

-- What the follower signs: the proposal, or a counter-proposal
abbrev pub Answers : SignedState → SimpleAllocation → SimpleAllocation → List SignedState → Type 0
Answers proposed o q states =
    ((states ≡ proposed ∷ [])
      × ((is_empty (changed_destinations (destinations o) (destinations q)) ≡ true)
          ⊎ SameFunds o q))
    ⊎ ((p : SimpleAllocation) × (states ≡ advance_to_outcome p proposed ∷ []) × SameFunds o p)

answer-Answers :
    (proposed : SignedState) (o q : SimpleAllocation) (c : Comparison × List LedgerRequest)
    {r : Cranked}
    → Compared o q c.0
    → answer_proposal proposed c ≡ ok r
    → Answers proposed o q r.0
answer-Answers proposed o q (full_agreement, rs) h e =
    inl (processed-states proposed rs (proposed ∷ []) e, h)
answer-Answers proposed o q (some_overlap n, rs) h e = inr (n, sign-states proposed n rs e, h)
answer-Answers proposed o q (no_overlap n, rs) h e = inr (n, sign-states proposed n rs e, h)

-- In proposal the follower signs one state. Either it is the proposal, and the proposed outcome has the
-- agreed destinations, or the same funds of the same asset as the agreed one; or it is the turn after
-- the proposal, with an outcome of the same funds. This is for an agreed state whose items have
-- different destinations, and requests for channels that are no participant's own destination.
pub follower_in_proposal-SameFunds :
    (agreed proposed : SignedState) (o : SimpleAllocation) (requests : List LedgerRequest)
    {r : Cranked}
    → Fits agreed o requests
    → crank_as_follower_in_proposal agreed proposed requests ≡ ok r
    → (q : SimpleAllocation) × (simple_allocation_outcome proposed ≡ some q)
      × Answers proposed o q r.0
unfolding crank_as_follower_in_proposal
follower_in_proposal-SameFunds agreed proposed o requests {r} (has, d, avoid) e =
    let (rs, processed, e1) = >>=-eq-ok (process_agreed_state agreed requests) _ {b = r} e in
    let (c, compared, e2) =
      >>=-eq-ok (compare_changes_with_requests rs agreed proposed) _ {b = r} e1 in
    let avoids =
      processed-Avoids (participant_destinations agreed) agreed requests processed avoid in
    let (q, outcome, promise) =
      compare_changes-Compared rs agreed proposed o {p = c} (has, d, avoids) compared in
    (q, outcome, answer-Answers proposed o q c {r = r} promise e2)
