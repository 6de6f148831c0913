-- ===== src/Server/LedgerProtocol/Balances.antt =====
-- packages/server-wallet/src/protocols/ledger-protocol.ts: the changes that are not compared with the
-- requests.
use statechannels.Common.{
  ℕ, ◌≡◌, refl, ap, ◌∙◌, true, false, not, Bool, some, List, [], ◌∷◌, ◌&&◌, All, any, filter, map,
  includes, if◌then◌else◌, Bool-cases, inl, inr, arith,
}
use statechannels.Common.Results.{ok}
use statechannels.WalletCore.Types.{Destination, SimpleAllocation, SignedState}
use statechannels.Server.AllocationOutcome.{destinations}
use statechannels.Server.LedgerRequest.{
  LedgerRequest, queued, succeeded, inconsistent, is_fund_type, is_fund, is_defund, is_queued,
  is_pending, with_status,
}
use statechannels.Server.LedgerState.{simple_allocation_outcome}
use statechannels.Server.LedgerProtocol.{
  judge, judge_fund, settle, amounts_match, is_seen_at, mark_successes_and_inconsistencies, see,
  update_state_seen_and_missed_ops, reset_pending_requests_to_queued, is_cancellation,
  identify_potential_cancellations, apply_cancellations, refers_to, process_agreed_state,
}
use statechannels.Server.LedgerProtocol.Cranks.{
  uniq, absent_from, changed_destinations, compare_changes_with_requests,
  crank_as_follower_in_proposal,
}

-- The requests are all to fund channels.
abbrev pub AreFunds : List LedgerRequest → Type 0
AreFunds = All λ r. is_fund r ≡ true

if_type :
    (b : Bool) (x r : LedgerRequest)
    → x.request_type ≡ r.request_type
    → is_fund (if b then x else r) ≡ is_fund r
if_type true x r same = ap is_fund_type same
if_type false x r same = refl

see-type : (turn : ℕ) (r : LedgerRequest) → (see turn r).request_type ≡ r.request_type
see-type turn r = elim (Bool-cases (is_seen_at turn r.last_seen_agreed_state)) [
  | inl seen ↦ rw seen refl
  | inr fresh ↦ rw fresh refl
]

judge_fund-is_fund :
    (o : SimpleAllocation) (turn : ℕ) (r : LedgerRequest)
    → is_fund r ≡ true
    → is_fund (judge_fund o turn r) ≡ true
judge_fund-is_fund o turn r h =
    if_type (includes r.channel_to_be_funded (destinations o))
      (settle (if amounts_match o r then succeeded else inconsistent) turn r) r refl
    ∙ h

mark-AreFunds :
    (scope : LedgerRequest → Bool) (o : SimpleAllocation) (turn : ℕ) (rs : List LedgerRequest)
    → AreFunds rs
    → (rs' : List LedgerRequest) × (mark_successes_and_inconsistencies scope o turn rs ≡ ok rs')
      × AreFunds rs'
unfolding mark_successes_and_inconsistencies judge
mark-AreFunds scope o turn [] h = ([], refl, tt)
mark-AreFunds scope o turn (r ∷ rs) (h, hs) =
    let (rs', marked, funds) = mark-AreFunds scope o turn rs hs in
    elim (Bool-cases (scope r)) [
      | inl inside ↦ (
        judge_fund o turn r ∷ rs',
        rw (inside, h, marked) refl,
        (judge_fund-is_fund o turn r h, funds),
      )
      | inr outside ↦ (r ∷ rs', rw (outside, marked) refl, (h, funds))
    ]

map-AreFunds :
    (f : LedgerRequest → LedgerRequest) (rs : List LedgerRequest)
    → ((r : LedgerRequest) → is_fund (f r) ≡ is_fund r)
    → AreFunds rs
    → AreFunds (map f rs)
map-AreFunds f [] same h = tt
map-AreFunds f (r ∷ rs) same (h, hs) = (same r ∙ h, map-AreFunds f rs same hs)

-- A fund is no cancellation.
no_cancellations :
    (all_ rs : List LedgerRequest)
    → AreFunds rs
    → (any (λ r. is_cancellation all_ r && not (is_queued r)) rs ≡ false)
      × (filter (is_cancellation all_) rs ≡ [])
no_cancellations all_ [] h = (refl, refl)
no_cancellations all_ (r ∷ rs) (h, hs) =
    let (none_, nothing) = no_cancellations all_ rs hs in
    let fund_ : is_defund r ≡ false = rw h refl in (rw (fund_) none_, rw (fund_) nothing)

identify-AreFunds :
    (rs : List LedgerRequest) → AreFunds rs → identify_potential_cancellations rs ≡ ok []
unfolding identify_potential_cancellations
identify-AreFunds rs h = let (none_, nothing) = no_cancellations rs rs h in rw (none_, nothing) refl

process-AreFunds :
    (s : SignedState) (o : SimpleAllocation) (rs : List LedgerRequest)
    → simple_allocation_outcome s ≡ some o
    → AreFunds rs
    → (rs' : List LedgerRequest) × (process_agreed_state s rs ≡ ok rs') × AreFunds rs'
unfolding process_agreed_state reset_pending_requests_to_queued update_state_seen_and_missed_ops
    apply_cancellations
process-AreFunds s o rs has h =
    let (marked, first, h1) = mark-AreFunds (λ r. not (refers_to [] r)) o s.turn_num rs h in
    let reset = reset_pending_requests_to_queued marked in
    let h2 =
      map-AreFunds (λ r. if is_pending r then with_status queued r else r) marked
        (λ r. if_type (is_pending r) (with_status queued r) r refl) h1 in
    let (last, second, h3) = mark-AreFunds (refers_to []) o s.turn_num reset h2 in
    (
      update_state_seen_and_missed_ops s.turn_num last,
      rw (identify-AreFunds rs h, has, first, second) refl,
      map-AreFunds (λ r. if is_queued r then see s.turn_num r else r) last
          (λ r. if_type (is_queued r) (see s.turn_num r) r (see-type s.turn_num r)) h3,
    )

none_absent :
    (ys xs : List Destination)
    → ((d : Destination) → includes d xs ≡ true → includes d ys ≡ true)
    → absent_from ys xs ≡ []
none_absent ys [] inside = refl
none_absent ys (x ∷ xs) inside =
    let there = inside x (ground arith) in
    let rest = none_absent ys xs (λ d h. inside d (ground arith)) in rw (there, rest) refl

unchanged : (ds : List Destination) → changed_destinations ds ds ≡ []
unfolding changed_destinations uniq
unchanged ds = let none_ = none_absent ds ds (λ d h. h) in rw (none_) refl

-- A proposal that keeps the destinations of the agreed outcome, in their order, is signed by the follower
-- whatever amounts it gives them, and nothing else is signed. It is taken that both outcomes are simple
-- allocations and that the follower's requests, if any, are all to fund channels; then the crank does not
-- fail.
pub follower_signs_any_amounts :
    (agreed proposed : SignedState) (o q : SimpleAllocation) (requests : List LedgerRequest)
    → simple_allocation_outcome agreed ≡ some o
    → simple_allocation_outcome proposed ≡ some q
    → destinations q ≡ destinations o
    → AreFunds requests
    → (rs : List LedgerRequest) × (crank_as_follower_in_proposal agreed proposed requests
        ≡ ok (proposed ∷ [], rs))
unfolding crank_as_follower_in_proposal compare_changes_with_requests
follower_signs_any_amounts agreed proposed o q requests has proposes same funds =
    let (rs, first, h1) = process-AreFunds agreed o requests has funds in
    let (rs', second, h2) = process-AreFunds proposed q rs proposes h1 in
    let kept : changed_destinations (destinations o) (destinations q) ≡ [] =
      ap (changed_destinations (destinations o)) same ∙ unchanged (destinations o) in
    (rs', rw (first, has, proposes, kept, second) refl)
