-- ===== src/Server/LedgerProtocol/RequestIdentity.antt =====
-- packages/server-wallet/src/protocols/ledger-protocol.ts: a request without its status and its
-- book-keeping, in the steps of the protocol.
use statechannels.Common.{
  ℕ, ◌≡◌, refl, sym, ap, ap₂, ◌∙◌, Bool, true, false, Option, none, some, List, [], ◌∷◌, map,
  if◌then◌else◌, Bool-cases, find, inl, inr, arith,
}
use statechannels.Common.Results.{ok, ◌>>=◌, >>=-eq-ok}
use statechannels.WalletCore.Types.{SimpleAllocation}
use statechannels.Server.LedgerRequest.{
  LedgerRequest, RequestStatus, queued, cancelled, is_queued, is_pending, with_status, set_status,
  same_request,
}
use statechannels.Server.LedgerProtocol.{
  settle, judge, mark_successes_and_inconsistencies, see, update_state_seen_and_missed_ops,
  reset_pending_requests_to_queued, mark_included, mark_included_requests_as_pending,
  settle_request, is_fund_of, cancel_pair, apply_cancellations,
}

-- A request without its status and its book-keeping
abbrev pub identity : LedgerRequest → LedgerRequest
identity r = record r {
  status = queued;
  last_seen_agreed_state = none;
  missed_opportunity_count = 0;
}

abbrev pub identities : List LedgerRequest → List LedgerRequest
identities = map identity

identities-map :
    (f : LedgerRequest → LedgerRequest) (rs : List LedgerRequest)
    → ((r : LedgerRequest) → identity (f r) ≡ identity r)
    → identities (map f rs) ≡ identities rs
identities-map f [] h = refl
identities-map f (r ∷ rs) h = ap₂ ◌∷◌ (h r) (identities-map f rs h)

if-identity :
    (b : Bool) (r s : LedgerRequest)
    → identity s ≡ identity r
    → identity (if b then s else r) ≡ identity r
if-identity true r s h = h
if-identity false r s h = refl

judge-identity :
    (o : SimpleAllocation) (turn : ℕ) (r : LedgerRequest) {r' : LedgerRequest}
    → judge o turn r ≡ ok r'
    → identity r' ≡ identity r
unfolding judge
judge-identity o turn r e = ground arith

-- A round of the marking that returns
pub mark_successes-cons :
    (scope : LedgerRequest → Bool) (o : SimpleAllocation) (turn : ℕ) (r : LedgerRequest)
    (rs : List LedgerRequest) {rs' : List LedgerRequest}
    → mark_successes_and_inconsistencies scope o turn (r ∷ rs) ≡ ok rs'
    → (r' : LedgerRequest) × (rest : List LedgerRequest) × ((if scope r
          then judge o turn r
          else ok r)
        ≡ ok r')
      × (mark_successes_and_inconsistencies scope o turn rs ≡ ok rest)
      × (r' ∷ rest ≡ rs')
unfolding mark_successes_and_inconsistencies
mark_successes-cons scope o turn r rs {rs'} e =
    let (r', first, then_) =
      >>=-eq-ok (if scope r then judge o turn r else ok r)
        (λ r'. mark_successes_and_inconsistencies scope o turn rs >>= λ rs'. ok (r' ∷ rs'))
        {b = rs'} e in
    let (rest, second, made) =
      >>=-eq-ok (mark_successes_and_inconsistencies scope o turn rs) (λ rs'. ok (r' ∷ rs'))
        {b = rs'} then_ in
    (r', rest, first, second, cc)

pub mark_successes-identities :
    (scope : LedgerRequest → Bool) (o : SimpleAllocation) (turn : ℕ) (rs : List LedgerRequest)
    {rs' : List LedgerRequest}
    → mark_successes_and_inconsistencies scope o turn rs ≡ ok rs'
    → identities rs' ≡ identities rs
unfolding mark_successes_and_inconsistencies
mark_successes-identities scope o turn [] {rs'} e = let q : [] ≡ rs' = cc in ap identities (sym q)
mark_successes-identities scope o turn (r ∷ rs) {rs'} e =
    let (r', rest, first, second, q) = mark_successes-cons scope o turn r rs e in
    ap identities (sym q)
    ∙ ap₂ ◌∷◌ (kept r' first) (mark_successes-identities scope o turn rs {rs' = rest} second)
  where
    kept :
        (r' : LedgerRequest)
        → (if scope r then judge o turn r else ok r) ≡ ok r'
        → identity r' ≡ identity r
    kept r' first = elim (Bool-cases (scope r)) [
      | inl q ↦ judge-identity o turn r {r' = r'} (ground arith)
      | inr q ↦ let same : r ≡ r' = ground arith in ap identity (sym same)
    ]

settle_request-identities :
    (r : LedgerRequest) (status : RequestStatus) (turn : ℕ) (rs : List LedgerRequest)
    → identities (settle_request r status turn rs) ≡ identities rs
settle_request-identities r status turn rs =
    identities-map (λ x. if same_request r x then settle status turn x else x) rs
      (λ x. if-identity (same_request r x) x (settle status turn x) refl)

pub set_status-identities :
    (r : LedgerRequest) (status : RequestStatus) (rs : List LedgerRequest)
    → identities (set_status r status rs) ≡ identities rs
unfolding set_status
set_status-identities r status rs =
    identities-map (λ x. if same_request r x then with_status status x else x) rs
      (λ x. if-identity (same_request r x) x (with_status status x) refl)

cancel_pair-identities :
    (turn : ℕ) (d : LedgerRequest) (f : Option LedgerRequest) (rs : List LedgerRequest)
    → identities (cancel_pair turn d f rs).0 ≡ identities rs
cancel_pair-identities turn d none rs = refl
cancel_pair-identities turn d (some f) rs = elim (Bool-cases (is_queued f)) [
  | inr q ↦ rw (q, cancel_pair) refl
  | inl q ↦
      rw (q, cancel_pair)
        (settle_request-identities d cancelled turn (settle_request f cancelled turn rs)
          ∙ settle_request-identities f cancelled turn rs)
]

pub apply_cancellations-identities :
    (turn : ℕ) (ds rs : List LedgerRequest)
    → identities (apply_cancellations turn ds rs).0 ≡ identities rs
unfolding apply_cancellations
apply_cancellations-identities turn [] rs = refl
apply_cancellations-identities turn (d ∷ ds) rs =
    let f = find (is_fund_of d.channel_to_be_funded) rs in
    apply_cancellations-identities turn ds (cancel_pair turn d f rs).0
    ∙ cancel_pair-identities turn d f rs

pub reset-identities :
    (rs : List LedgerRequest) → identities (reset_pending_requests_to_queued rs) ≡ identities rs
unfolding reset_pending_requests_to_queued
reset-identities rs =
    identities-map (λ r. if is_pending r then with_status queued r else r) rs
      (λ r. if-identity (is_pending r) r (with_status queued r) refl)

see-identity : (turn : ℕ) (r : LedgerRequest) → identity (see turn r) ≡ identity r
see-identity turn r = ground arith

pub update_state_seen-identities :
    (turn : ℕ) (rs : List LedgerRequest)
    → identities (update_state_seen_and_missed_ops turn rs) ≡ identities rs
unfolding update_state_seen_and_missed_ops
update_state_seen-identities turn rs =
    identities-map (λ r. if is_queued r then see turn r else r) rs
      (λ r. if-identity (is_queued r) r (see turn r) (see-identity turn r))

mark_included-identity :
    (o : SimpleAllocation) (r : LedgerRequest) {r' : LedgerRequest}
    → mark_included o r ≡ ok r'
    → identity r' ≡ identity r
mark_included-identity o r e = ground arith

pub mark_included_requests-identities :
    (o : SimpleAllocation) (rs : List LedgerRequest) {rs' : List LedgerRequest}
    → mark_included_requests_as_pending o rs ≡ ok rs'
    → identities rs' ≡ identities rs
unfolding mark_included_requests_as_pending
mark_included_requests-identities o [] {rs'} e = let q : [] ≡ rs' = cc in ap identities (sym q)
mark_included_requests-identities o (r ∷ rs) {rs'} e =
    let (r', first, then_) =
      >>=-eq-ok (mark_included o r)
        (λ r'. mark_included_requests_as_pending o rs >>= λ rs'. ok (r' ∷ rs')) {b = rs'} e in
    let (rest, second, made) =
      >>=-eq-ok (mark_included_requests_as_pending o rs) (λ rs'. ok (r' ∷ rs')) {b = rs'} then_ in
    let q : r' ∷ rest ≡ rs' = cc in
    ap identities (sym q)
    ∙ ap₂ ◌∷◌ (mark_included-identity o r first) (mark_included_requests-identities o rs second)
