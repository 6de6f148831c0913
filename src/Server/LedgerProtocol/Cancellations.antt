-- ===== src/Server/LedgerProtocol/Cancellations.antt =====
-- packages/server-wallet/src/protocols/ledger-protocol.ts: what the steps of `processAgreedState` do to
-- a fund and a defund of one channel.
use statechannels.Common.{
  ℕ, ◌≡◌, refl, sym, ap, subst, ◌∙◌, true, false, Option, none, some, List, [], ◌∷◌, ◌==◌,
  if◌then◌else◌, Bool-cases, inl, inr, arith, find, any, All,
}
use statechannels.WalletCore.Types.{Destination}
use statechannels.Server.LedgerRequest.{
  LedgerRequest, queued, cancelled, is_defund, is_queued, is_pending, is_active, same_request,
  with_status,
}
use statechannels.Server.LedgerProtocol.{
  settle, reset_pending_requests_to_queued, is_fund_of, settle_request, cancel_pair,
  apply_cancellations,
}
use statechannels.Server.LedgerProtocol.Marking.{is_defund_of, is_spent, any-map}

-- Settling a request leaves spent defunds, and the funds of other channels.
settle-spent :
    (c : Destination) (d : LedgerRequest) (turn : ℕ) (rs : List LedgerRequest)
    → any (is_spent c) rs ≡ true
    → any (is_spent c) (settle_request d cancelled turn rs) ≡ true
settle-spent c d turn rs =
    any-map (is_spent c) (is_spent c) (λ x. if same_request d x then settle cancelled turn x else x)
      rs (λ x h. ground arith)

settle-defund :
    (c : Destination) (d : LedgerRequest) (turn : ℕ) (rs : List LedgerRequest)
    → any (is_defund_of c) rs ≡ true
    → any (is_defund_of c) (settle_request d cancelled turn rs) ≡ true
settle-defund c d turn rs =
    any-map (is_defund_of c) (is_defund_of c)
      (λ x. if same_request d x then settle cancelled turn x else x) rs (λ x h. ground arith)

settle-spends :
    (c : Destination) (d : LedgerRequest) (turn : ℕ) (rs : List LedgerRequest)
    → is_defund_of c d ≡ true
    → any (is_defund_of c) rs ≡ true
    → any (is_spent c) (settle_request d cancelled turn rs) ≡ true
settle-spends c d turn rs h =
    any-map (is_defund_of c) (is_spent c)
      (λ x. if same_request d x then settle cancelled turn x else x) rs (λ x k. ground arith)

settle-fund :
    (c : Destination) (d : LedgerRequest) (turn : ℕ) (rs : List LedgerRequest) {f : LedgerRequest}
    → (d.channel_to_be_funded == c) ≡ false
    → find (is_fund_of c) rs ≡ some f
    → find (is_fund_of c) (settle_request d cancelled turn rs) ≡ some f
settle-fund c d turn [] n h = absurd (cc)
settle-fund c d turn (x ∷ xs) {f} n h = elim (Bool-cases (is_fund_of c x)) [
  | inl t ↦ let other : same_request d x ≡ false = ground arith in rw (other, t) (ground arith)
  | inr t ↦
      let still : is_fund_of c (if same_request d x then settle cancelled turn x else x) ≡ false =
        ground arith in
      rw still (settle-fund c d turn xs {f = f} n (ground arith))
]

pub reset-fund :
    (c : Destination) (rs : List LedgerRequest) {f : LedgerRequest}
    → find (is_fund_of c) rs ≡ some f
    → is_active f ≡ true
    → (g : LedgerRequest) × (find (is_fund_of c) (reset_pending_requests_to_queued rs) ≡ some g)
      × (is_queued g ≡ true)
unfolding reset_pending_requests_to_queued
reset-fund c [] h a = absurd (cc)
reset-fund c (x ∷ xs) {f} h a = elim (Bool-cases (is_fund_of c x)) [
  | inl t ↦
      let same : x ≡ f = ground arith in
      let y : LedgerRequest = if is_pending x then with_status queued x else x in
      let kept : is_fund_of c y ≡ true = ground arith in
      let active : is_active x ≡ true = subst (λ z. is_active z ≡ true) (sym same) a in
      (y, rw kept refl, ground arith)
  | inr t ↦
      let still : is_fund_of c (if is_pending x then with_status queued x else x) ≡ false =
        ground arith in
      let (g, found, q) = reset-fund c xs {f = f} (ground arith) a in (g, rw still found, q)
]

cancel_pair-spent :
    (c : Destination) (turn : ℕ) (d : LedgerRequest) (f : Option LedgerRequest)
    (rs : List LedgerRequest)
    → any (is_spent c) rs ≡ true
    → any (is_spent c) (cancel_pair turn d f rs).0 ≡ true
cancel_pair-spent c turn d none rs h = h
cancel_pair-spent c turn d (some f) rs h = elim (Bool-cases (is_queued f)) [
  | inr q ↦ rw (q, cancel_pair) h
  | inl q ↦
      rw (q, cancel_pair)
        (settle-spent c d turn (settle_request f cancelled turn rs) (settle-spent c f turn rs h))
]

apply-spent :
    (c : Destination) (turn : ℕ) (ds rs : List LedgerRequest)
    → any (is_spent c) rs ≡ true
    → any (is_spent c) (apply_cancellations turn ds rs).0 ≡ true
unfolding apply_cancellations
apply-spent c turn [] rs h = h
apply-spent c turn (d ∷ ds) rs h =
    let f = find (is_fund_of d.channel_to_be_funded) rs in
    apply-spent c turn ds (cancel_pair turn d f rs).0 (cancel_pair-spent c turn d f rs h)

-- What the loop has before it cancels the pair of a channel.
abbrev pub Cancellable : Destination → List LedgerRequest → Type 0
Cancellable c rs =
    ((g : LedgerRequest) × (find (is_fund_of c) rs ≡ some g) × (is_queued g ≡ true))
    × (any (is_defund_of c) rs ≡ true)

find-channel :
    (c : Destination) (rs : List LedgerRequest) {f : LedgerRequest}
    → find (is_fund_of c) rs ≡ some f
    → f.channel_to_be_funded ≡ c
find-channel c [] h = absurd (cc)
find-channel c (x ∷ xs) {f} h = elim (Bool-cases (is_fund_of c x)) [
  | inl t ↦
      let same : x ≡ f = ground arith in
      let at : x.channel_to_be_funded ≡ c = ground arith in
      ap (λ y. y.channel_to_be_funded) (sym same) ∙ at
  | inr t ↦ find-channel c xs {f = f} (ground arith)
]

cancel_other :
    (c : Destination) (turn : ℕ) (d : LedgerRequest) (f : Option LedgerRequest)
    (rs : List LedgerRequest)
    → (d.channel_to_be_funded == c) ≡ false
    → find (is_fund_of d.channel_to_be_funded) rs ≡ f
    → Cancellable c rs
    → Cancellable c (cancel_pair turn d f rs).0
cancel_other c turn d none rs n e h = h
cancel_other c turn d (some f) rs n e ((g, found, q), there) = elim (Bool-cases (is_queued f)) [
  | inr idle ↦ rw (idle, cancel_pair) ((g, found, q), there)
  | inl busy ↦
      let at = find-channel d.channel_to_be_funded rs e in
      let other : (f.channel_to_be_funded == c) ≡ false =
        subst (λ x. (x == c) ≡ false) (sym at) n in
      rw (busy, cancel_pair)
        (
          (
            g,
            settle-fund c d turn (settle_request f cancelled turn rs) n
                (settle-fund c f turn rs other found),
            q,
          ),
          settle-defund c d turn (settle_request f cancelled turn rs)
              (settle-defund c f turn rs there),
        )
]

cancel_same :
    (c : Destination) (turn : ℕ) (d : LedgerRequest) (rs : List LedgerRequest)
    → is_defund_of c d ≡ true
    → Cancellable c rs
    → any (is_spent c) (cancel_pair turn d (find (is_fund_of d.channel_to_be_funded) rs) rs).0
      ≡ true
cancel_same c turn d rs h ((g, found, q), there) =
    let at : d.channel_to_be_funded ≡ c = ground arith in
    subst (λ x. any (is_spent c) (cancel_pair turn d (find (is_fund_of x) rs) rs).0 ≡ true) (sym at)
      (rw (found, q)
        (settle-spends c d turn (settle_request g cancelled turn rs) h
          (settle-defund c g turn rs there)))

pub apply-spends :
    (c : Destination) (turn : ℕ) (ds rs : List LedgerRequest)
    → any (is_defund_of c) ds ≡ true
    → All (λ d. is_defund d ≡ true) ds
    → Cancellable c rs
    → any (is_spent c) (apply_cancellations turn ds rs).0 ≡ true
unfolding apply_cancellations
apply-spends c turn [] rs h a k = absurd (cc)
apply-spends c turn (d ∷ ds) rs h a k =
    let f = find (is_fund_of d.channel_to_be_funded) rs in
    elim (Bool-cases (d.channel_to_be_funded == c)) [
      | inl t ↦
          let is_one : is_defund_of c d ≡ true = let defunds = a.0 in ground arith in
          apply-spent c turn ds (cancel_pair turn d f rs).0 (cancel_same c turn d rs is_one k)
      | inr t ↦
          apply-spends c turn ds (cancel_pair turn d f rs).0 (ground arith) a.1
            (cancel_other c turn d f rs t refl k)
    ]
