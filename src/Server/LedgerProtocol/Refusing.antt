-- ===== src/Server/LedgerProtocol/Refusing.antt =====
-- packages/server-wallet/src/protocols/ledger-protocol.ts: which requests
-- `identifyPotentialCancellations` refuses.
use statechannels.Common.{
  ◌≡◌, refl, ap, Bool, true, not, some, List, [], ◌∷◌, ◌&&◌, ◌||◌, Bool-cases, inl, inr, arith,
  filter, find, any, All,
}
use statechannels.Common.Results.{ok, err, >>=-eq-ok, throw_if, cancellation_not_queued}
use statechannels.WalletCore.Types.{Destination}
use statechannels.Server.LedgerRequest.{LedgerRequest, is_defund, is_queued}
use statechannels.Server.LedgerProtocol.{
  is_fund_of, is_cancellation, identify_potential_cancellations,
}
use statechannels.Server.LedgerProtocol.RequestIdentity.{identities}
use statechannels.Server.LedgerProtocol.Marking.{is_defund_of, is_spent}

any-imp :
    (p q : LedgerRequest → Bool) (rs : List LedgerRequest)
    → ((r : LedgerRequest) → p r ≡ true → q r ≡ true)
    → any p rs ≡ true
    → any q rs ≡ true
any-imp p q [] h e = absurd (cc)
any-imp p q (r ∷ rs) h e = elim (Bool-cases (p r)) [
  | inl t ↦ rw (h r t) refl
  | inr t ↦ let rest = any-imp p q rs h (ground arith) in ground arith
]

pub any-filter :
    (p q : LedgerRequest → Bool) (rs : List LedgerRequest)
    → ((r : LedgerRequest) → p r ≡ true → q r ≡ true)
    → any p rs ≡ true
    → any p (filter q rs) ≡ true
any-filter p q [] h e = absurd (cc)
any-filter p q (r ∷ rs) h e = elim (Bool-cases (p r)) [
  | inl t ↦ rw (h r t, t) refl
  | inr t ↦
      let rest = any-filter p q rs h (ground arith) in
      elim (Bool-cases (q r)) [ inl u ↦ rw (u, t) rest | inr u ↦ rw u rest ]
]

pub filter-All :
    (p q : LedgerRequest → Bool) (rs : List LedgerRequest)
    → ((r : LedgerRequest) → q r ≡ true → p r ≡ true)
    → All (λ r. p r ≡ true) (filter q rs)
filter-All p q [] h = tt
filter-All p q (r ∷ rs) h = elim (Bool-cases (q r)) [
  | inl u ↦ rw u (h r u, filter-All p q rs h)
  | inr u ↦ rw u (filter-All p q rs h)
]

pub find-any :
    (p : LedgerRequest → Bool) (rs : List LedgerRequest) {f : LedgerRequest}
    → find p rs ≡ some f
    → any p rs ≡ true
find-any p [] e = absurd (cc)
find-any p (r ∷ rs) {f} e = elim (Bool-cases (p r)) [
  | inl t ↦ rw t refl
  | inr t ↦ let rest = find-any p rs {f = f} (ground arith) in ground arith
]

pub any_fund-identities :
    (c : Destination) (rs : List LedgerRequest)
    → any (is_fund_of c) (identities rs) ≡ any (is_fund_of c) rs
any_fund-identities c [] = refl
any_fund-identities c (r ∷ rs) = ap (λ b. is_fund_of c r || b) (any_fund-identities c rs)

pub any_defund-identities :
    (c : Destination) (rs : List LedgerRequest)
    → any (is_defund_of c) (identities rs) ≡ any (is_defund_of c) rs
any_defund-identities c [] = refl
any_defund-identities c (r ∷ rs) = ap (λ b. is_defund_of c r || b) (any_defund-identities c rs)

pub cancellation_of :
    (c : Destination) (rs : List LedgerRequest)
    → any (is_fund_of c) rs ≡ true
    → (r : LedgerRequest) → is_defund_of c r ≡ true
    → is_cancellation rs r ≡ true
cancellation_of c rs h r d =
    let at : r.channel_to_be_funded ≡ c = ground arith in
    let one : is_defund r ≡ true = ground arith in rw (one, at, h) refl

pub identified :
    (rs : List LedgerRequest) {cs : List LedgerRequest}
    → identify_potential_cancellations rs ≡ ok cs
    → filter (is_cancellation rs) rs ≡ cs
unfolding identify_potential_cancellations
identified rs {cs} e =
    let (passed, no_throw, made) =
      >>=-eq-ok
        (throw_if (any (λ r. is_cancellation rs r && not (is_queued r)) rs) cancellation_not_queued)
        (λ passed. ok (filter (is_cancellation rs) rs)) {b = cs} e in
    cc

-- A spent defund beside its fund is refused.
pub spent-refused :
    (c : Destination) (rs : List LedgerRequest)
    → any (is_spent c) rs ≡ true
    → any (is_fund_of c) rs ≡ true
    → identify_potential_cancellations rs ≡ err cancellation_not_queued
unfolding identify_potential_cancellations
spent-refused c rs s h =
    let bad : any (λ r. is_cancellation rs r && not (is_queued r)) rs ≡ true =
      any-imp (is_spent c) (λ r. is_cancellation rs r && not (is_queued r)) rs
        (λ r t.
          let one = cancellation_of c rs h r (ground arith) in
          let idle : not (is_queued r) ≡ true = ground arith in rw (one, idle) refl)
        s in
    rw bad refl
