-- ===== src/Server/LedgerProtocol/Marking.antt =====
-- packages/server-wallet/src/protocols/ledger-protocol.ts: what the marking of requests does to a
-- fund and a defund of one channel.
use statechannels.Common.{
  ℕ, ◌≡◌, refl, sym, subst, ◌∙◌, Bool, true, false, not, some, List, [], ◌∷◌, map, ◌&&◌, ◌==◌,
  if◌then◌else◌, Bool-cases, inl, inr, arith, find, any, includes,
}
use statechannels.Common.Results.{ok}
use statechannels.WalletCore.Types.{Destination, SimpleAllocation}
use statechannels.Server.AllocationOutcome.{destinations}
use statechannels.Server.LedgerRequest.{LedgerRequest, is_fund, is_defund, is_queued}
use statechannels.Server.LedgerProtocol.{judge, mark_successes_and_inconsistencies, is_fund_of}
use statechannels.Server.LedgerProtocol.RequestIdentity.{mark_successes-cons}

abbrev pub is_defund_of : Destination → LedgerRequest → Bool
is_defund_of c r = is_defund r && r.channel_to_be_funded == c

-- A defund that is no longer queued
abbrev pub is_spent : Destination → LedgerRequest → Bool
is_spent c r = is_defund_of c r && not (is_queued r)

pub any-map :
    (p q : LedgerRequest → Bool) (f : LedgerRequest → LedgerRequest) (rs : List LedgerRequest)
    → ((r : LedgerRequest) → p r ≡ true → q (f r) ≡ true)
    → any p rs ≡ true
    → any q (map f rs) ≡ true
any-map p q f [] h e = absurd (cc)
any-map p q f (r ∷ rs) h e = elim (Bool-cases (p r)) [
  | inl t ↦ rw (h r t) refl
  | inr t ↦ let rest = any-map p q f rs h (ground arith) in ground arith
]

-- Marking leaves the fund of a channel that the outcome lacks, and spent defunds.
judge-fund :
    (c : Destination) (o : SimpleAllocation) (turn : ℕ) (r : LedgerRequest) {r' : LedgerRequest}
    → includes c (destinations o) ≡ false
    → is_fund_of c r ≡ true
    → judge o turn r ≡ ok r'
    → r ≡ r'
unfolding judge
judge-fund c o turn r {r'} n h e =
    let at : r.channel_to_be_funded ≡ c = ground arith in
    let absent : includes r.channel_to_be_funded (destinations o) ≡ false =
      subst (λ x. includes x (destinations o) ≡ false) (sym at) n in
    let is_one : is_fund r ≡ true = ground arith in ground arith

judge-spent :
    (c : Destination) (o : SimpleAllocation) (turn : ℕ) (r : LedgerRequest) {r' : LedgerRequest}
    → judge o turn r ≡ ok r'
    → is_spent c r ≡ true
    → is_spent c r' ≡ true
unfolding judge
judge-spent c o turn r e h = ground arith

judge-is_fund_of :
    (c : Destination) (o : SimpleAllocation) (turn : ℕ) (r : LedgerRequest) {r' : LedgerRequest}
    → judge o turn r ≡ ok r'
    → is_fund_of c r' ≡ is_fund_of c r
unfolding judge
judge-is_fund_of c o turn r e = ground arith

pub mark-fund :
    (c : Destination) (scope : LedgerRequest → Bool) (o : SimpleAllocation) (turn : ℕ)
    (rs : List LedgerRequest) {f : LedgerRequest} {rs' : List LedgerRequest}
    → includes c (destinations o) ≡ false
    → find (is_fund_of c) rs ≡ some f
    → mark_successes_and_inconsistencies scope o turn rs ≡ ok rs'
    → find (is_fund_of c) rs' ≡ some f
mark-fund c scope o turn [] n h e = absurd (cc)
mark-fund c scope o turn (r ∷ rs) {f} {rs'} n h e =
    let (r', rest, first, second, q) = mark_successes-cons scope o turn r rs e in
    subst (λ x. find (is_fund_of c) x ≡ some f) q
      (elim (Bool-cases (is_fund_of c r)) [
        | inl t ↦
            let same : r ≡ r' = here r' first t in
            subst (λ x. find (is_fund_of c) (x ∷ rest) ≡ some f) same (ground arith)
        | inr t ↦
            let other = elsewhere r' first t in
            let later = mark-fund c scope o turn rs {f = f} n (ground arith) second in
            rw other later
      ])
  where
    here :
        (r' : LedgerRequest)
        → (if scope r then judge o turn r else ok r) ≡ ok r'
        → is_fund_of c r ≡ true
        → r ≡ r'
    here r' first t = elim (Bool-cases (scope r)) [
      | inl s ↦ judge-fund c o turn r {r' = r'} n t (ground arith)
      | inr s ↦ ground arith
    ]

    elsewhere :
        (r' : LedgerRequest)
        → (if scope r then judge o turn r else ok r) ≡ ok r'
        → is_fund_of c r ≡ false
        → is_fund_of c r' ≡ false
    elsewhere r' first t = elim (Bool-cases (scope r)) [
      | inl s ↦ judge-is_fund_of c o turn r {r' = r'} (ground arith) ∙ t
      | inr s ↦ let same : r ≡ r' = ground arith in subst (λ x. is_fund_of c x ≡ false) same t
    ]

pub mark-spent :
    (c : Destination) (scope : LedgerRequest → Bool) (o : SimpleAllocation) (turn : ℕ)
    (rs : List LedgerRequest) {rs' : List LedgerRequest}
    → any (is_spent c) rs ≡ true
    → mark_successes_and_inconsistencies scope o turn rs ≡ ok rs'
    → any (is_spent c) rs' ≡ true
mark-spent c scope o turn [] h e = absurd (cc)
mark-spent c scope o turn (r ∷ rs) {rs'} h e =
    let (r', rest, first, second, q) = mark_successes-cons scope o turn r rs e in
    subst (λ x. any (is_spent c) x ≡ true) q
      (elim (Bool-cases (is_spent c r)) [
        | inl t ↦ rw (here r' first t) refl
        | inr t ↦ let later = mark-spent c scope o turn rs (ground arith) second in ground arith
      ])
  where
    here :
        (r' : LedgerRequest)
        → (if scope r then judge o turn r else ok r) ≡ ok r'
        → is_spent c r ≡ true
        → is_spent c r' ≡ true
    here r' first t = elim (Bool-cases (scope r)) [
      | inl s ↦ judge-spent c o turn r {r' = r'} (ground arith) t
      | inr s ↦ let same : r ≡ r' = ground arith in subst (λ x. is_spent c x ≡ true) same t
    ]
