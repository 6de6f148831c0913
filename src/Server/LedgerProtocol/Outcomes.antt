-- ===== src/Server/LedgerProtocol/Outcomes.antt =====
-- packages/server-wallet/src/protocols/ledger-protocol.ts: the funds in the outcome that `buildOutcome`
-- makes of the requests.
use statechannels.Common.{
  ◌≡◌, refl, sym, subst, ◌∙◌, Bool, false, not, Option, none, some, List, [], ◌∷◌, Bool-cases, inl,
  inr, arith, filter, includes, All, ◌==◌,
}
use statechannels.Common.Counting.{Distinct}
use statechannels.Common.Int.{ℤ}
use statechannels.Common.Results.{ok, >>=-eq-ok, or_throw, no_simple_allocation}
use statechannels.WalletCore.Types.{Destination, AllocationItem, SimpleAllocation, SignedState}
use statechannels.WalletCore.Outcome.{are_allocation_items_equal}
use statechannels.Server.AllocationOutcome.{
  destinations, zip, credit, refund_all, removed, remove, add,
}
use statechannels.Server.AllocationOutcome.Accounts.{everyone, held_by, dests, credit-dests}
use statechannels.Server.AllocationOutcome.Steps.{remove-Removes}
use statechannels.Server.AllocationOutcome.Conservation.{add_accounts, remove_accounts}
use statechannels.Server.LedgerRequest.{
  LedgerRequest, inconsistent, insufficient, is_fund, is_defund,
}
use statechannels.Server.LedgerState.{simple_allocation_outcome, participant_destinations}
use statechannels.Server.LedgerProtocol.{
  update_or_mark, build_defunds, build_fundings, sort_by_channel, build_outcome,
}

abbrev pub total : SimpleAllocation → ℤ
total o = held_by everyone o.allocation_items

-- One outcome has the funds of another, of the same asset.
abbrev pub SameFunds : SimpleAllocation → SimpleAllocation → Type 0
SameFunds o p = (total p ≡ total o) × (p.asset ≡ o.asset)

-- The request's channel is not the account of a participant.
abbrev pub Avoids : List Destination → LedgerRequest → Type 0
Avoids ds r = includes r.channel_to_be_funded ds ≡ false

pub SameFunds-trans : (o p q : SimpleAllocation) → SameFunds o p → SameFunds p q → SameFunds o q
SameFunds-trans o p q (t, a) (u, b) = (u ∙ t, b ∙ a)

refund_all-dests :
    (c : Destination) (das : List (Destination × ℤ)) (is : List AllocationItem)
    → dests (refund_all c das is) ≡ dests is
unfolding refund_all
refund_all-dests c [] is = refl
refund_all-dests c (da ∷ das) is = elim (Bool-cases (da.0 == c)) [
  | inl e ↦ rw e (refund_all-dests c das is)
  | inr e ↦ rw e (refund_all-dests c das (credit da is) ∙ credit-dests da is)
]

absent-filter :
    (p : AllocationItem → Bool) (d : Destination) (is : List AllocationItem)
    → includes d (dests is) ≡ false
    → includes d (dests (filter p is)) ≡ false
absent-filter p d [] h = refl
absent-filter p d (i ∷ is) h = ground (arith, absent-filter p d is)

Distinct-filter :
    (p : AllocationItem → Bool) (is : List AllocationItem)
    → Distinct (dests is)
    → Distinct (dests (filter p is))
Distinct-filter p [] d = tt
Distinct-filter p (i ∷ is) d = elim (Bool-cases (p i)) [
  | inl e ↦ rw e (absent-filter p i.destination is d.0, Distinct-filter p is d.1)
  | inr e ↦ rw e (Distinct-filter p is d.1)
]

remove-Distinct :
    (c : Destination) (ds : List Destination) (as_ : List ℤ) (o : SimpleAllocation)
    {o' : SimpleAllocation}
    → remove c ds as_ o ≡ ok (some o')
    → Distinct (destinations o)
    → Distinct (destinations o')
remove-Distinct c ds as_ o {o'} e d =
    let r = remove-Removes c ds as_ o {o' = o'} e in
    let keep : AllocationItem → Bool = λ i. not (are_allocation_items_equal i r.item) in
    subst (λ p. Distinct (destinations p)) r.made
      (subst Distinct (sym (refund_all-dests c (zip ds as_) (filter keep o.allocation_items)))
        (Distinct-filter keep o.allocation_items d))

-- One round of the defunds
defund-SameFunds :
    (ds : List Destination) (r : LedgerRequest) (o : SimpleAllocation) (rs : List LedgerRequest)
    (updated : Option SimpleAllocation)
    → Distinct (destinations o)
    → Avoids ds r
    → remove r.channel_to_be_funded ds (r.amount_a ∷ r.amount_b ∷ []) o ≡ ok updated
    → Distinct (destinations (update_or_mark r inconsistent o rs updated).0)
      × SameFunds o (update_or_mark r inconsistent o rs updated).0
defund-SameFunds ds r o rs none d a e = (d, (refl, refl))
defund-SameFunds ds r o rs (some o') d a e =
    let (account, funds, asset) =
      remove_accounts everyone r.channel_to_be_funded ds (r.amount_a ∷ r.amount_b ∷ []) o {o' = o'}
        d a e in
    (remove-Distinct r.channel_to_be_funded ds (r.amount_a ∷ r.amount_b ∷ []) o e d, (funds, asset))

build_defunds-SameFunds :
    (ds : List Destination) (o : SimpleAllocation) (chosen rs : List LedgerRequest)
    {b : SimpleAllocation × List LedgerRequest}
    → Distinct (destinations o)
    → All (Avoids ds) chosen
    → build_defunds ds o chosen rs ≡ ok b
    → SameFunds o b.0
unfolding build_defunds
build_defunds-SameFunds ds o [] rs {b} d a e =
    let q : (o, rs) ≡ b = cc in subst (λ p. SameFunds o p.0) q (refl, refl)
build_defunds-SameFunds ds o (r ∷ chosen) rs {b} d a e =
    let (updated, done, e1) =
      >>=-eq-ok (remove r.channel_to_be_funded ds (r.amount_a ∷ r.amount_b ∷ []) o) _ {b = b} e in
    let (d', same) = defund-SameFunds ds r o rs updated d a.0 done in
    let next = update_or_mark r inconsistent o rs updated in
    SameFunds-trans o next.0 b.0 same (build_defunds-SameFunds ds next.0 chosen next.1 d' a.1 e1)

fund-SameFunds :
    (ds : List Destination) (r : LedgerRequest) (o : SimpleAllocation) (rs : List LedgerRequest)
    (updated : Option SimpleAllocation)
    → add r.channel_to_be_funded ds (r.amount_a ∷ r.amount_b ∷ []) o ≡ ok updated
    → SameFunds o (update_or_mark r insufficient o rs updated).0
fund-SameFunds ds r o rs none e = (refl, refl)
fund-SameFunds ds r o rs (some o') e =
    let (account, funds, asset) =
      add_accounts everyone r.channel_to_be_funded ds (r.amount_a ∷ r.amount_b ∷ []) o {o' = o'}
        e in
    (funds, asset)

build_fundings-SameFunds :
    (ds : List Destination) (o : SimpleAllocation) (chosen rs : List LedgerRequest)
    {b : SimpleAllocation × List LedgerRequest}
    → build_fundings ds o chosen rs ≡ ok b
    → SameFunds o b.0
unfolding build_fundings
build_fundings-SameFunds ds o [] rs {b} e =
    let q : (o, rs) ≡ b = cc in subst (λ p. SameFunds o p.0) q (refl, refl)
build_fundings-SameFunds ds o (r ∷ chosen) rs {b} e =
    let (updated, done, e1) =
      >>=-eq-ok (add r.channel_to_be_funded ds (r.amount_a ∷ r.amount_b ∷ []) o) _ {b = b} e in
    let same = fund-SameFunds ds r o rs updated done in
    let next = update_or_mark r insufficient o rs updated in
    SameFunds-trans o next.0 b.0 same (build_fundings-SameFunds ds next.0 chosen next.1 e1)

pub All-filter {ℓ} :
    {A : Type ℓ} (P : A → Type 0) (p : A → Bool) (xs : List A) → All P xs → All P (filter p xs)
All-filter P p [] h = tt
All-filter P p (x ∷ xs) h = elim (Bool-cases (p x)) [
  | inl e ↦ rw e (h.0, All-filter P p xs h.1)
  | inr e ↦ rw e (All-filter P p xs h.1)
]

-- Building an outcome moves the ledger's funds and neither makes nor loses any, whatever the requests,
-- and keeps the asset: where no two items of the state have one destination, and no request is for a
-- channel that is a participant's own destination.
pub build_outcome-SameFunds :
    (s : SignedState) (o : SimpleAllocation) (chosen rs : List LedgerRequest)
    {b : SimpleAllocation × List LedgerRequest}
    → simple_allocation_outcome s ≡ some o
    → Distinct (destinations o)
    → All (Avoids (participant_destinations s)) chosen
    → build_outcome s chosen rs ≡ ok b
    → SameFunds o b.0
unfolding build_outcome
build_outcome-SameFunds s o chosen rs {b} has d a e =
    let ds = participant_destinations s in
    let (o1, simple, e1) =
      >>=-eq-ok (or_throw (simple_allocation_outcome s) no_simple_allocation) _ {b = b} e in
    let (removed, done, e2) =
      >>=-eq-ok (build_defunds ds o1 (filter is_defund chosen) rs) _ {b = b} e1 in
    let same : o1 ≡ o = ground arith in
    let d1 = subst (λ p. Distinct (destinations p)) (sym same) d in
    let first =
      build_defunds-SameFunds ds o1 (filter is_defund chosen) rs {b = removed} d1
        (All-filter (Avoids ds) is_defund chosen a) done in
    let second =
      build_fundings-SameFunds ds removed.0 (sort_by_channel (filter is_fund chosen)) removed.1
        {b = b} e2 in
    subst (λ p. SameFunds p b.0) same (SameFunds-trans o1 removed.0 b.0 first second)
