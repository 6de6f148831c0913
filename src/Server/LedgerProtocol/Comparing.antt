-- ===== src/Server/LedgerProtocol/Comparing.antt =====
-- packages/server-wallet/src/protocols/ledger-protocol.ts: the funds in the outcomes that
-- `compareChangesWithRequests` compares.
use statechannels.Common.{
  ◌≡◌, refl, sym, ap₂, subst, ◌∙◌, ◌⊎◌, inl, inr, true, some, List, [], ◌∷◌, Bool-cases, arith, All,
  length, ◌==◌,
}
use statechannels.Common.Counting.{Distinct}
use statechannels.Common.Int.{◌+ℤ◌, eqb_ℤ→eq}
use statechannels.Common.Results.{ok, ◌>>=◌, >>=-eq-ok, or_throw, no_simple_allocation}
use statechannels.WalletCore.Types.{Destination, AllocationItem, SimpleAllocation, SignedState}
use statechannels.WalletCore.Outcome.{are_allocation_items_equal}
use statechannels.Server.AllocationOutcome.{destinations, items_equal, is_equal_to}
use statechannels.Server.AllocationOutcome.Accounts.{Party, everyone, share, held_by}
use statechannels.Server.LedgerRequest.{LedgerRequest}
use statechannels.Server.LedgerState.{simple_allocation_outcome, participant_destinations}
use statechannels.Server.LedgerProtocol.{
  identify_potential_cancellations, process_agreed_state, build_outcome,
}
use statechannels.Server.LedgerProtocol.Cranks.{
  Comparison, full_agreement, some_overlap, no_overlap, is_empty, changed_destinations,
  compare_changed, compare_overlap, overlapping_requests, compare_changes_with_requests,
}
use statechannels.Server.LedgerProtocol.RequestIdentity.{identities}
use statechannels.Server.LedgerProtocol.Identity.{process_agreed_state-identities}
use statechannels.Server.LedgerProtocol.Outcomes.{
  SameFunds, Avoids, All-filter, build_outcome-SameFunds,
}

Avoids-identities :
    (ds : List Destination) (rs : List LedgerRequest)
    → All (Avoids ds) rs
    → All (Avoids ds) (identities rs)
Avoids-identities ds [] h = tt
Avoids-identities ds (r ∷ rs) h = (h.0, Avoids-identities ds rs h.1)

identities-Avoids :
    (ds : List Destination) (rs : List LedgerRequest)
    → All (Avoids ds) (identities rs)
    → All (Avoids ds) rs
identities-Avoids ds [] h = tt
identities-Avoids ds (r ∷ rs) h = (h.0, identities-Avoids ds rs h.1)

pub processed-Avoids :
    (ds : List Destination) (agreed : SignedState) (rs : List LedgerRequest)
    {rs' : List LedgerRequest}
    → process_agreed_state agreed rs ≡ ok rs'
    → All (Avoids ds) rs
    → All (Avoids ds) rs'
processed-Avoids ds agreed rs {rs'} e h = identities-Avoids ds rs' (
    subst (All (Avoids ds)) (sym (process_agreed_state-identities agreed rs e))
      (Avoids-identities ds rs h))

items_equal-held :
    (w : Party) (is js : List AllocationItem)
    → items_equal is js ≡ true
    → held_by w is ≡ held_by w js
unfolding items_equal held_by are_allocation_items_equal
items_equal-held w [] [] h = refl
items_equal-held w [] (j ∷ js) h = absurd (cc)
items_equal-held w (i ∷ is) [] h = absurd (cc)
items_equal-held w (i ∷ is) (j ∷ js) h =
    let same_destination : i.destination ≡ j.destination = ground arith in
    let same_amount : i.amount ≡ j.amount = eqb_ℤ→eq i.amount j.amount (ground arith) in
    ap₂ ◌+ℤ◌ (ap₂ (share w) same_destination same_amount) (items_equal-held w is js (ground arith))

is_equal_to-SameFunds : (o p : SimpleAllocation) → is_equal_to o p ≡ true → SameFunds p o
unfolding is_equal_to
is_equal_to-SameFunds o p h =
    (items_equal-held everyone o.allocation_items p.allocation_items (ground arith), ground arith)

-- Where the ledger's outcome and the requests fit each other.
abbrev pub Fits : SignedState → SimpleAllocation → List LedgerRequest → Type 0
Fits s o rs =
    (simple_allocation_outcome s ≡ some o)
    × Distinct (destinations o)
    × All (Avoids (participant_destinations s)) rs

-- What a comparison promises of the candidate's outcome, or of the narrowed one
abbrev pub Compared : SimpleAllocation → SimpleAllocation → Comparison → Type 0
Compared o q full_agreement =
    (is_empty (changed_destinations (destinations o) (destinations q)) ≡ true) ⊎ SameFunds o q
Compared o q (some_overlap narrowed) = SameFunds o narrowed
Compared o q (no_overlap narrowed) = SameFunds o narrowed

compare_overlap-Compared :
    (changed : List Destination) (overlapping : List LedgerRequest)
    (o q calculated : SimpleAllocation) {c : Comparison}
    → SameFunds o calculated
    → compare_overlap changed overlapping q calculated ≡ ok c
    → Compared o q c
compare_overlap-Compared changed overlapping o q calculated {c} same e =
    elim (Bool-cases (length overlapping == length changed)) [
      | inr d ↦ let m : some_overlap calculated ≡ c = ground arith in subst (Compared o q) m same
      | inl d ↦ elim (Bool-cases (is_equal_to q calculated)) [
        | inr differ ↦ absurd (ground arith)
        | inl equal ↦
            let m : full_agreement ≡ c = ground arith in
            let (t, a) = is_equal_to-SameFunds q calculated equal in
            subst (Compared o q) m (inr (t ∙ same.0, a ∙ same.1))
      ]
    ]

compare_changed-Compared :
    (changed : List Destination) (baseline : SignedState) (o q : SimpleAllocation)
    (rs : List LedgerRequest) {p : Comparison × List LedgerRequest}
    → Fits baseline o rs
    → compare_changed changed baseline o q rs ≡ ok p
    → Compared o q p.0
compare_changed-Compared changed baseline o q rs {p} (has, d, avoid) e =
    let (cs, identified, e1) = >>=-eq-ok (identify_potential_cancellations rs) _ {b = p} e in
    let overlapping = overlapping_requests changed cs rs in
    elim (Bool-cases (is_empty overlapping)) [
      | inl none_ ↦
          let m : (no_overlap o, rs) ≡ p = ground arith in
          subst (λ p. Compared o q p.0) m (refl, refl)
      | inr found ↦
          let (b, built, e2) =
            >>=-eq-ok (build_outcome baseline overlapping rs)
              (λ b. compare_overlap changed overlapping q b.0 >>= λ c. ok (c, b.1)) {b = p}
              (ground arith) in
          let (c, compared, e3) =
            >>=-eq-ok (compare_overlap changed overlapping q b.0) _ {b = p} e2 in
          let m : (c, b.1) ≡ p = cc in
          let funds =
            build_outcome-SameFunds baseline o overlapping rs {b = b} has d
              (All-filter (Avoids (participant_destinations baseline)) _ rs avoid) built in
          subst (λ p. Compared o q p.0) m
            (compare_overlap-Compared changed overlapping o q b.0 funds compared)
    ]

pub compare_changes-Compared :
    (rs : List LedgerRequest) (baseline candidate : SignedState) (o : SimpleAllocation)
    {p : Comparison × List LedgerRequest}
    → Fits baseline o rs
    → compare_changes_with_requests rs baseline candidate ≡ ok p
    → (q : SimpleAllocation) × (simple_allocation_outcome candidate ≡ some q) × Compared o q p.0
unfolding compare_changes_with_requests
compare_changes-Compared rs baseline candidate o {p} fits e =
    let (o1, has, e1) =
      >>=-eq-ok (or_throw (simple_allocation_outcome baseline) no_simple_allocation) _ {b = p} e in
    let (q, candidate_has, e2) =
      >>=-eq-ok (or_throw (simple_allocation_outcome candidate) no_simple_allocation) _ {b = p}
        e1 in
    let same : o1 ≡ o = let h = fits.0 in ground arith in
    let changed = changed_destinations (destinations o1) (destinations q) in
    (
      q,
      ground arith,
      elim (Bool-cases (is_empty changed)) [
        | inl unchanged ↦
            let m : (full_agreement, rs) ≡ p = ground arith in
            subst (λ p. Compared o q p.0) m
              (inl (
                subst
                  (λ x. is_empty (changed_destinations (destinations x) (destinations q)) ≡ true)
                  same unchanged))
        | inr differs ↦
            subst (λ x. Compared x q p.0) same
              (compare_changed-Compared changed baseline o1 q rs {p = p}
                (subst (λ x. Fits baseline x rs) (sym same) fits) (ground arith))
      ],
    )
