-- ===== src/WalletCore/DirectFunder/Cases.antt =====
-- Case rules for `openChannelCranker` of packages/wallet-core/src/protocols/direct-funder.ts: one premise
-- for each way through a function.
use statechannels.Common.{
  ℕ, ◌≡◌, refl, subst, true, false, ◌&&◌, Option, some, none, List, [], ◌∷◌, ◌++◌, get_elem?, arith,
  Bool-cases, Option-cases, inl, inr, find, ◌==◌,
}
use statechannels.Common.Int.{◌-ℤ◌, ◌≤ℤ◌, leb_ℤ, ltb_ℤ, pos, -ℤ_parts}
use statechannels.Common.Results.{ok, err, Error, Result-cases, or_throw, type_error, >>=-eq-ok}
use statechannels.WalletCore.Types.{Participant, SignatureEntry, SignedState}
use statechannels.WalletCore.DirectFunder.{
  Crypto, approval, their_pre_fund_setup, safe_to_deposit, channel_funded, their_post_fund_state,
  success, error, Steps, pre_fund_setup, post_fund_setup, FundingRequest, Funding, FundingMilestone,
  Objective, Action, deposit, handle_error, timed_out_while_funding, Event,
  non_participant_signature, received_unexpected_state, funding_milestone, signed_by_me, completed,
}
use statechannels.WalletCore.DirectFunder.Cranker.{
  sign_state_action, ensure_signed, crank_post_fund, timed_out, crank_unpaid, crank_funding,
  crank_approved, transition, Processed, continues, returns, throws, by_outsider, fail_early,
  merge_into, hashed, receive, process_event, open_channel_cranker,
}

-- The channel holds its whole allocation, for good.
pub record Funded (m : FundingMilestone) (f : Funding) : Type 0 where
  pub enough : m.target_total ≤ℤ f.amount
  pub finalized : f.finalized ≡ true

-- My turn to deposit has come, and my deposit is not there yet.
pub record Due (m : FundingMilestone) (f : Funding) : Type 0 where
  pub reached : m.target_before ≤ℤ f.amount
  pub short : f.amount ≤ℤ m.target_after
  pub missing : pos 1 ≤ℤ m.target_after -ℤ f.amount

module _ (crypto : Crypto) (key : ℕ) (me : Participant) where
  pub ensure_signed_cases {ℓ} :
      (P : Objective × List Action → Type ℓ) (step : Steps) (o : Objective) (actions : List Action)
      → (signed_by_me o step me.signing_address ≡ true → P (o, actions))
      → (signed_by_me o step me.signing_address ≡ false
          → P (sign_state_action crypto step key me (o, actions)))
      → P (ensure_signed crypto step key me (o, actions))
  unfolding ensure_signed
  ensure_signed_cases P step o actions already missing =
      elim (Bool-cases (signed_by_me o step me.signing_address)) [
        | inl e ↦ rw e (already e)
        | inr e ↦ rw e (missing e)
      ]

  pub crank_post_fund_cases {ℓ} :
      (P : Objective × List Action → Type ℓ) (before : Objective × List Action)
      → let (o, actions) = ensure_signed crypto post_fund_setup key me before in
        (completed o post_fund_setup ≡ false
          → P (record o { status = their_post_fund_state }, actions))
        → (completed o post_fund_setup ≡ true → P (record o { status = success }, actions))
        → P (crank_post_fund crypto key me before)
  unfolding crank_post_fund
  crank_post_fund_cases P before partial complete =
      let (o, actions) = ensure_signed crypto post_fund_setup key me before in
      elim (Bool-cases (completed o post_fund_setup)) [
        | inl e ↦ rw e (complete e)
        | inr e ↦ rw e (partial e)
      ]

  pub crank_funding_cases {ℓ} :
      (P : Objective × List Action → Type ℓ) (now : ℕ) (m : FundingMilestone) (o : Objective)
      (actions : List Action)
      → (Funded m o.funding → P (crank_post_fund crypto key me (o, actions)))
      → (¬ (m.target_before ≤ℤ o.funding.amount)
          → P (record o { status = safe_to_deposit }, actions))
      → (m.target_after ≤ℤ o.funding.amount → P (record o { status = channel_funded }, actions))
      → ((r : FundingRequest)
          → o.funding_request ≡ some r
          → timed_out now r ≡ true
          → P (
            record o { status = error },
            actions ++ handle_error (timed_out_while_funding now r.submitted_at) ∷ [],
          ))
      → ((r : FundingRequest)
          → o.funding_request ≡ some r
          → timed_out now r ≡ false
          → P (record o { status = channel_funded }, actions))
      → (Due m o.funding
          → o.funding_request ≡ none
          → P (
            record o { status = channel_funded },
            actions ++ deposit (m.target_after -ℤ o.funding.amount) ∷ [],
          ))
      → P (crank_funding crypto key now me m (o, actions))
  unfolding crank_funding crank_unpaid
  crank_funding_cases P now m o actions funded early there late waiting due =
      elim (Bool-cases (leb_ℤ m.target_total o.funding.amount && o.funding.finalized)) [
        | inl e ↦
            rw (e, crank_funding)
              (funded (record { enough = ground arith; finalized = ground arith }))
        | inr unfunded ↦
            rw (unfunded, crank_funding)
              (elim (Bool-cases (ltb_ℤ o.funding.amount m.target_before)) [
                | inl e ↦ rw e (early (ground arith))
                | inr reached ↦
                    rw reached (elim (Bool-cases (leb_ℤ m.target_after o.funding.amount)) [
                      | inl e ↦ rw e (there (ground arith))
                      | inr short ↦
                          rw short (unpaid o.funding_request refl (ground arith) (ground arith))
                    ])
              ])
      ]
    where
      unpaid :
          (r : Option FundingRequest)
          → o.funding_request ≡ r
          → m.target_before ≤ℤ o.funding.amount
          → ¬ (m.target_after ≤ℤ o.funding.amount)
          → P (crank_unpaid now m r (o, actions))
      unpaid none e reached short =
          due
            (record {
              reached = reached;
              short = omega arith;
              missing = ground (arith, -ℤ_parts m.target_after o.funding.amount);
            })
            e
      unpaid (some r) e reached short = elim (Bool-cases (timed_out now r)) [
        | inl t ↦ rw (t, crank_unpaid) (late r e t)
        | inr t ↦ rw (t, crank_unpaid) (waiting r e t)
      ]

  -- The ways through `transition`, up to the ladder on the funding.
  pub crank_approved_cases {ℓ} :
      (P : Objective × List Action → Type ℓ) (now : ℕ) (start : Objective)
      {r : Objective × List Action}
      → let after = ensure_signed crypto pre_fund_setup key me (start, []) in
        (completed after.0 pre_fund_setup ≡ false
          → P (record after.0 { status = their_pre_fund_setup }, after.1))
        → ((m : FundingMilestone)
            → funding_milestone after.0.opening_state me.destination ≡ ok m
            → completed after.0 pre_fund_setup ≡ true
            → P (crank_funding crypto key now me m after))
        → crank_approved crypto key now me start ≡ ok r
        → P r
  unfolding crank_approved
  crank_approved_cases P now start {r} partial complete e =
      let after = ensure_signed crypto pre_fund_setup key me (start, []) in
      elim (Bool-cases (completed after.0 pre_fund_setup)) [
        | inr p ↦ subst P (ground arith) (partial p)
        | inl c ↦
            let (m, em, er) =
              >>=-eq-ok (funding_milestone after.0.opening_state me.destination)
                (λ m. ok (crank_funding crypto key now me m after)) {b = r} (ground arith) in
            subst P (ground arith) (complete m em c)
      ]

module _ (crypto : Crypto) where
  -- A transition that returns: without approval, or from my own participant on.
  pub transition_cases {ℓ} :
      (P : Objective × List Action → Type ℓ) (key now : ℕ) (o : Objective)
      {r : Objective × List Action}
      → (o.approved ≡ false → P (record o { status = approval }, []))
      → ((me : Participant)
          → get_elem? o.opening_state.participants o.my_index ≡ some me
          → o.approved ≡ true
          → crank_approved crypto key now me o ≡ ok r
          → P r)
      → transition crypto key now o ≡ ok r
      → P r
  unfolding transition
  transition_cases P key now o {r} unapproved approved e = elim (Bool-cases o.approved) [
    | inr a ↦ subst P (ground arith) (unapproved a)
    | inl a ↦
        let (me, at, e') =
          >>=-eq-ok (or_throw (get_elem? o.opening_state.participants o.my_index) type_error)
            (λ me. crank_approved crypto key now me o) {b = r} (ground arith) in
        approved me (ground arith) a e'
  ]

  -- A call that returns: an early return, or a transition.
  pub receive_cases {ℓ} :
      (P : Processed → Type ℓ) (o : Objective) (s : SignedState)
      → ((e : Error) → hashed crypto s.state s.outcome ≡ err e → P (throws e))
      → ((outsider : SignatureEntry) → P (fail_early o (non_participant_signature outsider)))
      → (find (by_outsider o) s.signatures ≡ none
          → P (merge_into crypto o pre_fund_setup s.signatures))
      → (find (by_outsider o) s.signatures ≡ none
          → P (merge_into crypto o post_fund_setup s.signatures))
      → ((hash : ℕ)
          → P (fail_early o (received_unexpected_state hash o.pre_fund.hash o.post_fund.hash)))
      → P (receive crypto o s)
  unfolding receive
  receive_cases P o s bad outside pre post neither =
      elim (Result-cases (hashed crypto s.state s.outcome)) [
        | inl (e, throws_) ↦ rw (throws_, receive) (bad e throws_)
        | inr (hash, computed) ↦ elim (Option-cases (find (by_outsider o) s.signatures)) [
          | inr (outsider, found) ↦ rw (computed, found, receive) (outside outsider)
          | inl all_in ↦ elim (Bool-cases (hash == o.pre_fund.hash)) [
            | inl is_pre ↦ rw (computed, all_in, is_pre, receive) (pre all_in)
            | inr other ↦ elim (Bool-cases (hash == o.post_fund.hash)) [
              | inl is_post ↦ rw (computed, all_in, other, is_post, receive) (post all_in)
              | inr unknown ↦ rw (computed, all_in, other, unknown, receive) (neither hash)
            ]
          ]
        ]
      ]

  pub open_channel_cranker_cases {ℓ} :
      (P : Objective × List Action → Type ℓ) (current : Objective) (event : Event) (now key : ℕ)
      {r : Objective × List Action}
      → ((o : Objective) (actions : List Action)
          → process_event crypto current event ≡ returns o actions
          → P (o, actions))
      → ((o : Objective)
          → process_event crypto current event ≡ continues o
          → transition crypto key now o ≡ ok r
          → P r)
      → open_channel_cranker crypto current event now key ≡ ok r
      → P r
  unfolding open_channel_cranker
  open_channel_cranker_cases P current event now key {r} early on e =
      by_processed (process_event crypto current event) refl
    where
      by_processed : (p : Processed) → process_event crypto current event ≡ p → P r
      by_processed (continues o) q = on o q (ground arith)
      by_processed (returns o actions) q = subst P (ground arith) (early o actions q)
      by_processed (throws t) q = absurd (ground arith)
