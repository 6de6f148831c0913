-- ===== src/WalletCore/DirectFunder/Success.antt =====
-- packages/wallet-core/src/protocols/direct-funder.ts: what the status `success` means.
use statechannels.Common.{
  ℕ, ◌≡◌, sym, ap₂, ◌∙◌, subst, inl, inr, true, some, length, length-map, List, [], get_elem?,
  arith,
}
use statechannels.Common.Counting.{IsSubset, IsSubset-of_length}
use statechannels.Common.Results.{ok}
use statechannels.WalletCore.Types.{Participant, SignatureEntry}
use statechannels.WalletCore.DirectFunder.{
  Crypto, success, pre_fund_setup, post_fund_setup, FundingMilestone, Objective, Event, Action,
  signers, completed,
}
use statechannels.WalletCore.DirectFunder.Cranker.{
  addresses, sign_state_action, ensure_signed, crank_post_fund, crank_funding, crank_approved,
  open_channel_cranker,
}
use statechannels.WalletCore.DirectFunder.Cases.{
  Funded, ensure_signed_cases, crank_post_fund_cases, crank_funding_cases, crank_approved_cases,
  transition_cases, open_channel_cranker_cases,
}
use statechannels.WalletCore.DirectFunder.Validity.{SignedBy, IsValid}
use statechannels.WalletCore.DirectFunder.Invariant.{open_channel_cranker-IsValid}
use statechannels.WalletCore.DirectFunder.Safety.{
  MyMilestone, PostReady, pre_signed, FailsEarly, process_event-FailsEarly,
}
use statechannels.WalletCore.DirectFunder.Signatures.{IsAscending-Distinct}

-- As many signatures as participants, each of another participant, are signatures of them all.
all_signed :
    (ps : List Participant) (es : List SignatureEntry)
    → SignedBy ps es
    → length es ≡ length ps
    → IsSubset (addresses ps) (signers es)
all_signed ps es h e =
    IsSubset-of_length (signers es) (addresses ps) (IsAscending-Distinct (signers es) h.ascending)
      h.participants
      (length-map (λ x. x.signer) es ∙ e ∙ sym (length-map (λ p. p.signing_address) ps))

-- The status `success` is claimed only when all that it stands for is there.
abbrev Claims : Objective × List Action → Type 0
Claims (o, _) =
    o.status ≡ success → (o.approved ≡ true) × PostReady o × (completed o post_fund_setup ≡ true)

module _ (crypto : Crypto) (key : ℕ) (me : Participant) where
  ready_signed :
      (o : Objective) (actions : List Action)
      → o.approved ≡ true
      → PostReady o
      → let p = (ensure_signed crypto post_fund_setup key me (o, actions)).0 in
        (p.approved ≡ true) × PostReady p
  unfolding sign_state_action completed
  ready_signed o actions h ready =
      ensure_signed_cases crypto key me (λ r. (r.0.approved ≡ true) × PostReady r.0) post_fund_setup
        o actions (λ _. (h, ready)) (λ _. (h, ready))

  crank_post_fund-Claims :
      (o : Objective) (actions : List Action)
      → o.approved ≡ true
      → PostReady o
      → Claims (crank_post_fund crypto key me (o, actions))
  unfolding completed
  crank_post_fund-Claims o actions h ready =
      let (h', ready') = ready_signed o actions h ready in
      crank_post_fund_cases crypto key me Claims (o, actions) (λ _ e. absurd (cc))
        (λ complete _. (h', ready', complete))

  crank_funding-Claims :
      (now : ℕ) (m : FundingMilestone) (o : Objective) (actions : List Action)
      → o.approved ≡ true
      → completed o pre_fund_setup ≡ true
      → MyMilestone o m
      → Claims (crank_funding crypto key now me m (o, actions))
  crank_funding-Claims now m o actions h c mine =
      crank_funding_cases crypto key me Claims now m o actions
        (λ f. crank_post_fund-Claims o actions h (c, (m, mine, f))) (λ _ e. absurd (cc))
        (λ _ e. absurd (cc)) (λ _ _ _ e. absurd (cc)) (λ _ _ _ e. absurd (cc))
        (λ _ _ e. absurd (cc))

  crank_approved-Claims :
      (now : ℕ) (o : Objective) {r : Objective × List Action}
      → o.approved ≡ true
      → get_elem? o.opening_state.participants o.my_index ≡ some me
      → crank_approved crypto key now me o ≡ ok r
      → Claims r
  crank_approved-Claims now o h at e =
      let (p, sent) = ensure_signed crypto pre_fund_setup key me (o, []) in
      let (same, opening, index, _) = pre_signed crypto key me o (Unit {0}) in
      let at' : get_elem? p.opening_state.participants p.my_index ≡ some me =
        ap₂ (λ s i. get_elem? s.participants i) opening index ∙ at in
      crank_approved_cases crypto key me Claims now o (λ _ e. absurd (cc))
        (λ m em c. crank_funding-Claims now m p sent (same ∙ h) c (me, at', em)) e

open_channel_cranker-Claims :
    (crypto : Crypto) (current : Objective) (event : Event) (now key : ℕ)
    {r : Objective × List Action}
    → open_channel_cranker crypto current event now key ≡ ok r
    → Claims r
open_channel_cranker-Claims crypto current event now key e =
    open_channel_cranker_cases crypto Claims current event now key
      (λ o actions q bad.
        let failed = (subst FailsEarly q (process_event-FailsEarly crypto current event)).0 in
        absurd (cc))
      (λ o _.
        transition_cases crypto Claims key now o (λ _ e. absurd (cc))
          (λ me at h. crank_approved-Claims crypto key me now o h at))
      e

-- From a valid objective the cranker reaches `success` only with my approval, with the whole
-- allocation deposited for good, and with the signature of every participant on both setup states.
pub success_means_open :
    (crypto : Crypto) (current : Objective) (event : Event) (now key : ℕ)
    {r : Objective × List Action}
    → IsValid current
    → open_channel_cranker crypto current event now key ≡ ok r
    → r.0.status ≡ success
    → (r.0.approved ≡ true)
      × ((m : FundingMilestone) × MyMilestone r.0 m × Funded m r.0.funding)
      × IsSubset (addresses r.0.opening_state.participants) (signers r.0.pre_fund.signatures)
      × IsSubset (addresses r.0.opening_state.participants) (signers r.0.post_fund.signatures)
unfolding completed
success_means_open crypto current event now key {r} v e done =
    let (h, (pre, funded), post) =
      open_channel_cranker-Claims crypto current event now key {r = r} e done in
    let w : IsValid r.0 = elim (open_channel_cranker-IsValid crypto current event now key v) [
      | inl (r', e', v') ↦ let same : r' ≡ r = cc in subst (λ q. IsValid q.0) same v'
      | inr (failed, no_hash) ↦ absurd (cc)
    ] in
    (
      h,
      funded,
      all_signed r.0.opening_state.participants r.0.pre_fund.signatures w.pre_signed (ground arith),
      all_signed r.0.opening_state.participants r.0.post_fund.signatures w.post_signed
          (ground arith),
    )
