-- ===== src/Browser/ChannelEntry/Chains.antt =====
-- packages/browser-wallet/src/store/channel-store-entry.ts: `validChain` against the rule of
-- packages/nitro-protocol/src/valid-transition.ts.
use statechannels.Common.{
  and_left, and_right, ℕ, suc, ◌*◌, ◌≡◌, refl, subst, true, false, Bool, List, [], ◌∷◌, ◌==◌, ltb,
  ◌⊎◌, inl, inr, length, map, length-map, Bool-cases, arith,
}
use statechannels.Common.Results.{ok, err, transition_forbidden}
use statechannels.WalletCore.Types.{Participant, ChannelConstants, StateVariables}
use statechannels.WalletCore.StateUtils.{
  NitroOutcome, outcomes_equal, to_nitro_state, convert_to_nitro_outcome,
}
use statechannels.WalletCore.StateUtils.Equality.{outcomes_equal_iff}
use statechannels.Nitro.Transition.{
  NitroState, ValidTransitionStatus, is_true, need_to_check_app, same_addresses,
  require_extra_implicit_checks, require_valid_protocol_transition,
}
use statechannels.Browser.ChannelEntry.{valid_chain}

eq_refl : (n : ℕ) → (n == n) ≡ true
eq_refl n = ground arith

same_addresses_refl : (xs : List ℕ) → same_addresses xs xs ≡ true
same_addresses_refl [] = refl
same_addresses_refl (x ∷ xs) = let rest = same_addresses_refl xs in ground arith

module _ (is_equal : NitroOutcome → NitroOutcome → Bool) (c : ChannelConstants) where
  abbrev pub at_vars : StateVariables → NitroState NitroOutcome
  at_vars v = to_nitro_state (record { constants = c; vars = v })

  extra_checks :
      (v w : StateVariables)
      → w.turn_num ≡ suc v.turn_num
      → require_extra_implicit_checks (at_vars v) (at_vars w) ≡ ok tt
  unfolding require_extra_implicit_checks to_nitro_state
  extra_checks v w turn =
      let t : (w.turn_num == suc v.turn_num) ≡ true = ground arith in
      rw
        (
          t,
          eq_refl c.chain_id,
          same_addresses_refl (map (λ (p : Participant). p.signing_address) c.participants),
          eq_refl c.channel_nonce,
          eq_refl c.app_definition,
          eq_refl c.challenge_duration,
        )
        refl

  abbrev pub Allowed : StateVariables → StateVariables → Type 0
  Allowed v w =
      (u : ValidTransitionStatus) × (require_valid_protocol_transition is_equal (at_vars v)
          (at_vars w)
        ≡ ok u)

  -- After a final state the rule allows only final ones.
  not_after_final :
      (v w : StateVariables)
      → w.turn_num ≡ suc v.turn_num
      → v.is_final ≡ true
      → w.is_final ≡ false
      → require_valid_protocol_transition is_equal (at_vars v) (at_vars w)
        ≡ err transition_forbidden
  unfolding require_valid_protocol_transition to_nitro_state
  not_after_final v w turn final open_ = rw (extra_checks v w turn, open_, final) refl

  module _ (is_equal_refl : (o : NitroOutcome) → is_equal o o ≡ true) where
    equal-allowed :
        (v w : StateVariables)
        → outcomes_equal v.outcome w.outcome ≡ true
        → is_equal (convert_to_nitro_outcome w.outcome) (convert_to_nitro_outcome v.outcome) ≡ true
    equal-allowed v w h =
        let same = (outcomes_equal_iff v.outcome w.outcome).0 h in
        subst
          (λ o. is_equal (convert_to_nitro_outcome o) (convert_to_nitro_outcome v.outcome) ≡ true)
          same (is_equal_refl (convert_to_nitro_outcome v.outcome))

    final-Allowed :
        (v w : StateVariables)
        → w.turn_num ≡ suc v.turn_num
        → w.is_final ≡ true
        → outcomes_equal v.outcome w.outcome ≡ true
        → Allowed v w
    unfolding require_valid_protocol_transition to_nitro_state
    final-Allowed v w turn final h =
        (is_true, rw (extra_checks v w turn, final, equal-allowed v w h) refl)

    setup-Allowed :
        (v w : StateVariables)
        → w.turn_num ≡ suc v.turn_num
        → v.is_final ≡ false
        → w.is_final ≡ false
        → ltb w.turn_num (2 * length c.participants) ≡ true
        → outcomes_equal v.outcome w.outcome ≡ true
        → (v.app_data == w.app_data) ≡ true
        → Allowed v w
    unfolding require_valid_protocol_transition to_nitro_state
    setup-Allowed v w turn before open_ early h same_data =
        let back : (w.app_data == v.app_data) ≡ true = ground arith in
        let early' : ltb w.turn_num
              (2 * length (map (λ (p : Participant). p.signing_address) c.participants))
            ≡ true =
          rw length-map early in
        (is_true, rw (extra_checks v w turn, open_, before, early', equal-allowed v w h, back) refl)

    later-Allowed :
        (v w : StateVariables)
        → w.turn_num ≡ suc v.turn_num
        → v.is_final ≡ false
        → w.is_final ≡ false
        → ltb w.turn_num (2 * length c.participants) ≡ false
        → Allowed v w
    unfolding require_valid_protocol_transition to_nitro_state
    later-Allowed v w turn before open_ late =
        let late' : ltb w.turn_num
              (2 * length (map (λ (p : Participant). p.signing_address) c.participants))
            ≡ false =
          rw length-map late in
        (need_to_check_app, rw (extra_checks v w turn, open_, before, late') refl)

    -- What the wallet in a page takes for a chain of two states of one channel is allowed by the rule of the
    -- contract, with one exception: a state that is not final after one that is, which `validChain` lets
    -- follow and the rule forbids. Here `isEqual` is taken to say `true` of an outcome and itself.
    pub valid_chain-Allowed :
        (v w : StateVariables)
        → valid_chain (length c.participants) v w ≡ true
        → Allowed v w
          ⊎ ((v.is_final ≡ true)
              × (w.is_final ≡ false)
              × (require_valid_protocol_transition is_equal (at_vars v) (at_vars w)
                  ≡ err transition_forbidden))
    unfolding valid_chain
    valid_chain-Allowed v w h = elim (Bool-cases (suc v.turn_num == w.turn_num)) [
      | inr apart ↦ let e = rw apart at h in absurd (cc)
      | inl next ↦
          let turn : w.turn_num ≡ suc v.turn_num = ground arith in
          elim (Bool-cases w.is_final) [
            | inl final ↦ inl (final-Allowed v w turn final (rw (next, final) at h))
            | inr open_ ↦ elim (Bool-cases v.is_final) [
              | inl before ↦ inr (before, open_, not_after_final v w turn before open_)
              | inr before ↦ elim (Bool-cases (ltb w.turn_num (2 * length c.participants))) [
                | inl early ↦
                    let both = rw (next, open_, early) at h in
                    inl (
                      setup-Allowed v w turn before open_ early
                        (and_left (outcomes_equal v.outcome w.outcome) _ both)
                        (and_right (outcomes_equal v.outcome w.outcome) _ both))
                | inr late ↦ inl (later-Allowed v w turn before open_ late)
              ]
            ]
          ]
    ]
