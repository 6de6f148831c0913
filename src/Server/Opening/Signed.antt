-- ===== src/Server/Opening/Signed.antt =====
-- packages/server-wallet/src/protocols/channel-opener.ts and channel-closer.ts: what signing a state
-- leaves of the rows, and the channel that it leaves.
use statechannels.Common.{
  ℕ, ◌≡◌, refl, ap, sym, subst, ◌∙◌, some, true, false, ◌⊎◌, inl, inr, Bool-cases, arith,
}
use statechannels.Common.Results.{or_throw, or_throw-ok, ok, >>=-eq-ok}
use statechannels.WalletCore.Types.{StateVariables, State}
use statechannels.Server.Channel.{HashedState, Channel, first_of, sorted_states, support, supported}
use statechannels.Server.Channel.Queries.{prefund_signed, latest_signed_by_me}
use statechannels.Server.Store.{
  Env, sign_state, signed_with, stale, check_transition, add_my_state, store_state, add_state,
  clear_old_states, validate_invariants,
}
use statechannels.Server.Store.Invariants.{throw_if-ok}
use statechannels.Server.Store.Signing.{add_my_state-store_state}
use statechannels.Server.Database.{World, queue, channel_updated}
use statechannels.Server.Opening.{sign_and_send, sign_setup, sign_prefund}

-- All rows but that of the channel and of the objective
abbrev pub SameRows : World → World → Type 0
SameRows w w' =
    (w'.funding ≡ w.funding)
    × (w'.chain_requests ≡ w.chain_requests)
    × (w'.adjudicator ≡ w.adjudicator)
    × (w'.ledger ≡ w.ledger)
    × (w'.ledger_requests ≡ w.ledger_requests)

module _ (env : Env) (now : ℕ) where
  -- The channel with a state of these variables signed and stored
  abbrev pub SignedAs : StateVariables → World → World → Type 0
  SignedAs vars w w' = (s : HashedState) × (sign_state env w.channel vars ≡ ok (w'.channel, s))

  -- The channel as it was, or with one state signed
  abbrev pub SignsOnce : World → World → Type 0
  SignsOnce w w' = (w'.channel ≡ w.channel) ⊎ ((vars : StateVariables) × SignedAs vars w w')

  pub sign_and_send-SameRows :
      (w : World) (vars : StateVariables) {w' : World}
      → sign_and_send env now w vars ≡ ok w'
      → SameRows w w' × SignedAs vars w w'
  unfolding sign_and_send
  sign_and_send-SameRows w vars {w'} h =
      let ((c, s), signed, h1) = >>=-eq-ok (sign_state env w.channel vars) _ {b = w'} h in
      let same : c ≡ w'.channel = ground arith in
      ((ground arith, ground arith, ground arith, ground arith, ground arith), (s, cc))

  -- What the pre-fund setup leaves: the rows, and the channel as it was where I had signed a state, or else with
  -- my signature on its latest state as that of turn 0.
  abbrev pub PreFunds : World → World → Type 0
  PreFunds w w' =
      SameRows w w'
      × (((prefund_signed w.channel ≡ true) × (w'.channel ≡ w.channel))
          ⊎ ((prefund_signed w.channel ≡ false)
              × (latest : HashedState) × (first_of (sorted_states w.channel) ≡ some latest)
              × SignedAs (record latest.vars { turn_num = 0 }) w w'))

  pub sign_prefund-PreFunds :
      (w : World) {w' : World} → sign_prefund env now w ≡ ok w' → PreFunds w w'
  unfolding sign_setup
  sign_prefund-PreFunds w {w'} h = elim (Bool-cases (prefund_signed w.channel)) [
    | inl signed ↦
        let e = rw signed at h in
        let same : w ≡ w' = ground arith in
        subst (PreFunds w) same ((refl, refl, refl, refl, refl), inl (signed, refl))
    | inr unsigned ↦
        let (latest, found, h1) =
          >>=-eq-ok (or_throw (first_of (sorted_states w.channel)) _) _ {b = w'}
            (rw unsigned at h) in
        let (w1, done, h2) =
          >>=-eq-ok (sign_and_send env now w (record latest.vars { turn_num = 0 })) _ {b = w'} h1 in
        let (rows, signed) = sign_and_send-SameRows w (record latest.vars { turn_num = 0 }) done in
        let same : queue channel_updated w1 ≡ w' = ground arith in
        subst (PreFunds w) same (
          rows,
          inr (unsigned, latest, or_throw-ok (first_of (sorted_states w.channel)) _ found, signed),
        )
  ]

  sign_state-constants :
      (ch : Channel) (vars : StateVariables) {ch' : Channel} {s : HashedState}
      → sign_state env ch vars ≡ ok (ch', s)
      → ch'.constants ≡ ch.constants
  unfolding sign_state store_state
  sign_state-constants ch vars {ch'} {s} h =
      let (wallet, chosen, h1) = >>=-eq-ok (or_throw env.signing_wallet _) _ {b = (ch', s)} h in
      let (fresh, h2) =
        throw_if-ok (stale vars.turn_num (latest_signed_by_me ch)) _ _ {a = (ch', s)} h1 in
      let state : State = record { constants = ch.constants; vars = vars } in
      let signed = signed_with env wallet state in
      let (u, allowed, h3) =
        >>=-eq-ok (check_transition env ch signed (supported env.checks ch)) _ {b = (ch', s)} h2 in
      let (c, added, h4) = >>=-eq-ok (add_my_state env ch signed) _ {b = (ch', s)} h3 in
      let same_channel : c ≡ ch' = ground arith in
      let kept =
        clear_old_states (add_state ch.stored signed)
          (support env.checks (record ch { stored = add_state ch.stored signed })) in
      let (v, valid, h5) =
        >>=-eq-ok (validate_invariants kept ch.signing_address) _ {b = c}
          (add_my_state-store_state env ch signed added) in
      let same : record ch { stored = kept } ≡ c = ground arith in
      sym (ap (λ x. x.constants) same_channel) ∙ sym (ap (λ x. x.constants) same)

  -- The constants of the channel stay what they are.
  pub prefunds-constants :
      (w : World) (w' : World) → PreFunds w w' → w'.channel.constants ≡ w.channel.constants
  prefunds-constants w w' (rows, inl (signed, same)) = ap (λ c. c.constants) same
  prefunds-constants w w' (rows, inr (unsigned, latest, found, (s, signed))) =
      sign_state-constants w.channel (record latest.vars { turn_num = 0 }) signed
