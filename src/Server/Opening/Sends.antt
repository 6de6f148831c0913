-- ===== src/Server/Opening/Sends.antt =====
-- packages/server-wallet/src/protocols/channel-opener.ts: which states a crank signs and sends.
use statechannels.Common.{
  ℕ, ◌≡◌, refl, ap, ap₂, sym, ◌∙◌, true, false, Bool, Option, ◌∷◌, ◌⊎◌, inl, inr, Bool-cases, arith,
}
use statechannels.Common.Results.{ok, or_throw, >>=-eq-ok}
use statechannels.WalletCore.Types.{StateVariables, State}
use statechannels.Server.Channel.{
  HashedState, Channel, FundingStrategy, first_of, sorted_states, supported,
}
use statechannels.Server.Channel.Queries.{
  prefund_signed, postfund_signed, pre_fund_complete, post_fund_complete, latest_signed_by_me,
}
use statechannels.Server.Store.{Env, sign_state, signed_with, stale, check_transition, add_my_state}
use statechannels.Server.Store.Invariants.{throw_if-ok}
use statechannels.Server.Database.{World, channel_updated, state_sent, queue}
use statechannels.Server.Opening.{
  WaitingFor, crank_channel_funder, sign_and_send, sign_setup, post_fund_turn, sign_prefund,
  sign_postfund, conclude_opening, after_funding, after_prefund, opener_crank,
}
use statechannels.Server.Opening.Signed.{PreFunds, sign_prefund-PreFunds, prefunds-constants}
use statechannels.Server.Opening.Silent.{sent, crank_channel_funder-sent}

module _ (env : Env) (now : ℕ) where
  sign_state-turn :
      (ch : Channel) (vars : StateVariables) {ch' : Channel} {s : HashedState}
      → sign_state env ch vars ≡ ok (ch', s)
      → s.turn_num ≡ vars.turn_num
  unfolding sign_state
  sign_state-turn ch vars {ch'} {s} h =
      let (wallet, chosen, h1) = >>=-eq-ok (or_throw env.signing_wallet _) _ {b = (ch', s)} h in
      let (fresh, h2) =
        throw_if-ok (stale vars.turn_num (latest_signed_by_me ch)) _ _ {a = (ch', s)} h1 in
      let state : State = record { constants = ch.constants; vars = vars } in
      let signed = signed_with env wallet state in
      let (u, allowed, h3) =
        >>=-eq-ok (check_transition env ch signed (supported env.checks ch)) _ {b = (ch', s)} h2 in
      let (c, added, h4) = >>=-eq-ok (add_my_state env ch signed) _ {b = (ch', s)} h3 in
      let same_state : signed ≡ s = ground arith in sym (ap (λ t. t.turn_num) same_state)

  sign_setup-sent :
      (turn : ℕ) (w : World) {w' : World}
      → sign_setup env now turn w ≡ ok w'
      → sent w' ≡ turn ∷ sent w
  unfolding sign_setup sign_and_send
  sign_setup-sent turn w {w'} h =
      let (latest, found, h1) =
        >>=-eq-ok (or_throw (first_of (sorted_states w.channel)) _) _ {b = w'} h in
      let vars = record latest.vars { turn_num = turn } in
      let (w1, done, h2) = >>=-eq-ok (sign_and_send env now w vars) _ {b = w'} h1 in
      let ((c, s), signed, h3) = >>=-eq-ok (sign_state env w.channel vars) _ {b = w1} done in
      let turn_of = sign_state-turn w.channel vars signed in
      let first : queue (state_sent s) (record w { channel = c }) ≡ w1 = ground arith in
      let second : queue channel_updated w1 ≡ w' = ground arith in
      sym (ap sent second) ∙ (sym (ap sent first) ∙ ap (λ t. t ∷ sent w) turn_of)

  -- A crank signs nothing, or the state of one turn.
  abbrev pub Signs : ℕ → World → World → Type 0
  Signs turn w w' = (sent w' ≡ sent w) ⊎ (sent w' ≡ turn ∷ sent w)

  -- The state of turn 0 is sent where I had not signed it, and no state where I had.
  abbrev pub SendsPreFund : World → World → Type 0
  SendsPreFund w w' =
      ((prefund_signed w.channel ≡ true) × (sent w' ≡ sent w))
      ⊎ ((prefund_signed w.channel ≡ false) × (sent w' ≡ 0 ∷ sent w))

  sign_prefund-SendsPreFund :
      (w : World) {w' : World} → sign_prefund env now w ≡ ok w' → SendsPreFund w w'
  sign_prefund-SendsPreFund w {w'} h = elim (Bool-cases (prefund_signed w.channel)) [
    | inl signed ↦
        let e = rw signed at h in
        let same : w ≡ w' = ground arith in inl (signed, ap sent (sym same))
    | inr unsigned ↦ inr (unsigned, sign_setup-sent 0 w (rw unsigned at h))
  ]

  sign_postfund-Signs :
      (w : World) {w' : World}
      → sign_postfund env now w ≡ ok w'
      → Signs (post_fund_turn env now w.channel) w w'
  sign_postfund-Signs w {w'} h = elim (Bool-cases (postfund_signed w.channel)) [
    | inl signed ↦
        let e = rw signed at h in let same : w ≡ w' = ground arith in inl (ap sent (sym same))
    | inr unsigned ↦ inr (sign_setup-sent (post_fund_turn env now w.channel) w (rw unsigned at h))
  ]

  conclude_opening-sent : (w : World) → sent (conclude_opening env now w).0 ≡ sent w
  conclude_opening-sent w = elim (Bool-cases (post_fund_complete env.checks w.channel)) [
    | inl complete ↦ rw complete refl
    | inr missing ↦ rw missing refl
  ]

  -- The post-fund setup of the channel is sent only where the funder has answered, with the rows as they are,
  -- that the channel is funded.
  abbrev pub SendsFunded : FundingStrategy → Option ℕ → World → World → Type 0
  SendsFunded strategy ledger_id w w' =
      (sent w' ≡ sent w)
      ⊎ ((w2 : World) × (crank_channel_funder env now strategy ledger_id w ≡ ok (w2, true))
          × (sent w' ≡ post_fund_turn env now w.channel ∷ sent w))

  after_funding-SendsFunded :
      (strategy : FundingStrategy) (ledger_id : Option ℕ) (w w2 : World) (funded : Bool)
      {w' : World} {waits : WaitingFor}
      → crank_channel_funder env now strategy ledger_id w ≡ ok (w2, funded)
      → after_funding env now (w2, funded) ≡ ok (w', waits)
      → SendsFunded strategy ledger_id w w'
  after_funding-SendsFunded strategy ledger_id w w2 false {w'} {waits} answered h =
      let same : w2 ≡ w' = ground arith in
      inl (sym (ap sent same) ∙ (crank_channel_funder-sent env now strategy ledger_id w answered).0)
  after_funding-SendsFunded strategy ledger_id w w2 true {w'} {waits} answered h =
      let (w3, signed, e) =
        >>=-eq-ok (sign_postfund env now w2) (λ x. ok (conclude_opening env now x))
          {b = (w', waits)} h in
      let same : conclude_opening env now w3 ≡ (w', waits) = ground arith in
      let last : sent w' ≡ sent w3 = sym (ap (λ p. sent p.0) same) ∙ conclude_opening-sent w3 in
      let (kept, same_channel) = crank_channel_funder-sent env now strategy ledger_id w answered in
      elim (sign_postfund-Signs w2 signed) [
        | inl quiet ↦ inl (last ∙ (quiet ∙ kept))
        | inr sends ↦ inr (
          w2,
          answered,
          last ∙ (sends ∙ ap₂ (λ c ts. post_fund_turn env now c ∷ ts) same_channel kept),
        )
      ]

  after_prefund-SendsFunded :
      (strategy : FundingStrategy) (ledger_id : Option ℕ) (w : World) {w' : World}
      {waits : WaitingFor}
      → after_prefund env now strategy ledger_id w ≡ ok (w', waits)
      → SendsFunded strategy ledger_id w w'
  after_prefund-SendsFunded strategy ledger_id w {w'} {waits} h =
      elim (Bool-cases (pre_fund_complete env.checks w.channel)) [
        | inl complete ↦
            let ((w2, funded), answered, h1) =
              >>=-eq-ok (crank_channel_funder env now strategy ledger_id w) (after_funding env now)
                {b = (w', waits)} (rw complete at h) in
            after_funding-SendsFunded strategy ledger_id w w2 funded answered h1
        | inr missing ↦
            let e = rw missing at h in let same : w ≡ w' = ground arith in inl (sym (ap sent same))
      ]

  -- A crank of the opener, however it ends, sends at most the state of turn 0 and the last state of
  -- the post-fund setup of its channel, in this order. The former is sent only where I had not signed
  -- it; and the latter only after the funder for the strategy of the objective has answered that the
  -- channel is funded: the channel as the crank found it, or with that signature of mine, while all
  -- other rows are as the crank found them.
  pub opener_crank-Sends :
      (strategy : FundingStrategy) (ledger_id : Option ℕ) (w : World) {w' : World}
      {waits : WaitingFor}
      → opener_crank env now strategy ledger_id w ≡ ok (w', waits)
      → (w1 : World) × PreFunds env now w w1
        × SendsPreFund w w1
        × SendsFunded strategy ledger_id w1 w'
        × (w1.channel.constants ≡ w.channel.constants)
  unfolding opener_crank
  opener_crank-Sends strategy ledger_id w {w'} {waits} h =
      let (w1, signed, h1) =
        >>=-eq-ok (sign_prefund env now (queue channel_updated w))
          (after_prefund env now strategy ledger_id) {b = (w', waits)} h in
      let left = sign_prefund-PreFunds env now (queue channel_updated w) signed in
      (
        w1,
        left,
        sign_prefund-SendsPreFund (queue channel_updated w) signed,
        after_prefund-SendsFunded strategy ledger_id w1 h1,
        prefunds-constants env now (queue channel_updated w) w1 left,
      )
