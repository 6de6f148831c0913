-- ===== src/Server/Opening/Silent.antt =====
-- packages/server-wallet/src/protocols/channel-opener.ts and its funders: the states that are sent, and
-- that a funder sends none and leaves the channel as it is.
use statechannels.Common.{
  ℕ, ◌≡◌, refl, ap, sym, subst, true, false, Bool, Option, none, some, List, [], ◌∷◌, inl, inr,
  Bool-cases, arith, if◌then◌else◌, is_some,
}
use statechannels.Common.Int.{ℤ, ltb_ℤ, leb_ℤ}
use statechannels.Common.Results.{ok, >>=-eq-ok}
use statechannels.WalletCore.Types.{Address}
use statechannels.WalletCore.DirectFunder.{FundingMilestone}
use statechannels.Server.Channel.{Channel, FundingStrategy, direct, ledger, virtual_, fake, unknown}
use statechannels.Server.Channel.Queries.{
  my_amount, opponent_amount, supported_allocation, funding_milestones,
}
use statechannels.Server.LedgerRequest.{RequestType, fund, new_request}
use statechannels.Server.Store.{Env}
use statechannels.Server.Database.{
  World, Output, channel_updated, objective_succeeded, state_sent, fund_channel,
  conclude_and_withdraw, withdraw, challenge_with, has_valid_request, to_fund, get_ledger_request,
  get_funding_amount,
}
use statechannels.Server.Opening.{
  crank_deposit, direct_funder_crank, insert_request, request_from_ledger, fund_from, fund_from_row,
  already_funded, amounts_in_order, ledger_funder_crank, crank_channel_funder,
}

-- The turns of the states that are sent to the others, the last first
abbrev pub sent_turns : List Output → List ℕ
sent_turns [] = []
sent_turns (state_sent s ∷ os) = s.turn_num ∷ sent_turns os
sent_turns (channel_updated ∷ os) = sent_turns os
sent_turns (objective_succeeded ∷ os) = sent_turns os
sent_turns (fund_channel a h m ∷ os) = sent_turns os
sent_turns (conclude_and_withdraw ss ∷ os) = sent_turns os
sent_turns (withdraw s ∷ os) = sent_turns os
sent_turns (challenge_with ss ∷ os) = sent_turns os

abbrev pub sent : World → List ℕ
sent w = sent_turns w.outputs

-- No state is sent, and the channel is left as it is.
abbrev pub SendsNothing : World → World × Bool → Type 0
SendsNothing w (w', funded) = (sent w' ≡ sent w) × (w'.channel ≡ w.channel)

-- The three results of a chain of tests
chosen :
    {A : Type 0} (P : A → Type 0) (a b c d : Bool) {x y z : A}
    → P x
    → P y
    → P z
    → P (if a then x else (if b then y else (if c then y else (if d then y else z))))
chosen P true b c d px py pz = px
chosen P false true c d px py pz = py
chosen P false false true d px py pz = py
chosen P false false false true px py pz = py
chosen P false false false false px py pz = pz

module _ (env : Env) (now : ℕ) where
  crank_deposit-sent :
      (w : World) (asset : Address) (held : ℤ) (m : FundingMilestone)
      → SendsNothing w (crank_deposit env now w asset held m)
  unfolding crank_deposit
  crank_deposit-sent w asset held m =
      chosen (SendsNothing w) (leb_ℤ m.target_total held) (ltb_ℤ held m.target_before)
        (leb_ℤ m.target_after held) (has_valid_request now to_fund w.chain_requests) (refl, refl)
        (refl, refl) (refl, refl)

  direct_funder_crank-sent :
      (w : World) {r : World × Bool} → direct_funder_crank env now w ≡ ok r → SendsNothing w r
  unfolding direct_funder_crank
  direct_funder_crank-sent w {r} h =
      let (a, e, h1) = >>=-eq-ok (supported_allocation env.checks w.channel) _ {b = r} h in
      let (m, f, h2) = >>=-eq-ok (funding_milestones env.checks w.channel) _ {b = r} h1 in
      let held = get_funding_amount a.asset w.funding in
      let same : crank_deposit env now w a.asset held m ≡ r = ground arith in
      subst (SendsNothing w) same (crank_deposit-sent w a.asset held m)

  request_from_ledger-sent :
      (k : RequestType) (w : World) (l : Channel) {w' : World}
      → request_from_ledger env now k w l ≡ ok w'
      → (sent w' ≡ sent w) × (w'.channel ≡ w.channel)
  unfolding request_from_ledger
  request_from_ledger-sent k w l {w'} h =
      let (mine, e, h1) = >>=-eq-ok (my_amount env.checks w.channel) _ {b = w'} h in
      let (theirs, f, h2) = >>=-eq-ok (opponent_amount env.checks w.channel) _ {b = w'} h1 in
      let both = amounts_in_order env now l mine theirs in
      let (rs, g, h3) =
        >>=-eq-ok
          (insert_request env now (new_request k w.channel.channel_id l.channel_id both.0 both.1)
            w.ledger_requests)
          _ {b = w'} h2 in
      let same : (record w { ledger_requests = rs }) ≡ w' = ground arith in
      (sym (ap sent same), sym (ap (λ x. x.channel) same))

  fund_from-sent :
      (w : World) (l : Channel) {r : World × Bool} → fund_from env now w l ≡ ok r → SendsNothing w r
  unfolding fund_from
  fund_from-sent w l {r} h =
      let (funded, read, h1) = >>=-eq-ok (already_funded env now l w.channel) _ {b = r} h in
      elim (Bool-cases funded) [
        | inl done ↦
            let e = rw done at h1 in
            let same : ◌≡◌ {A = World × Bool} (w, true) r = ground arith in
            subst (SendsNothing w) same (refl, refl)
        | inr short ↦
            elim (Bool-cases
              (is_some (get_ledger_request w.channel.channel_id fund w.ledger_requests))) [
                | inl asked ↦
                    let e = rw (short, asked) at h1 in
                    let same : ◌≡◌ {A = World × Bool} (w, false) r = ground arith in
                    subst (SendsNothing w) same (refl, refl)
                | inr free ↦
                    let (w1, asked, h2) =
                      >>=-eq-ok (request_from_ledger env now fund w l) (λ x. ok (x, false)) {b = r}
                        (rw (short, free) at h1) in
                    let same : ◌≡◌ {A = World × Bool} (w1, false) r = ground arith in
                    subst (SendsNothing w) same (request_from_ledger-sent fund w l asked)
              ]
      ]

  fund_from_row-sent :
      (w : World) (l : Option Channel) {r : World × Bool}
      → fund_from_row env now w l ≡ ok r
      → SendsNothing w r
  fund_from_row-sent w none {r} h =
      let same : ◌≡◌ {A = World × Bool} (w, false) r = ground arith in
      subst (SendsNothing w) same (refl, refl)
  fund_from_row-sent w (some l) {r} h = fund_from-sent w l h

  pub crank_channel_funder-sent :
      (strategy : FundingStrategy) (ledger_id : Option ℕ) (w : World) {r : World × Bool}
      → crank_channel_funder env now strategy ledger_id w ≡ ok r
      → SendsNothing w r
  unfolding crank_channel_funder ledger_funder_crank
  crank_channel_funder-sent direct ledger_id w {r} h = direct_funder_crank-sent w h
  crank_channel_funder-sent fake ledger_id w {r} h =
      let same : ◌≡◌ {A = World × Bool} (w, true) r = ground arith in
      subst (SendsNothing w) same (refl, refl)
  crank_channel_funder-sent ledger none w {r} h = absurd (cc)
  crank_channel_funder-sent ledger (some i) w {r} h = fund_from_row-sent w w.ledger h
  crank_channel_funder-sent virtual_ ledger_id w {r} h =
      let same : ◌≡◌ {A = World × Bool} (w, false) r = ground arith in
      subst (SendsNothing w) same (refl, refl)
  crank_channel_funder-sent unknown ledger_id w {r} h =
      let same : ◌≡◌ {A = World × Bool} (w, false) r = ground arith in
      subst (SendsNothing w) same (refl, refl)
