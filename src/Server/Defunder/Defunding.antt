-- ===== src/Server/Defunder/Defunding.antt =====
-- packages/server-wallet/src/protocols/defunder.ts: when a
-- channel counts as defunded.
use statechannels.Common.{
  ℕ, ◌≡◌, ap, sym, ◌∙◌, true, false, Bool, not, none, some, ◌&&◌, ◌||◌, inl, inr, Bool-cases,
  Option-cases, arith,
}
use statechannels.Common.Results.{Result, ok, >>=-eq-ok}
use statechannels.Server.Channel.{
  FundingStrategy, direct, ledger, virtual_, fake, unknown, has_conclusion_proof,
}
use statechannels.Server.Channel.Queries.{is_partly_direct_funded}
use statechannels.Server.Store.{Env}
use statechannels.Server.LedgerRequest.{LedgerRequest, defund}
use statechannels.Server.Database.{
  World, queue, withdraw, has_valid_request, to_withdraw, to_push_outcome, get_ledger_request,
  convert_result, AdjudicatorStatus,
}
use statechannels.Server.Defunder.{
  DefunderResult, defunder_result, Ending, has_succeeded, row_amounts, conclude, request_defunding,
  is_finalized, first_state_of, should_submit_collaborative_tx, submit, direct_defunder, by_request,
  ledger_defunder, defund_by,
}

module _ (env : Env) (now : ℕ) where
  -- Why a channel counts as defunded, by its strategy
  abbrev pub Defunded : FundingStrategy → World → Type 0
  Defunded direct w =
      is_partly_direct_funded env.checks w.channel (row_amounts w.funding) ≡ ok false
  Defunded ledger w =
      (has_conclusion_proof env.checks w.channel ≡ true)
      × (r : LedgerRequest) × (get_ledger_request w.channel.channel_id defund w.ledger_requests
          ≡ some r)
      × (has_succeeded r ≡ true)
  Defunded virtual_ w = true ≡ false
  Defunded fake w = Unit
  Defunded unknown w = Unit

  unfunded_result :
      (x : World) (b : Bool) {w' : World} {r : DefunderResult}
      → ◌≡◌ {A = Result (World × DefunderResult)} (ok (x, defunder_result false b)) (ok (w', r))
      → r.is_channel_defunded ≡ false
  unfunded_result x b h = cc

  submit-unfunded :
      (w : World) (status : AdjudicatorStatus) (should : Bool) {w' : World} {r : DefunderResult}
      → submit env now w status should ≡ ok (w', r)
      → r.is_channel_defunded ≡ false
  unfolding submit
  submit-unfunded w status should {w'} {r} h =
      elim (Bool-cases (
        not (is_finalized status.channel_mode)
        && (has_conclusion_proof env.checks w.channel && should))) [
          | inl concludes ↦ unfunded_result (conclude env now w) true (rw concludes at h)
          | inr no_conclusion ↦ elim (Bool-cases (is_finalized status.channel_mode && should)) [
            | inl pushes ↦
                let (s, found, h1) =
                  >>=-eq-ok (first_state_of status.states) _ {b = (w', r)}
                    (rw (no_conclusion, pushes) at h) in
                unfunded_result (queue (withdraw s) w) true h1
            | inr waits ↦ unfunded_result w false (rw (no_conclusion, waits) at h)
          ]
        ]

  -- A direct defunder that is done
  direct_defunder-Defunded :
      (ending : Ending) (w : World) {w' : World} {r : DefunderResult}
      → direct_defunder env now ending w ≡ ok (w', r)
      → r.is_channel_defunded ≡ true
      → Defunded direct w × (w' ≡ w)
  unfolding direct_defunder
  direct_defunder-Defunded ending w {w'} {r} h done =
      let (partly, read, h1) =
        >>=-eq-ok (is_partly_direct_funded env.checks w.channel (row_amounts w.funding)) _
          {b = (w', r)} h in
      elim (Bool-cases partly) [
        | inr paid ↦ (read ∙ ap ok paid, ground arith)
        | inl unpaid ↦
            elim (Bool-cases (
              has_valid_request now to_withdraw w.chain_requests
              || has_valid_request now to_push_outcome w.chain_requests)) [
                | inl asked ↦ absurd (ground arith)
                | inr free ↦
                    let (should, chosen, h2) =
                      >>=-eq-ok (should_submit_collaborative_tx env now w.channel ending)
                        (submit env now w (convert_result w.adjudicator)) {b = (w', r)}
                        (ground arith) in
                    let open_still = submit-unfunded w (convert_result w.adjudicator) should h2 in
                    absurd (cc)
              ]
      ]

  ledger_defunder-Defunded :
      (w : World) {w' : World} {r : DefunderResult}
      → ledger_defunder env now w ≡ ok (w', r)
      → r.is_channel_defunded ≡ true
      → Defunded ledger w × (w' ≡ w)
  unfolding ledger_defunder
  ledger_defunder-Defunded w {w'} {r} h done =
      elim (Bool-cases (has_conclusion_proof env.checks w.channel)) [
        | inr running ↦ absurd (ground arith)
        | inl concluded ↦
            elim (Option-cases (get_ledger_request w.channel.channel_id defund w.ledger_requests)) [
              | inr (q, found) ↦
                  let e : by_request env now w (some q) ≡ ok (w', r) =
                    sym (ap (by_request env now w) found) ∙ ground arith in
                  ((concluded, q, found, ground arith), ground arith)
              | inl missing ↦
                  let e : by_request env now w none ≡ ok (w', r) =
                    sym (ap (by_request env now w) missing) ∙ ground arith in
                  let (w1, asked, h1) =
                    >>=-eq-ok (request_defunding env now w w.ledger) _ {b = (w', r)} e in
                  let open_still = unfunded_result w1 false h1 in absurd (cc)
            ]
      ]

  pub defund_by-Defunded :
      (ending : Ending) (w : World) (strategy : FundingStrategy) {w' : World} {r : DefunderResult}
      → defund_by env now ending w strategy ≡ ok (w', r)
      → r.is_channel_defunded ≡ true
      → Defunded strategy w × (w' ≡ w)
  defund_by-Defunded ending w direct h done = direct_defunder-Defunded ending w h done
  defund_by-Defunded ending w ledger h done = ledger_defunder-Defunded w h done
  defund_by-Defunded ending w virtual_ h done = absurd (cc)
  defund_by-Defunded ending w fake h done = (tt, ground arith)
  defund_by-Defunded ending w unknown h done = (tt, ground arith)
