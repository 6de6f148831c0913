-- ===== src/Server/Defunder/Submissions.antt =====
-- packages/server-wallet/src/protocols/defunder.ts: which
-- transactions the defunder asks for.
use statechannels.Common.{
  ℕ, ◌≡◌, refl, ap, ◌∙◌, true, false, Bool, not, Option, none, some, ◌&&◌, ◌||◌, ◌⊎◌, ◌↔◌, inl, inr,
  List, [], ◌∷◌, subst, Bool-cases, arith,
}
use statechannels.Common.Results.{Result, Error, ok, err, type_error, ◌>>=◌, >>=-eq-ok, >>=-eq-err}
use statechannels.WalletCore.Types.{SignedState}
use statechannels.Server.Channel.{has_conclusion_proof}
use statechannels.Server.Channel.Queries.{is_partly_direct_funded}
use statechannels.Server.Store.{Env}
use statechannels.Server.Database.{
  World, queue, withdraw, has_valid_request, to_withdraw, to_push_outcome, convert_result,
}
use statechannels.Server.Defunder.{
  DefunderResult, defunder_result, Ending, row_amounts, conclude, is_finalized, first_state_of,
  should_submit_collaborative_tx, submit, direct_defunder,
}

module _ (env : Env) (now : ℕ) where
  -- The transaction that a defunder asks for: the conclusion of a channel that is not finalized on chain, with a
  -- support of final states, or the payout of the finalized one
  abbrev pub Submits : World → World → Type 0
  Submits w w' =
      ((is_finalized (convert_result w.adjudicator).channel_mode ≡ false)
        × (has_conclusion_proof env.checks w.channel ≡ true)
        × (w' ≡ conclude env now w))
      ⊎ ((is_finalized (convert_result w.adjudicator).channel_mode ≡ true)
          × (s : Option SignedState) × (first_state_of (convert_result w.adjudicator).states ≡ ok s)
          × (w' ≡ queue (withdraw s) w))

  abbrev Answer : Type 0
  Answer = World × DefunderResult

  -- What becomes of the rows: nothing, or one transaction is asked for where it is the wallet's to submit.
  abbrev Submission : World → Bool → Answer → Type 0
  Submission w should (w', r) =
      ((r.did_submit_transaction ≡ false) × (w' ≡ w))
      ⊎ ((r.did_submit_transaction ≡ true) × (should ≡ true) × Submits w w')

  submit-Submission :
      (w : World) (should : Bool) {p : Answer}
      → submit env now w (convert_result w.adjudicator) should ≡ ok p
      → Submission w should p
  unfolding submit
  submit-Submission w should {p} h =
      let status = convert_result w.adjudicator in
      elim (Bool-cases (
        not (is_finalized status.channel_mode)
        && (has_conclusion_proof env.checks w.channel && should))) [
          | inl concludes ↦
              let e : ◌≡◌ {A = Result Answer} (ok (conclude env now w, defunder_result false true))
                  (ok p) =
                rw concludes at h in
              let same : ◌≡◌ {A = Answer} (conclude env now w, defunder_result false true) p = cc in
              subst (Submission w should) same
                (inr (refl, ground arith, inl (ground arith, ground arith, refl)))
          | inr no_conclusion ↦ elim (Bool-cases (is_finalized status.channel_mode && should)) [
            | inl pushes ↦
                let (s, found, h1) =
                  >>=-eq-ok (first_state_of status.states) _ {b = p}
                    (rw (no_conclusion, pushes) at h) in
                let same : ◌≡◌ {A = Answer} (queue (withdraw s) w, defunder_result false true) p =
                  cc in
                subst (Submission w should) same
                  (inr (refl, ground arith, inr (ground arith, s, found, refl)))
            | inr waits ↦
                let e : ◌≡◌ {A = Result Answer} (ok (w, defunder_result false false)) (ok p) =
                  rw (no_conclusion, waits) at h in
                let same : ◌≡◌ {A = Answer} (w, defunder_result false false) p = cc in
                subst (Submission w should) same (inl (refl, refl))
          ]
        ]

  -- The rows of a channel of which the wallet may submit a transaction: it has funds that the wallet can
  -- claim, and no request is outstanding.
  abbrev pub Submittable : World → Type 0
  Submittable w =
      (is_partly_direct_funded env.checks w.channel (row_amounts w.funding) ≡ ok true)
      × (has_valid_request now to_withdraw w.chain_requests ≡ false)
      × (has_valid_request now to_push_outcome w.chain_requests ≡ false)

  -- A crank of the direct defunder that does not fail either leaves all rows and queues as they are, and
  -- says that it submitted nothing; or it says that it submitted, and asks for one transaction. It does the
  -- latter only of a channel with funds that the wallet can claim, while no request for one is outstanding,
  -- and where it is the wallet's to submit: the payout of a channel that is finalized on chain, and
  -- otherwise its conclusion, for which there is a conclusion proof.
  pub direct_defunder-Submits :
      (ending : Ending) (w : World) {w' : World} {r : DefunderResult}
      → direct_defunder env now ending w ≡ ok (w', r)
      → ((r.did_submit_transaction ≡ false) × (w' ≡ w))
        ⊎ ((r.did_submit_transaction ≡ true)
            × Submittable w
            × (should_submit_collaborative_tx env now w.channel ending ≡ ok true)
            × Submits w w')
  unfolding direct_defunder
  direct_defunder-Submits ending w {w'} {r} h =
      let (partly, read, h1) =
        >>=-eq-ok (is_partly_direct_funded env.checks w.channel (row_amounts w.funding)) _
          {b = (w', r)} h in
      elim (Bool-cases partly) [
        | inr paid ↦
            let e : ◌≡◌ {A = Result Answer} (ok (w, defunder_result true false)) (ok (w', r)) =
              rw paid at h1 in
            inl (ground arith, ground arith)
        | inl unpaid ↦
            elim (Bool-cases (
              has_valid_request now to_withdraw w.chain_requests
              || has_valid_request now to_push_outcome w.chain_requests)) [
                | inl asked ↦
                    let e : ◌≡◌ {A = Result Answer} (ok (w, defunder_result false false))
                        (ok (w', r)) =
                      rw (unpaid, asked) at h1 in
                    inl (ground arith, ground arith)
                | inr free ↦
                    let (should, chosen, h2) =
                      >>=-eq-ok (should_submit_collaborative_tx env now w.channel ending)
                        (submit env now w (convert_result w.adjudicator)) {b = (w', r)}
                        (rw (unpaid, free) at h1) in
                    elim (submit-Submission w should {p = (w', r)} h2) [
                      | inl (quiet, same) ↦ inl (quiet, same)
                      | inr (did, mine, submits) ↦ inr (
                        did,
                        (read ∙ ap ok unpaid, ground arith, ground arith),
                        chosen ∙ ap ok mine,
                        submits,
                      )
                    ]
              ]
      ]

  -- Why the direct defunder fails: what it reads of the channel fails, or the payout of a finalized channel
  -- is the wallet's to submit, and the row of its status on chain has no states.
  abbrev pub Fails : Ending → World → Error → Type 0
  Fails ending w e =
      (is_partly_direct_funded env.checks w.channel (row_amounts w.funding) ≡ err e)
      ⊎ (Submittable w
          × ((should_submit_collaborative_tx env now w.channel ending ≡ err e)
              ⊎ ((should_submit_collaborative_tx env now w.channel ending ≡ ok true)
                  × (is_finalized (convert_result w.adjudicator).channel_mode ≡ true)
                  × ((convert_result w.adjudicator).states ≡ none)
                  × (e ≡ type_error))))

  no_states :
      (ss : Option (List SignedState)) (f : Option SignedState → Answer) {e : Error}
      → (first_state_of ss >>= λ s. ok (f s)) ≡ err e
      → (ss ≡ none) × (e ≡ type_error)
  no_states none f h = (refl, cc)
  no_states (some []) f h = absurd (cc)
  no_states (some (s ∷ ss)) f h = absurd (cc)

  submit-fails :
      (w : World) (should : Bool) {e : Error}
      → submit env now w (convert_result w.adjudicator) should ≡ err e
      → (should ≡ true)
        × (is_finalized (convert_result w.adjudicator).channel_mode ≡ true)
        × ((convert_result w.adjudicator).states ≡ none)
        × (e ≡ type_error)
  unfolding submit
  submit-fails w should {e} h =
      let status = convert_result w.adjudicator in
      elim (Bool-cases (
        not (is_finalized status.channel_mode)
        && (has_conclusion_proof env.checks w.channel && should))) [
          | inl concludes ↦ let k = rw concludes at h in absurd (cc)
          | inr no_conclusion ↦ elim (Bool-cases (is_finalized status.channel_mode && should)) [
            | inr waits ↦ let k = rw (no_conclusion, waits) at h in absurd (cc)
            | inl pushes ↦
                let (missing, is) =
                  no_states status.states (λ s. (queue (withdraw s) w, defunder_result false true))
                    (rw (no_conclusion, pushes) at h) in
                (ground arith, ground arith, missing, is)
          ]
        ]

  Fails-direct_defunder :
      (ending : Ending) (w : World) (e : Error)
      → Fails ending w e
      → direct_defunder env now ending w ≡ err e
  unfolding direct_defunder submit
  Fails-direct_defunder ending w e (inl unread) = rw unread refl
  Fails-direct_defunder ending w e (inr ((partly, one, two), inl undecided)) =
      rw (partly, one, two, undecided) refl
  Fails-direct_defunder ending w e (inr ((partly, one, two), inr (should, final, missing, is))) =
      rw (partly, one, two, should, final, missing, is) refl

  -- The direct defunder fails with an error exactly where reading the funds of the channel, or who is
  -- to submit, fails with it; or where the payout of a channel that is finalized on chain is the
  -- wallet's to submit, and the row of its status has no states. Who is to submit counts only of a
  -- channel with funds that the wallet can claim and without outstanding requests.
  pub direct_defunder-Fails :
      (ending : Ending) (w : World) (e : Error)
      → (direct_defunder env now ending w ≡ err e) ↔ Fails ending w e
  unfolding direct_defunder
  direct_defunder-Fails ending w e = (why, Fails-direct_defunder ending w e)
    where
      why : direct_defunder env now ending w ≡ err e → Fails ending w e
      why h =
          elim (>>=-eq-err (is_partly_direct_funded env.checks w.channel (row_amounts w.funding)) _
            {e = e} h) [
              | inl unread ↦ inl unread
              | inr (partly, read, h1) ↦ elim (Bool-cases partly) [
                | inr paid ↦ let k = rw paid at h1 in absurd (cc)
                | inl unpaid ↦
                    elim (Bool-cases (
                      has_valid_request now to_withdraw w.chain_requests
                      || has_valid_request now to_push_outcome w.chain_requests)) [
                        | inl asked ↦ let k = rw (unpaid, asked) at h1 in absurd (cc)
                        | inr free ↦ inr (
                          (read ∙ ap ok unpaid, ground arith, ground arith),
                          elim (>>=-eq-err (should_submit_collaborative_tx env now w.channel ending)
                              (submit env now w (convert_result w.adjudicator)) {e = e}
                              (rw (unpaid, free) at h1)) [
                                | inl undecided ↦ inl undecided
                                | inr (should, chosen, h2) ↦
                                    let (mine, final, missing, is) = submit-fails w should h2 in
                                    inr (chosen ∙ ap ok mine, final, missing, is)
                              ],
                        )
                      ]
              ]
            ]
