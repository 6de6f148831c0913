-- ===== src/Server/Closing/Closed.antt =====
-- packages/server-wallet/src/protocols/channel-closer.ts : what the end of the closing protocol says.
use statechannels.Common.{
  ℕ, suc, ◌≡◌, refl, ap, sym, subst, ◌∙◌, true, false, Bool, Option, none, some, List, inl, inr,
  Bool-cases, arith,
}
use statechannels.Common.Results.{Result, ok, err, >>=-eq-ok}
use statechannels.Server.Channel.{
  FundingStrategy, direct, ledger, virtual_, fake, unknown, HashedState, supported,
  has_conclusion_proof,
}
use statechannels.Server.Channel.Queries.{latest_signed_by_me, my_turn}
use statechannels.Server.Store.{Env}
use statechannels.Server.Database.{World, queue, channel_updated, objective_succeeded, succeeded}
use statechannels.Server.Opening.Signed.{SameRows, SignsOnce}
use statechannels.Server.Closing.{
  closer_body, or_rolled_back, ClosingFor, nothing, sign_final, sign_on_turn, sign_final_state,
  all_external, are_all_final_states_signed, after_defunder, after_final_states, closer_crank,
}
use statechannels.Server.Defunder.{DefunderResult, close_channel, defunder_crank}
use statechannels.Server.Defunder.Defunding.{Defunded, defund_by-Defunded}
use statechannels.Server.Closing.Leaves.{Leaves, are_all_final_states_signed-Leaves}

module _ (env : Env) (now : ℕ) where
  -- The final states are signed only where there is a conclusion proof.
  Proved : World × Bool → Type 0
  Proved (w, all_signed) = all_signed ≡ true → has_conclusion_proof env.checks w.channel ≡ true

  sign_on_turn-Proved :
      (w : World) (s : HashedState) {p : World × Bool} → sign_on_turn env now w s ≡ ok p → Proved p
  unfolding Proved
  sign_on_turn-Proved w s {p} h = elim (Bool-cases s.is_final) [
    | inl final ↦
        let (w1, signed, e) =
          >>=-eq-ok (sign_final env now w s s.turn_num)
            (λ x. ok (x, has_conclusion_proof env.checks x.channel)) {b = p} (rw final at h) in
        let same : ◌≡◌ {A = World × Bool} (w1, has_conclusion_proof env.checks w1.channel) p =
          ground arith in
        subst Proved same (λ k. k)
    | inr open_still ↦
        let (w1, signed, e) =
          >>=-eq-ok (sign_final env now w s (suc s.turn_num)) (λ x. ok (x, false)) {b = p}
            (rw open_still at h) in
        let same : ◌≡◌ {A = World × Bool} (w1, false) p = ground arith in
        subst Proved same (λ k. absurd (cc))
  ]

  sign_final_state-Proved :
      (w : World) (mine latest : Option HashedState) {p : World × Bool}
      → sign_final_state env now w mine latest ≡ ok p
      → Proved p
  unfolding Proved
  sign_final_state-Proved w none latest {p} h =
      let same : ◌≡◌ {A = World × Bool} (w, false) p = ground arith in
      subst Proved same (λ k. absurd (cc))
  sign_final_state-Proved w (some mine) none {p} h =
      let same : ◌≡◌ {A = World × Bool} (w, false) p = ground arith in
      subst Proved same (λ k. absurd (cc))
  sign_final_state-Proved w (some mine) (some s) {p} h =
      elim (Bool-cases (my_turn env.checks w.channel)) [
        | inl turn ↦ sign_on_turn-Proved w s (rw turn at h)
        | inr theirs ↦
            let e = rw theirs at h in
            let same : ◌≡◌ {A = World × Bool} (w, false) p = ground arith in
            subst Proved same (λ k. absurd (cc))
      ]

  are_all_final_states_signed-Proved :
      (w : World) {p : World × Bool} → are_all_final_states_signed env now w ≡ ok p → Proved p
  unfolding are_all_final_states_signed Proved
  are_all_final_states_signed-Proved w {p} h =
      elim (Bool-cases (has_conclusion_proof env.checks w.channel)) [
        | inl proved ↦
            let e = rw proved at h in
            let same : ◌≡◌ {A = World × Bool} (w, true) p = ground arith in
            subst Proved same (λ k. proved)
        | inr open_still ↦
            sign_final_state-Proved w (latest_signed_by_me w.channel)
              (supported env.checks w.channel) (rw open_still at h)
      ]

  -- The objective has succeeded, and the channel is defunded as the rows say.
  abbrev pub Concluded : World → Type 0
  Concluded w =
      (w.objective ≡ succeeded)
      × (has_conclusion_proof env.checks w.channel ≡ true)
      × Defunded env now w.channel.funding_strategy w

  -- The case of a result that ends the protocol
  abbrev Closes : World → World × ClosingFor → Type 0
  Closes w (w', nothing) = Concluded w' × SameRows w w' × (w'.channel ≡ w.channel)
  Closes w (w', _) = Unit

  -- The rows and the outputs with which the protocol ends
  abbrev finished : World → World
  finished w =
      queue objective_succeeded (queue channel_updated (record w { objective = succeeded }))

  transported :
      (w : World) (strategy : FundingStrategy)
      → Defunded env now strategy w
      → Defunded env now strategy (finished w)
  transported w direct d = d
  transported w ledger d = d
  transported w virtual_ d = d
  transported w fake d = d
  transported w unknown d = d

  after_defunder-Closes :
      (w0 w1 : World) (r : DefunderResult)
      → has_conclusion_proof env.checks w0.channel ≡ true
      → (r.is_channel_defunded ≡ true → Defunded env now w0.channel.funding_strategy w0 × (w1 ≡ w0))
      → Closes w0 (after_defunder env now (w1, r))
  after_defunder-Closes w0 w1 r proved why = elim (Bool-cases r.is_channel_defunded) [
    | inl done ↦
        let (reason, same) = why done in
        rw done (
          subst
            (λ x.
              Concluded (finished x)
              × SameRows w0 (finished x)
              × ((finished x).channel ≡ w0.channel))
            (sym same)
            (
              (refl, proved, transported w0 w0.channel.funding_strategy reason),
              (refl, refl, refl, refl, refl),
              refl,
            ))
    | inr open_still ↦ rw open_still tt
  ]

  after_final_states-Closes :
      (order : List ℕ) (p : World × Bool) {w' : World}
      → Proved p
      → after_final_states env now order p ≡ ok (w', nothing)
      → Concluded w' × SameRows p.0 w' × (w'.channel ≡ p.0.channel)
  unfolding Proved defunder_crank
  after_final_states-Closes order (w, false) proved h = absurd (cc)
  after_final_states-Closes order (w, true) {w'} proved h =
      let ((w1, r), defunded, h1) =
        >>=-eq-ok (defunder_crank env now (close_channel order) w)
          (λ p. ok (after_defunder env now p)) {b = (w', nothing)} h in
      let same : after_defunder env now (w1, r) ≡ (w', nothing) = ground arith in
      subst (Closes w) same (
        after_defunder-Closes w w1 r (proved refl) (λ done.
          defund_by-Defunded env now (close_channel order) w w.channel.funding_strategy defunded
            done))

  SameRows-trans : (a b c : World) → SameRows a b → SameRows b c → SameRows a c
  SameRows-trans a b c (f, r, s, l, q) (f', r', s', l', q') =
      (f' ∙ f, r' ∙ r, s' ∙ s, l' ∙ l, q' ∙ q)

  still-SignsOnce :
      (a b c : World) → SignsOnce env now a b → c.channel ≡ b.channel → SignsOnce env now a c
  still-SignsOnce a b c (inl same) e = inl (e ∙ same)
  still-SignsOnce a b c (inr (vars, (s, signed))) e =
      inr (vars, (s, signed ∙ ap (λ ch. ok (ch, s)) (sym e)))

  ended :
      (m : Result (World × ClosingFor)) {w' : World}
      → or_rolled_back env now m ≡ (ok w', nothing)
      → m ≡ ok (w', nothing)
  ended (ok (x, waits)) h = let rows = ap (λ p. p.0) h in let end = ap (λ p. p.1) h in cc
  ended (err e) h = let rows = ap (λ p. p.0) h in absurd (cc)

  -- A crank that ends the closing protocol, and is not rolled back, leaves the objective succeeded and a channel
  -- that has a conclusion proof and is defunded as its rows say: of a direct one, no funds that the wallet
  -- can claim are left; of one funded by a ledger, the request to defund it has succeeded; of the other
  -- strategies that come so far there is nothing to defund. The channel is the one that the crank found, or
  -- has one more state signed, and all rows but those of the channel and the objective are as they were. A
  -- channel of which an item pays another channel does not end it.
  pub closer_crank-Concluded :
      (order : List ℕ) (w : World) {w' : World}
      → closer_crank env now order w ≡ (ok w', nothing)
      → (all_external env now w.channel ≡ ok true) × Concluded w' × Leaves env now w w'
  unfolding closer_crank closer_body
  closer_crank-Concluded order w {w'} h =
      let h0 = ended (closer_body env now order w) h in
      let (external, read, h1) =
        >>=-eq-ok (all_external env now w.channel) _ {b = (w', nothing)} h0 in
      elim (Bool-cases external) [
        | inl outside ↦
            let (p, signed, h2) =
              >>=-eq-ok (are_all_final_states_signed env now (queue channel_updated w))
                (after_final_states env now order) {b = (w', nothing)} (rw outside at h1) in
            let (concluded, after, channel) =
              after_final_states-Closes order p
                (are_all_final_states_signed-Proved (queue channel_updated w) signed) h2 in
            let (before, signs) =
              are_all_final_states_signed-Leaves env now (queue channel_updated w) signed in
            (
              read ∙ ap ok outside,
              concluded,
              (SameRows-trans w p.0 w' before after, still-SignsOnce w p.0 w' signs channel),
            )
        | inr inside ↦ let e = rw inside at h1 in absurd (cc)
      ]
