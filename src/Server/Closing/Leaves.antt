-- ===== src/Server/Closing/Leaves.antt =====
-- packages/server-wallet/src/protocols/channel-closer.ts: what signing the final states leaves of the rows.
use statechannels.Common.{
  ℕ, suc, ◌≡◌, refl, subst, true, false, Bool, Option, none, some, inl, inr, Bool-cases, arith,
}
use statechannels.Common.Results.{Result, ok, >>=-eq-ok}
use statechannels.Server.Channel.{HashedState, supported, has_conclusion_proof}
use statechannels.Server.Channel.Queries.{latest_signed_by_me, my_turn}
use statechannels.Server.Store.{Env}
use statechannels.Server.Database.{World}
use statechannels.Server.Opening.Signed.{SameRows, SignsOnce, sign_and_send-SameRows}
use statechannels.Server.Closing.{
  sign_final, sign_on_turn, sign_final_state, are_all_final_states_signed,
}

module _ (env : Env) (now : ℕ) where
  -- Signing the final states leaves the other rows, and signs at most one state of the channel.
  abbrev pub Leaves : World → World → Type 0
  Leaves w w' = SameRows w w' × SignsOnce env now w w'

  sign_final-Leaves :
      (w : World) (s : HashedState) (turn : ℕ) {w' : World}
      → sign_final env now w s turn ≡ ok w'
      → Leaves w w'
  sign_final-Leaves w s turn {w'} h =
      let vars = record s.vars { turn_num = turn; is_final = true } in
      let (rows, signed) = sign_and_send-SameRows env now w vars h in (rows, inr (vars, signed))

  sign_on_turn-Leaves :
      (w : World) (s : HashedState) {p : World × Bool}
      → sign_on_turn env now w s ≡ ok p
      → Leaves w p.0
  sign_on_turn-Leaves w s {p} h = elim (Bool-cases s.is_final) [
    | inl final ↦
        let (w1, signed, e) =
          >>=-eq-ok (sign_final env now w s s.turn_num)
            (λ x. ok (x, has_conclusion_proof env.checks x.channel)) {b = p} (rw final at h) in
        let same : ◌≡◌ {A = World × Bool} (w1, has_conclusion_proof env.checks w1.channel) p =
          ground arith in
        subst (λ q. Leaves w q.0) same (sign_final-Leaves w s s.turn_num signed)
    | inr open_still ↦
        let (w1, signed, e) =
          >>=-eq-ok (sign_final env now w s (suc s.turn_num)) (λ x. ok (x, false)) {b = p}
            (rw open_still at h) in
        let same : ◌≡◌ {A = World × Bool} (w1, false) p = ground arith in
        subst (λ q. Leaves w q.0) same (sign_final-Leaves w s (suc s.turn_num) signed)
  ]

  unsigned-Leaves :
      (w : World) (b : Bool) {p : World × Bool}
      → ◌≡◌ {A = Result (World × Bool)} (ok (w, b)) (ok p)
      → Leaves w p.0
  unsigned-Leaves w b {p} h =
      let same : ◌≡◌ {A = World × Bool} (w, b) p = cc in
      subst (λ q. Leaves w q.0) same ((refl, refl, refl, refl, refl), inl refl)

  sign_final_state-Leaves :
      (w : World) (mine latest : Option HashedState) {p : World × Bool}
      → sign_final_state env now w mine latest ≡ ok p
      → Leaves w p.0
  sign_final_state-Leaves w none latest h = unsigned-Leaves w false h
  sign_final_state-Leaves w (some mine) none h = unsigned-Leaves w false h
  sign_final_state-Leaves w (some mine) (some s) {p} h =
      elim (Bool-cases (my_turn env.checks w.channel)) [
        | inl turn ↦ sign_on_turn-Leaves w s (rw turn at h)
        | inr theirs ↦ unsigned-Leaves w false (rw theirs at h)
      ]

  pub are_all_final_states_signed-Leaves :
      (w : World) {p : World × Bool} → are_all_final_states_signed env now w ≡ ok p → Leaves w p.0
  unfolding are_all_final_states_signed
  are_all_final_states_signed-Leaves w {p} h =
      elim (Bool-cases (has_conclusion_proof env.checks w.channel)) [
        | inl proved ↦ unsigned-Leaves w true (rw proved at h)
        | inr open_still ↦
            sign_final_state-Leaves w (latest_signed_by_me w.channel)
              (supported env.checks w.channel) (rw open_still at h)
      ]
