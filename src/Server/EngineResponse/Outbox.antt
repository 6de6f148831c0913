-- ===== src/Server/EngineResponse/Outbox.antt =====
-- packages/server-wallet/src/engine/engine-response.ts: the outbox, in which what is merged is merged
-- again.
use statechannels.Common.{
  ℕ, ◌≡◌, refl, ap, All, sym, subst, ◌∙◌, Bool, true, List, [], ◌∷◌, ◌==◌, ◌⊎◌, inl, inr, any, all,
  Bool-cases, and_left, arith,
}
use statechannels.Common.Results.{ok, err, different_senders, ◌>>=◌}
use statechannels.Server.EngineResponse.{Contents, Message, sent_to, merge_outgoing, outbox}
use statechannels.Server.EngineResponse.Values.{Sound}
use statechannels.Server.EngineResponse.Merging.{
  Merges, DifferentSenders, sent_by, merge_outgoing-Merges,
}

module _ {S R O : Type 0} where
  pick :
      (P : Message S R O → Type 0) (p q : Message S R O → Bool) (ms : List (Message S R O))
      → All P ms
      → all q ms ≡ true
      → any p ms ≡ true
      → (m : Message S R O) × P m × (q m ≡ true) × (p m ≡ true)
  pick P p q [] h k e = absurd (cc)
  pick P p q (m ∷ ms) (h, hs) k e = elim (Bool-cases (p m)) [
    | inl here ↦ (m, h, ground arith, here)
    | inr later ↦ pick P p q ms hs (ground arith) (ground arith)
  ]

  All-implies :
      (P Q : Message S R O → Type 0) (ms : List (Message S R O))
      → ((m : Message S R O) → P m → Q m)
      → All P ms
      → All Q ms
  All-implies P Q [] f h = tt
  All-implies P Q (m ∷ ms) f (h, hs) = (f m h, All-implies P Q ms f hs)

  -- The senders of messages merged twice
  twice_one_sender :
      (ms mid out : List (Message S R O))
      → Merges ms mid
      → Merges mid out
      → All (λ (o : Message S R O). all (sent_by o.sender) ms ≡ true) out
  twice_one_sender ms mid [] first second = tt
  twice_one_sender ms mid (o ∷ os) (once, to, senders, d, e, f) (once', to', senders', d', e', f') =
      let here : any (sent_to o.recipient) (o ∷ os) ≡ true = ground arith in
      let reached = sym (to' o.recipient) ∙ here in
      All-implies (λ x. all (sent_by x.sender) mid ≡ true) (λ x. all (sent_by x.sender) ms ≡ true)
        (o ∷ os)
        (λ x h.
          let (m, of_all, same, _) =
            pick (λ y. all (sent_by y.sender) ms ≡ true) (sent_to o.recipient) (sent_by x.sender)
              mid senders h reached in
          let e : m.sender ≡ x.sender = ground arith in
          subst (λ a. all (sent_by a) ms ≡ true) e of_all)
        senders'

  Merges-trans :
      (ms mid out : List (Message S R O)) → Merges ms mid → Merges mid out → Merges ms out
  Merges-trans ms mid out (a, b, c, d, e, f) (a', b', c', d', e', f') = (
    a',
    λ r. b' r ∙ b r,
    twice_one_sender ms mid out (a, b, c, d, e, f) (a', b', c', d', e', f'),
    λ r p. d' r p ∙ d r p,
    λ r p. e' r p ∙ e r p,
    λ r p. f' r p ∙ f r p,
  )

  found :
      (P : Message S R O → Type 0) (p : Message S R O → Bool) (ms : List (Message S R O))
      → All P ms
      → any p ms ≡ true
      → (m : Message S R O) × P m × (p m ≡ true)
  found P p [] h e = absurd (cc)
  found P p (m ∷ ms) (h, hs) e = elim (Bool-cases (p m)) [
    | inl here ↦ (m, h, here)
    | inr later ↦ found P p ms hs (ground arith)
  ]

  the_sender :
      (m : Message S R O) (ms mid : List (Message S R O)) (a : ℕ)
      → Merges (m ∷ ms) mid
      → any (sent_by a) mid ≡ true
      → m.sender ≡ a
  the_sender m ms mid a (once, to, senders, d, e, f) h =
      let (n, of_all, here) =
        found (λ y. all (sent_by y.sender) (m ∷ ms) ≡ true) (sent_by a) mid senders h in
      let first = and_left (m.sender == n.sender) _ of_all in ground arith

  module _ (c : Contents S R O) (sound_states : Sound c.of_state.same)
      (sound_requests : Sound c.of_request.same)
      (sound_objectives : Sound c.of_objective.same) where
    -- The messages that are queued are merged, twice, into one for each recipient, from their sender, and no
    -- recipient gains or loses a state, a request or an objective by it; or two of them have different
    -- senders, and the merge fails. It is taken that the test of equality says `true` of equal values only.
    pub outbox-Merges :
        (ms : List (Message S R O))
        → ((out : List (Message S R O)) × (outbox c ms ≡ ok out) × Merges ms out)
          ⊎ ((outbox c ms ≡ err different_senders) × DifferentSenders ms)
    unfolding merge_outgoing
    outbox-Merges [] =
        inl ([], refl, (refl, (λ r. refl), tt, (λ r p. refl), (λ r p. refl), λ r p. refl))
    outbox-Merges (m ∷ ms) =
        elim (merge_outgoing-Merges c sound_states sound_requests sound_objectives (m ∷ ms)) [
          | inr (failed, d) ↦ inr (ap (λ r. r >>= merge_outgoing c) failed, d)
          | inl (mid, first, k) ↦
              elim (merge_outgoing-Merges c sound_states sound_requests sound_objectives mid) [
                | inr (failed, (a, b, other, one, two)) ↦
                    absurd (other (sym (the_sender m ms mid a k one) ∙ the_sender m ms mid b k two))
                | inl (out, second, k') ↦ inl (
                  out,
                  ap (λ r. r >>= merge_outgoing c) first ∙ second,
                  Merges-trans (m ∷ ms) mid out k k',
                )
              ]
        ]
