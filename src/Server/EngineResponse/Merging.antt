-- ===== src/Server/EngineResponse/Merging.antt =====
-- packages/server-wallet/src/engine/engine-response.ts: what `mergeOutgoing` keeps.
use statechannels.Common.{
  ℕ, ◌≡◌, ◌≢◌, refl, ap, ap₂, All, ◌∙◌, Bool, true, false, List, [], ◌∷◌, map, ◌&&◌, ◌||◌, ◌==◌,
  ◌⊎◌, inl, inr, includes, any, all, Bool-cases, arith,
}
use statechannels.Common.Results.{ok, err, different_senders}
use statechannels.Server.EngineResponse.{
  Content, Contents, Message, unique_and_sorted, or_empty, unless_empty, states_in, requests_in,
  objectives_in, sent_to, recipients, part_sent, merged, merge_outgoing,
}
use statechannels.Server.Store.{repeats}
use statechannels.Server.EngineResponse.Values.{
  Sound, any-append, any-unique_and_sorted, repeats-uniq, or_absorbs, any-uniq_with,
}

module _ {S R O : Type 0} where
  includes-map :
      (r : ℕ) (ms : List (Message S R O))
      → any (λ x. x == r) (map (λ (m : Message S R O). m.recipient) ms) ≡ any (sent_to r) ms
  includes-map r [] = refl
  includes-map r (m ∷ ms) = ap (λ b. m.recipient == r || b) (includes-map r ms)

  is_sent : (r : ℕ) (ms : List (Message S R O)) → includes r (recipients ms) ≡ any (sent_to r) ms
  is_sent r ms =
      let sound : Sound (λ (a b : ℕ). a == b) = λ a b e. ground arith in
      let e =
        any-uniq_with (λ a b. a == b) (λ x. x == r) [] (map (λ (m : Message S R O). m.recipient) ms)
          sound in
      let f = includes-map r ms in ground arith

  unsent :
      {T : Type 0} (part : Message S R O → List T) (r : ℕ) (ms : List (Message S R O))
      → any (sent_to r) ms ≡ false
      → part_sent part r ms ≡ []
  unsent part r [] h = refl
  unsent part r (m ∷ ms) h = let rest = unsent part r ms in ground arith

  -- What a recipient gets of messages that are one for each of some recipients
  any-sent-map :
      {T : Type 0} (part : Message S R O → List T) (p : T → Bool) (make : ℕ → Message S R O) (r : ℕ)
      (rs : List ℕ)
      → ((q : ℕ) → (make q).recipient ≡ q)
      → any p (part_sent part r (map make rs)) ≡ includes r rs && any p (part (make r))
  any-sent-map part p make r [] h = refl
  any-sent-map part p make r (q ∷ rs) h =
      let rest = any-sent-map part p make r rs h in
      elim (Bool-cases (q == r)) [
        | inl here ↦
            let mine : ((make q).recipient == r) ≡ true = rw (h q) here in
            let e : q ≡ r = ground arith in
            rw (mine, here, any-append, rest, e)
              (or_absorbs (any p (part (make r))) (includes r rs))
        | inr other ↦
            let others : ((make q).recipient == r) ≡ false = rw (h q) other in
            rw (others, other) rest
      ]

  any-sent-unsent :
      {T : Type 0} (part : Message S R O → List T) (p : T → Bool) (r : ℕ)
      (ms : List (Message S R O))
      → any (sent_to r) ms && any p (part_sent part r ms) ≡ any p (part_sent part r ms)
  any-sent-unsent part p r ms = elim (Bool-cases (any (sent_to r) ms)) [
    | inl some_ ↦ rw some_ refl
    | inr nothing ↦ rw (nothing, unsent part r ms nothing) refl
  ]

  -- What is merged of one kind is what was sent of it.
  any-sent-merged :
      {T : Type 0} (part : Message S R O → List T) (k : Content T) (p : T → Bool)
      (make : ℕ → Message S R O) (r : ℕ) (ms : List (Message S R O))
      → Sound k.same
      → ((q : ℕ) → (make q).recipient ≡ q)
      → part (make r) ≡ or_empty (unless_empty (unique_and_sorted k (part_sent part r ms)))
      → any p (part_sent part r (map make (recipients ms))) ≡ any p (part_sent part r ms)
  any-sent-merged part k p make r ms sound h e =
      rw
        (
          any-sent-map part p make r (recipients ms) h,
          is_sent r ms,
          e,
          any-unique_and_sorted k p (part_sent part r ms) sound,
        )
        (any-sent-unsent part p r ms)

  abbrev pub sent_by : ℕ → Message S R O → Bool
  sent_by a m = m.sender == a

  -- One message for each recipient of some messages, from their one sender, and of each kind
  -- what the recipient was sent: every test finds a value in both or in neither
  abbrev pub Merges : List (Message S R O) → List (Message S R O) → Type 0
  Merges ms out =
      (repeats (map (λ (o : Message S R O). o.recipient) out) ≡ false)
      × ((r : ℕ) → any (sent_to r) out ≡ any (sent_to r) ms)
      × All (λ (o : Message S R O). all (sent_by o.sender) ms ≡ true) out
      × ((r : ℕ) (p : S → Bool)
          → any p (part_sent states_in r out) ≡ any p (part_sent states_in r ms))
      × ((r : ℕ) (p : R → Bool)
          → any p (part_sent requests_in r out) ≡ any p (part_sent requests_in r ms))
      × ((r : ℕ) (p : O → Bool)
          → any p (part_sent objectives_in r out) ≡ any p (part_sent objectives_in r ms))

  abbrev pub DifferentSenders : List (Message S R O) → Type 0
  DifferentSenders ms =
      (a : ℕ) × (b : ℕ) × (a ≢ b) × (any (sent_by a) ms ≡ true) × (any (sent_by b) ms ≡ true)

  another_sender :
      (a : ℕ) (ms : List (Message S R O))
      → all (sent_by a) ms ≡ false
      → (b : ℕ) × (a ≢ b) × (any (sent_by b) ms ≡ true)
  another_sender a [] h = absurd (cc)
  another_sender a (m ∷ ms) h = elim (Bool-cases (m.sender == a)) [
    | inl same ↦
        let (b, other, found) = another_sender a ms (rw same at h) in (b, other, ground arith)
    | inr other ↦ (m.sender, (λ e. ground arith), ground arith)
  ]

  map-recipient :
      (make : ℕ → Message S R O) (rs : List ℕ)
      → ((q : ℕ) → (make q).recipient ≡ q)
      → map (λ (o : Message S R O). o.recipient) (map make rs) ≡ rs
  map-recipient make [] h = refl
  map-recipient make (r ∷ rs) h = ap₂ (λ x xs. x ∷ xs) (h r) (map-recipient make rs h)

  All-made :
      (P : Message S R O → Type 0) (make : ℕ → Message S R O) (rs : List ℕ)
      → ((q : ℕ) → P (make q))
      → All P (map make rs)
  All-made P make [] h = tt
  All-made P make (r ∷ rs) h = (h r, All-made P make rs h)

  any-sent_to-map :
      (make : ℕ → Message S R O) (r : ℕ) (rs : List ℕ)
      → ((q : ℕ) → (make q).recipient ≡ q)
      → any (sent_to r) (map make rs) ≡ includes r rs
  any-sent_to-map make r [] h = refl
  any-sent_to-map make r (q ∷ rs) h = rw (h q, any-sent_to-map make r rs h) refl

  module _ (c : Contents S R O) (sound_states : Sound c.of_state.same)
      (sound_requests : Sound c.of_request.same)
      (sound_objectives : Sound c.of_objective.same) where
    merged-Merges :
        (from : ℕ) (ms : List (Message S R O))
        → all (sent_by from) ms ≡ true
        → Merges ms (map (merged c from ms) (recipients ms))
    merged-Merges from ms one =
        let make = merged c from ms in
        (
          rw (map-recipient make (recipients ms) (λ q. refl))
              (repeats-uniq [] (map (λ (m : Message S R O). m.recipient) ms)),
          λ r. any-sent_to-map make r (recipients ms) (λ q. refl) ∙ is_sent r ms,
          All-made (λ o. all (sent_by o.sender) ms ≡ true) make (recipients ms) (λ q. one),
          λ r p. any-sent-merged states_in c.of_state p make r ms sound_states (λ q. refl) refl,
          λ r p.
              any-sent-merged requests_in c.of_request p make r ms sound_requests (λ q. refl) refl,
          λ r p.
              any-sent-merged objectives_in c.of_objective p make r ms sound_objectives (λ q. refl)
                refl,
        )

    pub merge_outgoing-Merges :
        (ms : List (Message S R O))
        → ((out : List (Message S R O)) × (merge_outgoing c ms ≡ ok out) × Merges ms out)
          ⊎ ((merge_outgoing c ms ≡ err different_senders) × DifferentSenders ms)
    unfolding merge_outgoing
    merge_outgoing-Merges [] =
        inl ([], refl, (refl, (λ r. refl), tt, (λ r p. refl), (λ r p. refl), λ r p. refl))
    merge_outgoing-Merges (m ∷ ms) = elim (Bool-cases (all (sent_by m.sender) ms)) [
      | inl one ↦
          let whole : all (sent_by m.sender) (m ∷ ms) ≡ true = ground arith in
          inl (
            map (merged c m.sender (m ∷ ms)) (recipients (m ∷ ms)),
            rw one refl,
            merged-Merges m.sender (m ∷ ms) whole,
          )
      | inr several ↦
          let (b, other, found) = another_sender m.sender ms several in
          inr (rw several refl, (m.sender, b, other, ground arith, ground arith))
    ]
