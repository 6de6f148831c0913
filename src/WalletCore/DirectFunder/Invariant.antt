-- ===== src/WalletCore/DirectFunder/Invariant.antt =====
-- `initialize` and `openChannelCranker` of packages/wallet-core/src/protocols/direct-funder.ts, and the
-- validity of the objective.
use statechannels.Common.{
  ℕ, ◌≡◌, refl, ap, ap₂, subst, ◌∙◌, Bool, true, not, Option, some, none, List, [], ◌∷◌, ◌==◌,
  get_elem?, includes, arith, Bool-cases, inl, inr, ◌⊎◌,
}
use statechannels.Common.Counting.{IsSubset}
use statechannels.Common.Results.{
  ok, err, Error, type_error, >>=-eq-ok, or_throw, throw_if, unexpected_turn_num, unexpected_index,
}
use statechannels.WalletCore.Types.{
  Outcome, simple_allocation, mixed_allocation, simple_guarantee, Participant, State,
  SignatureEntry, SignedState,
}
use statechannels.WalletCore.DirectFunder.{
  Crypto, initialize, initial_signatures, new_objective, Steps, pre_fund_setup, post_fund_setup,
  approval, their_pre_fund_setup, FundingMilestone, Objective, Event, crank, approval_given,
  unexpected, states_received, funding_updated, deposit_submitted, Action, signers,
  funding_milestone, signed_by_me, completed,
}
use statechannels.WalletCore.DirectFunder.Cranker.{
  addresses, Processed, continues, returns, throws, hashed, after_event, receive, process_event,
  sign_state_action, ensure_signed, crank_post_fund, crank_funding, crank_approved, transition,
  open_channel_cranker,
}
use statechannels.WalletCore.DirectFunder.Cases.{
  receive_cases, ensure_signed_cases, crank_post_fund_cases, crank_funding_cases,
}
use statechannels.WalletCore.DirectFunder.Validity.{
  SignedBy, IsValid, merge-SignedBy, participant-includes, no_outsider, merge-IsValid,
}

-- What the processing of an event hands on.
abbrev Keeps : Processed → Type 0
Keeps (continues o) = IsValid o
Keeps (returns o _) = IsValid o
Keeps (throws _) = Unit

module _ (crypto : Crypto) where
  receive-Keeps : (o : Objective) (s : SignedState) → IsValid o → Keeps (receive crypto o s)
  receive-Keeps o s v =
      receive_cases crypto Keeps o s (λ e h. tt) (λ outsider. v)
        (λ all_in.
          merge-IsValid o pre_fund_setup s.signatures v (no_outsider o s.signatures all_in))
        (λ all_in.
          merge-IsValid o post_fund_setup s.signatures v (no_outsider o s.signatures all_in))
        (λ hash. v)

  process_event-Keeps : (o : Objective) (e : Event) → IsValid o → Keeps (process_event crypto o e)
  unfolding process_event
  process_event-Keeps o crank v = v
  process_event-Keeps o approval_given v = v
  process_event-Keeps o (deposit_submitted tx attempts at) v = v
  process_event-Keeps o (funding_updated amount finalized) v = v
  process_event-Keeps o (states_received []) v = v
  process_event-Keeps o (states_received (s ∷ _)) v = receive-Keeps o s v
  process_event-Keeps o unexpected v = v

  ensure_signed-IsValid :
      (step : Steps) (key : ℕ) (me : Participant) (o : Objective) (actions : List Action)
      → IsValid o
      → get_elem? o.opening_state.participants o.my_index ≡ some me
      → IsValid (ensure_signed crypto step key me (o, actions)).0
  unfolding ensure_signed sign_state_action
  ensure_signed-IsValid step key me o actions v at =
      elim (Bool-cases (signed_by_me o step me.signing_address)) [
        | inl already ↦ rw already v
        | inr missing ↦ rw missing (
            merge-IsValid o step (_ ∷ []) v λ a e.
              subst (λ b. includes b (addresses o.opening_state.participants) ≡ true) (ground arith)
                (participant-includes o.opening_state.participants o.my_index at))
      ]

  crank_post_fund-IsValid :
      (key : ℕ) (me : Participant) (o : Objective) (actions : List Action)
      → IsValid o
      → get_elem? o.opening_state.participants o.my_index ≡ some me
      → IsValid (crank_post_fund crypto key me (o, actions)).0
  crank_post_fund-IsValid key me o actions v at =
      let w = ensure_signed-IsValid post_fund_setup key me o actions v at in
      crank_post_fund_cases crypto key me (λ r. IsValid r.0) (o, actions) (λ _. w) (λ _. w)

  crank_funding-IsValid :
      (key now : ℕ) (me : Participant) (m : FundingMilestone) (o : Objective)
      (actions : List Action)
      → IsValid o
      → get_elem? o.opening_state.participants o.my_index ≡ some me
      → IsValid (crank_funding crypto key now me m (o, actions)).0
  crank_funding-IsValid key now me m o actions v at =
      crank_funding_cases crypto key me (λ r. IsValid r.0) now m o actions
        (λ _. crank_post_fund-IsValid key me o actions v at) (λ _. v) (λ _. v) (λ _ _ _. v)
        (λ _ _ _. v) (λ _ _. v)

  -- `ensure_signed` changes signatures only.
  ensure_signed_keeps :
      (step : Steps) (key : ℕ) (me : Participant) (o : Objective) (actions : List Action)
      → let p = (ensure_signed crypto step key me (o, actions)).0 in
        (p.opening_state ≡ o.opening_state) × (p.my_index ≡ o.my_index)
  unfolding sign_state_action
  ensure_signed_keeps step key me o actions =
      ensure_signed_cases crypto key me
        (λ r. (r.0.opening_state ≡ o.opening_state) × (r.0.my_index ≡ o.my_index)) step o actions
        (λ _. (refl, refl)) (λ _. kept step)
    where
      kept :
          (step : Steps)
          → let p = (sign_state_action crypto step key me (o, actions)).0 in
            (p.opening_state ≡ o.opening_state) × (p.my_index ≡ o.my_index)
      kept pre_fund_setup = (refl, refl)
      kept post_fund_setup = (refl, refl)

  crank_approved_total :
      (key now : ℕ) (me : Participant) (o : Objective) (m : FundingMilestone)
      → IsValid o
      → get_elem? o.opening_state.participants o.my_index ≡ some me
      → funding_milestone o.opening_state me.destination ≡ ok m
      → (r : Objective × List Action) × (crank_approved crypto key now me o ≡ ok r) × IsValid r.0
  unfolding crank_approved
  crank_approved_total key now me o m v at em =
      let (p, actions) = ensure_signed crypto pre_fund_setup key me (o, []) in
      let w = ensure_signed-IsValid pre_fund_setup key me o [] v at in
      let (same_state, same_index) = ensure_signed_keeps pre_fund_setup key me o [] in
      let at' : get_elem? p.opening_state.participants p.my_index ≡ some me =
        ap₂ (λ s i. get_elem? s.participants i) same_state same_index ∙ at in
      let em' : funding_milestone p.opening_state me.destination ≡ ok m =
        ap (λ s. funding_milestone s me.destination) same_state ∙ em in
      elim (Bool-cases (completed p pre_fund_setup)) [
        | inr partial ↦ ((record p { status = their_pre_fund_setup }, actions), rw partial, w)
        | inl complete ↦ (
          crank_funding crypto key now me m (p, actions),
          rw (complete, em'),
          crank_funding-IsValid key now me m p actions w at',
        )
      ]

  transition_total :
      (key now : ℕ) (o : Objective)
      → IsValid o
      → (r : Objective × List Action) × (transition crypto key now o ≡ ok r) × IsValid r.0
  unfolding transition
  transition_total key now o v =
      let (r, e, w) =
        crank_approved_total key now v.me o v.milestone v v.at_my_index v.has_milestone in
      elim (Bool-cases o.approved) [
        | inr unapproved ↦ ((record o { status = approval }, []), ground arith, v)
        | inl approved ↦ (r, ground (arith, v.at_my_index), w)
      ]

  -- A received state without a hash: the first of those received has a mixed allocation of nothing.
  abbrev pub HasNoHash : Event → Type 0
  HasNoHash (states_received (s ∷ _)) = s.outcome ≡ mixed_allocation []
  HasNoHash _ = ⊥

  -- The case of what is processed of an event
  abbrev Throws : Event → Processed → Type 0
  Throws event (throws e) = (e ≡ type_error) × HasNoHash event
  Throws event _ = Unit

  hashed-fails :
      (s : State) (o : Outcome) {e : Error}
      → hashed crypto s o ≡ err e
      → (e ≡ type_error) × (o ≡ mixed_allocation [])
  hashed-fails s (simple_allocation a) h = absurd (cc)
  hashed-fails s (simple_guarantee g) h = absurd (cc)
  hashed-fails s (mixed_allocation []) h = (ground arith, refl)
  hashed-fails s (mixed_allocation (a ∷ as_)) h = absurd (cc)

  process_event-Throws : (o : Objective) (e : Event) → Throws e (process_event crypto o e)
  unfolding process_event
  process_event-Throws o crank = tt
  process_event-Throws o approval_given = tt
  process_event-Throws o (deposit_submitted tx attempts at) = tt
  process_event-Throws o (funding_updated amount finalized) = tt
  process_event-Throws o (states_received []) = tt
  process_event-Throws o (states_received (s ∷ ss)) =
      receive_cases crypto (Throws (states_received (s ∷ ss))) o s
        (λ e h. hashed-fails s.state s.outcome h) (λ outsider. tt) (λ _. tt) (λ _. tt) (λ hash. tt)
  process_event-Throws o unexpected = tt

  -- On a valid objective the cranker returns a valid objective, whatever the event; or it throws, and
  -- then the event is received states of which the first has a mixed allocation of nothing as its
  -- outcome.
  pub open_channel_cranker-IsValid :
      (o : Objective) (event : Event) (now key : ℕ)
      → IsValid o
      → ((r : Objective × List Action) × (open_channel_cranker crypto o event now key ≡ ok r)
          × IsValid r.0)
        ⊎ ((open_channel_cranker crypto o event now key ≡ err type_error) × HasNoHash event)
  unfolding open_channel_cranker
  open_channel_cranker-IsValid o event now key v =
      by_processed (process_event crypto o event) (process_event-Keeps o event v)
        (process_event-Throws o event)
    where
      by_processed :
          (p : Processed)
          → Keeps p
          → Throws event p
          → ((r : Objective × List Action) × (after_event crypto key now p ≡ ok r) × IsValid r.0)
            ⊎ ((after_event crypto key now p ≡ err type_error) × HasNoHash event)
      by_processed (continues q) w t = inl (transition_total key now q w)
      by_processed (returns q actions) w t = inl ((q, actions), refl, w)
      by_processed (throws e) w (is, no_hash) = inr (ap err is, no_hash)

  initial-SignedBy :
      (ps : List Participant) (signed : Option (List SignatureEntry))
      → ((es : List SignatureEntry) → signed ≡ some es → IsSubset (signers es) (addresses ps))
      → SignedBy ps (initial_signatures signed)
  initial-SignedBy ps none inside = record { ascending = tt; participants = λ a e. absurd (cc) }
  initial-SignedBy ps (some es) inside =
      merge-SignedBy ps [] es (record { ascending = tt; participants = λ a e. absurd (cc) })
        (inside es refl)

  -- An objective is valid from the start, if a signed opening state is signed by participants only.
  pub initialize-IsValid :
      (opening : State) (signed : Option (List SignatureEntry)) (my_index : ℕ) (approved : Bool)
      {o : Objective}
      → ((es : List SignatureEntry)
          → signed ≡ some es
          → IsSubset (signers es) (addresses opening.participants))
      → initialize crypto opening signed my_index approved ≡ ok o
      → IsValid o
  unfolding initialize
  initialize-IsValid opening signed my_index approved {o} inside e =
      let new = new_objective crypto opening (initial_signatures signed) my_index approved in
      let (_, first, e₁) =
        >>=-eq-ok (throw_if (not (opening.turn_num == 0)) unexpected_turn_num) _ {b = o} e in
      let (me, at, e₂) =
        >>=-eq-ok (or_throw (get_elem? opening.participants my_index) unexpected_index) _ {b = o}
          e₁ in
      let (m, em, made) = >>=-eq-ok (funding_milestone opening me.destination) _ {b = o} e₂ in
      let same : new ≡ o = cc made in
      subst IsValid same (record {
        me = me;
        at_my_index = ground (arith, at);
        milestone = m;
        has_milestone = em;
        pre_signed = initial-SignedBy opening.participants signed inside;
        post_signed = record { ascending = tt; participants = λ a e. absurd (cc) };
      })
