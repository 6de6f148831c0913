-- ===== src/WalletCore/DirectFunder/Safety.antt =====
-- packages/wallet-core/src/protocols/direct-funder.ts: when the cranker declares which action.
use statechannels.Common.{
  ℕ, ◌≡◌, refl, ap₂, ◌∙◌, subst, get_elem?, true, ◌⊎◌, inl, inr, some, none, List, [], ◌∷◌, ◌++◌,
  All,
}
use statechannels.Common.Int.{pos, ◌-ℤ◌, ◌≤ℤ◌}
use statechannels.Common.Results.{ok}
use statechannels.WalletCore.Types.{Participant, State, SignedState}
use statechannels.WalletCore.DirectFunder.{
  Crypto, error, success, their_pre_fund_setup, safe_to_deposit, channel_funded,
  their_post_fund_state, pre_fund_setup, post_fund_setup, FundingMilestone, Objective, Event, crank,
  approval_given, unexpected, states_received, funding_updated, deposit_submitted, Action,
  send_states, deposit, handle_error, setup_state, funding_milestone, completed,
}
use statechannels.WalletCore.DirectFunder.Cranker.{
  throws, Processed, continues, returns, process_event, receive, add_state, sign_state_action,
  ensure_signed, crank_post_fund, crank_funding, crank_approved, open_channel_cranker,
}
use statechannels.WalletCore.DirectFunder.Cases.{
  receive_cases, Funded, ensure_signed_cases, crank_post_fund_cases, crank_funding_cases,
  crank_approved_cases, transition_cases, open_channel_cranker_cases,
}

-- My milestones in an objective.
abbrev pub MyMilestone : Objective → FundingMilestone → Type 0
MyMilestone o m =
    (me : Participant) × (get_elem? o.opening_state.participants o.my_index ≡ some me)
    × (funding_milestone o.opening_state me.destination ≡ ok m)

-- The pre-fund setup is complete, and the channel holds its whole allocation for good.
abbrev pub PostReady : Objective → Type 0
PostReady o =
    (completed o pre_fund_setup ≡ true)
    × ((m : FundingMilestone) × MyMilestone o m × Funded m o.funding)

-- The state is the pre-fund setup, or the post-fund setup where that is ready.
abbrev pub Sendable : State → Type 0 → SignedState → Type 0
Sendable opening Ready s =
    (s.state ≡ setup_state opening pre_fund_setup)
    ⊎ ((s.state ≡ setup_state opening post_fund_setup) × Ready)

-- What an action rests on, in the objective that is returned with it.
abbrev pub Justified : Objective → Action → Type 0
Justified o (send_states states) =
    (o.approved ≡ true) × All (Sendable o.opening_state (PostReady o)) states
Justified o (deposit a) =
    (o.approved ≡ true)
    × (completed o pre_fund_setup ≡ true)
    × (o.funding_request ≡ none)
    × ((m : FundingMilestone) × MyMilestone o m
        × (m.target_before ≤ℤ o.funding.amount)
        × (a ≡ m.target_after -ℤ o.funding.amount)
        × (pos 1 ≤ℤ a))
Justified o (handle_error e) = o.status ≡ error

-- The actions so far only send states.
abbrev pub Sends : State → Type 0 → Action → Type 0
Sends opening Ready (send_states states) = All (Sendable opening Ready) states
Sends opening Ready (deposit a) = ⊥
Sends opening Ready (handle_error e) = ⊥

Sends-Justified :
    (o : Objective) (actions : List Action)
    → o.approved ≡ true
    → All (Sends o.opening_state (PostReady o)) actions
    → All (Justified o) actions
Sends-Justified o [] h k = tt
Sends-Justified o (send_states states ∷ rest) h k = ((h, k.0), Sends-Justified o rest h k.1)
Sends-Justified o (deposit a ∷ rest) h k = absurd k.0
Sends-Justified o (handle_error e ∷ rest) h k = absurd k.0

All-append {ℓ κ} :
    {A : Type ℓ} (P : A → Type κ) (xs ys : List A) → All P xs → All P ys → All P (xs ++ ys)
All-append P [] ys h k = k
All-append P (x ∷ xs) ys h k = (h.0, All-append P xs ys h.1 k)

add_state-Sends :
    (opening : State) (Ready : Type 0) (s : SignedState) (actions : List Action)
    → Sendable opening Ready s
    → All (Sends opening Ready) actions
    → All (Sends opening Ready) (add_state s actions)
unfolding add_state
add_state-Sends opening Ready s [] h k = ((h, tt), tt)
add_state-Sends opening Ready s (send_states states ∷ rest) h k =
    (All-append (Sendable opening Ready) states (s ∷ []) k.0 (h, tt), k.1)
add_state-Sends opening Ready s (deposit a ∷ rest) h k = absurd k.0
add_state-Sends opening Ready s (handle_error e ∷ rest) h k = absurd k.0

module _ (crypto : Crypto) (key : ℕ) (me : Participant) where
  -- What signing the pre-fund setup hands on.
  pub pre_signed :
      (o : Objective) (Ready : Type 0)
      → let (p, actions) = ensure_signed crypto pre_fund_setup key me (o, []) in
        (p.approved ≡ o.approved)
        × (p.opening_state ≡ o.opening_state)
        × (p.my_index ≡ o.my_index)
        × All (Sends p.opening_state Ready) actions
  unfolding sign_state_action
  pre_signed o Ready =
      ensure_signed_cases crypto key me
        (λ r.
          (r.0.approved ≡ o.approved)
          × (r.0.opening_state ≡ o.opening_state)
          × (r.0.my_index ≡ o.my_index)
          × All (Sends r.0.opening_state Ready) r.1)
        pre_fund_setup o [] (λ _. (refl, refl, refl, tt))
        (λ _. (refl, refl, refl, add_state-Sends o.opening_state Ready _ [] (inl refl) tt))

  -- What signing the post-fund setup hands on.
  post_signed :
      (o : Objective) (actions : List Action)
      → o.approved ≡ true
      → PostReady o
      → All (Sends o.opening_state (PostReady o)) actions
      → let (p, actions) = ensure_signed crypto post_fund_setup key me (o, actions) in
        (p.approved ≡ true) × PostReady p × All (Sends p.opening_state (PostReady p)) actions
  unfolding sign_state_action completed
  post_signed o actions h ready k =
      ensure_signed_cases crypto key me
        (λ r.
          (r.0.approved ≡ true) × PostReady r.0 × All (Sends r.0.opening_state (PostReady r.0)) r.1)
        post_fund_setup o actions (λ _. (h, ready, k))
        (λ _.
          (h, ready, add_state-Sends o.opening_state (PostReady o) _ actions (inr (refl, ready)) k))

  crank_post_fund-Justified :
      (o : Objective) (actions : List Action)
      → o.approved ≡ true
      → PostReady o
      → All (Sends o.opening_state (PostReady o)) actions
      → let (p, actions) = crank_post_fund crypto key me (o, actions) in All (Justified p) actions
  unfolding completed
  crank_post_fund-Justified o actions h ready k =
      let (p, sent) = ensure_signed crypto post_fund_setup key me (o, actions) in
      let (h', _, k') = post_signed o actions h ready k in
      crank_post_fund_cases crypto key me (λ r. All (Justified r.0) r.1) (o, actions)
        (λ _. Sends-Justified (record p { status = their_post_fund_state }) sent h' k')
        (λ _. Sends-Justified (record p { status = success }) sent h' k')

  crank_funding-Justified :
      (now : ℕ) (m : FundingMilestone) (o : Objective) (actions : List Action)
      → o.approved ≡ true
      → completed o pre_fund_setup ≡ true
      → MyMilestone o m
      → All (Sends o.opening_state (PostReady o)) actions
      → let (p, actions) = crank_funding crypto key now me m (o, actions) in
        All (Justified p) actions
  unfolding completed
  crank_funding-Justified now m o actions h c mine k =
      crank_funding_cases crypto key me (λ r. All (Justified r.0) r.1) now m o actions
        (λ f. crank_post_fund-Justified o actions h (c, (m, mine, f)) k)
        (λ _. Sends-Justified (record o { status = safe_to_deposit }) actions h k)
        (λ _. Sends-Justified (record o { status = channel_funded }) actions h k)
        (λ r _ _.
          All-append (Justified (record o { status = error })) actions (_ ∷ [])
            (Sends-Justified (record o { status = error }) actions h k) (refl, tt))
        (λ _ _ _. Sends-Justified (record o { status = channel_funded }) actions h k)
        (λ due no_request.
          All-append (Justified (record o { status = channel_funded })) actions (_ ∷ [])
            (Sends-Justified (record o { status = channel_funded }) actions h k)
            ((h, c, no_request, (m, mine, due.reached, refl, due.missing)), tt))

  crank_approved-Justified :
      (now : ℕ) (o : Objective) {r : Objective × List Action}
      → o.approved ≡ true
      → get_elem? o.opening_state.participants o.my_index ≡ some me
      → crank_approved crypto key now me o ≡ ok r
      → All (Justified r.0) r.1
  unfolding completed
  crank_approved-Justified now o h at e =
      let (p, sent) = ensure_signed crypto pre_fund_setup key me (o, []) in
      let (same, opening, index, k) = pre_signed o (PostReady p) in
      let at' : get_elem? p.opening_state.participants p.my_index ≡ some me =
        ap₂ (λ s i. get_elem? s.participants i) opening index ∙ at in
      crank_approved_cases crypto key me (λ r. All (Justified r.0) r.1) now o
        (λ _. Sends-Justified (record p { status = their_pre_fund_setup }) sent (same ∙ h) k)
        (λ m em c. crank_funding-Justified now m p sent (same ∙ h) c (me, at', em) k) e

-- An early return has the status `error`, and reports it.
abbrev pub FailsEarly : Processed → Type 0
FailsEarly (continues o) = Unit
FailsEarly (returns o actions) = (o.status ≡ error) × All (Justified o) actions
FailsEarly (throws _) = Unit

receive-FailsEarly :
    (crypto : Crypto) (o : Objective) (s : SignedState) → FailsEarly (receive crypto o s)
receive-FailsEarly crypto o s =
    receive_cases crypto FailsEarly o s (λ e h. tt) (λ outsider. (refl, (refl, tt))) (λ _. tt)
      (λ _. tt) (λ hash. (refl, (refl, tt)))

pub process_event-FailsEarly :
    (crypto : Crypto) (o : Objective) (event : Event) → FailsEarly (process_event crypto o event)
unfolding process_event
process_event-FailsEarly crypto o crank = tt
process_event-FailsEarly crypto o approval_given = tt
process_event-FailsEarly crypto o (deposit_submitted tx attempts at) = tt
process_event-FailsEarly crypto o (funding_updated amount finalized) = tt
process_event-FailsEarly crypto o (states_received []) = tt
process_event-FailsEarly crypto o (states_received (s ∷ _)) = receive-FailsEarly crypto o s
process_event-FailsEarly crypto o unexpected = (refl, (refl, tt))

-- Every action that the cranker declares is safe in the objective that it returns. A deposit is made
-- only with my approval, after the pre-fund setup is complete, with no request outstanding, once the
-- deposits before mine are there; it is what my target lacks, and more than nothing. A state is sent
-- only with my approval, and is the pre-fund setup, or the post-fund setup of a channel whose pre-fund
-- setup is complete and whose whole allocation is deposited for good. An error is reported only with
-- the status `error`.
pub open_channel_cranker-Justified :
    (crypto : Crypto) (current : Objective) (event : Event) (now key : ℕ)
    {r : Objective × List Action}
    → open_channel_cranker crypto current event now key ≡ ok r
    → All (Justified r.0) r.1
open_channel_cranker-Justified crypto current event now key e =
    open_channel_cranker_cases crypto (λ r. All (Justified r.0) r.1) current event now key
      (λ o actions q. (subst FailsEarly q (process_event-FailsEarly crypto current event)).1)
      (λ o _.
        transition_cases crypto (λ r. All (Justified r.0) r.1) key now o (λ _. tt)
          (λ me at h. crank_approved-Justified crypto key me now o h at))
      e
