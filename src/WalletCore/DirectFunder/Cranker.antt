-- ===== src/WalletCore/DirectFunder/Cranker.antt =====
-- `openChannelCranker` of packages/wallet-core/src/protocols/direct-funder.ts: one event is processed,
-- then the objective moves as far as it can and declares its actions.
use statechannels.Common.{
  ℕ, ◌+◌, Bool, true, not, Option, none, some, List, [], ◌∷◌, ◌++◌, ◌&&◌, map, ◌==◌, ltb, leb,
  if◌then◌else◌, get_elem?, find, includes,
}
use statechannels.Common.Int.{◌-ℤ◌, ltb_ℤ, leb_ℤ}
use statechannels.Common.Results.{Result, ok, err, Error, ◌>>=◌, or_throw, type_error}
use statechannels.WalletCore.Types.{
  Participant, Outcome, simple_allocation, mixed_allocation, simple_guarantee, State,
  SignatureEntry, SignedState,
}
use statechannels.WalletCore.DirectFunder.{
  Crypto, approval, their_pre_fund_setup, safe_to_deposit, channel_funded, their_post_fund_state,
  success, error, Steps, pre_fund_setup, post_fund_setup, FundingRequest, FundingMilestone,
  Objective, Event, crank, approval_given, unexpected, states_received, funding_updated,
  deposit_submitted, ErrorMode, non_participant_signature, received_unexpected_state,
  timed_out_while_funding, unexpected_event, Action, send_states, deposit, handle_error,
  max_waiting_time, funding_milestone, merge_signatures, setup_state, setup, set_signatures,
  signed_by_me, completed,
}

abbrev pub addresses : List Participant → List ℕ
addresses = map λ p. p.signing_address

-- `{...state, signatures: [entry]}`
abbrev pub signed_setup : Crypto → State → Steps → SignatureEntry → SignedState
signed_setup crypto opening step entry = record {
  state = setup_state opening step;
  signatures = entry ∷ [];
}

-- The state joins those of the first `sendStates` action, or makes one.
unfoldable pub add_state : SignedState → List Action → List Action
add_state s [] = send_states (s ∷ []) ∷ []
add_state s (send_states states ∷ rest) = send_states (states ++ s ∷ []) ∷ rest
add_state s (a ∷ rest) = a ∷ add_state s rest

-- What processing the event gives: the objective to go on with, an early return, or an exception.
pub data Processed : Type 0 where
  continues : Objective → Processed
  returns : Objective → List Action → Processed
  throws : Error → Processed

-- `objective.status = 'error'` with a `handleError` action
abbrev pub fail_early : Objective → ErrorMode → Processed
fail_early o e = returns (record o { status = error }) (handle_error e ∷ [])

abbrev pub by_outsider : Objective → SignatureEntry → Bool
by_outsider o s = not (includes s.signer (addresses o.opening_state.participants))

-- An outstanding request: `event.now && event.now >= submittedAt + MAX_WAITING_TIME`. A missing
-- time is 0.
abbrev pub timed_out : ℕ → FundingRequest → Bool
timed_out now r = ltb 0 now && leb (r.submitted_at + max_waiting_time) now

-- My deposit is due: with an outstanding request I wait for it, else I deposit what is missing.
unfoldable pub crank_unpaid :
    ℕ → FundingMilestone → Option FundingRequest → Objective × List Action → Objective × List Action
crank_unpaid now m (some r) (o, actions) =
    if timed_out now r
    then (
      record o { status = error },
      actions ++ handle_error (timed_out_while_funding now r.submitted_at) ∷ [],
    )
    else (record o { status = channel_funded }, actions)
crank_unpaid now m none (o, actions) = (
  record o { status = channel_funded },
  actions ++ deposit (m.target_after -ℤ o.funding.amount) ∷ [],
)

module _ (crypto : Crypto) where
  abbrev pub merge_into : Objective → Steps → List SignatureEntry → Processed
  merge_into o step es =
      continues (set_signatures o step (merge_signatures (setup o step).signatures es))

  -- `hashState`. The form of packages/nitro-protocol of a mixed allocation of nothing has no outcome, and
  -- its encoding throws.
  abbrev pub hashed : State → Outcome → Result ℕ
  hashed s (simple_allocation a) = ok (crypto.hash_state s)
  hashed s (simple_guarantee g) = ok (crypto.hash_state s)
  hashed s (mixed_allocation []) = err type_error
  hashed s (mixed_allocation (a ∷ as_)) = ok (crypto.hash_state s)

  -- The state's hash picks the setup that its signatures belong to.
  unfoldable pub receive : Objective → SignedState → Processed
  receive o s = elim (hashed s.state s.outcome) [
    | err e ↦ throws e
    | ok hash ↦ elim (find (by_outsider o) s.signatures) [
      | some outsider ↦ fail_early o (non_participant_signature outsider)
      | none ↦
          if hash == o.pre_fund.hash
          then merge_into o pre_fund_setup s.signatures
          else (if hash == o.post_fund.hash
              then merge_into o post_fund_setup s.signatures
              else fail_early o (received_unexpected_state hash o.pre_fund.hash o.post_fund.hash))
    ]
  ]

  -- The `switch` on the event. Of the states only the first is read.
  unfoldable pub process_event : Objective → Event → Processed
  process_event o crank = continues o
  process_event o approval_given = continues (record o { approved = true })
  process_event o (deposit_submitted tx attempts submitted_at) = continues (record o {
    funding_request = some (record { tx = tx; attempts = attempts; submitted_at = submitted_at });
  })
  process_event o (funding_updated amount finalized) =
      continues (record o { funding = record { amount = amount; finalized = finalized } })
  process_event o (states_received []) = continues o
  process_event o (states_received (s ∷ _)) = receive o s
  process_event o unexpected = fail_early o unexpected_event

  -- `signStateAction`
  unfoldable pub sign_state_action :
      Steps → ℕ → Participant → Objective × List Action → Objective × List Action
  sign_state_action step key me (o, actions) =
      let entry : SignatureEntry = record {
        signature = crypto.sign_state (setup_state o.opening_state step) key;
        signer = me.signing_address;
      } in
      (
        set_signatures o step (merge_signatures (setup o step).signatures (entry ∷ [])),
        add_state (signed_setup crypto o.opening_state step entry) actions,
      )

  -- `if (!signedbyMe(…)) signStateAction(…)`
  unfoldable pub ensure_signed :
      Steps → ℕ → Participant → Objective × List Action → Objective × List Action
  ensure_signed step key me (o, actions) =
      if signed_by_me o step me.signing_address
      then (o, actions)
      else sign_state_action step key me (o, actions)

  -- The end of the function: the channel is funded.
  unfoldable pub crank_post_fund :
      ℕ → Participant → Objective × List Action → Objective × List Action
  crank_post_fund key me before =
      let (o, actions) = ensure_signed post_fund_setup key me before in
      if not (completed o post_fund_setup)
      then (record o { status = their_post_fund_state }, actions)
      else (record o { status = success }, actions)

  -- The ladder of tests on the funding.
  unfoldable pub crank_funding :
      ℕ → ℕ → Participant → FundingMilestone → Objective × List Action → Objective × List Action
  crank_funding key now me m (o, actions) =
      if leb_ℤ m.target_total o.funding.amount && o.funding.finalized
      then crank_post_fund key me (o, actions)
      else (if ltb_ℤ o.funding.amount m.target_before
          then (record o { status = safe_to_deposit }, actions)
          else (if leb_ℤ m.target_after o.funding.amount
              then (record o { status = channel_funded }, actions)
              else crank_unpaid now m o.funding_request (o, actions)))

  unfoldable pub crank_approved : ℕ → ℕ → Participant → Objective → Result (Objective × List Action)
  crank_approved key now me start =
      let (o, actions) = ensure_signed pre_fund_setup key me (start, []) in
      if not (completed o pre_fund_setup)
      then ok (record o { status = their_pre_fund_setup }, actions)
      else funding_milestone o.opening_state me.destination >>= λ m.
          ok (crank_funding key now me m (o, actions))

  -- What follows the `switch`. Reading a field of a participant that is not there throws.
  unfoldable pub transition : ℕ → ℕ → Objective → Result (Objective × List Action)
  transition key now o =
      if not o.approved
      then ok (record o { status = approval }, [])
      else or_throw (get_elem? o.opening_state.participants o.my_index) type_error >>= λ me.
          crank_approved key now me o

  -- `openChannelCranker`, from the processed event on
  abbrev pub after_event : ℕ → ℕ → Processed → Result (Objective × List Action)
  after_event key now (continues o) = transition key now o
  after_event key now (returns o actions) = ok (o, actions)
  after_event key now (throws e) = err e

  -- `openChannelCranker`
  unfoldable pub open_channel_cranker : Objective → Event → ℕ → ℕ → Result (Objective × List Action)
  open_channel_cranker current event now key = after_event key now (process_event current event)
