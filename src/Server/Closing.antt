-- ===== src/Server/Closing.antt =====
-- packages/server-wallet/src/protocols/channel-closer.ts, defund-channel.ts and challenge-submitter.ts:
-- the protocols that end a channel. A crank works on the rows of its transaction; where it throws, they
-- are left as they were.
pub mod Leaves
pub mod Closed
use statechannels.Common.{
  ℕ, suc, ◌+◌, ◌*◌, Bool, true, false, not, Option, none, some, List, [], ◌∷◌, map, ◌&&◌, ◌||◌,
  ◌==◌, ltb, if◌then◌else◌, is_some, all, find,
}
use statechannels.Common.Int.{ℤ, pos, ltb_ℤ}
use statechannels.Common.Results.{
  Result, ok, err, ◌>>=◌, ◌>>◌, throw_if, or_throw, no_supported_state, type_error,
  no_funding_ledger, unimplemented_strategy, missing_wallet,
}
use statechannels.WalletCore.Types.{Address, AllocationItem, SignedState, StateVariables}
use statechannels.WalletCore.Outcome.{check_simple_allocation}
use statechannels.Nitro.ChannelMode.{ChannelMode, open_, challenge, finalized}
use statechannels.Server.Channel.{
  HashedState, Channel, FundingStrategy, direct, ledger, virtual_, fake, unknown, my_index,
  is_index, support, supported, has_conclusion_proof,
}
use statechannels.Server.Channel.Queries.{
  allocation_item_for_participant_index, is_partly_direct_funded, latest_signed_by_me, my_turn,
}
use statechannels.Server.Store.{Env}
use statechannels.Server.LedgerRequest.{LedgerRequest, RequestStatus, defund}
use statechannels.Server.Database.{
  World, FundingRow, get_funding, Output, channel_updated, objective_succeeded,
  conclude_and_withdraw, withdraw, challenge_with, queue, has_valid_request, insert_or_update,
  to_withdraw, to_challenge, to_push_outcome, get_ledger_request, succeeded, failed, convert_result,
  AdjudicatorStatus, ChainServiceRequest, is_kind,
}
use statechannels.Server.Opening.{request_from_ledger, sign_and_send}
use statechannels.Server.Defunder.{DefunderResult, close_channel, defund_channel, defunder_crank}

-- `WaitingFor` of the closer, of `ChannelDefunder` and of the submitter, and `Nothing.ToWaitFor`
pub data ClosingFor : Type 0 where
  external_destinations their_final_state defunding transaction_submission : ClosingFor
  existing_request existing_challenge nothing : ClosingFor

abbrev pub is_open : ChannelMode → Bool
is_open open_ = true
is_open challenge = false
is_open finalized = false

-- `isExternalDestination`: of the 32 bytes, the first 12 are zero.
abbrev pub is_external_destination : ℕ → Bool
is_external_destination d = ltb d 1461501637330902918203684832716283019655932542976

module _ (env : Env) (now : ℕ) where
  -- `ensureAllAllocationItemsAreExternalDestinations`
  unfoldable pub all_external : Channel → Result Bool
  all_external ch = elim (supported env.checks ch) [
    | none ↦ ok false
    | some s ↦ do
      a ← check_simple_allocation s.outcome
      ok (all (λ (i : AllocationItem). is_external_destination i.destination) a.allocation_items)
  ]

  -- `signState` of the closer
  abbrev pub sign_final : World → HashedState → ℕ → Result World
  sign_final w s turn = sign_and_send env now w (record s.vars { turn_num = turn; is_final = true })

  -- `areAllFinalStatesSigned`, where it is my turn
  abbrev pub sign_on_turn : World → HashedState → Result (World × Bool)
  sign_on_turn w s =
      let second =
        sign_final w s s.turn_num >>= λ w'. ok (w', has_conclusion_proof env.checks w'.channel) in
      if s.is_final then second else (sign_final w s (suc s.turn_num) >>= λ w'. ok (w', false))

  -- `areAllFinalStatesSigned`, without a conclusion proof
  abbrev pub sign_final_state :
      World → Option HashedState → Option HashedState → Result (World × Bool)
  sign_final_state w none latest = ok (w, false)
  sign_final_state w (some mine) none = ok (w, false)
  sign_final_state w (some mine) (some s) =
      if my_turn env.checks w.channel then sign_on_turn w s else ok (w, false)

  -- `areAllFinalStatesSigned`. The support of a supported channel is not empty.
  unfoldable pub are_all_final_states_signed : World → Result (World × Bool)
  are_all_final_states_signed w =
      let signing =
        sign_final_state w (latest_signed_by_me w.channel) (supported env.checks w.channel) in
      if has_conclusion_proof env.checks w.channel then ok (w, true) else signing

  -- `crank` of the closer, after the defunder
  abbrev pub after_defunder : World × DefunderResult → World × ClosingFor
  after_defunder (w, r) =
      if r.is_channel_defunded
      then (
        queue objective_succeeded (queue channel_updated (record w { objective = succeeded })),
        nothing,
      )
      else (queue channel_updated w, defunding)

  abbrev pub after_final_states : List ℕ → World × Bool → Result (World × ClosingFor)
  after_final_states order (w, false) = ok (queue channel_updated w, their_final_state)
  after_final_states order (w, true) =
      defunder_crank env now (close_channel order) w >>= λ p. ok (after_defunder p)

  -- The body of the `try` of `ChannelCloser.crank`
  unfoldable pub closer_body : List ℕ → World → Result (World × ClosingFor)
  closer_body order w = do
    external ← all_external w.channel
    let signing = are_all_final_states_signed (queue channel_updated w) >>= after_final_states order
    if external
        then signing
        else ok (queue channel_updated (queue channel_updated w), external_destinations)

  -- What comes after the body: the `catch` rolls the transaction back, and waits for nothing.
  abbrev pub or_rolled_back : Result (World × ClosingFor) → Result World × ClosingFor
  or_rolled_back (ok p) = (ok p.0, p.1)
  or_rolled_back (err e) = (err e, nothing)

  -- `ChannelCloser.crank`: the rows, or the exception with which they are rolled back, and what it waits for
  unfoldable pub closer_crank : List ℕ → World → Result World × ClosingFor
  closer_crank order w = or_rolled_back (closer_body order w)

  -- `ChannelDefunder.crank`
  unfoldable pub channel_defunder_crank : World → Result (World × ClosingFor)
  channel_defunder_crank w =
      let through = defunder_crank env now defund_channel w >>= λ p.
      (if p.1.did_submit_transaction
        then ok (queue objective_succeeded (record p.0 { objective = succeeded }), nothing)
        else ok (p.0, transaction_submission)) in
      elim w.channel.funding_strategy [
        | direct ↦ through
        | ledger ↦ ok (record w { objective = failed }, nothing)
        | virtual_ ↦ ok (record w { objective = failed }, nothing)
        | fake ↦ ok (record w { objective = failed }, nothing)
        | unknown ↦ ok (record w { objective = failed }, nothing)
      ]

  -- `ChallengeSubmitter.crank`, where no request is there, with the initial support
  abbrev pub submit_challenge : List SignedState → World → World × ClosingFor
  submit_challenge [] w = (
    record w {
      chain_requests = insert_or_update now to_challenge w.chain_requests;
      objective = failed;
    },
    nothing,
  )
  submit_challenge (s ∷ ss) w = (
    queue objective_succeeded (
        queue channel_updated (
          queue (challenge_with (s ∷ ss)) (record w {
            chain_requests = insert_or_update now to_challenge w.chain_requests;
            objective = succeeded;
          }))),
    nothing,
  )

  -- `ChallengeSubmitter.crank`
  unfoldable pub challenge_crank : List SignedState → World → Result (World × ClosingFor)
  challenge_crank initial_support w =
      if not (is_open (convert_result w.adjudicator).channel_mode)
      then ok (w, existing_challenge)
      else (throw_if (not (is_some env.signing_wallet)) missing_wallet
          >> (if is_some (find (is_kind to_challenge) w.chain_requests)
              then ok (w, existing_request)
              else ok (submit_challenge initial_support w)))
