-- ===== src/Server/Defunder.antt =====
-- packages/server-wallet/src/protocols/defunder.ts: the protocol that takes the funds out of a channel.
-- A crank works on the rows of its transaction; where it throws, they are left as they were.
pub mod Submitters
pub mod Defunding
pub mod Submissions
use statechannels.Common.{
  ℕ, suc, ◌+◌, ◌*◌, Bool, true, false, not, Option, none, some, List, [], ◌∷◌, map, ◌&&◌, ◌||◌,
  ◌==◌, ltb, if◌then◌else◌, is_some, all, find,
}
use statechannels.Common.Int.{ℤ, pos, ltb_ℤ}
use statechannels.Common.Results.{
  Result, ok, err, ◌>>=◌, ◌>>◌, throw_if, or_throw, no_supported_state, type_error,
  no_funding_ledger, unimplemented_strategy, missing_wallet,
}
use statechannels.WalletCore.Types.{Address, AllocationItem, SignedState, StateVariables}
use statechannels.WalletCore.Outcome.{check_simple_allocation}
use statechannels.Nitro.ChannelMode.{ChannelMode, open_, challenge, finalized}
use statechannels.Server.Channel.{
  HashedState, Channel, FundingStrategy, direct, ledger, virtual_, fake, unknown, my_index,
  is_index, support, supported, has_conclusion_proof,
}
use statechannels.Server.Channel.Queries.{
  allocation_item_for_participant_index, is_partly_direct_funded, latest_signed_by_me, my_turn,
}
use statechannels.Server.Store.{Env}
use statechannels.Server.LedgerRequest.{LedgerRequest, RequestStatus, defund}
use statechannels.Server.Database.{
  World, FundingRow, get_funding, Output, channel_updated, objective_succeeded,
  conclude_and_withdraw, withdraw, challenge_with, queue, has_valid_request, insert_or_update,
  to_withdraw, to_challenge, to_push_outcome, get_ledger_request, succeeded, failed, convert_result,
  AdjudicatorStatus, ChainServiceRequest, is_kind,
}
use statechannels.Server.Opening.{request_from_ledger, sign_and_send}

-- `DefunderResult`
pub record DefunderResult : Type 0 where
  pub is_channel_defunded : Bool
  pub did_submit_transaction : Bool

abbrev pub defunder_result : Bool → Bool → DefunderResult
defunder_result defunded submitted = record {
  is_channel_defunded = defunded;
  did_submit_transaction = submitted;
}

-- The objectives that end a channel. A `CloseChannel` has the order of those who submit.
pub data Ending : Type 0 where
  close_channel : List ℕ → Ending
  defund_channel : Ending

abbrev pub is_positive_item : Option AllocationItem → Bool
is_positive_item none = false
is_positive_item (some i) = ltb_ℤ (pos 0) i.amount

abbrev pub is_finalized : ChannelMode → Bool
is_finalized open_ = false
is_finalized challenge = false
is_finalized finalized = true

-- `states[0]`, where the states are not null
abbrev pub first_state_of : Option (List SignedState) → Result (Option SignedState)
first_state_of none = err type_error
first_state_of (some []) = ok none
first_state_of (some (s ∷ ss)) = ok (some s)

abbrev pub has_succeeded : LedgerRequest → Bool
has_succeeded r = elim r.status [ RequestStatus.succeeded ↦ true | _ ↦ false ]

abbrev pub row_amounts : List FundingRow → Address → Option ℤ
row_amounts rows asset = elim (get_funding asset rows) [ none ↦ none | some f ↦ some f.amount ]

module _ (env : Env) (now : ℕ) where
  -- The loop of `shouldSubmitCollaborativeTx`: the first of the order with funds submits.
  unfoldable pub first_with_funds : Channel → List ℕ → Result Bool
  first_with_funds ch [] = ok true
  first_with_funds ch (i ∷ is) = do
    item ← allocation_item_for_participant_index env.checks ch i
    let rest = first_with_funds ch is
    if is_positive_item item then ok (is_index (my_index ch) i) else rest

  -- `shouldSubmitCollaborativeTx`
  unfoldable pub should_submit_collaborative_tx : Channel → Ending → Result Bool
  should_submit_collaborative_tx ch (close_channel order) = first_with_funds ch order
  should_submit_collaborative_tx ch defund_channel = ok true

  -- The collaborative transaction of `directDefunder`
  abbrev pub conclude : World → World
  conclude w =
      queue (conclude_and_withdraw (support env.checks w.channel))
        (record w { chain_requests = insert_or_update now to_withdraw w.chain_requests })

  -- The two branches that submit a transaction, and neither
  unfoldable pub submit : World → AdjudicatorStatus → Bool → Result (World × DefunderResult)
  submit w status should =
      let first = first_state_of status.states >>= λ s.
      ok (queue (withdraw s) w, defunder_result false true) in
      if not (is_finalized status.channel_mode)
        && (has_conclusion_proof env.checks w.channel && should)
      then ok (conclude w, defunder_result false true)
      else (if is_finalized status.channel_mode && should
          then first
          else ok (w, defunder_result false false))

  -- `directDefunder`
  unfoldable pub direct_defunder : Ending → World → Result (World × DefunderResult)
  direct_defunder ending w = do
    partly ← is_partly_direct_funded env.checks w.channel (row_amounts w.funding)
    let submitting =
        should_submit_collaborative_tx w.channel ending >>= submit w (convert_result w.adjudicator)
    if not partly
        then ok (w, defunder_result true false)
        else (if has_valid_request now to_withdraw w.chain_requests
              || has_valid_request now to_push_outcome w.chain_requests
            then ok (w, defunder_result false false)
            else submitting)

  -- `requestLedgerDefunding`
  abbrev pub request_defunding : World → Option Channel → Result World
  request_defunding w none = err no_funding_ledger
  request_defunding w (some l) = request_from_ledger env now defund w l

  -- `ledgerDefunder`, by the request that is there
  abbrev pub by_request : World → Option LedgerRequest → Result (World × DefunderResult)
  by_request w (some r) = ok (w, defunder_result (has_succeeded r) false)
  by_request w none = request_defunding w w.ledger >>= λ w'. ok (w', defunder_result false false)

  -- `ledgerDefunder`
  unfoldable pub ledger_defunder : World → Result (World × DefunderResult)
  ledger_defunder w =
      if has_conclusion_proof env.checks w.channel
      then by_request w (get_ledger_request w.channel.channel_id defund w.ledger_requests)
      else ok (w, defunder_result false false)

  -- `Defunder.crank`, by the strategy of the channel
  abbrev pub defund_by : Ending → World → FundingStrategy → Result (World × DefunderResult)
  defund_by ending w direct = direct_defunder ending w
  defund_by ending w ledger = ledger_defunder w
  defund_by ending w unknown = ok (w, defunder_result true false)
  defund_by ending w fake = ok (w, defunder_result true false)
  defund_by ending w virtual_ = err unimplemented_strategy

  -- `Defunder.crank`
  unfoldable pub defunder_crank : Ending → World → Result (World × DefunderResult)
  defunder_crank ending w = defund_by ending w w.channel.funding_strategy
