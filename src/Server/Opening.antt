-- ===== src/Server/Opening.antt =====
-- packages/server-wallet/src/protocols/channel-opener.ts, direct-funder.ts and ledger-funder.ts: the
-- protocol that opens a channel, with the funding that it delegates to. A crank works on the rows of its
-- transaction; where it throws, they are left as they were.
pub mod Signed
pub mod Deposits
pub mod Opened
pub mod Silent
pub mod Sends
use statechannels.Common.{
  ℕ, ◌*◌, ◌-◌, Bool, true, false, not, Option, none, some, List, [], ◌∷◌, ◌&&◌, ◌==◌, if◌then◌else◌,
  length, is_some, any,
}
use statechannels.Common.Int.{ℤ, ◌-ℤ◌, ltb_ℤ, leb_ℤ, eqb_ℤ}
use statechannels.Common.Results.{
  Result, ok, err, ◌>>=◌, or_throw, no_supported_state, type_error, no_funding_ledger,
  duplicate_request,
}
use statechannels.WalletCore.Types.{Address, AllocationItem, StateVariables}
use statechannels.WalletCore.Outcome.{check_simple_allocation}
use statechannels.WalletCore.DirectFunder.{FundingMilestone}
use statechannels.Server.Channel.{
  HashedState, Channel, FundingStrategy, direct, ledger, virtual_, fake, unknown, sorted_states,
  my_index, is_index, first_of, supported,
}
use statechannels.Server.Channel.Queries.{
  total, my_amount, opponent_amount, supported_allocation, funding_milestones, is_running,
  prefund_signed, postfund_signed, pre_fund_complete, post_fund_complete,
}
use statechannels.Server.Store.{Env, sign_state}
use statechannels.Server.LedgerRequest.{LedgerRequest, RequestType, fund, new_request}
use statechannels.Server.Database.{
  World, Output, channel_updated, objective_succeeded, state_sent, fund_channel, queue,
  get_funding_amount, has_valid_request, insert_or_update, to_fund, get_ledger_request, succeeded,
}

-- `WaitingFor` of the opener, and `Nothing.ToWaitFor`
pub data WaitingFor : Type 0 where
  their_pre_fund_setup funding their_post_fund_state nothing : WaitingFor

-- What the crank of a funder returns: whether the channel is funded
abbrev pub Funded : Type 0
Funded = Result (World × Bool)

module _ (env : Env) (now : ℕ) where
  -- The end of `DirectFunder.crank`: my deposit
  abbrev pub deposit_mine : World → Address → ℤ → FundingMilestone → World
  deposit_mine w asset held m =
      queue (fund_channel asset held (m.target_after -ℤ held))
        (record w { chain_requests = insert_or_update now to_fund w.chain_requests })

  -- `DirectFunder.crank`, from the milestones on
  unfoldable pub crank_deposit : World → Address → ℤ → FundingMilestone → World × Bool
  crank_deposit w asset held m =
      if leb_ℤ m.target_total held
      then (w, true)
      else (if ltb_ℤ held m.target_before
          then (w, false)
          else (if leb_ℤ m.target_after held
              then (w, false)
              else (if has_valid_request now to_fund w.chain_requests
                  then (w, false)
                  else (deposit_mine w asset held m, false))))

  -- `DirectFunder.crank`
  unfoldable pub direct_funder_crank : World → Funded
  direct_funder_crank w = do
    allocation ← supported_allocation env.checks w.channel
    m ← funding_milestones env.checks w.channel
    ok (crank_deposit w allocation.asset (get_funding_amount allocation.asset w.funding) m)

  -- `doesLedgerFundApp`
  unfoldable pub does_ledger_fund_app : Channel → Channel → Result Bool
  does_ledger_fund_app l app = elim (supported env.checks l) [
    | none ↦ ok false
    | some sl ↦ elim (supported env.checks app) [
      | none ↦ ok false
      | some sa ↦ do
        ledger_funding ← check_simple_allocation sl.outcome
        app_funding ← check_simple_allocation sa.outcome
        let target = total app_funding.allocation_items
        ok (
            any (λ (i : AllocationItem). i.destination == app.channel_id && eqb_ℤ i.amount target)
              ledger_funding.allocation_items)
    ]
  ]

  -- `alreadyFunded`
  abbrev pub already_funded : Channel → Channel → Result Bool
  already_funded l app = if is_running env.checks l then does_ledger_fund_app l app else ok false

  -- The amounts of the participants 0 and 1 of the ledger
  abbrev pub amounts_in_order : Channel → ℤ → ℤ → ℤ × ℤ
  amounts_in_order l mine theirs =
      if is_index (my_index l) 0 then (mine, theirs) else (theirs, mine)

  -- `LedgerRequest.setRequest`: the channel and the type are the key of the table.
  unfoldable pub insert_request : LedgerRequest → List LedgerRequest → Result (List LedgerRequest)
  insert_request r rs = elim (get_ledger_request r.channel_to_be_funded r.request_type rs) [
    | some there ↦ err duplicate_request
    | none ↦ ok (r ∷ rs)
  ]

  -- `requestLedgerFunding`, and `requestLedgerDefunding` with the other type
  unfoldable pub request_from_ledger : RequestType → World → Channel → Result World
  request_from_ledger k w l = do
    mine ← my_amount env.checks w.channel
    theirs ← opponent_amount env.checks w.channel
    let both = amounts_in_order l mine theirs
    rs ←
        insert_request (new_request k w.channel.channel_id l.channel_id both.0 both.1)
          w.ledger_requests
    ok (record w { ledger_requests = rs })

  -- `LedgerFunder.crank`, where the ledger is there
  unfoldable pub fund_from : World → Channel → Funded
  fund_from w l = do
    funded ← already_funded l w.channel
    if funded
        then ok (w, true)
        else (if is_some (get_ledger_request w.channel.channel_id fund w.ledger_requests)
            then ok (w, false)
            else (request_from_ledger fund w l >>= λ w'. ok (w', false)))

  -- `LedgerFunder.crank`, by the row of the ledger
  abbrev pub fund_from_row : World → Option Channel → Funded
  fund_from_row w none = ok (w, false)
  fund_from_row w (some l) = fund_from w l

  -- `LedgerFunder.crank`, for the ledger that the objective names
  unfoldable pub ledger_funder_crank : World → Option ℕ → Funded
  ledger_funder_crank w none = err no_funding_ledger
  ledger_funder_crank w (some ledger_id) = fund_from_row w w.ledger

  -- `crankChannelFunder`, with the strategy and the ledger of the objective
  unfoldable pub crank_channel_funder : FundingStrategy → Option ℕ → World → Funded
  crank_channel_funder direct ledger_id w = direct_funder_crank w
  crank_channel_funder fake ledger_id w = ok (w, true)
  crank_channel_funder ledger ledger_id w = ledger_funder_crank w ledger_id
  crank_channel_funder virtual_ ledger_id w = ok (w, false)
  crank_channel_funder unknown ledger_id w = ok (w, false)

  -- Signing a state, which is sent to the others
  unfoldable pub sign_and_send : World → StateVariables → Result World
  sign_and_send w vars = do
    p ← sign_state env w.channel vars
    ok (queue (state_sent p.1) (record w { channel = p.0 }))

  -- `signPrefundSetup` and `signPostfundSetup`, by the turn
  unfoldable pub sign_setup : ℕ → World → Result World
  sign_setup turn w = do
    latest ← or_throw (first_of (sorted_states w.channel)) type_error
    w' ← sign_and_send w (record latest.vars { turn_num = turn })
    ok (queue channel_updated w')

  -- A channel has a participant, so the subtraction is exact.
  abbrev pub post_fund_turn : Channel → ℕ
  post_fund_turn ch = length ch.participants * 2 - 1

  abbrev pub sign_prefund : World → Result World
  sign_prefund w = if prefund_signed w.channel then ok w else sign_setup 0 w

  abbrev pub sign_postfund : World → Result World
  sign_postfund w =
      if postfund_signed w.channel then ok w else sign_setup (post_fund_turn w.channel) w

  -- The end of `crank`, after the post-fund setup has been signed
  abbrev pub conclude_opening : World → World × WaitingFor
  conclude_opening w =
      if post_fund_complete env.checks w.channel
      then (queue objective_succeeded (record w { objective = succeeded }), nothing)
      else (w, their_post_fund_state)

  -- `crank` of the opener, from the answer of the funder on
  abbrev pub after_funding : World × Bool → Result (World × WaitingFor)
  after_funding (w, false) = ok (w, funding)
  after_funding (w, true) = sign_postfund w >>= λ w'. ok (conclude_opening w')

  -- `crank` of the opener, from the pre-fund setup on
  abbrev pub after_prefund : FundingStrategy → Option ℕ → World → Result (World × WaitingFor)
  after_prefund strategy ledger_id w =
      if pre_fund_complete env.checks w.channel
      then crank_channel_funder strategy ledger_id w >>= after_funding
      else ok (w, their_pre_fund_setup)

  -- `ChannelOpener.crank`
  unfoldable pub opener_crank : FundingStrategy → Option ℕ → World → Result (World × WaitingFor)
  opener_crank strategy ledger_id w =
      sign_prefund (queue channel_updated w) >>= after_prefund strategy ledger_id
