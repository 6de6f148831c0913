-- ===== src/Server/Opening/Opened.antt =====
-- packages/server-wallet/src/protocols/channel-opener.ts: what the end of the protocol says.
use statechannels.Common.{
  ℕ, ◌≡◌, refl, subst, ◌≤◌, ◌*◌, ◌-◌, true, false, Bool, Option, some, length, Bool-cases,
  Option-cases, inl, inr, arith,
}
use statechannels.Common.Int.{◌≤ℤ◌}
use statechannels.Server.Opening.Signed.{PreFunds, sign_prefund-PreFunds}
use statechannels.Server.Opening.Deposits.{direct_funder_crank-Answers}
use statechannels.Common.Results.{ok, >>=-eq-ok}
use statechannels.WalletCore.DirectFunder.{FundingMilestone}
use statechannels.WalletCore.Types.{SimpleAllocation}
use statechannels.Server.Channel.{HashedState, Channel, FundingStrategy, direct, supported}
use statechannels.Server.Channel.Queries.{
  supported_allocation, funding_milestones, post_fund_complete, pre_fund_complete,
}
use statechannels.Server.Store.{Env}
use statechannels.Server.Database.{get_funding_amount, World, succeeded, queue, channel_updated}
use statechannels.Server.Opening.{
  WaitingFor, nothing, crank_channel_funder, sign_prefund, sign_postfund, conclude_opening,
  after_funding, after_prefund, opener_crank,
}

module _ (env : Env) (now : ℕ) where
  -- The protocol is over: every participant has signed the setup, as the supported state says.
  abbrev pub SetUp : World → Type 0
  SetUp w =
      (w.objective ≡ succeeded)
      × (s : HashedState) × (supported env.checks w.channel ≡ some s)
      × (2 * length w.channel.participants - 1 ≤ s.turn_num)

  post_fund_complete-some :
      (ch : Channel)
      → post_fund_complete env.checks ch ≡ true
      → (s : HashedState) × (supported env.checks ch ≡ some s)
        × (2 * length ch.participants - 1 ≤ s.turn_num)
  unfolding post_fund_complete
  post_fund_complete-some ch h = elim (Option-cases (supported env.checks ch)) [
    | inl missing ↦ absurd (ground arith)
    | inr (s, found) ↦ (s, found, ground arith)
  ]

  -- The case of a result that ends the protocol
  abbrev Ends : World × WaitingFor → Type 0
  Ends (w, nothing) = SetUp w
  Ends (w, _) = Unit

  conclude_opening-Ends : (w : World) → Ends (conclude_opening env now w)
  conclude_opening-Ends w = elim (Bool-cases (post_fund_complete env.checks w.channel)) [
    | inl complete ↦
        let (s, found, late) = post_fund_complete-some w.channel complete in
        rw complete (refl, s, found, late)
    | inr missing ↦ rw missing tt
  ]

  after_prefund-ends :
      (strategy : FundingStrategy) (ledger_id : Option ℕ) (w : World) {w' : World}
      → after_prefund env now strategy ledger_id w ≡ ok (w', nothing)
      → SetUp w'
        × (w2 : World) × (crank_channel_funder env now strategy ledger_id w ≡ ok (w2, true))
  after_prefund-ends strategy ledger_id w {w'} h =
      elim (Bool-cases (pre_fund_complete env.checks w.channel)) [
        | inl complete ↦
            let ((w2, funded), answered, h1) =
              >>=-eq-ok (crank_channel_funder env now strategy ledger_id w) (after_funding env now)
                {b = (w', nothing)} (ground arith) in
            go w2 funded answered h1
        | inr missing ↦ absurd (ground arith)
      ]
    where
      go :
          (w2 : World) (funded : Bool)
          → crank_channel_funder env now strategy ledger_id w ≡ ok (w2, funded)
          → after_funding env now (w2, funded) ≡ ok (w', nothing)
          → SetUp w'
            × (w3 : World) × (crank_channel_funder env now strategy ledger_id w ≡ ok (w3, true))
      go w2 false answered e = absurd (cc)
      go w2 true answered e =
          let (w3, signed, e1) =
            >>=-eq-ok (sign_postfund env now w2) (λ x. ok (conclude_opening env now x))
              {b = (w', nothing)} e in
          let same : conclude_opening env now w3 ≡ (w', nothing) = ground arith in
          (subst Ends same (conclude_opening-Ends w3), w2, answered)

  -- The funder has answered that the channel is funded, of the channel that the pre-fund setup left, with all
  -- other rows as the crank found them.
  abbrev pub FundedBy : FundingStrategy → Option ℕ → World → Type 0
  FundedBy strategy ledger_id w =
      (w1 : World) × PreFunds env now w w1
      × (w2 : World) × (crank_channel_funder env now strategy ledger_id w1 ≡ ok (w2, true))

  -- A crank that ends the protocol leaves the objective succeeded and a supported state of the post-fund
  -- setup or later; and only after the funder for the strategy of the objective has answered that the
  -- channel is funded. It was asked about the channel with my signature on its pre-fund setup, which the
  -- crank adds where it is missing, with all other rows as the crank found them.
  pub opener_crank-SetUp :
      (strategy : FundingStrategy) (ledger_id : Option ℕ) (w : World) {w' : World}
      → opener_crank env now strategy ledger_id w ≡ ok (w', nothing)
      → SetUp w' × FundedBy strategy ledger_id w
  unfolding opener_crank
  opener_crank-SetUp strategy ledger_id w {w'} h =
      let (w1, signed, h1) =
        >>=-eq-ok (sign_prefund env now (queue channel_updated w))
          (after_prefund env now strategy ledger_id) {b = (w', nothing)} h in
      let (ends, w2, answered) = after_prefund-ends strategy ledger_id w1 h1 in
      (ends, (w1, sign_prefund-PreFunds env now (queue channel_updated w) signed, w2, answered))

  -- An objective of the strategy `Direct` succeeds in a crank only where the whole allocation of the supported
  -- state was held, as the row of its asset said when the crank began. The supported state is that of the
  -- channel as the crank found it, or with my signature on its pre-fund setup where that was missing.
  pub opened_directly :
      (ledger_id : Option ℕ) (w : World) {w' : World}
      → opener_crank env now direct ledger_id w ≡ ok (w', nothing)
      → (w1 : World) × PreFunds env now w w1
        × (a : SimpleAllocation) × (m : FundingMilestone) × (supported_allocation env.checks
              w1.channel
            ≡ ok a)
        × (funding_milestones env.checks w1.channel ≡ ok m)
        × (m.target_total ≤ℤ get_funding_amount a.asset w.funding)
  unfolding crank_channel_funder
  opened_directly ledger_id w {w'} h =
      let (ends, (w1, left, w2, answered)) = opener_crank-SetUp direct ledger_id w h in
      let (a, m, e, f, answer) = direct_funder_crank-Answers env now w1 answered in
      (
        w1,
        left,
        a,
        m,
        e,
        f,
        elim answer [
          | inl (funded, kept, full) ↦
              subst (λ rows. m.target_total ≤ℤ get_funding_amount a.asset rows) left.0.0 full
          | inr (unfunded, less, rest) ↦ absurd (cc)
        ],
      )
