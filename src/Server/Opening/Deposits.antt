-- ===== src/Server/Opening/Deposits.antt =====
-- packages/server-wallet/src/protocols/direct-funder.ts: when a crank deposits, and what.
use statechannels.Common.{
  ◌≡◌, refl, subst, ◌+◌, ◌-◌, ◌<◌, suc, ltb, leb, ◌||◌, true, false, Bool, ◌∷◌, ◌⊎◌, List, [], inl,
  inr, Bool-cases, arith, ℕ,
}
use statechannels.Common.Int.{ℤ, pos, ◌+ℤ◌, ◌-ℤ◌, ◌≤ℤ◌, ltb_ℤ, leb_ℤ, int_laws, pos_part, neg_part}
use statechannels.Common.Results.{ok, >>=-eq-ok}
use statechannels.WalletCore.Types.{Address, SimpleAllocation}
use statechannels.WalletCore.DirectFunder.{FundingMilestone}
use statechannels.Server.Channel.Queries.{supported_allocation, funding_milestones}
use statechannels.Server.Store.{Env}
use statechannels.Server.Database.{
  World, ChainServiceRequest, queue, insert_or_update, request_is_valid, is_kind, fund_channel,
  get_funding_amount, has_valid_request, to_fund,
}
use statechannels.Server.Opening.{crank_deposit, direct_funder_crank}

-- The deposit that a crank asks for: it is my turn, it is more than nothing, what is held and the
-- deposit come to the end of my share, and no request for one is outstanding. Afterwards one is, and the
-- rows are otherwise what they were.
abbrev Deposits : ℕ → World → Address → ℤ → FundingMilestone → World → Type 0
Deposits now w asset held m w' =
    (amount : ℤ) × (w'
      ≡ queue (fund_channel asset held amount)
          (record w { chain_requests = insert_or_update now to_fund w.chain_requests }))
    × (pos 1 ≤ℤ amount)
    × (held +ℤ amount ≡ m.target_after)
    × (m.target_before ≤ℤ held)
    × (has_valid_request now to_fund w.chain_requests ≡ false)
    × (has_valid_request now to_fund w'.chain_requests ≡ true)

-- Why a crank does nothing: it is not my turn, my deposit is there, or it has been asked for.
abbrev Waits : ℕ → World → ℤ → FundingMilestone → Type 0
Waits now w held m =
    (held +ℤ pos 1 ≤ℤ m.target_before)
    ⊎ (m.target_after ≤ℤ held)
    ⊎ (has_valid_request now to_fund w.chain_requests ≡ true)

or_true : (b : Bool) → b || true ≡ true
or_true true = refl
or_true false = refl

first-valid :
    (now : ℕ) (r : ChainServiceRequest) (rs : List ChainServiceRequest)
    → is_kind to_fund r ≡ true
    → r.timestamp ≡ now
    → has_valid_request now to_fund (r ∷ rs) ≡ true
unfolding has_valid_request request_is_valid
first-valid now r rs here at =
    let recent : ltb (now - r.timestamp) 600000 ≡ true = ground (arith, at) in
    rw (here, recent, has_valid_request) (or_true (leb 2 r.attempts))

later-valid :
    (now : ℕ) (r : ChainServiceRequest) (rs : List ChainServiceRequest)
    → is_kind to_fund r ≡ false
    → has_valid_request now to_fund rs ≡ true
    → has_valid_request now to_fund (r ∷ rs) ≡ true
unfolding has_valid_request
later-valid now r rs other h = rw (other, has_valid_request) h

-- A request that is made is outstanding.
insert-valid :
    (now : ℕ) (rs : List ChainServiceRequest)
    → has_valid_request now to_fund (insert_or_update now to_fund rs) ≡ true
unfolding has_valid_request insert_or_update request_is_valid
insert-valid now [] = let zero_ : now - now ≡ 0 = omega arith in rw zero_ refl
insert-valid now (r ∷ rs) = elim (Bool-cases (is_kind to_fund r)) [
  | inl here ↦
      rw here
        (first-valid now (record r { timestamp = now; attempts = suc r.attempts }) rs here refl)
  | inr other ↦
      rw other (later-valid now r (insert_or_update now to_fund rs) other (insert-valid now rs))
]

abbrev pub Answers : ℕ → World → Address → ℤ → FundingMilestone → World × Bool → Type 0
Answers now w asset held m (w', funded) =
    ((funded ≡ true) × (w' ≡ w) × (m.target_total ≤ℤ held))
    ⊎ ((funded ≡ false)
        × (held +ℤ pos 1 ≤ℤ m.target_total)
        × (((w' ≡ w) × Waits now w held m) ⊎ Deposits now w asset held m w'))

not_held : (a b : ℤ) → leb_ℤ a b ≡ false → b +ℤ pos 1 ≤ℤ a
not_held a b h =
    let gt : pos_part b + neg_part a < pos_part a + neg_part b = ground arith in omega int_laws

held_less : (a b : ℤ) → ltb_ℤ a b ≡ true → a +ℤ pos 1 ≤ℤ b
held_less a b h =
    let lt : pos_part a + neg_part b < pos_part b + neg_part a = ground arith in omega int_laws

deposit-parts :
    (after held : ℤ)
    → leb_ℤ after held ≡ false
    → (pos 1 ≤ℤ after -ℤ held) × (held +ℤ (after -ℤ held) ≡ after)
deposit-parts after held h =
    let gt : pos_part held + neg_part after < pos_part after + neg_part held = ground arith in
    (omega int_laws, omega int_laws)

crank_deposit-Answers :
    (env : Env) (now : ℕ) (w : World) (asset : Address) (held : ℤ) (m : FundingMilestone)
    → Answers now w asset held m (crank_deposit env now w asset held m)
unfolding crank_deposit
crank_deposit-Answers env now w asset held m = elim (Bool-cases (leb_ℤ m.target_total held)) [
  | inl full ↦ rw full (inl (refl, refl, ground arith))
  | inr short ↦
      let less = not_held m.target_total held short in
      elim (Bool-cases (ltb_ℤ held m.target_before)) [
        | inl early ↦
            rw (short, early)
              (inr (refl, less, inl (refl, inl (held_less held m.target_before early))))
        | inr turn ↦ elim (Bool-cases (leb_ℤ m.target_after held)) [
          | inl done ↦
              rw (short, turn, done) (inr (refl, less, inl (refl, inr (inl (ground arith)))))
          | inr due ↦ elim (Bool-cases (has_valid_request now to_fund w.chain_requests)) [
            | inl asked ↦
                rw (short, turn, due, asked) (inr (refl, less, inl (refl, inr (inr refl))))
            | inr free ↦
                let (more, whole) = deposit-parts m.target_after held due in
                rw (short, turn, due, free)
                  (inr (
                    refl,
                    less,
                    inr (
                      m.target_after -ℤ held,
                      refl,
                      more,
                      whole,
                      ground arith,
                      refl,
                      insert-valid now w.chain_requests,
                    ),
                  ))
          ]
        ]
      ]
]

-- A crank of the direct funder that does not fail reads the milestones of the supported state. It answers
-- that the channel is funded where at least the whole allocation is held, and not funded where less is. In
-- the latter case it does nothing, since it is not my turn, or my deposit is there or asked for; or it asks
-- for one deposit, at my turn and with none asked for, which with what is held comes to the end of my share
-- and is outstanding afterwards.
pub direct_funder_crank-Answers :
    (env : Env) (now : ℕ) (w : World) {r : World × Bool}
    → direct_funder_crank env now w ≡ ok r
    → (a : SimpleAllocation) × (m : FundingMilestone) × (supported_allocation env.checks w.channel
        ≡ ok a)
      × (funding_milestones env.checks w.channel ≡ ok m)
      × Answers now w a.asset (get_funding_amount a.asset w.funding) m r
unfolding direct_funder_crank
direct_funder_crank-Answers env now w {r} h =
    let (a, e, h1) = >>=-eq-ok (supported_allocation env.checks w.channel) _ {b = r} h in
    let (m, f, h2) = >>=-eq-ok (funding_milestones env.checks w.channel) _ {b = r} h1 in
    let held = get_funding_amount a.asset w.funding in
    let same : crank_deposit env now w a.asset held m ≡ r = ground arith in
    (
      a,
      m,
      e,
      f,
      subst (Answers now w a.asset held m) same (crank_deposit-Answers env now w a.asset held m),
    )
