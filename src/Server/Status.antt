-- ===== src/Server/Status.antt =====
-- packages/server-wallet/src/protocols/state.ts: the status of a channel and of its direct funding, as
-- the application is told.
pub mod Ready
use statechannels.Common.{
  ℕ, zero, suc, ◌*◌, ◌-◌, ◌+◌, Bool, true, false, Option, none, some, List, [], ◌∷◌, map, ◌&&◌,
  ◌==◌, leb, ltb, if◌then◌else◌, length, filter, all, take,
}
use statechannels.Common.Int.{ℤ, pos, ltb_ℤ, leb_ℤ, eqb_ℤ, reduce_add}
use statechannels.Common.Results.{Result, ok, ◌>>=◌}
use statechannels.WalletCore.Types.{
  Address, Destination, AllocationItem, Participant, SimpleAllocation,
}
use statechannels.WalletCore.Outcome.{check_simple_allocation}
use statechannels.WalletCore.DirectFunder.{amounts}
use statechannels.Server.Channel.{
  HashedState, Channel, FundingStrategy, direct, ledger, virtual_, fake, unknown, support,
  supported,
}
use statechannels.Server.ValidateTransition.{Checks}
use statechannels.Server.Channel.Queries.{total, latest_signed_by_me}
use statechannels.Server.Database.{FundingRow, TransferredOut}

-- `ChannelStatus`
pub data ChannelStatus : Type 0 where
  proposed opening funding running challenging responding closing closed : ChannelStatus

-- `status`, by the supported state and the latest one that I have signed
abbrev pub status_by : Checks → Channel → Option HashedState → Option HashedState → ChannelStatus
status_by checks ch none none = proposed
status_by checks ch none (some mine) = opening
status_by checks ch (some s) mine =
    if s.is_final
    then (if all (λ (t : HashedState). t.is_final) (support checks ch) then closed else closing)
    else (if ltb s.turn_num (2 * length ch.participants - 1) then opening else running)

-- `status`. A channel has a participant, so the subtraction is exact.
unfoldable pub status : Checks → Channel → ChannelStatus
status checks ch = status_by checks ch (supported checks ch) (latest_signed_by_me ch)

-- `FundingStatus`
pub data FundingStatus : Type 0 where
  uncategorized ready_to_fund funded defunded : FundingStatus

-- `_.findIndex(items, ai => ai.destination === d)`, where nothing is found at no index
abbrev pub index_of_item : Destination → List AllocationItem → Option ℕ
index_of_item d [] = none
index_of_item d (i ∷ is) =
    let rest : Option ℕ = elim (index_of_item d is) [ none ↦ none | some k ↦ some (suc k) ] in
    if i.destination == d then some 0 else rest

-- `items.slice(0, index)` and `items.slice(0, index + 1)`, where nothing found is the index -1, which
-- counts from the end
abbrev pub before_index : Option ℕ → List AllocationItem → List AllocationItem
before_index none items = take (length items - 1) items
before_index (some k) items = take k items

abbrev pub through_index : Option ℕ → List AllocationItem → List AllocationItem
through_index none items = []
through_index (some k) items = take (suc k) items

-- `xs.map(tf => tf.amount).reduce(BN.add, BN.from(0))`
abbrev pub transferred : List TransferredOut → ℤ
transferred ts = reduce_add (map (λ (t : TransferredOut). t.amount) ts)

-- `directFundingStatus`, from the row of the funding on
unfoldable pub status_of_row : Bool → List AllocationItem → Destination → FundingRow → FundingStatus
status_of_row is_final items me row =
    let to_me =
      transferred (filter (λ (t : TransferredOut). t.to_address == me) row.transferred_out) in
    let to_all = transferred row.transferred_out in
    let mine = total (filter (λ (i : AllocationItem). i.destination == me) items) in
    let index = index_of_item me items in
    if is_final && leb_ℤ mine to_me
    then defunded
    else (if eqb_ℤ to_me (pos 0) && leb_ℤ (total items) row.amount
        then funded
        else (if eqb_ℤ to_all (pos 0)
              && (leb_ℤ (total (before_index index items)) row.amount
                  && ltb_ℤ row.amount (total (through_index index items)))
            then ready_to_fund
            else uncategorized))

-- `directFundingStatus` of the strategy `Direct`
abbrev pub direct_status :
    Option HashedState → (Address → Option FundingRow) → Destination → Result (Option FundingStatus)
direct_status none rows me = ok (some uncategorized)
direct_status (some s) rows me = do
  a ← check_simple_allocation s.outcome
  ok (elim (rows a.asset) [
    | none ↦ none
    | some row ↦ some (status_of_row s.is_final a.allocation_items me row)
  ])

abbrev pub fake_status : Option HashedState → FundingStatus
fake_status none = uncategorized
fake_status (some s) = if ltb s.turn_num 3 then ready_to_fund else funded

-- `directFundingStatus`
unfoldable pub direct_funding_status :
    Option HashedState
    → (Address → Option FundingRow)
    → Participant
    → FundingStrategy
    → Result (Option FundingStatus)
direct_funding_status s rows me fake = ok (some (fake_status s))
direct_funding_status s rows me direct = direct_status s rows me.destination
direct_funding_status s rows me ledger = ok (some uncategorized)
direct_funding_status s rows me virtual_ = ok (some uncategorized)
direct_funding_status s rows me unknown = ok (some uncategorized)
