-- ===== src/Server/Channel/Queries.antt =====
-- packages/server-wallet/src/models/channel.ts: what the protocols ask a channel, over the states that
-- its signatures support. The row of its funding is an argument of the questions that read it.
use statechannels.Common.{
  ℕ, suc, ◌*◌, ◌-◌, ◌%◌, Bool, false, not, Option, none, some, List, [], ◌∷◌, ◌&&◌, ◌==◌, leb, ltb,
  if◌then◌else◌, length, get_elem?, is_some, filter, find, take_while, all,
}
use statechannels.Common.Int.{ℤ, pos, ◌+ℤ◌, ltb_ℤ, leb_ℤ, reduce_add}
use statechannels.Common.Results.{
  Result, ok, err, ◌>>=◌, ◌>>◌, throw_if, or_throw, type_error, no_supported_state,
  index_not_in_channel, too_many_participants, destination_not_in_allocations,
}
use statechannels.WalletCore.Types.{Address, Participant, AllocationItem, SimpleAllocation, State}
use statechannels.WalletCore.Outcome.{check_simple_allocation}
use statechannels.WalletCore.DirectFunder.{FundingMilestone, amounts}
use statechannels.Server.Channel.{
  HashedState, Channel, signed_states, my_index, my_participant, is_index, sorted_states,
  has_signed, supported, first_of,
}
use statechannels.Server.ValidateTransition.{Checks}

-- `xs.map(a => a.amount).reduce(BN.add, BN.from(0))`
abbrev pub total : List AllocationItem → ℤ
total items = reduce_add (amounts items)

module _ (checks : Checks) where
  -- `myTurn`
  unfoldable pub my_turn : Channel → Bool
  my_turn ch = elim (supported checks ch) [
    | none ↦ is_index (my_index ch) 0
    | some s ↦ is_index (my_index ch) (suc s.turn_num % length ch.participants)
  ]

  -- `postFundComplete`. A channel has a participant, so the subtraction is exact.
  unfoldable pub post_fund_complete : Channel → Bool
  post_fund_complete ch = elim (supported checks ch) [
    | none ↦ false
    | some s ↦ leb (2 * length ch.participants - 1) s.turn_num
  ]

  -- `preFundComplete`
  abbrev pub pre_fund_complete : Channel → Bool
  pre_fund_complete ch = is_some (supported checks ch)

  -- `isRunning`
  unfoldable pub is_running : Channel → Bool
  is_running ch =
      post_fund_complete ch && all (λ (s : HashedState). not s.is_final) (sorted_states ch)

  -- `supported.outcome`, as a simple allocation
  abbrev pub supported_allocation : Channel → Result SimpleAllocation
  supported_allocation ch = do
    s ← or_throw (supported checks ch) no_supported_state
    check_simple_allocation s.outcome

  -- `allocationItemForParticipantIndex`
  unfoldable pub allocation_item_for_participant_index :
      Channel → ℕ → Result (Option AllocationItem)
  allocation_item_for_participant_index ch index = do
    throw_if (leb (length ch.participants) index) index_not_in_channel
    s ← or_throw (supported checks ch) no_supported_state
    p ← or_throw (get_elem? ch.participants index) type_error
    allocation ← check_simple_allocation s.outcome
    ok (find (λ (i : AllocationItem). i.destination == p.destination) allocation.allocation_items)

  abbrev pub item_at : Channel → Option ℕ → Result (Option AllocationItem)
  item_at ch none = or_throw (supported checks ch) no_supported_state >>= λ s. err type_error
  item_at ch (some i) = allocation_item_for_participant_index ch i

  -- `allocationItemForParticipantIndex(this.myIndex)`. The index -1 is not too great; no participant
  -- is at it.
  abbrev pub my_item : Channel → Result (Option AllocationItem)
  my_item ch = item_at ch (my_index ch)

  -- `fundingMilestones`
  unfoldable pub funding_milestones : Channel → Result FundingMilestone
  funding_milestones ch = do
    allocation ← supported_allocation ch
    found ← my_item ch
    mine ← or_throw found destination_not_in_allocations
    me ← or_throw (my_participant ch) type_error
    let items = allocation.allocation_items
    let before = total (take_while (λ i. not (i.destination == me.destination)) items)
    ok (record {
      target_before = before;
      target_after = before +ℤ mine.amount;
      target_total = total items;
    })

  -- The amount of the first item of a destination, or nothing
  abbrev pub amount_of : ℕ → List AllocationItem → ℤ
  amount_of d items = elim (find (λ (i : AllocationItem). i.destination == d) items) [
    | none ↦ pos 0
    | some i ↦ i.amount
  ]

  -- `myAmount`
  unfoldable pub my_amount : Channel → Result ℤ
  my_amount ch = do
    s ← or_throw (supported checks ch) no_supported_state
    me ← or_throw (my_participant ch) type_error
    allocation ← check_simple_allocation s.outcome
    ok (amount_of me.destination allocation.allocation_items)

  -- `participants[1 - myIndex]`. Without an index of its own, a wallet reads the index 2, and from an
  -- index above 1 it reads a negative one.
  abbrev pub opponent : Channel → Option Participant
  opponent ch = elim (my_index ch) [
    | none ↦ get_elem? ch.participants 2
    | some i ↦ if leb i 1 then get_elem? ch.participants (1 - i) else none
  ]

  -- `opponentAmount`
  unfoldable pub opponent_amount : Channel → Result ℤ
  opponent_amount ch = do
    s ← or_throw (supported checks ch) no_supported_state
    throw_if (ltb 2 (length ch.participants)) too_many_participants
    them ← or_throw (opponent ch) type_error
    allocation ← check_simple_allocation s.outcome
    ok (amount_of them.destination allocation.allocation_items)

  -- `isFullyDirectFunded`, over the amount of the row of the asset, if there is one
  unfoldable pub is_fully_direct_funded : Channel → (Address → Option ℤ) → Result Bool
  is_fully_direct_funded ch funding = do
    allocation ← supported_allocation ch
    ok (elim (funding allocation.asset) [
      | none ↦ false
      | some amount ↦ leb_ℤ (total allocation.allocation_items) amount
    ])

  -- `isPartlyDirectFunded`
  unfoldable pub is_partly_direct_funded : Channel → (Address → Option ℤ) → Result Bool
  is_partly_direct_funded ch funding = do
    allocation ← supported_allocation ch
    elim (funding allocation.asset) [
      | none ↦ ok false
      | some amount ↦ funding_milestones ch >>= λ m. ok (ltb_ℤ m.target_before amount)
    ]

abbrev pub signed_by_participant : Option Participant → List HashedState → List HashedState
signed_by_participant none ss = []
signed_by_participant (some p) ss = filter (has_signed p.signing_address) ss

-- `signedByMe`
abbrev pub signed_by_me : Channel → List HashedState
signed_by_me ch = signed_by_participant (my_participant ch) (signed_states ch)

-- `latestSignedByMe`: the first in the order in which the states are stored
abbrev pub latest_signed_by_me : Channel → Option HashedState
latest_signed_by_me ch = first_of (signed_by_me ch)

-- `prefundSigned`
abbrev pub prefund_signed : Channel → Bool
prefund_signed ch = is_some (latest_signed_by_me ch)

-- `postfundSigned`
unfoldable pub postfund_signed : Channel → Bool
postfund_signed ch = elim (latest_signed_by_me ch) [
  | none ↦ false
  | some s ↦ leb (2 * length ch.participants - 1) s.turn_num
]

abbrev pub only : List HashedState → Option State
only [] = none
only (s ∷ []) = some s.state
only (s ∷ t ∷ ss) = none

-- `uniqueStateAt`
unfoldable pub unique_state_at : Channel → ℕ → Option State
unique_state_at ch turn = only (filter (λ (s : HashedState). s.turn_num == turn) (signed_states ch))

-- `latestFullySignedState`
unfoldable pub latest_fully_signed_state : Channel → Option State
latest_fully_signed_state ch =
    only (
      filter (λ (s : HashedState). length s.signatures == length ch.participants)
        (signed_states ch))
