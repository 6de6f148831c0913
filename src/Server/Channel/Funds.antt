-- ===== src/Server/Channel/Funds.antt =====
-- packages/server-wallet/src/models/channel.ts: the milestones of the deposits against those of
-- packages/wallet-core/src/protocols/direct-funder.ts.
use statechannels.Common.{
  ℕ, zero, suc, ◌≡◌, refl, sym, ap, ◌∙◌, ◌<◌, false, some, List, [], ◌∷◌, ◌==◌, length, leb, find,
  get_elem?, Option-cases, ◌⊎◌, inl, inr, arith,
}
use statechannels.Common.Results.{
  Result, ok, err, ◌>>=◌, not_valid, unexpected_outcome, destination_not_in_allocations,
}
use statechannels.WalletCore.Types.{
  Participant, SimpleAllocation, Outcome, simple_allocation, mixed_allocation, simple_guarantee,
}
use statechannels.WalletCore.Outcome.{check_simple_allocation}
use statechannels.WalletCore.DirectFunder.{FundingMilestone, funding_milestone, milestones_in}
use statechannels.Server.Channel.{
  HashedState, Channel, my_index, my_participant, participant_at, supported,
}
use statechannels.Server.ValidateTransition.{Checks}
use statechannels.Server.Channel.Queries.{
  allocation_item_for_participant_index, funding_milestones, my_item, item_at,
}

get_elem?-lt :
    (ps : List Participant) (i : ℕ) {p : Participant} → get_elem? ps i ≡ some p → i < length ps
get_elem?-lt [] i h = absurd (cc)
get_elem?-lt (p ∷ ps) zero h = omega arith
get_elem?-lt (p ∷ ps) (suc i) h = let lt = get_elem?-lt ps i h in omega arith

check-cases :
    (o : Outcome)
    → (check_simple_allocation o ≡ err not_valid)
      ⊎ ((a : SimpleAllocation) × (check_simple_allocation o ≡ ok a))
check-cases (simple_allocation a) = inr (a, refl)
check-cases (mixed_allocation as_) = inl refl
check-cases (simple_guarantee g) = inl refl

-- The error that each of the two protocols has for a destination without an item
abbrev pub renamed : Result FundingMilestone → Result FundingMilestone
renamed (ok m) = ok m
renamed (err unexpected_outcome) = err destination_not_in_allocations
renamed (err e) = err e

module _ (checks : Checks) (ch : Channel) (s : HashedState) (me : Participant)
    (is_supported : supported checks ch ≡ some s) (is_me : my_participant ch ≡ some me) where
  my_item-find : my_item checks ch ≡ (
      check_simple_allocation s.outcome >>= λ a.
      ok (find (λ i. i.destination == me.destination) a.allocation_items))
  unfolding allocation_item_for_participant_index
  my_item-find = elim (Option-cases (my_index ch)) [
    | inl missing ↦ absurd (let none_at = ap (participant_at ch.participants) missing in cc)
    | inr (i, found) ↦
        let here : get_elem? ch.participants i ≡ some me =
          sym (ap (participant_at ch.participants) found) ∙ is_me in
        let below = get_elem?-lt ch.participants i here in
        let inside : leb (length ch.participants) i ≡ false = ground arith in
        ap (item_at checks ch) found ∙ rw (inside, is_supported, here) refl
  ]

  -- Of a channel with a supported state, a participant of it gets the milestones that the other
  -- protocol computes from the supported state and the participant's destination; where that fails
  -- since the destination has no item, this fails likewise, and where the outcome is no simple allocation
  -- both fail by one error.
  pub funding_milestones-funding_milestone :
      funding_milestones checks ch ≡ renamed (funding_milestone s.state me.destination)
  unfolding funding_milestones funding_milestone milestones_in
  funding_milestones-funding_milestone = elim (check-cases s.outcome) [
    | inl invalid ↦ rw (is_supported, invalid) refl
    | inr (a, valid) ↦
        let item : my_item checks ch
            ≡ ok (find (λ i. i.destination == me.destination) a.allocation_items) =
          my_item-find ∙ rw valid refl in
        elim (Option-cases (find (λ i. i.destination == me.destination) a.allocation_items)) [
          | inl missing ↦ rw (is_supported, valid, item, missing) refl
          | inr (mine, found) ↦ rw (is_supported, valid, item, found, is_me) refl
        ]
  ]
