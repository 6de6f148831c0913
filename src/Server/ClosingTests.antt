-- ===== src/Server/ClosingTests.antt =====
-- The end of a channel of two participants in packages/server-wallet, and the theorems at these inputs.
use statechannels.Common.{◌≡◌, refl, true, false, none, some, List, [], ◌∷◌, ◌⊎◌, ◌↔◌}
use statechannels.Common.Int.{pos, ◌+ℤ◌, reduce_add}
use statechannels.Common.Results.{ok, err, type_error}
use statechannels.Server.Channel.{
  Channel, sort_by_turn, insert_by_turn, sign_off, mover_signed, search_support,
}
use statechannels.Server.Channel.Queries.{
  allocation_item_for_participant_index, funding_milestones, is_partly_direct_funded,
}
use statechannels.Server.Database.{
  FundingRow, World, channel_updated, objective_succeeded, succeeded, set_finalized,
  has_valid_request,
}
use statechannels.WalletCore.Types.{AllocationItem}
use statechannels.Server.Status.{status, closed}
use statechannels.Nitro.ChannelMode.{get_channel_mode}
use statechannels.Server.Closing.{
  nothing, all_external, closer_body, are_all_final_states_signed, closer_crank,
}
use statechannels.Server.Defunder.{
  close_channel, defunder_result, first_with_funds, should_submit_collaborative_tx, submit,
  conclude, direct_defunder, defunder_crank, row_amounts,
}
use statechannels.Server.Defunder.Submissions.{
  Submits, Submittable, Fails, direct_defunder-Submits, direct_defunder-Fails,
}
use statechannels.Server.Closing.Leaves.{Leaves}
use statechannels.Server.Closing.Closed.{Concluded, closer_crank-Concluded}
use statechannels.Server.ChannelTests.{checks, concluded}
use statechannels.Server.CrankTests.{env, world_of}

abbrev bobs : Channel
bobs = record concluded { signing_address = 2 }

-- The funds have left the channel.
abbrev paid_out : World
paid_out = record (world_of concluded (pos 0)) {
  objective = succeeded;
  outputs = objective_succeeded ∷ channel_updated ∷ channel_updated ∷ [];
}

closes : closer_crank env 50 [] (world_of concluded (pos 0)) ≡ (ok paid_out, nothing)
unfolding closer_crank closer_body all_external are_all_final_states_signed defunder_crank
    direct_defunder is_partly_direct_funded funding_milestones allocation_item_for_participant_index
    search_support sort_by_turn insert_by_turn sign_off mover_signed ◌+ℤ◌ reduce_add
closes = refl

closer_crank-Concluded_example :
    (all_external env 50 concluded ≡ ok true)
    × Concluded env 50 paid_out
    × Leaves env 50 (world_of concluded (pos 0)) paid_out
closer_crank-Concluded_example =
    closer_crank-Concluded env 50 [] (world_of concluded (pos 0)) closes

still_funded :
    is_partly_direct_funded checks concluded (row_amounts (world_of concluded (pos 8)).funding)
    ≡ ok true
unfolding is_partly_direct_funded funding_milestones allocation_item_for_participant_index
    search_support sort_by_turn insert_by_turn sign_off mover_signed ◌+ℤ◌ reduce_add
still_funded = refl

submits :
    direct_defunder env 50 (close_channel (0 ∷ 1 ∷ [])) (world_of concluded (pos 8))
    ≡ ok (conclude env 50 (world_of concluded (pos 8)), defunder_result false true)
unfolding direct_defunder submit is_partly_direct_funded funding_milestones
    should_submit_collaborative_tx first_with_funds allocation_item_for_participant_index
    search_support sort_by_turn insert_by_turn sign_off mover_signed ◌+ℤ◌ reduce_add
    has_valid_request
submits = refl

direct_defunder-Submits_example :
    ((true ≡ false) × (conclude env 50 (world_of concluded (pos 8)) ≡ world_of concluded (pos 8)))
    ⊎ ((true ≡ true)
        × Submittable env 50 (world_of concluded (pos 8))
        × (should_submit_collaborative_tx env 50 concluded (close_channel (0 ∷ 1 ∷ [])) ≡ ok true)
        × Submits env 50
            (world_of concluded (pos 8))
            (conclude env 50 (world_of concluded (pos 8))))
direct_defunder-Submits_example =
    direct_defunder-Submits env 50 (close_channel (0 ∷ 1 ∷ [])) (world_of concluded (pos 8)) submits

-- The end on chain was the first that the wallet recorded of the channel.
abbrev finalized_elsewhere : World
finalized_elsewhere = record (world_of concluded (pos 8)) {
  adjudicator = some (set_finalized 4 40 30 none);
}

cannot_push :
    direct_defunder env 50 (close_channel (0 ∷ 1 ∷ [])) finalized_elsewhere ≡ err type_error
unfolding direct_defunder submit is_partly_direct_funded funding_milestones
    should_submit_collaborative_tx first_with_funds allocation_item_for_participant_index
    search_support sort_by_turn insert_by_turn sign_off mover_signed ◌+ℤ◌ reduce_add
    has_valid_request get_channel_mode
cannot_push = refl

direct_defunder-Fails_example :
    (direct_defunder env 50 (close_channel (0 ∷ 1 ∷ [])) finalized_elsewhere ≡ err type_error)
    ↔ Fails env 50 (close_channel (0 ∷ 1 ∷ [])) finalized_elsewhere type_error
direct_defunder-Fails_example =
    direct_defunder-Fails env 50 (close_channel (0 ∷ 1 ∷ [])) finalized_elsewhere type_error

abbrev items : List AllocationItem
items =
    record { destination = 11; amount = pos 5 } ∷ record { destination = 12; amount = pos 3 } ∷ []

abbrev half_funded : FundingRow
half_funded = record { asset = 0; amount = pos 5; transferred_out = [] }

closed_status : status checks concluded ≡ closed
unfolding status search_support sort_by_turn insert_by_turn sign_off mover_signed
closed_status = refl
