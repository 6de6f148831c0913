-- ===== src/Nitro/TransitionTests.antt =====
-- A history of packages/nitro-protocol/src/valid-transition.ts from the setup to the end of a channel.
use statechannels.Common.{ℕ, ◌≤◌, ◌≡◌, refl, true, false, Bool, [], ◌∷◌, ◌==◌, arith}
use statechannels.Common.Results.{ok, err, transition_forbidden}
use statechannels.Nitro.Transition.{
  NitroState, is_true, need_to_check_app, require_extra_implicit_checks,
  require_valid_protocol_transition,
}
use statechannels.Nitro.Transition.Histories.{
  Reaches, starts, follows, SameChannel, InSetup, history_is_kept,
}

-- Outcomes are numbers here, and `isEqual` is their equality.
abbrev state_at : ℕ → Bool → ℕ → NitroState ℕ
state_at turn final outcome = record {
  turn_num = turn;
  is_final = final;
  chain_id = 1;
  participants = 1 ∷ 2 ∷ [];
  channel_nonce = 7;
  challenge_duration = 60;
  outcome = outcome;
  app_definition = 0;
  app_data = 0;
}

in_setup :
    require_valid_protocol_transition ◌==◌ (state_at 2 false 5) (state_at 3 false 5) ≡ ok is_true
unfolding require_valid_protocol_transition require_extra_implicit_checks
in_setup = refl

after_setup :
    require_valid_protocol_transition ◌==◌ (state_at 3 false 5) (state_at 4 false 6)
    ≡ ok need_to_check_app
unfolding require_valid_protocol_transition require_extra_implicit_checks
after_setup = refl

to_the_end :
    require_valid_protocol_transition ◌==◌ (state_at 4 false 6) (state_at 5 true 6) ≡ ok is_true
unfolding require_valid_protocol_transition require_extra_implicit_checks
to_the_end = refl

reopened :
    require_valid_protocol_transition ◌==◌ (state_at 5 true 6) (state_at 6 false 6)
    ≡ err transition_forbidden
unfolding require_valid_protocol_transition require_extra_implicit_checks
reopened = refl

whole : Reaches ◌==◌ (state_at 2 false 5) (state_at 5 true 6)
whole = follows (follows (follows starts in_setup) after_setup) to_the_end

history_is_kept_example :
    (2 ≤ 5)
    × SameChannel (state_at 2 false 5) (state_at 5 true 6)
    × (false ≡ true → (true ≡ true) × ((state_at 5 true 6).outcome ≡ (state_at 2 false 5).outcome))
    × (InSetup (state_at 5 true 6) → (state_at 5 true 6).outcome ≡ (state_at 2 false 5).outcome)
history_is_kept_example =
    history_is_kept ◌==◌ (λ a b h. ground arith) (state_at 2 false 5) (state_at 5 true 6) whole
