-- ===== src/Nitro/Transition.antt =====
-- packages/nitro-protocol/src/valid-transition.ts: which state may follow which, before the application
-- is asked. Outcomes are compared by lodash's `isEqual`, which is a parameter with their type.
pub mod Histories
use statechannels.Common.{
  ℕ, suc, ◌*◌, Bool, true, false, not, List, [], ◌∷◌, ◌&&◌, ◌==◌, ltb, if◌then◌else◌, length,
}
use statechannels.Common.Results.{Result, ok, ◌>>=◌, ◌>>◌, throw_if, transition_forbidden}

-- `State` of packages/nitro-protocol/src/contract/state.ts, with its channel
pub record NitroState (O : Type 0) : Type 0 where
  pub turn_num : ℕ
  pub is_final : Bool
  pub chain_id : ℕ
  pub participants : List ℕ
  pub channel_nonce : ℕ
  pub challenge_duration : ℕ
  pub outcome : O
  pub app_definition : ℕ
  pub app_data : ℕ

-- `ValidTransitionStatus`
pub data ValidTransitionStatus : Type 0 where
  is_true need_to_check_app : ValidTransitionStatus

-- `isEqual` of lists of addresses
abbrev pub same_addresses : List ℕ → List ℕ → Bool
same_addresses [] [] = true
same_addresses [] (y ∷ ys) = false
same_addresses (x ∷ xs) [] = false
same_addresses (x ∷ xs) (y ∷ ys) = x == y && same_addresses xs ys

-- `_require`
abbrev pub require : Bool → Result (Unit {0})
require holds = throw_if (not holds) transition_forbidden

-- `_requireExtraImplicitChecks`
unfoldable pub require_extra_implicit_checks :
    {O : Type 0} → NitroState O → NitroState O → Result (Unit {0})
require_extra_implicit_checks from to = do
  require (to.turn_num == suc from.turn_num)
  require (to.chain_id == from.chain_id)
  require (same_addresses to.participants from.participants)
  require (to.channel_nonce == from.channel_nonce)
  require (to.app_definition == from.app_definition)
  require (to.challenge_duration == from.challenge_duration)

-- A state that is not final, in the setup or after it
abbrev pub require_not_final :
    {O : Type 0} → (O → O → Bool) → NitroState O → NitroState O → Result ValidTransitionStatus
require_not_final is_equal from to =
    let in_setup =
      require (is_equal to.outcome from.outcome)
      >> (require (to.app_data == from.app_data) >> ok is_true) in
    require (not from.is_final)
    >> (if ltb to.turn_num (2 * length to.participants) then in_setup else ok need_to_check_app)

-- `requireValidProtocolTransition`
unfoldable pub require_valid_protocol_transition :
    {O : Type 0} → (O → O → Bool) → NitroState O → NitroState O → Result ValidTransitionStatus
require_valid_protocol_transition is_equal from to =
    let when_final = require (is_equal to.outcome from.outcome) >> ok is_true in
    let when_not_final = require_not_final is_equal from to in
    require_extra_implicit_checks from to >> (if to.is_final then when_final else when_not_final)
