-- ===== src/Server/ValidateTransition.antt =====
-- packages/server-wallet/src/utilities/validate-transition.ts and src/evm-validator.ts: may a state follow
-- another? lodash's `isEqual` of outcomes and the run of an application's code are fields of `Checks`.
pub mod Allowed
use statechannels.Common.{
  ℕ, suc, ◌+◌, ◌*◌, ◌-◌, ◌%◌, Bool, true, false, not, Option, none, some, List, [], ◌∷◌, ◌++◌, map,
  ◌&&◌, ◌==◌, ◌⊎◌, inl, inr, leb, if◌then◌else◌, length, get_elem?, is_some, filter, any, all,
}
use statechannels.Common.Results.{Result, ok, err}
use statechannels.WalletCore.Types.{
  Address, Participant, ChannelConstants, StateVariables, State, SignatureEntry, SignedState,
}
use statechannels.WalletCore.StateUtils.{NitroOutcome, to_nitro_state}
use statechannels.Nitro.Transition.{
  NitroState, ValidTransitionStatus, is_true, need_to_check_app, require_valid_protocol_transition,
}

pub record Checks : Type 0 where
  pub is_equal : NitroOutcome → NitroOutcome → Bool
  pub run_app : NitroState NitroOutcome → NitroState NitroOutcome → ℕ → Result Bool

-- `validateAppTransitionWithEVM`: no code fails
abbrev pub validate_app_transition :
    Checks → NitroState NitroOutcome → NitroState NitroOutcome → ℕ → Result Bool
validate_app_transition checks from to bytecode =
    if bytecode == 0 then ok false else checks.run_app from to bytecode

-- The case `NeedToCheckApp`
abbrev pub check_app :
    Checks → NitroState NitroOutcome → NitroState NitroOutcome → Option ℕ → Bool → Result Bool
check_app checks from to bytecode true = ok true
check_app checks from to none false = ok false
check_app checks from to (some code) false = validate_app_transition checks from to code

abbrev pub by_status :
    Checks
    → NitroState NitroOutcome
    → NitroState NitroOutcome
    → Option ℕ
    → Bool
    → Result ValidTransitionStatus
    → Result Bool
by_status checks from to bytecode skip (ok is_true) = ok true
by_status checks from to bytecode skip (ok need_to_check_app) =
    check_app checks from to bytecode skip
by_status checks from to bytecode skip (err e) = err e

-- `catch`
abbrev pub caught : Result Bool → Bool
caught (ok b) = b
caught (err e) = false

-- `validateTransition`
unfoldable pub validate_transition : Checks → State → State → Option ℕ → Bool → Bool
validate_transition checks from to bytecode skip =
    let a = to_nitro_state from in
    let b = to_nitro_state to in
    caught
      (by_status checks a b bytecode skip (require_valid_protocol_transition checks.is_equal a b))
