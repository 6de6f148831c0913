-- ===== src/Server/ValidateTransition/Allowed.antt =====
-- packages/server-wallet/src/utilities/validate-transition.ts against the rule of
-- packages/nitro-protocol/src/valid-transition.ts.
use statechannels.Common.{ℕ, ◌≡◌, refl, true, Bool, Option}
use statechannels.Common.Results.{Result, ok, err}
use statechannels.WalletCore.Types.{State}
use statechannels.WalletCore.StateUtils.{NitroOutcome, to_nitro_state}
use statechannels.Nitro.Transition.{
  NitroState, ValidTransitionStatus, require_valid_protocol_transition,
}
use statechannels.Server.ValidateTransition.{Checks, by_status, caught, validate_transition}

passes→ok :
    (checks : Checks) (a b : NitroState NitroOutcome) (bytecode : Option ℕ) (skip : Bool)
    (m : Result ValidTransitionStatus)
    → caught (by_status checks a b bytecode skip m) ≡ true
    → (v : ValidTransitionStatus) × (m ≡ ok v)
passes→ok checks a b bytecode skip (ok v) h = (v, refl)
passes→ok checks a b bytecode skip (err e) h = absurd (cc)

-- A transition that packages/server-wallet accepts is one that the protocol allows.
pub valid→allowed :
    (checks : Checks) (from to : State) (bytecode : Option ℕ) (skip : Bool)
    → validate_transition checks from to bytecode skip ≡ true
    → (v : ValidTransitionStatus) × (require_valid_protocol_transition checks.is_equal
          (to_nitro_state from)
          (to_nitro_state to)
        ≡ ok v)
unfolding validate_transition
valid→allowed checks from to bytecode skip h =
    passes→ok checks (to_nitro_state from) (to_nitro_state to) bytecode skip
      (require_valid_protocol_transition checks.is_equal (to_nitro_state from) (to_nitro_state to))
      h
