-- ===== src/Common/Results.antt =====
-- Thrown errors as values. The errors that the modelled code throws are of one type, since an
-- exception of any component passes through its callers.
use mathlib.Core.Path.{◌≡◌, refl}
use mathlib.Core.Logic.{◌⊎◌, inl, inr}
use mathlib.Core.Bool.{Bool}
use mathlib.Core.Option.{Option, none, some}
use statechannels.Common.Tests.{if◌then◌else◌}

pub data Error : Type 0 where
  invalid_outcome_type destination_missing insufficient_funds not_valid : Error
  different_lengths reduce_of_empty : Error
  no_simple_allocation duplicate_entries amounts_differ cancellation_not_queued : Error
  outcomes_inconsistent protocol_error protocol_violation : Error
  transition_forbidden outcome_type_changed type_error : Error
  unexpected_turn_num unexpected_index unexpected_outcome : Error
  no_supported_state index_not_in_channel too_many_participants : Error
  destination_not_in_allocations stale_state invalid_transition no_signing_wallet : Error
  not_signed_by_me multiple_signed_states duplicate_turn_nums not_sorted : Error
  not_a_participant wrong_chain : Error
  no_funding_ledger unimplemented_strategy no_funding_row duplicate_request : Error
  missing_wallet value_out_of_range incorrect_length different_senders : Error
  empty_allocation several_guarantees : Error

-- A value, or the exception that ended the call.
pub data Result {ℓ} (V : Type ℓ) : Type ℓ where
  err : Error → Result V
  ok : V → Result V

-- A test that throws, in the place of `if (…) throw`.
abbrev pub throw_if : Bool → Error → Result (Unit {0})
throw_if failed thrown = if failed then err thrown else ok tt

abbrev pub or_throw {ℓ} : {V : Type ℓ} → Option V → Error → Result V
or_throw (some v) thrown = ok v
or_throw none thrown = err thrown

-- The rest of the function runs on the value, if there is one.
infixl 5 ◌>>=◌ ◌>>◌
abbrev pub ◌>>=◌ {ℓ κ} : {V : Type ℓ} {W : Type κ} → Result V → (V → Result W) → Result W
err thrown >>= rest = err thrown
ok v >>= rest = rest v

abbrev pub ◌>>◌ {ℓ} : {W : Type ℓ} → Result (Unit {0}) → Result W → Result W
check >> rest = check >>= λ passed. rest

pub >>=-eq-ok {ℓ κ} :
    {V : Type ℓ} {W : Type κ} (m : Result V) (f : V → Result W) {b : W}
    → (m >>= f) ≡ ok b
    → (v : V) × (m ≡ ok v) × (f v ≡ ok b)
>>=-eq-ok (ok v) f h = (v, refl, h)
>>=-eq-ok (err thrown) f h = cc

pub Result-cases {ℓ} :
    {V : Type ℓ} (m : Result V) → ((e : Error) × (m ≡ err e)) ⊎ ((v : V) × (m ≡ ok v))
Result-cases (ok v) = inr (v, refl)
Result-cases (err e) = inl (e, refl)

pub >>=-eq-err {ℓ κ} :
    {V : Type ℓ} {W : Type κ} (m : Result V) (f : V → Result W) {e : Error}
    → (m >>= f) ≡ err e
    → (m ≡ err e) ⊎ ((v : V) × (m ≡ ok v) × (f v ≡ err e))
>>=-eq-err (ok v) f h = inr (v, refl, h)
>>=-eq-err (err thrown) f h = inl (cc)

pub or_throw-ok {ℓ} :
    {V : Type ℓ} (o : Option V) (e : Error) {v : V} → or_throw o e ≡ ok v → o ≡ some v
or_throw-ok (some x) e h = cc
or_throw-ok none e h = absurd (cc)
