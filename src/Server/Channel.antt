-- ===== src/Server/Channel.antt =====
-- packages/server-wallet/src/models/channel.ts: a channel as it is stored, the states that its signatures support, and what the protocols read of it.
-- A wallet is a participant of its channels, and a channel has participants: where it is not, or where
-- there are none, the code reads a property of `undefined`, which is nobody's turn or signature here.
pub mod SignOff
pub mod Support
pub mod Closing
pub mod Complete
pub mod Queries
pub mod Funds
use statechannels.Common.{
  ℕ, suc, ◌+◌, ◌*◌, ◌-◌, ◌%◌, Bool, true, false, not, Option, none, some, List, [], ◌∷◌, ◌++◌, map,
  ◌&&◌, ◌==◌, ◌⊎◌, inl, inr, leb, if◌then◌else◌, length, get_elem?, is_some, filter, any, all,
}
use statechannels.Common.Results.{Result, ok, err}
use statechannels.WalletCore.Types.{
  Address, Participant, ChannelConstants, StateVariables, State, SignatureEntry, SignedState,
}
use statechannels.WalletCore.StateUtils.{NitroOutcome, to_nitro_state}
use statechannels.Nitro.Transition.{
  NitroState, ValidTransitionStatus, is_true, need_to_check_app, require_valid_protocol_transition,
}
use statechannels.Server.ValidateTransition.{Checks, validate_transition}

-- `SignedStateVarsWithHash`
pub record StoredState : Type 0 where
  pub vars : StateVariables
  pub open vars use *
  pub signatures : List SignatureEntry
  pub state_hash : ℕ

-- `SignedStateWithHash`
pub record HashedState : Type 0 where
  pub signed : SignedState
  pub open signed use *
  pub state_hash : ℕ

-- `FundingStrategy`
pub data FundingStrategy : Type 0 where
  direct ledger virtual_ fake unknown : FundingStrategy

-- `Channel`
pub record Channel : Type 0 where
  pub constants : ChannelConstants
  pub open constants use *
  pub channel_id : ℕ
  pub signing_address : Address
  pub stored : List StoredState
  pub funding_strategy : FundingStrategy
  pub funding_ledger_channel_id : Option ℕ
  pub is_ledger : Bool

abbrev pub with_constants : ChannelConstants → StoredState → HashedState
with_constants c s = record {
  signed = record { state = record { constants = c; vars = s.vars }; signatures = s.signatures };
  state_hash = s.state_hash;
}

-- `signedStates`
abbrev pub signed_states : Channel → List HashedState
signed_states ch = map (with_constants ch.constants) ch.stored

-- `findIndex`, where nothing is found at no index
abbrev pub index_of : Address → List Participant → Option ℕ
index_of a [] = none
index_of a (p ∷ ps) =
    let rest : Option ℕ = elim (index_of a ps) [ none ↦ none | some i ↦ some (suc i) ] in
    if p.signing_address == a then some 0 else rest

-- `myIndex`
abbrev pub my_index : Channel → Option ℕ
my_index ch = index_of ch.signing_address ch.participants

abbrev pub participant_at : List Participant → Option ℕ → Option Participant
participant_at ps none = none
participant_at ps (some i) = get_elem? ps i

-- `myParticipantInfo`
abbrev pub my_participant : Channel → Option Participant
my_participant ch = participant_at ch.participants (my_index ch)

abbrev pub is_index : Option ℕ → ℕ → Bool
is_index none i = false
is_index (some j) i = i == j

unfoldable pub insert_by_turn : HashedState → List HashedState → List HashedState
insert_by_turn s [] = s ∷ []
insert_by_turn s (t ∷ ts) =
    let rest = insert_by_turn s ts in if leb t.turn_num s.turn_num then s ∷ t ∷ ts else t ∷ rest

-- The array's `sort` by descending turn, which is stable
unfoldable pub sort_by_turn : List HashedState → List HashedState
sort_by_turn [] = []
sort_by_turn (s ∷ ss) = insert_by_turn s (sort_by_turn ss)

-- `sortedStates`
abbrev pub sorted_states : Channel → List HashedState
sorted_states ch = sort_by_turn (signed_states ch)

-- `signatures.some(s => s.signer === a)`
abbrev pub has_signed : Address → HashedState → Bool
has_signed a s = any (λ (e : SignatureEntry). e.signer == a) s.signatures

abbrev pub is_null_app : Channel → Bool
is_null_app ch = ch.app_definition == 0

-- `delete` of a set
abbrev pub delete : Address → List Address → List Address
delete x = filter λ a. not (a == x)

-- The signatures of a state are taken off the set of those who have not signed. Nothing is
-- returned when the set becomes empty, which ends the search.
unfoldable pub sign_off : List Address → List SignatureEntry → Option (List Address)
sign_off missing [] = some missing
sign_off missing (e ∷ es) = elim (delete e.signer missing) [
  | [] ↦ none
  | a ∷ as_ ↦ sign_off (a ∷ as_) es
]

-- Has the mover of the state's turn signed it?
unfoldable pub mover_signed : List Participant → HashedState → Bool
mover_signed ps s = elim (get_elem? ps (s.turn_num % length ps)) [
  | none ↦ false
  | some p ↦ has_signed p.signing_address s
]

abbrev pub addresses_of : List Participant → List Address
addresses_of = map λ p. p.signing_address

-- Does a state break the chain with the one after it?
abbrev pub breaks : Checks → Channel → HashedState → Option HashedState → Bool
breaks checks ch s none = false
breaks checks ch s (some previous) =
    not (validate_transition checks s.state previous.state none (not (is_null_app ch)))

-- The states pushed so far, and the participants who have not signed one
abbrev pub Search : Type 0
Search = List HashedState × List Address

abbrev pub start_search : Channel → Search
start_search ch = ([], addresses_of ch.participants)

-- One round of the loop: the support where it is complete, or the search so far
abbrev pub take_state : HashedState → Search → Bool → Search ⊎ List HashedState
take_state s (support, missing) false = inl (support, missing)
take_state s (support, missing) true = elim (sign_off missing s.signatures) [
  | none ↦ inr (support ++ s ∷ [])
  | some left ↦ inl (support ++ s ∷ [], left)
]

-- The return from the loop, or its next round
abbrev pub returned_or : (Search → List HashedState) → Search ⊎ List HashedState → List HashedState
returned_or next (inl further) = next further
returned_or next (inr complete) = complete

-- The loop, over the states that are left and the state before
unfoldable pub search_support :
    Checks → Channel → List HashedState → Search → Option HashedState → List HashedState
search_support checks ch [] search previous = []
search_support checks ch (s ∷ ss) search previous =
    let kept = if breaks checks ch s previous then start_search ch else search in
    returned_or (λ further. search_support checks ch ss further (some s))
      (take_state s kept (mover_signed ch.participants s))

-- `support`
abbrev pub support : Checks → Channel → List HashedState
support checks ch = search_support checks ch (sorted_states ch) (start_search ch) none

abbrev pub first_of : List HashedState → Option HashedState
first_of [] = none
first_of (s ∷ ss) = some s

-- `supported`
abbrev pub supported : Checks → Channel → Option HashedState
supported checks ch = first_of (support checks ch)

-- `isSupported`
abbrev pub is_supported : Checks → Channel → Bool
is_supported checks ch = is_some (supported checks ch)

-- `hasConclusionProof`
abbrev pub has_conclusion_proof : Checks → Channel → Bool
has_conclusion_proof checks ch =
    is_supported checks ch && all (λ (s : HashedState). s.is_final) (support checks ch)
