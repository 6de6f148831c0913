-- ===== src/Server/Store.antt =====
-- packages/server-wallet/src/engine/store.ts and src/state-utils.ts: the states of a channel that the
-- store keeps, and how it signs and adds one. A channel is what its row becomes; where the code
-- throws, the transaction is rolled back.
-- Hashes, signatures, the recovery of a signer and the code of an application are fields of `Env`. A state
-- whose outcome is a mixed allocation of nothing, which has no hash, does not come over the wire, and that
-- hashing one would throw is not modelled here.
pub mod Invariants
pub mod Signing
use statechannels.Common.{
  ℕ, ◌*◌, Bool, true, false, not, Option, none, some, List, [], ◌∷◌, ◌++◌, map, ◌&&◌, ◌||◌, ◌==◌,
  leb, ltb, if◌then◌else◌, length, is_some, filter, any, take, includes,
}
use statechannels.Common.Results.{
  Result, ok, err, ◌>>=◌, ◌>>◌, throw_if, or_throw, stale_state, invalid_transition,
  no_signing_wallet, not_signed_by_me, multiple_signed_states, duplicate_turn_nums, not_sorted,
  not_a_participant, wrong_chain,
}
use statechannels.WalletCore.Types.{
  Address, Participant, StateVariables, State, SignatureEntry, SignedState,
}
use statechannels.WalletCore.DirectFunder.{Crypto}
use statechannels.Server.Channel.{
  StoredState, HashedState, FundingStrategy, fake, direct, ledger, virtual_, unknown, Channel,
  with_constants, signed_states, sorted_states, support, supported, is_supported,
}
use statechannels.Server.ValidateTransition.{Checks, validate_transition}
use statechannels.Server.Channel.Queries.{latest_signed_by_me}

-- `SigningWallet`
pub record SigningWallet : Type 0 where
  pub private_key : ℕ
  pub address : Address

-- What a `Store` reads: its configuration, the row of the wallet, and code that is not its own
pub record Env : Type 0 where
  pub checks : Checks
  pub crypto : Crypto
  pub signing_wallet : Option SigningWallet
  pub bytecode : Address → Option ℕ
  pub skip_evm_validation : Bool
  pub chain_network_id : ℕ
  pub recover_address : ℕ → State → Address

-- `_.uniqBy(entries, 'signature')`, after those seen
unfoldable pub uniq_by_signature : List ℕ → List SignatureEntry → List SignatureEntry
uniq_by_signature seen [] = []
uniq_by_signature seen (e ∷ es) =
    let again = includes e.signature seen in
    let rest = uniq_by_signature (if again then seen else e.signature ∷ seen) es in
    if again then rest else e ∷ rest

-- `dropNonVariables`
abbrev pub drop_non_variables : HashedState → StoredState
drop_non_variables s = record {
  vars = s.vars;
  signatures = s.signatures;
  state_hash = s.state_hash;
}

-- `addState`: the signatures are folded into the first state of that hash, or the state is pushed.
unfoldable pub add_state : List StoredState → HashedState → List StoredState
add_state [] s = drop_non_variables s ∷ []
add_state (x ∷ xs) s =
    let rest = add_state xs s in
    if x.state_hash == s.state_hash
    then record x { signatures = uniq_by_signature [] (x.signatures ++ s.signatures) } ∷ xs
    else x ∷ rest

unfoldable pub insert_descending : StoredState → List StoredState → List StoredState
insert_descending s [] = s ∷ []
insert_descending s (t ∷ ts) =
    let rest = insert_descending s ts in if ltb t.turn_num s.turn_num then s ∷ t ∷ ts else t ∷ rest

-- `_.reverse(_.sortBy(states, s => s.turnNum))`: of two states of one turn, the later one is first.
unfoldable pub sort_descending : List StoredState → List StoredState
sort_descending [] = []
sort_descending (x ∷ xs) = insert_descending x (sort_descending xs)

-- The states up to the last of the support, by its hash
abbrev pub up_to_hash : ℕ → List StoredState → List StoredState
up_to_hash h [] = []
up_to_hash h (x ∷ xs) = let rest = up_to_hash h xs in if x.state_hash == h then x ∷ [] else x ∷ rest

abbrev pub has_hash : ℕ → List StoredState → Bool
has_hash h = any λ (x : StoredState). x.state_hash == h

-- `support[support.length - 1].stateHash`
abbrev pub last_hash : List HashedState → Option ℕ
last_hash [] = none
last_hash (s ∷ []) = some s.state_hash
last_hash (s ∷ t ∷ ss) = last_hash (t ∷ ss)

-- A hash that is not found is at -1, so that `slice` keeps nothing.
abbrev pub cut : Option ℕ → List StoredState → List StoredState
cut none xs = xs
cut (some h) xs = if has_hash h xs then up_to_hash h xs else []

-- `clearOldStates`. The support of a channel that is not supported is empty.
unfoldable pub clear_old_states : List StoredState → List HashedState → List StoredState
clear_old_states xs support_ = cut (last_hash support_) (sort_descending xs)

abbrev pub turn_nums : List StoredState → List ℕ
turn_nums = map λ (s : StoredState). s.turn_num

abbrev pub signed_by_address : Address → StoredState → Bool
signed_by_address a s = any (λ (e : SignatureEntry). e.signer == a) s.signatures

-- Is a turn there twice?
abbrev pub repeats : List ℕ → Bool
repeats [] = false
repeats (t ∷ ts) = includes t ts || repeats ts

-- `isReverseSorted`
abbrev pub is_reverse_sorted : List ℕ → Bool
is_reverse_sorted [] = true
is_reverse_sorted (t ∷ []) = true
is_reverse_sorted (t ∷ u ∷ ts) = not (ltb t u) && is_reverse_sorted (u ∷ ts)

-- `validateInvariants`, in which a group of more than one state is a turn that is there twice
unfoldable pub validate_invariants : List StoredState → Address → Result (Unit {0})
validate_invariants xs me = do
  throw_if (repeats (turn_nums (filter (signed_by_address me) xs))) multiple_signed_states
  throw_if (repeats (turn_nums xs)) duplicate_turn_nums
  throw_if (not (is_reverse_sorted (turn_nums xs))) not_sorted

abbrev pub is_fake : FundingStrategy → Bool
is_fake fake = true
is_fake direct = false
is_fake ledger = false
is_fake virtual_ = false
is_fake unknown = false

abbrev pub hash_in : ℕ → List HashedState → Bool
hash_in h = any λ (s : HashedState). s.state_hash == h

-- `latestSignedByMe && latestSignedByMe.turnNum >= state.turnNum`
abbrev pub stale : ℕ → Option HashedState → Bool
stale turn none = false
stale turn (some latest) = leb turn latest.turn_num

module _ (env : Env) where
  -- `shouldValidateTransition`, of a channel that has a supported state
  unfoldable pub should_validate_transition : HashedState → Channel → HashedState → Bool
  should_validate_transition incoming ch latest =
      if is_fake ch.funding_strategy && incoming.turn_num == 3
      then false
      else (not (ltb incoming.turn_num latest.turn_num)
          && (not (hash_in incoming.state_hash (sorted_states ch))
              && (not ch.is_ledger
                  && not (ltb incoming.turn_num (2 * length incoming.participants)))))

  -- The test of a new state against the supported one, in `signState` and in `addSignedState`
  unfoldable pub check_transition : Channel → HashedState → Option HashedState → Result (Unit {0})
  check_transition ch incoming none = ok tt
  check_transition ch incoming (some latest) =
      throw_if
        (should_validate_transition incoming ch latest
          && not (
              validate_transition env.checks latest.state incoming.state
                (env.bytecode latest.app_definition) env.skip_evm_validation))
        invalid_transition

  -- `addState`, `clearOldStates` and `validateInvariants` on the way into the database
  unfoldable pub store_state : Channel → HashedState → Result Channel
  store_state ch s = do
    let added = record ch { stored = add_state ch.stored s }
    let kept = clear_old_states added.stored (support env.checks added)
    validate_invariants kept ch.signing_address
    ok (record ch { stored = kept })

  -- `addMyState`
  unfoldable pub add_my_state : Channel → HashedState → Result Channel
  add_my_state ch s = do
    throw_if (ltb 1 (length s.signatures)) not_signed_by_me
    throw_if
        (not (any (λ (e : SignatureEntry). e.signer == ch.signing_address) (take 1 s.signatures)))
        not_signed_by_me
    store_state ch s

  abbrev pub signed_with : SigningWallet → State → HashedState
  signed_with wallet s = record {
    signed = record {
      state = s;
      signatures =
          record { signature = env.crypto.sign_state s wallet.private_key; signer = wallet.address }
          ∷ [];
    };
    state_hash = env.crypto.hash_state s;
  }

  -- `signState`
  unfoldable pub sign_state : Channel → StateVariables → Result (Channel × HashedState)
  sign_state ch vars = do
    wallet ← or_throw env.signing_wallet no_signing_wallet
    let state : State = record { constants = ch.constants; vars = vars }
    throw_if (stale vars.turn_num (latest_signed_by_me ch)) stale_state
    let signed = signed_with wallet state
    check_transition ch signed (supported env.checks ch)
    ch' ← add_my_state ch signed
    ok (ch', signed)

  -- The signatures of a received state, each with its signer, who must be a participant
  unfoldable pub recover_all : State → List ℕ → Result (List SignatureEntry)
  recover_all s [] = ok []
  recover_all s (g ∷ gs) = do
    let signer = env.recover_address g s
    throw_if (not (includes signer (map (λ (p : Participant). p.signing_address) s.participants)))
        not_a_participant
    rest ← recover_all s gs
    ok (record { signature = g; signer = signer } ∷ rest)

  -- `addSignedState`, of a channel whose row is there
  unfoldable pub add_signed_state : Channel → State → List ℕ → Result Channel
  add_signed_state ch s signatures = do
    entries ← recover_all s signatures
    throw_if (not (s.chain_id == env.chain_network_id)) wrong_chain
    let incoming : HashedState = record {
      signed = record { state = s; signatures = entries };
      state_hash = env.crypto.hash_state s;
    }
    check_transition ch incoming (supported env.checks ch)
    store_state ch incoming
