-- ===== src/Browser/ChannelEntry.antt =====
-- packages/browser-wallet/src/store/channel-store-entry.ts: a channel as the wallet in a page stores it. The
-- search for a support is written there a second time, over the states as they are stored and with a
-- test of its own for what follows what; the parts that are the same as in Server/Channel and Server/Store
-- are taken from there. Where the code throws after it has changed the entry, the change is not kept.
pub mod Chains
use statechannels.Common.{
  ℕ, suc, ◌+◌, ◌*◌, ◌%◌, Bool, true, false, not, Option, none, some, List, [], ◌∷◌, ◌++◌, map, ◌&&◌,
  ◌||◌, ◌==◌, ltb, leb, if◌then◌else◌, length, get_elem?, is_some, filter, any, all,
}
use statechannels.Common.Results.{
  Result, ok, err, ◌>>=◌, ◌>>◌, throw_if, or_throw, no_supported_state, stale_state,
  not_a_participant, type_error,
}
use statechannels.WalletCore.Types.{
  Address, Participant, ChannelConstants, StateVariables, State, SignatureEntry,
}
use statechannels.WalletCore.StateUtils.{outcomes_equal}
use statechannels.WalletCore.DirectFunder.{Crypto}
use statechannels.Server.Channel.{
  StoredState, HashedState, with_constants, has_signed, mover_signed, addresses_of, index_of,
  Search, take_state, returned_or, first_of,
}
use statechannels.Server.Store.{
  drop_non_variables, sort_descending, last_hash, cut, validate_invariants,
}

-- `ChannelStoreEntry`
pub record ChannelEntry : Type 0 where
  pub constants : ChannelConstants
  pub open constants use *
  pub my_index : ℕ
  pub stored : List StoredState

-- `signedStates`, which `sortedStates` are
abbrev pub entry_states : ChannelEntry → List HashedState
entry_states e = map (with_constants e.constants) e.stored

-- `validChain`, over the number of participants
unfoldable pub valid_chain : ℕ → StateVariables → StateVariables → Bool
valid_chain n first second =
    if not (suc first.turn_num == second.turn_num)
    then false
    else (if second.is_final
        then outcomes_equal first.outcome second.outcome
        else (if ltb second.turn_num (2 * n)
            then outcomes_equal first.outcome second.outcome && first.app_data == second.app_data
            else true))

abbrev pub breaks_chain : ChannelEntry → HashedState → Option HashedState → Bool
breaks_chain e s none = false
breaks_chain e s (some previous) = not (valid_chain (length e.participants) s.vars previous.vars)

abbrev pub start_entry_search : ChannelEntry → Search
start_entry_search e = ([], addresses_of e.participants)

-- The loop of `_support`
unfoldable pub search_entry :
    ChannelEntry → List HashedState → Search → Option HashedState → List HashedState
search_entry e [] search previous = []
search_entry e (s ∷ ss) search previous =
    let kept = if breaks_chain e s previous then start_entry_search e else search in
    returned_or (λ further. search_entry e ss further (some s))
      (take_state s kept (mover_signed e.participants s))

-- `support`
abbrev pub entry_support : ChannelEntry → List HashedState
entry_support e = search_entry e (entry_states e) (start_entry_search e) none

-- `isSupported`
abbrev pub entry_is_supported : ChannelEntry → Bool
entry_is_supported e = is_some (first_of (entry_support e))

-- `supported`
abbrev pub entry_supported : ChannelEntry → Result HashedState
entry_supported e = or_throw (first_of (entry_support e)) no_supported_state

-- `hasConclusionProof`
abbrev pub entry_has_conclusion_proof : ChannelEntry → Bool
entry_has_conclusion_proof e =
    entry_is_supported e && all (λ (s : HashedState). s.is_final) (entry_support e)

-- `myTurn`
unfoldable pub entry_my_turn : ChannelEntry → Result Bool
entry_my_turn e =
    entry_supported e >>= λ s. ok (suc s.turn_num % length e.participants == e.my_index)

-- `myAddress`
abbrev pub entry_my_address : ChannelEntry → Result Address
entry_my_address e =
    or_throw (get_elem? e.participants e.my_index) type_error >>= λ p. ok p.signing_address

-- `_latestSupportedByMe`: the first state in the order in which they are stored
abbrev pub entry_latest_signed : ChannelEntry → Result (Option HashedState)
entry_latest_signed e =
    entry_my_address e >>= λ me. ok (first_of (filter (has_signed me) (entry_states e)))

abbrev pub same_signature : SignatureEntry → SignatureEntry → Bool
same_signature a b = a.signature == b.signature && a.signer == b.signer

-- `_.uniqWith(entries, _.isEqual)`, after those seen
unfoldable pub uniq_signatures : List SignatureEntry → List SignatureEntry → List SignatureEntry
uniq_signatures seen [] = []
uniq_signatures seen (x ∷ xs) =
    let again = any (same_signature x) seen in
    let rest = uniq_signatures (if again then seen else x ∷ seen) xs in
    if again then rest else x ∷ rest

-- The signature is added to the first state of the hash, or the state is pushed.
unfoldable pub add_to_entry :
    List StoredState → StateVariables → ℕ → SignatureEntry → List StoredState
add_to_entry [] vars hash s = record { vars = vars; signatures = s ∷ []; state_hash = hash } ∷ []
add_to_entry (x ∷ xs) vars hash s =
    let rest = add_to_entry xs vars hash s in
    if x.state_hash == hash
    then record x { signatures = uniq_signatures [] (x.signatures ++ s ∷ []) } ∷ xs
    else x ∷ rest

-- `clearOldStates`. The support is searched for in the sorted states.
unfoldable pub clear_entry : ChannelEntry → ChannelEntry
clear_entry e =
    let sorted = record e { stored = sort_descending e.stored } in
    record e { stored = cut (last_hash (entry_support sorted)) sorted.stored }

module _ (crypto : Crypto) where
  -- `addState`
  unfoldable pub add_entry_state :
      ChannelEntry → StateVariables → SignatureEntry → Result ChannelEntry
  add_entry_state e vars s = do
    let hash = crypto.hash_state (record { constants = e.constants; vars = vars })
    throw_if (not (is_some (index_of s.signer e.participants))) not_a_participant
    let kept = clear_entry (record e { stored = add_to_entry e.stored vars hash s })
    me ← entry_my_address e
    validate_invariants kept.stored me
    ok kept

  abbrev pub entry_stale : ℕ → Option HashedState → Bool
  entry_stale turn none = false
  entry_stale turn (some latest) = leb turn latest.turn_num

  -- `signAndAdd`, with the address of the key
  unfoldable pub sign_and_add : ChannelEntry → StateVariables → ℕ → Address → Result ChannelEntry
  sign_and_add e vars key address = do
    latest ← entry_latest_signed e
    throw_if (entry_stale vars.turn_num latest) stale_state
    let state : State = record { constants = e.constants; vars = vars }
    add_entry_state e vars (record { signature = crypto.sign_state state key; signer = address })
