-- ===== src/Server/Store/Signing.antt =====
-- packages/server-wallet/src/engine/store.ts: which states `signState` signs.
use statechannels.Common.{
  ℕ, ◌≡◌, sym, ap, subst, ◌∙◌, ◌<◌, true, false, some, List, [], ◌∷◌, ◌==◌, ltb, All, filter, map,
  Bool-cases, Option-cases, inl, inr, arith, length,
}
use statechannels.Common.Results.{or_throw, or_throw-ok, ok, >>=-eq-ok}
use statechannels.WalletCore.Types.{Address, Participant, StateVariables, State, ChannelConstants}
use statechannels.Server.Channel.{
  StoredState, HashedState, Channel, supported, my_participant, participant_at, index_of,
  with_constants, has_signed, first_of, signed_states,
}
use statechannels.Server.Channel.Queries.{latest_signed_by_me, signed_by_me, signed_by_participant}
use statechannels.Server.Store.{
  Env, SigningWallet, turn_nums, signed_by_address, sign_state, stale, signed_with,
  check_transition, add_my_state, store_state,
}
use statechannels.Server.Store.Invariants.{IsDescending, throw_if-ok, store_state-IsDescending}

participant_at-index_of :
    (a : Address) (ps : List Participant) (p : Participant)
    → participant_at ps (index_of a ps) ≡ some p
    → p.signing_address ≡ a
participant_at-index_of a [] p h = absurd (cc)
participant_at-index_of a (q ∷ ps) p h = elim (Bool-cases (q.signing_address == a)) [
  | inl here ↦ ground arith
  | inr later ↦ elim (Option-cases (index_of a ps)) [
    | inl missing ↦ absurd (ground arith)
    | inr (i, found) ↦ participant_at-index_of a ps p (ap (participant_at ps) found ∙ ground arith)
  ]
]

-- The states of a list that an address has signed are of earlier turns.
abbrev pub SignedBefore : Address → ℕ → List StoredState → Type 0
SignedBefore me turn = All λ x. signed_by_address me x ≡ true → x.turn_num < turn

All-before :
    (me : Address) (bound turn : ℕ) (xs : List StoredState)
    → All (λ u. u < bound) (turn_nums xs)
    → bound < turn
    → SignedBefore me turn xs
All-before me bound turn [] h k = tt
All-before me bound turn (x ∷ xs) (h, hs) k =
    ((λ signed. omega arith), All-before me bound turn xs hs k)

-- Where the turns descend, the first of those states is the latest of them.
first-SignedBefore :
    (c : ChannelConstants) (me : Address) (turn : ℕ) (xs : List StoredState)
    → IsDescending (turn_nums xs)
    → stale turn (first_of (filter (has_signed me) (map (with_constants c) xs))) ≡ false
    → SignedBefore me turn xs
first-SignedBefore c me turn [] d h = tt
first-SignedBefore c me turn (x ∷ xs) (below, d) h = elim (Bool-cases (signed_by_address me x)) [
  | inl mine ↦
      let lt : x.turn_num < turn = ground arith in
      ((λ signed. lt), All-before me x.turn_num turn xs below lt)
  | inr other ↦ ((λ signed. absurd (cc)), first-SignedBefore c me turn xs d (ground arith))
]

signed_by_me-filter :
    (ch : Channel) (me : Participant)
    → my_participant ch ≡ some me
    → signed_by_me ch ≡ filter (has_signed ch.signing_address) (signed_states ch)
signed_by_me-filter ch me is_me =
    ap (λ o. signed_by_participant o (signed_states ch)) is_me
    ∙ ap (λ a. filter (has_signed a) (signed_states ch))
        (participant_at-index_of ch.signing_address ch.participants me is_me)

latest-SignedBefore :
    (ch : Channel) (me : Participant) (turn : ℕ)
    → my_participant ch ≡ some me
    → IsDescending (turn_nums ch.stored)
    → stale turn (latest_signed_by_me ch) ≡ false
    → SignedBefore ch.signing_address turn ch.stored
latest-SignedBefore ch me turn is_me d h =
    first-SignedBefore ch.constants ch.signing_address turn ch.stored d
      (subst (λ ss. stale turn (first_of ss) ≡ false) (signed_by_me-filter ch me is_me) h)

pub add_my_state-store_state :
    (env : Env) (ch : Channel) (s : HashedState) {ch' : Channel}
    → add_my_state env ch s ≡ ok ch'
    → store_state env ch s ≡ ok ch'
unfolding add_my_state
add_my_state-store_state env ch s {ch'} h =
    let (one, h1) = throw_if-ok (ltb 1 (length s.signatures)) _ _ {a = ch'} h in
    (throw_if-ok _ _ (store_state env ch s) {a = ch'} h1).1

-- A state is signed only for a turn after those of all the stored states that the wallet has signed. It is
-- the state of the channel with the variables that are given, with its hash and one signature, made with the
-- key of the wallet and in its name; and the row is left with one state for each turn, the latest first. It
-- is taken that the row was so before, and that the wallet is a participant of the channel.
pub sign_state-SignedBefore :
    (env : Env) (ch : Channel) (vars : StateVariables) (me : Participant) {ch' : Channel}
    {s : HashedState}
    → my_participant ch ≡ some me
    → IsDescending (turn_nums ch.stored)
    → sign_state env ch vars ≡ ok (ch', s)
    → SignedBefore ch.signing_address s.turn_num ch.stored
      × (s.state ≡ record { constants = ch.constants; vars = vars })
      × (s.state_hash ≡ env.crypto.hash_state (record { constants = ch.constants; vars = vars }))
      × ((wallet : SigningWallet) × (env.signing_wallet ≡ some wallet)
          × (s.signatures
              ≡ record {
                signature =
                    env.crypto.sign_state
                      (record { constants = ch.constants; vars = vars })
                      wallet.private_key;
                signer = wallet.address;
              }
                ∷ []))
      × IsDescending (turn_nums ch'.stored)
unfolding sign_state
sign_state-SignedBefore env ch vars me {ch'} {s} is_me d h =
    let (wallet, chosen, h1) = >>=-eq-ok (or_throw env.signing_wallet _) _ {b = (ch', s)} h in
    let (fresh, h2) =
      throw_if-ok (stale vars.turn_num (latest_signed_by_me ch)) _ _ {a = (ch', s)} h1 in
    let state : State = record { constants = ch.constants; vars = vars } in
    let signed = signed_with env wallet state in
    let (u, allowed, h3) =
      >>=-eq-ok (check_transition env ch signed (supported env.checks ch)) _ {b = (ch', s)} h2 in
    let (c, added, h4) = >>=-eq-ok (add_my_state env ch signed) _ {b = (ch', s)} h3 in
    let same_channel : c ≡ ch' = ground arith in
    let same_state : signed ≡ s = ground arith in
    let kept =
      store_state-IsDescending env ch signed (add_my_state-store_state env ch signed added) in
    (
      subst (λ t. SignedBefore ch.signing_address t.turn_num ch.stored) same_state
          (latest-SignedBefore ch me vars.turn_num is_me d fresh),
      sym (ap (λ t. t.state) same_state),
      sym (ap (λ t. t.state_hash) same_state),
      (wallet, or_throw-ok env.signing_wallet _ chosen, sym (ap (λ t. t.signatures) same_state)),
      subst (λ x. IsDescending (turn_nums x.stored)) same_channel kept.0,
    )
