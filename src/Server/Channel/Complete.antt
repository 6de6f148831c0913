-- ===== src/Server/Channel/Complete.antt =====
-- packages/server-wallet/src/models/channel.ts: a state that all have signed is supported by itself.
use statechannels.Common.{
  ℕ, zero, suc, ◌≡◌, refl, ap, sym, subst, inl, inr, true, false, none, some, List, [], ◌∷◌, ◌==◌,
  any, includes, length, get_elem?, ◌%◌, ◌<◌, ◌∙◌, List-cases, arith,
}
use statechannels.WalletCore.Types.{Address, Participant, SignatureEntry}
use statechannels.Server.Channel.{
  HashedState, Channel, support, supported, first_of, addresses_of, sign_off, delete, mover_signed,
  sorted_states, search_support, start_search, take_state,
}
use statechannels.Server.ValidateTransition.{Checks}

includes-delete :
    (x a : Address) (xs : List Address)
    → includes a (delete x xs) ≡ true
    → ((x == a) ≡ false) × (includes a xs ≡ true)
includes-delete x a [] h = absurd (cc)
includes-delete x a (y ∷ ys) h = ground (arith, includes-delete x a ys)

-- Every address of a list has signed.
abbrev pub SignedAll : List Address → List SignatureEntry → Type 0
SignedAll as_ es =
    (a : Address) → includes a as_ ≡ true → any (λ (e : SignatureEntry). e.signer == a) es ≡ true

sign_off-all :
    (a : Address) (as_ : List Address) (es : List SignatureEntry)
    → SignedAll (a ∷ as_) es
    → sign_off (a ∷ as_) es ≡ none
unfolding sign_off
sign_off-all a as_ [] h = let missing = h a (ground arith) in absurd (cc)
sign_off-all a as_ (e ∷ es) h = elim (List-cases (delete e.signer (a ∷ as_))) [
  | inl empty ↦ rw (empty, sign_off) refl
  | inr (b, bs, q) ↦
      rw (q, sign_off)
        (sign_off-all b bs es (λ x known.
          let (other, among) = includes-delete e.signer x (a ∷ as_) (ap (includes x) q ∙ known) in
          let signed = h x among in ground arith))
]

get_elem?-includes :
    (i : ℕ) (ps : List Participant)
    → i < length ps
    → (p : Participant) × (get_elem? ps i ≡ some p)
      × (includes p.signing_address (addresses_of ps) ≡ true)
get_elem?-includes i [] h = absurd (omega arith)
get_elem?-includes zero (p ∷ ps) h = (p, refl, ground arith)
get_elem?-includes (suc i) (p ∷ ps) h =
    let (q, found, known) = get_elem?-includes i ps (omega arith) in (q, found, ground arith)

mover-all :
    (p : Participant) (ps : List Participant) (s : HashedState)
    → SignedAll (addresses_of (p ∷ ps)) s.signatures
    → mover_signed (p ∷ ps) s ≡ true
unfolding mover_signed
mover-all p ps s h =
    let (q, found, known) =
      get_elem?-includes (s.turn_num % length (p ∷ ps)) (p ∷ ps) (omega arith) in
    rw (found, mover_signed) (h q.signing_address known)

-- Where a channel has participants and the latest of its states is signed by all of them, that state
-- is the supported one, and its support is itself.
pub fully_signed-supported :
    (checks : Checks) (ch : Channel) (s : HashedState) (ss : List HashedState) (p : Participant)
    (ps : List Participant)
    → ch.participants ≡ p ∷ ps
    → sorted_states ch ≡ s ∷ ss
    → SignedAll (addresses_of ch.participants) s.signatures
    → (support checks ch ≡ s ∷ []) × (supported checks ch ≡ some s)
unfolding search_support
fully_signed-supported checks ch s ss p ps some_one latest signed =
    let signed' = subst (λ l. SignedAll (addresses_of l) s.signatures) some_one signed in
    let mover = subst (λ l. mover_signed l s ≡ true) (sym some_one) (mover-all p ps s signed') in
    let done =
      subst (λ l. sign_off (addresses_of l) s.signatures ≡ none) (sym some_one)
        (sign_off-all p.signing_address (addresses_of ps) s.signatures signed') in
    let e =
      ap (λ l. search_support checks ch l (start_search ch) none) latest
      ∙ rw (mover, take_state, done) refl in
    (e, ap first_of e)
