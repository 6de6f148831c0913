-- ===== src/Server/Channel/Closing.antt =====
-- packages/server-wallet/src/models/channel.ts: what a conclusion proof, and a state that all have
-- signed, say.
use statechannels.Common.{
  ◌≡◌, refl, sym, inl, inr, true, false, Bool, none, some, List, [], ◌∷◌, ◌&&◌, All, any, all,
  includes, ◌⊎◌, Bool-cases, arith,
}
use statechannels.WalletCore.Types.{Address}
use statechannels.WalletCore.StateUtils.{NitroOutcome, convert_to_nitro_outcome, to_nitro_state}
use statechannels.Nitro.Transition.Histories.{history_is_kept}
use statechannels.Server.Channel.{
  HashedState, Channel, has_signed, support, supported, has_conclusion_proof, first_of,
  addresses_of,
}
use statechannels.Server.ValidateTransition.{Checks}
use statechannels.Server.Channel.Support.{History, IsSupport, support-IsSupport}

-- A final state with the outcome of another
abbrev pub FinalWith : HashedState → HashedState → Type 0
FinalWith s t =
    (t.is_final ≡ true) × (convert_to_nitro_outcome t.outcome ≡ convert_to_nitro_outcome s.outcome)

abbrev pub is_final_state : HashedState → Bool
is_final_state s = s.is_final

any-all :
    (p q : HashedState → Bool) (xs : List HashedState)
    → all q xs ≡ true
    → any p xs ≡ true
    → any (λ x. p x && q x) xs ≡ true
any-all p q [] h k = k
any-all p q (x ∷ xs) h k = elim (Bool-cases (p x)) [
  | inl here ↦ ground arith
  | inr absent ↦ let rest = any-all p q xs (ground arith) (ground arith) in ground arith
]

module _ (checks : Checks)
    (is_equal→eq : (a b : NitroOutcome) → checks.is_equal a b ≡ true → a ≡ b) where
  older-FinalWith :
      (s : HashedState) (ts : List HashedState)
      → all is_final_state ts ≡ true
      → All (λ t. History checks t s) ts
      → All (FinalWith s) ts
  unfolding to_nitro_state
  older-FinalWith s [] h k = tt
  older-FinalWith s (t ∷ ts) h (k, ks) =
      let final : t.is_final ≡ true = ground arith in
      let (turn, same, kept, setup) =
        history_is_kept checks.is_equal is_equal→eq (to_nitro_state t.state)
          (to_nitro_state s.state) k in
      ((final, sym (kept final).1), older-FinalWith s ts (ground arith) ks)

  -- Where a channel has a conclusion proof, it has a supported state, the states of its support are all
  -- final and give the outcome of the supported one, and each participant has signed one of them. Here
  -- `isEqual` is taken to say `true` of equal outcomes only.
  pub has_conclusion_proof-FinalWith :
      (ch : Channel)
      → has_conclusion_proof checks ch ≡ true
      → (s : HashedState) × (supported checks ch ≡ some s)
        × All (FinalWith s) (support checks ch)
        × ((a : Address)
            → includes a (addresses_of ch.participants) ≡ true
            → any (λ t. has_signed a t && is_final_state t) (support checks ch) ≡ true)
  has_conclusion_proof-FinalWith ch h = conclude (support checks ch) h (support-IsSupport checks ch)
    where
      conclude :
          (xs : List HashedState)
          → (elim (first_of xs) as (λ _. Bool) [ none ↦ false | some _ ↦ true ]
              && all is_final_state xs)
            ≡ true
          → (xs ≡ []) ⊎ IsSupport checks ch xs
          → (s : HashedState) × (first_of xs ≡ some s)
            × All (FinalWith s) xs
            × ((a : Address)
                → includes a (addresses_of ch.participants) ≡ true
                → any (λ t. has_signed a t && is_final_state t) xs ≡ true)
      conclude [] k b = absurd (cc)
      conclude (s ∷ ss) k (inl e) = absurd (cc)
      conclude (s ∷ ss) k (inr b) = (
        s,
        refl,
        ((ground arith, refl), older-FinalWith s ss (ground arith) b.descends.0),
        λ a known. any-all (has_signed a) is_final_state (s ∷ ss) k (b.everyone a known),
      )
