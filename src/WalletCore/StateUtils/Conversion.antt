-- ===== src/WalletCore/StateUtils/Conversion.antt =====
-- packages/wallet-core/src/state-utils.ts: what the conversions to packages/nitro-protocol and back keep.
use statechannels.Common.{ℕ, ◌≡◌, ◌⊎◌, inl, inr, ap, ap₂, refl, List, [], ◌∷◌, map, All}
use statechannels.Common.Results.{ok, err, type_error}
use statechannels.WalletCore.Types.{
  Destination, Participant, AllocationItem, SimpleAllocation, Outcome, simple_allocation,
  mixed_allocation, simple_guarantee, State,
}
use statechannels.WalletCore.WireFormat.{Ethers, each, make_destination}
use statechannels.WalletCore.WireFormat.RoundTrip.{each-fixed}
use statechannels.WalletCore.StateUtils.{
  convert_to_nitro_outcome, from_nitro_item, from_nitro_outcome, from_nitro_participant,
  to_nitro_state, from_nitro_state, restored,
}

module _ (ethers : Ethers) where
  -- An address, a destination, an allocation, an outcome in the form that ethers gives them
  abbrev pub IsAddress : ℕ → Type 0
  IsAddress a = ethers.get_address a ≡ ok a

  abbrev pub AreInForm : SimpleAllocation → Type 0
  AreInForm a =
      IsAddress a.asset
      × All (λ (i : AllocationItem). make_destination ethers i.destination ≡ ok i.destination)
          a.allocation_items

  abbrev pub IsInForm : Outcome → Type 0
  IsInForm (simple_allocation a) = AreInForm a
  IsInForm (mixed_allocation as_) = All AreInForm as_
  IsInForm (simple_guarantee g) = IsAddress g.asset

  abbrev pub HasForm : State → Type 0
  HasForm s =
      IsAddress s.app_definition
      × IsInForm s.outcome
      × All (λ (p : Participant). IsAddress p.signing_address) s.participants

  items_survive :
      (is : List AllocationItem)
      → All (λ (i : AllocationItem). make_destination ethers i.destination ≡ ok i.destination) is
      → each (from_nitro_item ethers) is ≡ ok is
  items_survive is h = each-fixed (from_nitro_item ethers) is (fixed is h)
    where
      fixed :
          (is : List AllocationItem)
          → All
              (λ (i : AllocationItem). make_destination ethers i.destination ≡ ok i.destination)
              is
          → All (λ i. from_nitro_item ethers i ≡ ok i) is
      fixed [] h = tt
      fixed (i ∷ is) (h, hs) = (rw h refl, fixed is hs)

  outcome_survives :
      (o : Outcome)
      → IsInForm o
      → ((o ≡ mixed_allocation [])
          × (from_nitro_outcome ethers (convert_to_nitro_outcome o) ≡ err type_error))
        ⊎ ((p : Outcome) × (from_nitro_outcome ethers (convert_to_nitro_outcome o) ≡ ok p)
            × (convert_to_nitro_outcome p ≡ convert_to_nitro_outcome o))
  unfolding from_nitro_outcome convert_to_nitro_outcome
  outcome_survives (simple_allocation a) (asset, items) =
      inr (simple_allocation a, rw (asset, items_survive a.allocation_items items) refl, refl)
  outcome_survives (mixed_allocation []) h = inl (refl, refl)
  outcome_survives (mixed_allocation (a ∷ as_)) ((asset, items), hs) =
      inr (simple_allocation a, rw (asset, items_survive a.allocation_items items) refl, refl)
  outcome_survives (simple_guarantee g) h = inr (simple_guarantee g, rw h refl, refl)

  module _ (pad_start : ℕ → Destination) where
    participants_survive :
        (ps : List Participant)
        → All (λ (p : Participant). IsAddress p.signing_address) ps
        → (qs : List Participant) × (each
              (from_nitro_participant ethers pad_start)
              (map (λ (p : Participant). p.signing_address) ps)
            ≡ ok qs)
          × (map (λ (p : Participant). p.signing_address) qs
              ≡ map (λ (p : Participant). p.signing_address) ps)
    unfolding each
    participants_survive [] h = ([], refl, refl)
    participants_survive (p ∷ ps) (h, hs) =
        let (qs, back, same) = participants_survive ps hs in
        (
          record {
            participant_id = p.signing_address;
            signing_address = p.signing_address;
            destination = pad_start p.signing_address;
          }
              ∷ qs,
          rw (h, back) refl,
          ap (λ as_. p.signing_address ∷ as_) same,
        )

    -- A state comes back from the form of packages/nitro-protocol as a state with the same form; or
    -- the way back fails, and then its outcome is a mixed allocation of nothing. It is taken that the
    -- addresses of the state are in the form that ethers gives them.
    pub to_nitro_state-from_nitro_state :
        (s : State)
        → HasForm s
        → ((s.outcome ≡ mixed_allocation [])
            × (from_nitro_state ethers pad_start (to_nitro_state s) ≡ err type_error))
          ⊎ ((t : State) × (from_nitro_state ethers pad_start (to_nitro_state s) ≡ ok t)
              × (to_nitro_state t ≡ to_nitro_state s))
    unfolding from_nitro_state to_nitro_state
    to_nitro_state-from_nitro_state s (app, outcome, people) =
        let (qs, back_ps, same_ps) = participants_survive s.participants people in
        elim (outcome_survives s.outcome outcome) [
          | inl (empty, fails) ↦ inl (empty, rw (app, fails) refl)
          | inr (p, back, same) ↦ inr (
            restored ethers pad_start (to_nitro_state s) s.app_definition p qs,
            rw (app, back, back_ps) refl,
            ap₂ (λ ps o. record (to_nitro_state s) { participants = ps; outcome = o }) same_ps same,
          )
        ]
